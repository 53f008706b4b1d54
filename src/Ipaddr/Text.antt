-- ===== src/Ipaddr/Text.antt =====
-- Addresses that are printed are read back, and what the parser does with every string.
use tinytcp.Base.{
  ℕ, suc, ◌+◌, ◌-◌, ◌*◌, ◌/◌, ◌%◌, ◌≤◌, ◌<◌, ◌≡◌, refl, ap, sym, ◌∙◌, Bool, true, ◌||◌, ◌&&◌, some,
  List, [], ◌∷◌, ◌++◌, ◌==◌, if◌then◌else◌, set, length, length-set, dec_lt, arith, Bool-cases, inl,
  inr,
}
use mathlib.Core.List.{append-nil}
use tinytcp.NetErr.{net_err_ok, net_err_param, ok, fault}
use tinytcp.Ipaddr.{
  Ipaddr, parse, store_byte, is_digit, from_chars, ipaddr_from_str, decimal, to_string,
}

parse-digit :
    (d : ℕ) (rest : List ℕ) (p sub : ℕ) (a : List ℕ)
    → d < 10
    → parse ((48 + d) ∷ rest) p sub a ≡ parse rest p ((sub * 10 + d) % 256) a
unfolding parse
parse-digit d rest p sub a h = ground (
  arith,
  ap (λ (t : ℕ). parse rest p ((sub * 10 + t) % 256) a) {x = 48 + d - 48} {y = d} (omega arith),
)

-- A printed byte is read as that byte.
parse-decimal :
    (n : ℕ) (rest : List ℕ) (p : ℕ) (a : List ℕ)
    → n < 256
    → parse (decimal n ++ rest) p 0 a ≡ parse rest p n a
unfolding parse decimal
parse-decimal n rest p a h = elim (dec_lt n 10) [
  | yes e ↦ ground (arith, parse-digit n rest p 0 a e)
  | no e ↦ elim (dec_lt n 100) [
    | yes f ↦
        ap (λ t. parse (t ++ rest) p 0 a) {x = decimal n} {y = (48 + n / 10) ∷ (48 + n % 10) ∷ []}
          (ground arith)
        ∙ parse-digit (n / 10) ((48 + n % 10) ∷ rest) p 0 a (omega arith)
        ∙ parse-digit (n % 10) rest p ((0 * 10 + n / 10) % 256) a (omega arith)
        ∙ ap (λ (t : ℕ). parse rest p t a) (omega arith)
    | no f ↦
        ap (λ t. parse (t ++ rest) p 0 a) {x = decimal n}
          {y = (48 + n / 100) ∷ (48 + n / 10 % 10) ∷ (48 + n % 10) ∷ []} (ground arith)
        ∙ parse-digit (n / 100) ((48 + n / 10 % 10) ∷ (48 + n % 10) ∷ rest) p 0 a (omega arith)
        ∙ parse-digit (n / 10 % 10) ((48 + n % 10) ∷ rest) p ((0 * 10 + n / 100) % 256) a
            (omega arith)
        ∙ parse-digit (n % 10) rest p (((0 * 10 + n / 100) % 256 * 10 + n / 10 % 10) % 256) a
            (omega arith)
        ∙ ap (λ (t : ℕ). parse rest p t a) (omega arith)
  ]
]

parse-last :
    (n p : ℕ) (a : List ℕ) → n < 256 → p < length a → parse (decimal n) p 0 a ≡ ok (true, set a p n)
unfolding parse store_byte
parse-last n p a h g =
    ap (λ t. parse t p 0 a) (sym (append-nil (decimal n))) ∙ parse-decimal n [] p a h ∙ ground arith

abbrev pub dots : List ℕ → ℕ
dots [] = 0
dots (c ∷ str) = if c == 46 then suc (dots str) else dots str

abbrev pub only_digits : List ℕ → Bool
only_digits [] = true
only_digits (c ∷ str) = (is_digit c || (c == 46)) && only_digits str

parse-total :
    (str : List ℕ) (p sub : ℕ) (a : List ℕ)
    → p + dots str < length a
    → (a' : List ℕ) × (parse str p sub a ≡ ok (only_digits str, a')) × (length a' ≡ length a)
unfolding parse store_byte
parse-total [] p sub a h = (set a p sub, ground arith, length-set a p sub)
parse-total (c ∷ str) p sub a h = elim (Bool-cases (is_digit c)) [
  | inl e ↦
      let (a', runs, same) = parse-total str p ((sub * 10 + (c - 48)) % 256) a (ground arith) in
      (a', ground (arith, runs), same)
  | inr e ↦ elim (Bool-cases (c == 46)) [
    | inl f ↦
        let (a', runs, same) =
          parse-total str (p + 1) 0 (set a p sub) (ground (arith, length-set a p sub)) in
        (a', ground (arith, runs), same ∙ length-set a p sub)
    | inr f ↦ (a, ground arith, refl)
  ]
]

parse-overflow :
    (str : List ℕ) (p sub : ℕ) (a : List ℕ)
    → only_digits str ≡ true
    → length a ≤ p + dots str
    → parse str p sub a ≡ fault
unfolding parse store_byte
parse-overflow [] p sub a d h = ground arith
parse-overflow (c ∷ str) p sub a d h = elim (Bool-cases (is_digit c)) [
  | inl e ↦ ground (arith, parse-overflow str p ((sub * 10 + (c - 48)) % 256) a)
  | inr e ↦ ground (arith, length-set a p sub, parse-overflow str (p + 1) 0 (set a p sub))
]

module _ (a b c d : ℕ) (ha : a < 256) (hb : b < 256) (hc : c < 256) (hd : d < 256) where
  printed : List ℕ
  printed = to_string (record { a_addr = a ∷ b ∷ c ∷ d ∷ [] })

  parse-to_string : parse printed 0 0 (0 ∷ 0 ∷ 0 ∷ 0 ∷ []) ≡ ok (true, a ∷ b ∷ c ∷ d ∷ [])
  unfolding printed to_string parse store_byte
  parse-to_string =
      parse-decimal a (46 ∷ (decimal b ++ 46 ∷ (decimal c ++ 46 ∷ decimal d))) 0
        (0 ∷ 0 ∷ 0 ∷ 0 ∷ []) ha
      ∙ parse-decimal b (46 ∷ (decimal c ++ 46 ∷ decimal d)) 1 (a ∷ 0 ∷ 0 ∷ 0 ∷ []) hb
      ∙ parse-decimal c (46 ∷ decimal d) 2 (a ∷ b ∷ 0 ∷ 0 ∷ []) hc
      ∙ parse-last d 3 (a ∷ b ∷ c ∷ 0 ∷ []) hd (omega arith)

  -- The text that to_string gives for four bytes is read back by ipaddr_from_str, with NET_ERR_OK,
  -- and by the constructor, as those bytes.
  pub read-to_string :
      (dest : Ipaddr) (memory : List ℕ)
      → (ipaddr_from_str dest (some (to_string (record { a_addr = a ∷ b ∷ c ∷ d ∷ [] })))
          ≡ ok (net_err_ok, record { a_addr = a ∷ b ∷ c ∷ d ∷ [] }))
        × (from_chars memory (some (to_string (record { a_addr = a ∷ b ∷ c ∷ d ∷ [] })))
            ≡ ok (record { a_addr = a ∷ b ∷ c ∷ d ∷ [] }))
  unfolding ipaddr_from_str from_chars printed
  read-to_string dest memory = (rw parse-to_string refl, rw parse-to_string refl)

-- With at most three dots ipaddr_from_str is defined and leaves four bytes: NET_ERR_OK if the
-- string has digits and dots only, else NET_ERR_PARAM.
pub ipaddr_from_str_lem :
    (dest : Ipaddr) (str : List ℕ)
    → dots str < 4
    → (ip : Ipaddr) × (ipaddr_from_str dest (some str)
        ≡ ok (if only_digits str then net_err_ok else net_err_param, ip))
      × (length ip.a_addr ≡ 4)
unfolding ipaddr_from_str
ipaddr_from_str_lem dest str h =
    let (a, runs, same) = parse-total str 0 0 (0 ∷ 0 ∷ 0 ∷ 0 ∷ []) (omega arith) in
    (record { a_addr = a }, rw runs refl, same)

-- A string of digits and dots with four dots or more makes ipaddr_from_str and the constructor
-- write past the four bytes.
pub ipaddr_from_str-overflow :
    (dest : Ipaddr) (memory str : List ℕ)
    → only_digits str ≡ true
    → 4 ≤ dots str
    → (ipaddr_from_str dest (some str) ≡ fault) × (from_chars memory (some str) ≡ fault)
unfolding ipaddr_from_str from_chars
ipaddr_from_str-overflow dest memory str d h = (
  rw (parse-overflow str 0 0 (0 ∷ 0 ∷ 0 ∷ 0 ∷ []) d (omega arith)) refl,
  rw (parse-overflow str 0 0 (0 ∷ 0 ∷ 0 ∷ 0 ∷ []) d (omega arith)) refl,
)
