-- ===== src/Ipaddr.antt =====
-- src/net/ipaddr.h, src/net/ipaddr.cc and `ipaddr_from_str` of src/net/netif.cc: IPv4 addresses.
-- A C string is the list of its character codes before the terminating 0; `a_addr` is the list of
-- its four bytes, and writing past them is a fault.
pub mod Text
mod Tests
use tinytcp.Base.{
  ℕ, zero, suc, ◌+◌, ◌-◌, ◌*◌, ◌/◌, ◌%◌, ◌^◌, Bool, true, false, ◌&&◌, Option, none, some, List, [],
  ◌∷◌, ◌++◌, ltb, leb, ◌==◌, if◌then◌else◌, set, length, get_or,
}
use tinytcp.NetErr.{NetErr, net_err_param, net_err_ok, Run, ok, fault, ◌>>=◌}

-- `ipaddr_t`, whose `type` has one value.
pub record Ipaddr : Type 0 where
  pub a_addr : List ℕ

-- `*p = sub_addr`
unfoldable pub store_byte : List ℕ → (p sub_addr : ℕ) → Run (List ℕ)
store_byte a p sub_addr = if ltb p (length a) then ok (set a p sub_addr) else fault

abbrev pub is_digit : ℕ → Bool
is_digit c = leb 48 c && leb c 57

-- The loop over the string, which the constructor and `ipaddr_from_str` share: whether it read the
-- whole string, and the bytes. `p` is the index that the pointer has reached.
unfoldable pub parse : List ℕ → (p sub_addr : ℕ) → List ℕ → Run (Bool × List ℕ)
unfolding store_byte
parse [] p sub_addr a = do a' ← store_byte a p sub_addr; ok (true, a')
parse (c ∷ str) p sub_addr a =
    let digit = parse str p ((sub_addr * 10 + (c - 48)) % 2 ^ 8) a in
    let next = λ (a' : List ℕ). parse str (p + 1) 0 a' in
    if is_digit c
    then digit
    else if c == 46
    then (do a' ← store_byte a p sub_addr; next a')
    else ok (false, a)

-- `ipaddr_t(const char*)`: for the null pointer the bytes stay what they were in memory.
unfoldable pub from_chars : (memory : List ℕ) → Option (List ℕ) → Run Ipaddr
unfolding parse
from_chars memory none = ok (record { a_addr = memory })
from_chars memory (some str) = do
  (done, a) ← parse str 0 0 (0 ∷ 0 ∷ 0 ∷ 0 ∷ [])
  ok (record { a_addr = a })

-- `ipaddr_from_str`
unfoldable pub ipaddr_from_str : Ipaddr → Option (List ℕ) → Run (NetErr × Ipaddr)
unfolding parse
ipaddr_from_str dest none = ok (net_err_param, dest)
ipaddr_from_str dest (some str) = do
  (done, a) ← parse str 0 0 (0 ∷ 0 ∷ 0 ∷ 0 ∷ [])
  ok (if done then net_err_ok else net_err_param, record { a_addr = a })

-- `std::to_string` of a byte
pub decimal : ℕ → List ℕ
decimal n =
    if ltb n 10
    then (48 + n) ∷ []
    else if ltb n 100
    then (48 + n / 10) ∷ (48 + n % 10) ∷ []
    else (48 + n / 100) ∷ (48 + n / 10 % 10) ∷ (48 + n % 10) ∷ []

-- `to_string`, and what `operator<<` writes.
pub to_string : Ipaddr → List ℕ
unfolding decimal
to_string ip =
    decimal (get_or ip.a_addr 0 0)
    ++ 46
      ∷ (decimal (get_or ip.a_addr 1 0)
          ++ 46 ∷ (decimal (get_or ip.a_addr 2 0) ++ 46 ∷ decimal (get_or ip.a_addr 3 0)))

-- `q_addr` on a little-endian host
pub q_addr : Ipaddr → ℕ
q_addr ip =
    get_or ip.a_addr 0 0
    + get_or ip.a_addr 1 0 * 2 ^ 8
    + get_or ip.a_addr 2 0 * 2 ^ 16
    + get_or ip.a_addr 3 0 * 2 ^ 24

-- `operator==`
pub same_addr : (ip other : Ipaddr) → Bool
unfolding q_addr
same_addr ip other = q_addr ip == q_addr other
