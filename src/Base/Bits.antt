-- ===== src/Base/Bits.antt =====
-- Masks and shifts as arithmetic: what `&` and `|` do to the fields of a number, at every width.
use Prim.Native.Nat.{
  ℕ, zero, suc, ◌+◌, ◌-◌, ◌*◌, ◌/◌, ◌%◌, ◌^◌, ◌≤◌, ◌<◌, min, max, digits, bitwise, bit_and, bit_or,
  bit_and-bitwise, bit_or-bitwise,
}
use mathlib.Core.Path.{◌≡◌, refl, ap, sym, ◌∙◌}
use native.Mathlib.Omega.{arith}
use native.Mathlib.Nat.{two-pow-succ, one-le-pow}

-- The count of digits does not matter once it covers the first number.
module _ (rest : ℕ → ℕ) (op : ℕ → ℕ → ℕ) where
  digits_zero : (n b : ℕ) → digits rest op n 0 b ≡ rest b
  digits_zero zero b = refl
  digits_zero (suc n) b = refl

  digits_enough : (n k a b : ℕ) → a ≤ n → a ≤ k → digits rest op n a b ≡ digits rest op k a b
  digits_enough n k zero b h g = digits_zero n b ∙ sym (digits_zero k b)
  digits_enough zero k (suc a) b h g = absurd (omega arith)
  digits_enough (suc n) zero (suc a) b h g = absurd (omega arith)
  digits_enough (suc n) (suc k) (suc a) b h g =
      ap (λ (t : ℕ). t * 2 + op (suc a % 2) (b % 2))
        (digits_enough n k (suc a / 2) (b / 2) (omega arith) (omega arith))

  bitwise_digit :
      (a b : ℕ)
      → bitwise rest op (suc a) b ≡ bitwise rest op (suc a / 2) (b / 2) * 2 + op (suc a % 2) (b % 2)
  bitwise_digit a b =
      ap (λ (t : ℕ). t * 2 + op (suc a % 2) (b % 2))
        (digits_enough a (suc a / 2) (suc a / 2) (b / 2) (omega arith) (omega arith))

pub bit_and_digit : (a b : ℕ) → bit_and a b ≡ bit_and (a / 2) (b / 2) * 2 + min (a % 2) (b % 2)
bit_and_digit zero b = simp bit_and-bitwise (omega arith)
bit_and_digit (suc a) b = simp bit_and-bitwise (bitwise_digit (λ _. 0) min a b)

pub bit_or_digit : (a b : ℕ) → bit_or a b ≡ bit_or (a / 2) (b / 2) * 2 + max (a % 2) (b % 2)
bit_or_digit zero b = simp bit_or-bitwise (omega arith)
bit_or_digit (suc a) b = simp bit_or-bitwise (bitwise_digit (λ b. b) max a b)

zero_below : (n a : ℕ) → a ≤ n → bit_and a 0 ≡ 0
zero_below n zero h = refl
zero_below zero (suc a) h = absurd (omega arith)
zero_below (suc n) (suc a) h =
    omega (arith, bit_and_digit (suc a) 0, zero_below n (suc a / 2) (omega arith))

pub bit_and-zero : (a : ℕ) → bit_and a 0 ≡ 0
bit_and-zero a = zero_below a a (omega arith)

id_below : (n a : ℕ) → a ≤ n → bit_or a 0 ≡ a
id_below n zero h = refl
id_below zero (suc a) h = absurd (omega arith)
id_below (suc n) (suc a) h =
    omega (arith, bit_or_digit (suc a) 0, id_below n (suc a / 2) (omega arith))

pub bit_or-zero : (a : ℕ) → bit_or a 0 ≡ a
bit_or-zero a = id_below a a (omega arith)

pub zero-bit_or : (a : ℕ) → bit_or 0 a ≡ a
zero-bit_or a = bit_or-bitwise 0 a

scale : (q k : ℕ) → q * 2 ^ suc k ≡ q * 2 ^ k * 2
scale q k = omega (arith, ap (λ (t : ℕ). q * t) (two-pow-succ k))

-- A number as its high and its low field.
pub fields : (k a : ℕ) → a ≡ a / 2 ^ k * 2 ^ k + a % 2 ^ k
fields k a = grind (arith, one-le-pow k 2)

field-lt : (k a : ℕ) → a % 2 ^ k < 2 ^ k
field-lt k a = grind (arith, one-le-pow k 2)

-- The low mask keeps the low field.
pub bit_and_low : (k q r : ℕ) → r < 2 ^ k → bit_and (q * 2 ^ k + r) (2 ^ k - 1) ≡ r
bit_and_low zero q r h = omega (arith, bit_and-zero (q * 1 + r))
bit_and_low (suc k) q r h = ground (
  arith,
  scale q k,
  two-pow-succ k,
  one-le-pow k 2,
  bit_and_digit (q * 2 ^ suc k + r) (2 ^ suc k - 1),
  bit_and_low k q (r / 2) (omega (arith, two-pow-succ k)),
)

pub bit_and_mask : (k a : ℕ) → bit_and a (2 ^ k - 1) ≡ a % 2 ^ k
bit_and_mask k a =
    ap (λ t. bit_and t (2 ^ k - 1)) (fields k a)
    ∙ bit_and_low k (a / 2 ^ k) (a % 2 ^ k) (field-lt k a)

-- A mask that is shifted up reads the shifted number.
pub bit_and_high :
    (k q r m : ℕ) → r < 2 ^ k → bit_and (q * 2 ^ k + r) (m * 2 ^ k) ≡ bit_and q m * 2 ^ k
bit_and_high zero q r m h = ground (arith)
bit_and_high (suc k) q r m h = ground (
  arith,
  scale q k,
  scale m k,
  scale (bit_and q m) k,
  two-pow-succ k,
  bit_and_digit (q * 2 ^ suc k + r) (m * 2 ^ suc k),
  bit_and_high k q (r / 2) m (omega (arith, two-pow-succ k)),
)

-- `|` of two numbers, field by field.
pub bit_or_fields :
    (k q r s t : ℕ)
    → r < 2 ^ k
    → t < 2 ^ k
    → bit_or (q * 2 ^ k + r) (s * 2 ^ k + t) ≡ bit_or q s * 2 ^ k + bit_or r t
bit_or_fields zero q zero s zero h g = ground (arith, bit_or-zero 0)
bit_or_fields zero q zero s (suc t) h g = absurd (omega arith)
bit_or_fields zero q (suc r) s t h g = absurd (omega arith)
bit_or_fields (suc k) q r s t h g = ground (
  arith,
  scale q k,
  scale s k,
  scale (bit_or q s) k,
  two-pow-succ k,
  bit_or_digit (q * 2 ^ suc k + r) (s * 2 ^ suc k + t),
  bit_or_digit r t,
  bit_or_fields k q (r / 2) s (t / 2) (omega (arith, two-pow-succ k))
      (omega (arith, two-pow-succ k)),
)
