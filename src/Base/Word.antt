-- ===== src/Base/Word.antt =====
-- `uint32_t` and `uint64_t` arithmetic, and remainders by powers of two.
use Prim.Native.Nat.{ℕ, zero, suc, ◌+◌, ◌-◌, ◌%◌, ◌^◌, ◌≤◌, ◌<◌, ◌∣◌}
use mathlib.Core.Path.{◌≡◌, ◌∙◌, subst}
use native.Mathlib.Decide.{dec_le, dec_lt}
use native.Mathlib.Omega.{arith}
use native.Mathlib.Nat.{pow-suc, dvd_refl, dvd-mul_right_of_dvd, mod-mod_of_dvd}
use native.Mathlib.Nat.{mod-add-mod, mod-eq_of_lt, mod-eq-sub-mod, mod-lt}
use mathlib.Core.Logic.{◌⊎◌}

abbrev pub add32 : ℕ → ℕ → ℕ
add32 a b = (a + b) % 2 ^ 32

abbrev pub sub32 : ℕ → ℕ → ℕ
sub32 a b = (a + 2 ^ 32 - b) % 2 ^ 32

abbrev pub add64 : ℕ → ℕ → ℕ
add64 a b = (a + b) % 2 ^ 64

abbrev pub sub64 : ℕ → ℕ → ℕ
sub64 a b = (a + 2 ^ 64 - b) % 2 ^ 64

pub two_pow-dvd : (k n : ℕ) → k ≤ n → 2 ^ k ∣ 2 ^ n
two_pow-dvd zero zero h = dvd_refl 1
two_pow-dvd (suc k) zero h = absurd (omega arith)
two_pow-dvd k (suc n) h = elim (dec_le k n) [
  | yes p ↦ rw (pow-suc 2 n) (dvd-mul_right_of_dvd (2 ^ k) (two_pow-dvd k n p) 2)
  | no p ↦ subst (λ j. 2 ^ k ∣ 2 ^ j) (omega arith) (dvd_refl (2 ^ k))
]

-- Wrapping at 32 bits does not change the low bits.
pub mod-mod_low : (k a : ℕ) → k ≤ 32 → a % 2 ^ 32 % 2 ^ k ≡ a % 2 ^ k
mod-mod_low k a h = mod-mod_of_dvd (2 ^ k) a (two_pow-dvd k 32 h)

-- One step round a ring of `m` cells: only no step and a whole turn come back.
turn : (m r n : ℕ) → r < m → n ≤ m → (r + n) % m ≡ r → (n ≡ 0) ⊎ (n ≡ m)
turn m r n hr hn e = elim (dec_lt (r + n) m) [
  | yes p ↦ omega (arith, mod-eq_of_lt p)
  | no p ↦ omega (
    arith,
    mod-eq-sub-mod {n = r + n} {m = m} (omega arith),
    mod-eq_of_lt {n = r + n - m} {m = m} (omega arith),
  )
]

pub mod_turn : (m a n : ℕ) → 0 < m → n ≤ m → (a + n) % m ≡ a % m → (n ≡ 0) ⊎ (n ≡ m)
mod_turn m a n hm hn e = turn m (a % m) n (mod-lt a hm) hn (mod-add-mod a m n ∙ e)
