-- ===== src/Base/Bytes.antt =====
-- Byte arrays: what `memcpy` reads and writes.
pub mod Laws
use Prim.Native.Nat.{ℕ, zero, suc, ◌+◌}
use mathlib.Core.List.{List, [], ◌∷◌, ◌++◌}
use tinytcp.Base.Lists.{take, drop}

-- `n` bytes from position `i` on.
abbrev pub slice {ℓ} : {A : Type ℓ} → List A → ℕ → ℕ → List A
slice xs i n = take n (drop i xs)

-- `src` written over `xs` from position `i` on.
abbrev pub overwrite {ℓ} : {A : Type ℓ} → List A → ℕ → List A → List A
overwrite [] i src = []
overwrite (x ∷ xs) (suc i) src = x ∷ overwrite xs i src
overwrite (x ∷ xs) zero [] = x ∷ xs
overwrite (x ∷ xs) zero (y ∷ src) = y ∷ overwrite xs zero src
