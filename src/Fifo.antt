-- ===== src/Fifo.antt =====
-- What a client of the ring queue may rely on: a first-in first-out queue of at most `bound` items.
use tinytcp.Base.{
  ℕ, ◌==◌, Bool, true, false, Option, none, some, List, [], ◌∷◌, ◌++◌, length, if◌then◌else◌,
}

module _ {ℓ} {A : Type ℓ} where
  unfoldable pub push : ℕ → List A → A → Bool × List A
  push bound q x = if length q == bound then (false, q) else (true, q ++ x ∷ [])

  unfoldable pub pop : List A → Option A × List A
  pop [] = (none, [])
  pop (x ∷ q) = (some x, q)

-- A call of a client, and what it returns.
pub data Op {ℓ} (A : Type ℓ) : Type ℓ where
  put : A → Op A
  get : Op A

pub data Reply {ℓ} (A : Type ℓ) : Type ℓ where
  stored : Bool → Reply A
  got : Option A → Reply A

module _ {ℓ} {A : Type ℓ} where
  unfoldable pub run : ℕ → List A → List (Op A) → List (Reply A)
  run bound q [] = []
  run bound q (put x ∷ ops) = let (done, q') = push bound q x in stored done ∷ run bound q' ops
  run bound q (get ∷ ops) = let (out, q') = pop q in got out ∷ run bound q' ops
