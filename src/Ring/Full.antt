-- ===== src/Ring/Full.antt =====
-- `LockFreeRingQueue::is_full` against `push`: it compares a masked index with the free-running
-- read index.
use native.Mathlib.Nat.{mod-eq_of_lt, mod-lt}
use tinytcp.Base.{◌+◌, ◌≤◌, ◌<◌, ◌≡◌, false, ◌==◌, arith, add32}
use tinytcp.Ring.{Ring, is_full, push, index_of_queue}
use tinytcp.Ring.Inv.{IsValid, index_of_queue_lem, push_test, size_pos}

module _ {A : Type 0} (r : Ring A) (v : IsValid r) where
  masked : index_of_queue r (add32 r.write_index 1) < r.size
  masked =
      rw (index_of_queue_lem v (add32 r.write_index 1))
        (mod-lt (add32 r.write_index 1) (omega (arith, size_pos v)))

  -- Before the read index has first reached the size, `is_full` says exactly when one cell is left.
  pub is_full-first_turn : r.read_index < r.size → is_full r ≡ (r.length + 1 == r.size)
  unfolding is_full
  is_full-first_turn h =
      ground (arith, push_test v, index_of_queue_lem v r.read_index, mod-eq_of_lt h)

  -- From then on `is_full` is false of every valid ring, also of one that `push` refuses.
  pub is_full-later :
      (x : A)
      → r.size ≤ r.read_index
      → r.length + 1 ≡ r.size
      → (is_full r ≡ false) × ((push r x).0 ≡ false)
  unfolding is_full push
  is_full-later x h e = (ground (arith, masked), ground (arith, push_test v))
