-- ===== src/Ring/Refine.antt =====
-- `LockFreeRingQueue` refines a first-in first-out queue of `size - 1` items.
use native.Mathlib.Nat.{add-zero, mod-lt}
use tinytcp.Base.{
  ℕ, zero, suc, ◌+◌, ◌-◌, ◌%◌, ◌^◌, ◌≤◌, ◌<◌, ◌≡◌, ◌≢◌, refl, sym, ap, ap₂, ◌∙◌, List, [], ◌∷◌,
  ◌++◌, arith, length, get_or, set, get_or-set_self, get_or-set_ne, mod-mod_low, mod_turn, add32,
  inl, inr, Bool-cases, ◌==◌,
}
use tinytcp.Fifo
use tinytcp.Fifo.{Op, put, get, Reply, stored, got}
use tinytcp.Ring.{Ring, push, pop, index_of_queue}
use tinytcp.Ring.Inv.{
  IsValid, index_of_queue_lem, pop_test, push_test, write_cell, small, push-IsValid, pop-IsValid,
}

module _ {A : Type 0} (junk : A) where
  -- The `n` items from position `i` on, each in the cell that the position has in the array.
  abbrev pub window : List A → ℕ → ℕ → ℕ → List A
  window q s i zero = []
  window q s i (suc n) = get_or q (i % s) junk ∷ window q s (i + 1) n

  pub length-window : (q : List A) (s i n : ℕ) → length (window q s i n) ≡ n
  length-window q s i zero = refl
  length-window q s i (suc n) = ap suc (length-window q s (i + 1) n)

  -- Positions are read modulo the range of the indices.
  window_wrap :
      (q : List A) (k i n : ℕ) → k ≤ 32 → window q (2 ^ k) (i % 2 ^ 32) n ≡ window q (2 ^ k) i n
  window_wrap q k i zero h = refl
  window_wrap q k i (suc n) h = ap₂ ◌∷◌ (ap (λ (t : ℕ). get_or q t junk) (mod-mod_low k i h)) (
      sym (window_wrap q k (i % 2 ^ 32 + 1) n h)
      ∙ ap (λ (t : ℕ). window q (2 ^ k) t n) same
      ∙ window_wrap q k (i + 1) n h)
    where
      same : (i % 2 ^ 32 + 1) % 2 ^ 32 ≡ (i + 1) % 2 ^ 32
      same = omega arith

  cell_ne : (s i n : ℕ) → suc n < s → (i + suc n) % s ≢ i % s
  cell_ne s i n h e = omega (arith, mod_turn s i (suc n) (omega arith) (omega arith) e)

  window-set :
      (q : List A) (s i n c : ℕ) (x : A)
      → length q ≡ s
      → n < s
      → c ≡ (i + n) % s
      → window (set q c x) s i (suc n) ≡ window q s i n ++ x ∷ []
  window-set q s i zero c x hq hn e =
      ap (λ (t : A). t ∷ [])
        (ap (λ (t : ℕ). get_or (set q c x) t junk) (sym here)
          ∙ get_or-set_self q c x junk (omega (arith, mod-lt (i + zero) {m = s} hn)))
    where
      here : c ≡ i % s
      here = e ∙ ap (λ (t : ℕ). t % s) (add-zero i)
  window-set q s i (suc n) c x hq hn e =
      ap₂ ◌∷◌ (get_or-set_ne q c (i % s) x junk (λ d. cell_ne s i n hn (sym e ∙ d)))
        (window-set q s (i + 1) n c x hq (omega arith) (e ∙ ap (λ (t : ℕ). t % s) next))
    where
      next : i + suc n ≡ i + 1 + n
      next = omega arith

  -- A write to the cell behind the window does not show in it.
  pub window-set_out :
      (q : List A) (s i n c : ℕ) (x : A)
      → n < s
      → c ≡ (i + n) % s
      → window (set q c x) s i n ≡ window q s i n
  window-set_out q s i zero c x hn e = refl
  window-set_out q s i (suc n) c x hn e =
      ap₂ ◌∷◌ (get_or-set_ne q c (i % s) x junk (λ d. cell_ne s i n hn (sym e ∙ d))) (
        window-set_out q s (i + 1) n c x (omega arith)
          (e ∙ ap (λ (t : ℕ). t % s) {y = i + 1 + n} (omega arith)))

  pub window-snoc :
      (q : List A) (s i n : ℕ)
      → window q s i (suc n) ≡ window q s i n ++ get_or q ((i + n) % s) junk ∷ []
  window-snoc q s i zero =
      ap (λ (t : ℕ). get_or q (t % s) junk ∷ []) {x = i} {y = i + zero} (omega arith)
  window-snoc q s i (suc n) = ap (◌∷◌ (get_or q (i % s) junk)) (
      window-snoc q s (i + 1) n
      ∙ ap (λ (t : ℕ). window q s (i + 1) n ++ get_or q (t % s) junk ∷ []) {x = i + 1 + n}
          {y = i + suc n} (omega arith))

  abbrev pub contents : Ring A → List A
  contents r = window r.queue r.size r.read_index r.length

  pub length-contents : (r : Ring A) → length (contents r) ≡ r.length
  length-contents r = length-window r.queue r.size r.read_index r.length

  -- `pop` tests for zero where `window` matches.
  pub window_pos :
      (q : List A) (s i n : ℕ)
      → n ≢ 0
      → window q s i n ≡ get_or q (i % s) junk ∷ window q s (i + 1) (n - 1)
  window_pos q s i zero h = absurd (h refl)
  window_pos q s i (suc n) h =
      ap (λ (t : ℕ). get_or q (i % s) junk ∷ window q s (i + 1) t) (omega arith)

  pub next_window :
      (r : Ring A)
      → IsValid r
      → window r.queue r.size (add32 r.read_index 1) (r.length - 1)
        ≡ window r.queue r.size (r.read_index + 1) (r.length - 1)
  next_window r v =
      rw v.size_eq
        (window_wrap r.queue v.log (r.read_index + 1) (r.length - 1) (omega (arith, v.log_le)))

  -- `push` returns what the queue of the ring's contents returns, and leaves its contents.
  pub push_refines :
      (r : Ring A) (x : A)
      → IsValid r
      → ((push r x).0, contents (push r x).1) ≡ Fifo.push (r.size - 1) (contents r) x
  unfolding push Fifo.push
  push_refines r x v = elim (Bool-cases (r.length + 1 == r.size)) [
    | inl full ↦ ground (arith, push_test v, length-contents r)
    | inr open_cell ↦ ground (
      arith,
      push_test v,
      length-contents r,
      small v,
      write_cell v 0,
      window-set r.queue r.size r.read_index r.length (index_of_queue r r.write_index) x v.storage
          v.room,
    )
  ]

  pub pop_refines :
      (r : Ring A) → IsValid r → ((pop junk r).0, contents (pop junk r).1) ≡ Fifo.pop (contents r)
  unfolding pop Fifo.pop
  pop_refines r v = ground (
    arith,
    pop_test v,
    small v,
    index_of_queue_lem v r.read_index,
    window_pos r.queue r.size r.read_index r.length,
    next_window r v,
  )

  pub size-push : (r : Ring A) (x : A) → (push r x).1.size ≡ r.size
  unfolding push
  size-push r x = ground arith

  pub size-pop : (r : Ring A) → (pop junk r).1.size ≡ r.size
  unfolding pop
  size-pop r = ground arith

  -- The calls of one client, in order, with what each returns.
  pub run : Ring A → List (Op A) → List (Reply A)
  run r [] = []
  run r (put x ∷ ops) = let (done, r') = push r x in stored done ∷ run r' ops
  run r (get ∷ ops) = let (out, r') = pop junk r in got out ∷ run r' ops

  -- No sequence of calls tells a valid ring from the bounded queue of its contents.
  pub run_refines :
      (ops : List (Op A)) (r : Ring A)
      → IsValid r
      → run r ops ≡ Fifo.run (r.size - 1) (contents r) ops
  unfolding run Fifo.run
  run_refines [] r v = refl
  run_refines (put x ∷ ops) r v =
      rw (run_refines ops (push r x).1 (push-IsValid r x v), ← push_refines r x v, size-push)
  run_refines (get ∷ ops) r v =
      rw (run_refines ops (pop junk r).1 (pop-IsValid junk r v), ← pop_refines r v, size-pop)
