-- ===== src/Ring/Threads/Progress.antt =====
-- A consumer that runs alone gets the first item, wherever the producer has stopped.
use tinytcp.Base.{
  ℕ, suc, ◌+◌, ◌-◌, ◌%◌, ◌≡◌, ◌≢◌, refl, sym, ap, subst, ◌∙◌, some, List, ◌∷◌, arith, get_or, add32,
  sub32, length,
}
use tinytcp.Ring.{Ring, index_of_queue}
use tinytcp.Ring.Inv.{IsValid, index_of_queue_lem, pop_test}
use tinytcp.Ring.Refine.{contents, window, window_pos, next_window, length-contents}
use tinytcp.Ring.Threads.{Cons, c_idle, c_start, c_done, PopStep, System, update, quiet}
use tinytcp.Ring.Threads.Spsc.{view}
use tinytcp.Ring.Threads.Order.{Trace, Trace-Inv}

module _ {A : Type 0} (junk : A) where
  -- `n` accesses of consumer `j` alone: no other thread goes on.
  pub data Solo (j : ℕ) (s : System A) : ℕ → System A → Type 0 where
    here : Solo j s 0 s
    later :
        {n : ℕ} {t : System A} {r : Ring A} {c : Cons A}
        → Solo j s n t
        → PopStep junk t.ring (t.conss j) r c
        → Solo j s (suc n) (record t { ring = r; conss = update t.conss j c })

  -- The accesses of one call of `pop` that is not disturbed.
  pop_run :
      (s : System A)
      → s.conss 0 ≡ c_idle
      → index_of_queue s.ring s.ring.last_write_index ≢ index_of_queue s.ring s.ring.read_index
      → (u : System A) × Solo 0 s 6 u
        × (u.conss 0
            ≡ c_done (some (get_or s.ring.queue (index_of_queue s.ring s.ring.read_index) junk)))
        × (u.prods ≡ s.prods)
        × (u.ring ≡ record (s.ring) {
          read_index = add32 s.ring.read_index 1;
          length = sub32 s.ring.length 1;
        })
  unfolding index_of_queue
  pop_run s e h = (
    _,
    later
        (later
          (later
            (later
              (later
                (later here
                  (subst (λ c. PopStep junk s.ring c s.ring c_start) (sym e) PopStep.call))
                PopStep.load_read)
              (PopStep.found h))
            PopStep.copy)
          (PopStep.claim refl))
        PopStep.count,
    refl,
    refl,
    refl,
  )

  module _ (r : Ring A) (v : IsValid (view junk r)) (x : A) (xs : List A)
      (q : contents junk (view junk r) ≡ x ∷ xs) where
    some_items : sub32 r.last_write_index r.read_index ≢ 0
    some_items e = omega (arith, ap length q, length-contents junk (view junk r), e)

    opened :
        get_or r.queue (r.read_index % r.size) junk
          ∷ window junk r.queue r.size
              (r.read_index + 1)
              (sub32 r.last_write_index r.read_index - 1)
        ≡ x ∷ xs
    opened =
        sym (
          window_pos junk r.queue r.size r.read_index (sub32 r.last_write_index r.read_index)
            some_items)
        ∙ q

    not_empty : index_of_queue r r.last_write_index ≢ index_of_queue r r.read_index
    unfolding index_of_queue
    not_empty e = grind (arith, pop_test v, some_items, e)

    first_item : get_or r.queue (index_of_queue r r.read_index) junk ≡ x
    unfolding index_of_queue
    first_item =
        ap (λ (t : ℕ). get_or r.queue t junk) (index_of_queue_lem v r.read_index) ∙ cc opened

    other_items :
        window junk r.queue r.size
          (add32 r.read_index 1)
          (sub32 r.last_write_index (add32 r.read_index 1))
        ≡ xs
    other_items =
        ap (window junk r.queue r.size (add32 r.read_index 1))
          (omega (arith, some_items, v.read_in, v.write_in))
        ∙ next_window junk (view junk r) v
        ∙ cc opened

  -- Wherever a run of one producer and one consumer has come from a valid queue, with the consumer
  -- in no call and `x` the first of the published items, six accesses of the consumer, with none of
  -- the producer between them, bring it to the end of a `pop` that returns `x` and leaves the other
  -- items, the producer standing where it stood.
  pub pop_alone :
      {r : Ring A} {ps cs : List A} {s : System A} (x : A) (xs : List A)
      → IsValid r
      → Trace junk (quiet r) ps cs s
      → s.conss 0 ≡ c_idle
      → contents junk (view junk s.ring) ≡ x ∷ xs
      → (u : System A) × Solo 0 s 6 u
        × (u.conss 0 ≡ c_done (some x))
        × (u.prods ≡ s.prods)
        × (contents junk (view junk u.ring) ≡ xs)
  pop_alone {s = s} x xs valid run e q =
      let v = (Trace-Inv junk valid run).valid in
      let (u, go, done, still, after) = pop_run s e (not_empty s.ring v x xs q) in
      (
        u,
        go,
        done ∙ ap (λ (t : A). c_done (some t)) (first_item s.ring v x xs q),
        still,
        ap (λ t. contents junk (view junk t)) after ∙ other_items s.ring v x xs q,
      )
