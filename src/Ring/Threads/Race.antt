-- ===== src/Ring/Threads/Race.antt =====
-- Two producers: one can publish the cell that the other has claimed and not yet written.
use tinytcp.Base.{
  ℕ, suc, ◌+◌, ◌%◌, ◌<◌, ◌≡◌, ◌≢◌, refl, sym, ap, ◌∙◌, true, [], ◌∷◌, ◌++◌, arith, get_or, set,
  add32, mod_turn,
}
use tinytcp.Ring.{Ring, index_of_queue}
use tinytcp.Ring.Inv.{IsValid, index_of_queue_lem, push_test, write_cell, small, size_pos}
use tinytcp.Ring.Refine.{contents, window, window-set_out, window-snoc}
use tinytcp.Ring.Threads.{p_store, p_done, PushStep, System, Reach, here, later, pushes, quiet}
use tinytcp.Ring.Threads.Spsc.{view}

module _ {A : Type 0} (junk : A) (r : Ring A) (x y : A) (v : IsValid r)
    (h : r.length + 2 < r.size) where
  first_room : index_of_queue r (add32 r.write_index 1) ≢ index_of_queue r r.read_index
  first_room e = grind (arith, push_test v, e)

  second_room : index_of_queue r (add32 (add32 r.write_index 1) 1) ≢ index_of_queue r r.read_index
  second_room e = grind (
    arith,
    mod_turn r.size r.read_index (r.length + 2),
    size_pos v,
    same ∙ e ∙ index_of_queue_lem v r.read_index,
  )
    where
      same :
          (r.read_index + (r.length + 2)) % r.size
          ≡ index_of_queue r (add32 (add32 r.write_index 1) 1)
      same = sym (write_cell v 2) ∙ ap (index_of_queue r) (omega (arith, v.write_in))

  -- Producer 0 claims a cell and waits; producer 1 claims the next one, writes it, fails to confirm
  -- it, and confirms the first cell in its place.
  abbrev last_ring : Ring A
  last_ring = record r {
    length = add32 r.length 1;
    write_index = add32 (add32 r.write_index 1) 1;
    last_write_index = add32 r.last_write_index 1;
    queue = set r.queue (index_of_queue r (add32 r.write_index 1)) y;
  }

  race_run :
      (s : System A) × Reach junk 2 1 (quiet r) s
      × (s.ring ≡ last_ring)
      × (s.prods 0 ≡ p_store x r.write_index)
      × (s.prods 1 ≡ p_done true)
  unfolding index_of_queue
  race_run = (
    _,
    later
        (later
          (later
            (later
              (later
                (later
                  (later
                    (later
                      (later
                        (later
                          (later (later here (pushes 0 (omega arith) (PushStep.call x)))
                            (pushes 0 (omega arith) PushStep.load_read))
                          (pushes 0 (omega arith) (PushStep.room first_room)))
                        (pushes 0 (omega arith) (PushStep.claim refl)))
                      (pushes 1 (omega arith) (PushStep.call y)))
                    (pushes 1 (omega arith) PushStep.load_read))
                  (pushes 1 (omega arith) (PushStep.room second_room)))
                (pushes 1 (omega arith) (PushStep.claim refl)))
              (pushes 1 (omega arith) PushStep.store))
            (pushes 1 (omega arith) PushStep.reload))
          (pushes 1 (omega arith) (PushStep.confirm refl)))
        (pushes 1 (omega arith) PushStep.count),
    refl,
    refl,
    refl,
  )

  published_cell :
      contents junk (view junk last_ring)
      ≡ contents junk r ++ get_or r.queue (index_of_queue r r.write_index) junk ∷ []
  published_cell =
      ap (window junk last_ring.queue r.size r.read_index) {y = suc r.length}
        (omega (arith, v.counted, v.confirmed, v.write_in, v.read_in, v.room, small v))
      ∙ window-set_out junk r.queue r.size r.read_index (suc r.length)
          (index_of_queue r (add32 r.write_index 1)) y (omega arith)
          (write_cell v 1 ∙ ap (λ (t : ℕ). (r.read_index + t) % r.size) (omega arith))
      ∙ window-snoc junk r.queue r.size r.read_index r.length
      ∙ ap (λ (t : ℕ). contents junk r ++ get_or r.queue t junk ∷ []) (sym cell_eq)
    where
      cell_eq : index_of_queue r r.write_index ≡ (r.read_index + r.length) % r.size
      cell_eq =
          ap (index_of_queue r) {y = add32 r.write_index 0} (omega (arith, v.write_in))
          ∙ write_cell v 0
          ∙ ap (λ (t : ℕ). (r.read_index + t) % r.size) (omega arith)

  -- From every valid queue with room for two, two producers that push `x` and `y` can come to a
  -- state in which the first has claimed the next cell and not yet written it, the push of `y`,
  -- which stands in the cell behind, has returned true, and that claimed cell is published:
  -- `m_read_index` is as before, `m_last_write_index` stands behind the cell, and the queue shows,
  -- behind its items, what the cell held when it was free.
  pub race :
      (s : System A) × Reach junk 2 1 (quiet r) s
      × (s.prods 0 ≡ p_store x r.write_index)
      × (s.prods 1 ≡ p_done true)
      × (s.ring.queue ≡ set r.queue (index_of_queue r (add32 r.write_index 1)) y)
      × (s.ring.read_index ≡ r.read_index)
      × (s.ring.write_index ≡ add32 (add32 r.write_index 1) 1)
      × (s.ring.last_write_index ≡ add32 r.write_index 1)
      × (contents junk (view junk s.ring)
          ≡ contents junk r ++ get_or r.queue (index_of_queue r r.write_index) junk ∷ [])
  race =
      let (s, run, ring_eq, waits, done) = race_run in
      (
        s,
        run,
        waits,
        done,
        ap (λ (q : Ring A). q.queue) ring_eq,
        ap (λ (q : Ring A). q.read_index) ring_eq,
        ap (λ (q : Ring A). q.write_index) ring_eq,
        ap (λ (q : Ring A). q.last_write_index) ring_eq ∙ ap (λ (t : ℕ). add32 t 1) v.confirmed,
        ap (λ q. contents junk (view junk q)) ring_eq ∙ published_cell,
      )
