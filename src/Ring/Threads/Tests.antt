-- ===== src/Ring/Threads/Tests.antt =====
-- Two threads hand over one item, and two producers race, on a ring of four cells.
use tinytcp.Base.{some, ℕ, ◌≡◌, refl, true, [], ◌∷◌, ◌++◌, arith, get_or}
use tinytcp.Ring.{Ring, index_of_queue}
use tinytcp.Ring.Inv.{IsValid}
use tinytcp.Ring.Refine.{contents}
use tinytcp.Ring.Threads.{
  p_idle, p_store, p_done, c_idle, c_done, PushStep, PopStep, System, Reach, pushes, pops, quiet,
}
use tinytcp.Ring.Threads.Spsc.{view}
use tinytcp.Ring.Threads.Order.{Trace, start, next, fifo}
use tinytcp.Ring.Threads.Progress.{Solo, pop_alone}
use tinytcp.Ring.Threads.Settle.{settled}
use tinytcp.Ring.Threads.Race.{race}

-- The item 5 waits in the queue.
abbrev one_item : Ring ℕ
one_item = record {
  size = 4;
  length = 1;
  read_index = 0;
  write_index = 1;
  last_write_index = 1;
  queue = 5 ∷ 0 ∷ 0 ∷ 0 ∷ [];
}

one_item-IsValid : IsValid one_item
one_item-IsValid = record {
  log = 2;
  log_pos = omega arith;
  log_le = omega arith;
  size_eq = refl;
  storage = refl;
  confirmed = refl;
  read_in = omega arith;
  write_in = omega arith;
  counted = refl;
  room = omega arith;
}

-- The consumer reads its index, the producer publishes 7, and the consumer takes 5.
abbrev last_ring : Ring ℕ
last_ring = record {
  size = 4;
  length = 1;
  read_index = 1;
  write_index = 2;
  last_write_index = 2;
  queue = 5 ∷ 7 ∷ 0 ∷ 0 ∷ [];
}

handover : (u : System ℕ) × Trace 0 (quiet one_item) (7 ∷ []) (5 ∷ []) u × (u.ring ≡ last_ring)
unfolding index_of_queue
handover = (
  _,
  next
      (next
        (next
          (next
            (next
              (next
                (next
                  (next
                    (next
                      (next (next start (pops 0 (omega arith) PopStep.call))
                        (pops 0 (omega arith) PopStep.load_read))
                      (pushes 0 (omega arith) (PushStep.call 7)))
                    (pushes 0 (omega arith) PushStep.load_read))
                  (pushes 0 (omega arith) (PushStep.room (omega arith))))
                (pushes 0 (omega arith) (PushStep.claim refl)))
              (pushes 0 (omega arith) PushStep.store))
            (pushes 0 (omega arith) (PushStep.confirm refl)))
          (pops 0 (omega arith) (PopStep.found (omega arith))))
        (pops 0 (omega arith) PopStep.copy))
      (pops 0 (omega arith) (PopStep.claim refl)),
  refl,
)

fifo_example : 5 ∷ 7 ∷ [] ≡ (5 ∷ []) ++ contents 0 (view 0 handover.0.ring)
fifo_example = fifo 0 one_item-IsValid handover.1

race_example :
    (s : System ℕ) × Reach 0 2 1 (quiet one_item) s
    × (s.prods 0 ≡ p_store 8 1)
    × (s.prods 1 ≡ p_done true)
    × (s.ring.queue ≡ 5 ∷ 0 ∷ 9 ∷ 0 ∷ [])
    × (s.ring.read_index ≡ 0)
    × (s.ring.write_index ≡ 3)
    × (s.ring.last_write_index ≡ 2)
    × (contents 0 (view 0 s.ring)
        ≡ 5 ∷ get_or one_item.queue (index_of_queue one_item one_item.write_index) 0 ∷ [])
unfolding index_of_queue
race_example = race 0 one_item 8 9 one_item-IsValid (omega arith)

-- The consumer has begun nothing, and 7 is behind 5.
publish :
    (u : System ℕ) × Trace 0 (quiet one_item) (7 ∷ []) [] u
    × (u.ring.queue ≡ 5 ∷ 7 ∷ 0 ∷ 0 ∷ [])
    × (u.prods 0 ≡ p_idle)
    × (u.conss 0 ≡ c_idle)
    × (contents 0 (view 0 u.ring) ≡ 5 ∷ 7 ∷ [])
unfolding index_of_queue
publish = (
  _,
  next
      (next
        (next
          (next
            (next
              (next
                (next (next start (pushes 0 (omega arith) (PushStep.call 7)))
                  (pushes 0 (omega arith) PushStep.load_read))
                (pushes 0 (omega arith) (PushStep.room (omega arith))))
              (pushes 0 (omega arith) (PushStep.claim refl)))
            (pushes 0 (omega arith) PushStep.store))
          (pushes 0 (omega arith) (PushStep.confirm refl)))
        (pushes 0 (omega arith) PushStep.count))
      (pushes 0 (omega arith) PushStep.leave),
  refl,
  refl,
  refl,
  refl,
)

pop_alone_example :
    (u : System ℕ) × Solo 0 0 publish.0 6 u
    × (u.conss 0 ≡ c_done (some 5))
    × (u.prods ≡ publish.0.prods)
    × (contents 0 (view 0 u.ring) ≡ 7 ∷ [])
pop_alone_example = pop_alone 0 5 (7 ∷ []) one_item-IsValid publish.1 publish.4 publish.5

settled_example : IsValid publish.0.ring
settled_example = settled 0 one_item-IsValid publish.1 publish.3 publish.4
