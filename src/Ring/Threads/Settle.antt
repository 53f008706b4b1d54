-- ===== src/Ring/Threads/Settle.antt =====
-- `m_length` under one producer and one consumer, and the queue between calls.
use tinytcp.Base.{ℕ, zero, suc, ◌^◌, ◌<◌, ◌≡◌, sym, subst, ap, ◌∙◌, List, arith, add32, sub32}
use tinytcp.Ring.{Ring}
use tinytcp.Ring.Inv.{IsValid, small}
use tinytcp.Ring.Threads.{
  Prod, p_idle, p_count, Cons, c_idle, c_count, PushStep, PopStep, System, Step, quiet,
}
use tinytcp.Ring.Threads.Spsc.{view, ProdOk, Inv}
use tinytcp.Ring.Threads.Order.{Trace, start, next, Trace-Inv}

module _ {A : Type 0} (junk : A) where
  -- The changes of `m_length` that a thread still owes.
  abbrev to_add : Prod A → ℕ
  to_add p_count = 1
  to_add _ = 0

  abbrev to_take : Cons A → ℕ
  to_take (c_count v) = 1
  to_take _ = 0

  abbrev Counted : Ring A → Prod A → Cons A → Type 0
  Counted r p c =
      add32 r.length (to_add p) ≡ add32 (sub32 r.last_write_index r.read_index) (to_take c)

  PushStep-Counted :
      {r r' : Ring A} {p p' : Prod A} (c : Cons A)
      → Inv junk r p c
      → r.length < 2 ^ 32
      → Counted r p c
      → PushStep r p r' p'
      → Counted r' p' c × (r'.length < 2 ^ 32)
  PushStep-Counted {r} c v l h (PushStep.call x) = (h, l)
  PushStep-Counted {r} c v l h PushStep.load_read = (h, l)
  PushStep-Counted {r} c v l h (PushStep.full e) = (h, l)
  PushStep-Counted {r} c v l h (PushStep.room e) = (h, l)
  PushStep-Counted {r} c v l h (PushStep.claim e) = (h, l)
  PushStep-Counted {r} c v l h PushStep.retry = (h, l)
  PushStep-Counted {r} c v l h PushStep.store = (h, l)
  PushStep-Counted {r} c v l h (PushStep.confirm e) = (omega arith, l)
  PushStep-Counted {r} c v l h PushStep.reload = (h, l)
  PushStep-Counted {r} c v l h PushStep.count = (omega arith, omega arith)
  PushStep-Counted {r} c v l h PushStep.leave = (h, l)

  PopStep-Counted :
      {r r' : Ring A} {c c' : Cons A} (p : Prod A)
      → Inv junk r p c
      → r.length < 2 ^ 32
      → Counted r p c
      → PopStep junk r c r' c'
      → Counted r' p c' × (r'.length < 2 ^ 32)
  PopStep-Counted {r} p v l h PopStep.call = (h, l)
  PopStep-Counted {r} p v l h PopStep.load_read = (h, l)
  PopStep-Counted {r} p v l h (PopStep.empty e) = (h, l)
  PopStep-Counted {r} p v l h (PopStep.found e) = (h, l)
  PopStep-Counted {r} p v l h PopStep.copy = (h, l)
  PopStep-Counted {r} p v l h (PopStep.claim e) =
      (omega (arith, v.cons.1, v.valid.read_in, v.valid.write_in), l)
  PopStep-Counted {r} p v l h PopStep.retry = (h, l)
  PopStep-Counted {r} p v l h PopStep.count = (omega arith, omega arith)
  PopStep-Counted {r} p v l h PopStep.leave = (h, l)

  Trace-Counted :
      {r : Ring A} {ps cs : List A} {u : System A}
      → IsValid r
      → Trace junk (quiet r) ps cs u
      → Counted u.ring (u.prods 0) (u.conss 0) × (u.ring.length < 2 ^ 32)
  Trace-Counted {r} v start =
      (omega (arith, v.counted, v.confirmed), omega (arith, v.room, small v))
  Trace-Counted v (next {t = t} run (Step.pushes zero lt st)) =
      let (h, l) = Trace-Counted v run in PushStep-Counted (t.conss 0) (Trace-Inv junk v run) l h st
  Trace-Counted v (next run (Step.pushes (suc i) lt st)) = absurd (omega arith)
  Trace-Counted v (next {t = t} run (Step.pops zero lt st)) =
      let (h, l) = Trace-Counted v run in PopStep-Counted (t.prods 0) (Trace-Inv junk v run) l h st
  Trace-Counted v (next run (Step.pops (suc i) lt st)) = absurd (omega arith)

  settle :
      (r : Ring A)
      → IsValid (view junk r)
      → r.write_index < 2 ^ 32
      → r.length < 2 ^ 32
      → r.write_index ≡ r.last_write_index
      → Counted r p_idle c_idle
      → IsValid r
  settle r v w l same h = record {
    log = v.log;
    log_pos = v.log_pos;
    log_le = v.log_le;
    size_eq = v.size_eq;
    storage = v.storage;
    confirmed = sym same;
    read_in = v.read_in;
    write_in = w;
    counted = omega arith;
    room = omega (arith, v.room);
  }

  -- Once one producer and one consumer that started from a valid queue are both between calls, the
  -- queue satisfies the invariant of the sequential calls again, the count of its items included.
  pub settled :
      {r : Ring A} {ps cs : List A} {u : System A}
      → IsValid r
      → Trace junk (quiet r) ps cs u
      → u.prods 0 ≡ p_idle
      → u.conss 0 ≡ c_idle
      → IsValid u.ring
  settled {u = u} valid run e f =
      let v = Trace-Inv junk valid run in
      let (counted, bound) = Trace-Counted valid run in
      settle u.ring v.valid v.write_in bound (subst (λ p. ProdOk junk p u.ring) e v.prod) (
        sym (ap (λ (t : Prod A). add32 u.ring.length (to_add t)) e)
        ∙ counted
        ∙ ap (λ (t : Cons A). add32 (sub32 u.ring.last_write_index u.ring.read_index) (to_take t))
            f)
