-- ===== src/Ring/Threads/Order.antt =====
-- With one producer and one consumer the queue is first in, first out, whatever the interleaving.
use tinytcp.Base.{
  ℕ, zero, suc, ◌+◌, ◌%◌, ◌≡◌, refl, sym, ap, ap₂, subst, ◌∙◌, List, [], ◌∷◌, ◌++◌, arith, get_or,
  add32, sub32,
}
use mathlib.Core.List.{append_assoc, append-nil}
use tinytcp.Ring.{Ring, index_of_queue}
use tinytcp.Ring.Inv.{IsValid, index_of_queue_lem, write_cell, small}
use tinytcp.Ring.Refine.{contents, window, window-set_out, window-snoc, window_pos, next_window}
use tinytcp.Ring.Threads.{
  Prod, p_idle, p_start, p_loaded, p_claim, p_store, p_confirm, p_count, p_done, Cons, c_idle,
  c_start, c_loaded, c_read, c_claim, c_count, c_done, PushStep, PopStep, System, Step, quiet,
}
use tinytcp.Ring.Threads.Spsc.{view, Inv, PushStep-Inv, PopStep-Inv}

module _ {A : Type 0} where
  -- What a step of the producer publishes, and what a step of the consumer takes.
  abbrev pub published : Prod A → Prod A → List A
  published (p_confirm x e) p_count = x ∷ []
  published _ _ = []

  abbrev pub taken : Cons A → Cons A → List A
  taken (c_claim i v) (c_count w) = v ∷ []
  taken _ _ = []

  published_same : (p : Prod A) → published p p ≡ []
  published_same p_idle = refl
  published_same (p_start x) = refl
  published_same (p_loaded x i) = refl
  published_same (p_claim x w) = refl
  published_same (p_store x w) = refl
  published_same (p_confirm x e) = refl
  published_same p_count = refl
  published_same (p_done b) = refl

  taken_same : (c : Cons A) → taken c c ≡ []
  taken_same c_idle = refl
  taken_same c_start = refl
  taken_same (c_loaded i) = refl
  taken_same (c_read i) = refl
  taken_same (c_claim i v) = refl
  taken_same (c_count v) = refl
  taken_same (c_done o) = refl

module _ {A : Type 0} (junk : A) where
  -- A run of one producer and one consumer, with what has been published and taken, in order.
  pub data Trace (s : System A) : List A → List A → System A → Type 0 where
    start : Trace s [] [] s
    next :
        {ps cs : List A} {t u : System A}
        → Trace s ps cs t
        → Step junk 1 1 t u
        → Trace s (ps ++ published (t.prods 0) (u.prods 0)) (cs ++ taken (t.conss 0) (u.conss 0)) u

  abbrev items : Ring A → List A
  items r = contents junk (view junk r)

  -- The cell behind the last item.
  behind :
      (r : Ring A)
      → IsValid (view junk r)
      → index_of_queue r r.last_write_index
        ≡ (r.read_index + sub32 r.last_write_index r.read_index) % r.size
  unfolding index_of_queue
  behind r v =
      ap (index_of_queue r) {y = add32 r.last_write_index 0} (omega (arith, v.write_in))
      ∙ write_cell v 0
      ∙ ap (λ (t : ℕ). (r.read_index + t) % r.size) (omega arith)

  items-confirm :
      (r : Ring A) (x : A) (c : Cons A)
      → Inv junk r (p_confirm x r.last_write_index) c
      → items (record r { last_write_index = add32 r.last_write_index 1 }) ≡ items r ++ x ∷ []
  items-confirm r x c v =
      ap (window junk r.queue r.size r.read_index) {y = suc (sub32 r.last_write_index r.read_index)}
        (omega (arith, v.prod.2, small v.valid))
      ∙ window-snoc junk r.queue r.size r.read_index (sub32 r.last_write_index r.read_index)
      ∙ ap (λ (t : A). items r ++ t ∷ [])
          (ap (λ (t : ℕ). get_or r.queue t junk) (sym (behind r v.valid)) ∙ v.prod.3)

  PushStep-items :
      {r r' : Ring A} {p p' : Prod A} (c : Cons A)
      → Inv junk r p c
      → PushStep r p r' p'
      → items r' ≡ items r ++ published p p'
  PushStep-items {r} c v (PushStep.call x) = sym (append-nil _)
  PushStep-items {r} c v PushStep.load_read = sym (append-nil _)
  PushStep-items {r} c v (PushStep.full e) = sym (append-nil _)
  PushStep-items {r} c v (PushStep.room e) = sym (append-nil _)
  PushStep-items {r} c v (PushStep.claim e) = sym (append-nil _)
  PushStep-items {r} c v PushStep.retry = sym (append-nil _)
  PushStep-items {r} c v (PushStep.store {x = x} {w = w}) =
      window-set_out junk r.queue r.size r.read_index (sub32 r.last_write_index r.read_index)
        (index_of_queue r w) x v.valid.room (ap (index_of_queue r) v.prod.1 ∙ behind r v.valid)
      ∙ sym (append-nil _)
  PushStep-items {r} c v (PushStep.confirm {x = x} e) =
      subst
        (λ (t : ℕ).
          Inv junk r (p_confirm x t) c
          → items (record r { last_write_index = add32 t 1 }) ≡ items r ++ x ∷ [])
        e (items-confirm r x c) v
  PushStep-items {r} c v PushStep.reload = sym (append-nil _)
  PushStep-items {r} c v PushStep.count = sym (append-nil _)
  PushStep-items {r} c v PushStep.leave = sym (append-nil _)

  PopStep-items :
      {r r' : Ring A} {c c' : Cons A} (p : Prod A)
      → Inv junk r p c
      → PopStep junk r c r' c'
      → items r ≡ taken c c' ++ items r'
  unfolding index_of_queue
  PopStep-items {r} p v PopStep.call = refl
  PopStep-items {r} p v PopStep.load_read = refl
  PopStep-items {r} p v (PopStep.empty e) = refl
  PopStep-items {r} p v (PopStep.found e) = refl
  PopStep-items {r} p v PopStep.copy = refl
  PopStep-items {r} p v (PopStep.claim {v = x} e) =
      window_pos junk r.queue r.size r.read_index (sub32 r.last_write_index r.read_index)
        (omega (arith, v.cons.1))
      ∙ ap₂ ◌∷◌
          (ap (λ (t : ℕ). get_or r.queue t junk) (sym (index_of_queue_lem v.valid r.read_index))
            ∙ sym v.cons.2)
          (sym (next_window junk (view junk r) v.valid)
            ∙ ap₂ (window junk r.queue r.size) (ap (λ (t : ℕ). add32 t 1) e)
                (omega (arith, v.cons.1, v.valid.read_in, v.valid.write_in)))
  PopStep-items {r} p v PopStep.retry = refl
  PopStep-items {r} p v PopStep.count = refl
  PopStep-items {r} p v PopStep.leave = refl

  start-Inv : (r : Ring A) → IsValid r → Inv junk r p_idle c_idle
  start-Inv r v = record {
    valid = record {
      log = v.log;
      log_pos = v.log_pos;
      log_le = v.log_le;
      size_eq = v.size_eq;
      storage = v.storage;
      confirmed = refl;
      read_in = v.read_in;
      write_in = omega (arith, v.write_in, v.confirmed);
      counted = refl;
      room = omega (arith, v.room, v.counted, v.confirmed);
    };
    write_in = v.write_in;
    prod = sym v.confirmed;
    cons = tt;
  }

  Step-Inv :
      {t u : System A}
      → Inv junk t.ring (t.prods 0) (t.conss 0)
      → Step junk 1 1 t u
      → Inv junk u.ring (u.prods 0) (u.conss 0)
  Step-Inv {t} v (Step.pushes zero lt st) = PushStep-Inv junk (t.conss 0) v st
  Step-Inv v (Step.pushes (suc i) lt st) = absurd (omega arith)
  Step-Inv {t} v (Step.pops zero lt st) = PopStep-Inv junk (t.prods 0) v st
  Step-Inv v (Step.pops (suc i) lt st) = absurd (omega arith)

  Step-items :
      {t u : System A}
      → Inv junk t.ring (t.prods 0) (t.conss 0)
      → Step junk 1 1 t u
      → items t.ring ++ published (t.prods 0) (u.prods 0)
        ≡ taken (t.conss 0) (u.conss 0) ++ items u.ring
  Step-items {t} v (Step.pushes zero {r = r} lt st) =
      sym (PushStep-items (t.conss 0) v st)
      ∙ ap (λ cs. cs ++ items r) (sym (taken_same (t.conss 0)))
  Step-items v (Step.pushes (suc i) lt st) = absurd (omega arith)
  Step-items {t} v (Step.pops zero lt st) =
      ap (λ ps. items t.ring ++ ps) (published_same (t.prods 0))
      ∙ append-nil _
      ∙ PopStep-items (t.prods 0) v st
  Step-items v (Step.pops (suc i) lt st) = absurd (omega arith)

  pub Trace-Inv :
      {r : Ring A} {ps cs : List A} {u : System A}
      → IsValid r
      → Trace (quiet r) ps cs u
      → Inv junk u.ring (u.prods 0) (u.conss 0)
  Trace-Inv {r} v start = start-Inv r v
  Trace-Inv v (next run st) = Step-Inv (Trace-Inv v run) st

  -- Whatever way the accesses of one producer and one consumer interleave, from a valid queue with
  -- no call under way: the items that were in the queue, followed by those published since, are the
  -- items taken since, followed by those that the queue holds now, all in order.
  pub fifo :
      {r : Ring A} {ps cs : List A} {u : System A}
      → IsValid r
      → Trace (quiet r) ps cs u
      → contents junk r ++ ps ≡ cs ++ contents junk (view junk u.ring)
  fifo {r} v start =
      append-nil _
      ∙ ap (window junk r.queue r.size r.read_index) (omega (arith, v.counted, v.confirmed))
  fifo {r} v (next {ps} {cs} {t} {u} run st) =
      sym (append_assoc (contents junk r) ps (published (t.prods 0) (u.prods 0)))
      ∙ ap (λ xs. xs ++ published (t.prods 0) (u.prods 0)) (fifo v run)
      ∙ append_assoc cs (items t.ring) _
      ∙ ap (λ xs. cs ++ xs) (Step-items (Trace-Inv v run) st)
      ∙ sym (append_assoc cs (taken (t.conss 0) (u.conss 0)) (items u.ring))
