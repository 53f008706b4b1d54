-- ===== src/Ring/Threads/Spsc.antt =====
-- One producer and one consumer: what holds between any two accesses.
use native.Mathlib.Nat.{mod-lt}
use tinytcp.Base.{
  ℕ, ◌+◌, ◌^◌, ◌≤◌, ◌<◌, ◌≡◌, ◌≢◌, refl, sym, ap, subst, ◌∙◌, ◌==◌, arith, length, length-set,
  get_or, get_or-set_self, get_or-set_ne, set, add32, sub32,
}
use tinytcp.Ring.{Ring, index_of_queue}
use tinytcp.Ring.Inv.{IsValid, index_of_queue_lem, push_test, pop_test, small}
use tinytcp.Ring.Threads.{
  Prod, p_idle, p_start, p_loaded, p_claim, p_store, p_confirm, p_count, p_done, Cons, c_idle,
  c_start, c_loaded, c_read, c_claim, c_count, c_done, PushStep, PopStep,
}

module _ {A : Type 0} (junk : A) where
  -- What the consumer may see: the items up to the last confirmed one.
  abbrev pub view : Ring A → Ring A
  view r = record r {
    write_index = r.last_write_index;
    length = sub32 r.last_write_index r.read_index;
  }

  -- The queue with every claimed cell, as it was when the read index was `i`.
  abbrev claimed : Ring A → ℕ → Ring A
  claimed r i = record r {
    read_index = i;
    last_write_index = r.write_index;
    length = sub32 r.write_index i;
  }

  abbrev cell : Ring A → ℕ → A
  cell r i = get_or r.queue (index_of_queue r i) junk

  -- Where the producer stands.
  abbrev pub ProdOk : Prod A → Ring A → Type 0
  ProdOk p_idle r = r.write_index ≡ r.last_write_index
  ProdOk (p_start x) r = r.write_index ≡ r.last_write_index
  ProdOk (p_loaded x i) r =
      (r.write_index ≡ r.last_write_index)
      × (i < 2 ^ 32)
      × (sub32 r.write_index i < r.size)
      × (sub32 r.read_index i ≤ sub32 r.write_index i)
  ProdOk (p_claim x w) r =
      (r.write_index ≡ r.last_write_index)
      × (w ≡ r.write_index)
      × (sub32 r.write_index r.read_index + 1 < r.size)
  ProdOk (p_store x w) r =
      (r.write_index ≡ add32 r.last_write_index 1)
      × (w ≡ r.last_write_index)
      × (sub32 r.last_write_index r.read_index + 1 < r.size)
  ProdOk (p_confirm x e) r =
      (r.write_index ≡ add32 r.last_write_index 1)
      × (e ≡ r.last_write_index)
      × (sub32 r.last_write_index r.read_index + 1 < r.size)
      × (cell r r.last_write_index ≡ x)
  ProdOk p_count r = r.write_index ≡ r.last_write_index
  ProdOk (p_done b) r = r.write_index ≡ r.last_write_index

  -- Where the consumer stands.
  abbrev pub ConsOk : Cons A → Ring A → Type 0
  ConsOk c_idle r = Unit {0}
  ConsOk c_start r = Unit {0}
  ConsOk (c_loaded i) r = i ≡ r.read_index
  ConsOk (c_read i) r = (i ≡ r.read_index) × (0 < sub32 r.last_write_index r.read_index)
  ConsOk (c_claim i v) r =
      (i ≡ r.read_index) × (0 < sub32 r.last_write_index r.read_index) × (v ≡ cell r r.read_index)
  ConsOk (c_count v) r = Unit {0}
  ConsOk (c_done o) r = Unit {0}

  pub record Inv (r : Ring A) (p : Prod A) (c : Cons A) : Type 0 where
    pub valid : IsValid (view r)
    pub write_in : r.write_index < 2 ^ 32
    pub prod : ProdOk p r
    pub cons : ConsOk c r

  module _ {r : Ring A} {p : Prod A} {c : Cons A} (v : Inv r p c) where
    -- The test of `push` with the read index that it has loaded.
    full_test :
        (i : ℕ)
        → r.write_index ≡ r.last_write_index
        → i < 2 ^ 32
        → sub32 r.write_index i < r.size
        → (index_of_queue r (add32 r.write_index 1) == index_of_queue r i)
          ≡ (sub32 r.write_index i + 1 == r.size)
    unfolding index_of_queue
    full_test i e h g = push_test {r = claimed r i} ok
      where
        ok : IsValid (claimed r i)
        ok = record {
          log = v.valid.log;
          log_pos = v.valid.log_pos;
          log_le = v.valid.log_le;
          size_eq = v.valid.size_eq;
          storage = v.valid.storage;
          confirmed = refl;
          read_in = h;
          write_in = v.write_in;
          counted = refl;
          room = g;
        }

    last_in : index_of_queue r r.last_write_index < length r.queue
    unfolding index_of_queue
    last_in = grind (
      arith,
      index_of_queue_lem v.valid r.last_write_index,
      v.valid.storage,
      mod-lt,
      small v.valid,
      v.valid.room,
    )

    -- The cell behind the last confirmed item is not the one to read, if there is an item.
    next_ne :
        0 < sub32 r.last_write_index r.read_index
        → index_of_queue r r.last_write_index ≢ index_of_queue r r.read_index
    unfolding index_of_queue
    next_ne h e = grind (arith, pop_test v.valid, e)

  -- What the consumer relies on.
  ConsOk-keep :
      (c : Cons A) (r r' : Ring A)
      → r'.read_index ≡ r.read_index
      → (0 < sub32 r.last_write_index r.read_index
          → (0 < sub32 r'.last_write_index r'.read_index)
            × (cell r' r'.read_index ≡ cell r r.read_index))
      → ConsOk c r
      → ConsOk c r'
  ConsOk-keep c_idle r r' e k h = tt
  ConsOk-keep c_start r r' e k h = tt
  ConsOk-keep (c_loaded i) r r' e k h = h ∙ sym e
  ConsOk-keep (c_read i) r r' e k h = (h.0 ∙ sym e, (k h.1).0)
  ConsOk-keep (c_claim i v) r r' e k h = (h.0 ∙ sym e, (k h.1).0, h.2 ∙ sym ((k h.1).1))
  ConsOk-keep (c_count v) r r' e k h = tt
  ConsOk-keep (c_done o) r r' e k h = tt

  -- The producer's accesses keep the invariant.
  pub PushStep-Inv :
      {r r' : Ring A} {p p' : Prod A} (c : Cons A) → Inv r p c → PushStep r p r' p' → Inv r' p' c
  unfolding index_of_queue
  PushStep-Inv {r} c v (PushStep.call x) = record {
    valid = v.valid;
    write_in = v.write_in;
    prod = v.prod;
    cons = v.cons;
  }
  PushStep-Inv {r} c v PushStep.load_read = record {
    valid = v.valid;
    write_in = v.write_in;
    prod = (v.prod, v.valid.read_in, omega (arith, v.valid.room, v.prod), omega arith);
    cons = v.cons;
  }
  PushStep-Inv {r} c v (PushStep.full e) = record {
    valid = v.valid;
    write_in = v.write_in;
    prod = v.prod.0;
    cons = v.cons;
  }
  PushStep-Inv {r} c v (PushStep.room {i = i} e) = record {
    valid = v.valid;
    write_in = v.write_in;
    prod = (v.prod.0, refl, ground (arith, full_test v i v.prod.0 v.prod.1 v.prod.2));
    cons = v.cons;
  }
  PushStep-Inv {r} c v (PushStep.claim e) = record {
    valid = v.valid;
    write_in = omega arith;
    prod = (omega arith, omega arith, omega arith);
    cons = ConsOk-keep c r _ refl (λ h. (h, refl)) v.cons;
  }
  PushStep-Inv {r} c v PushStep.retry = record {
    valid = v.valid;
    write_in = v.write_in;
    prod = v.prod.0;
    cons = v.cons;
  }
  PushStep-Inv {r} c v (PushStep.store {x = x}) = record {
    valid = record {
      log = v.valid.log;
      log_pos = v.valid.log_pos;
      log_le = v.valid.log_le;
      size_eq = v.valid.size_eq;
      storage = length-set r.queue _ x ∙ v.valid.storage;
      confirmed = refl;
      read_in = v.valid.read_in;
      write_in = v.valid.write_in;
      counted = refl;
      room = v.valid.room;
    };
    write_in = v.write_in;
    prod = (
      v.prod.0,
      v.prod.1,
      v.prod.2,
      ap
            (λ (t : ℕ).
              get_or (set r.queue (index_of_queue r t) x) (index_of_queue r r.last_write_index)
                junk)
            v.prod.1
          ∙ get_or-set_self r.queue (index_of_queue r r.last_write_index) x junk (last_in v),
    );
    cons =
        ConsOk-keep c r _ refl
          (λ h. (
            h,
            get_or-set_ne r.queue _ _ x junk
                (λ q. next_ne v h (ap (index_of_queue r) (sym v.prod.1) ∙ q)),
          ))
          v.cons;
  }
  PushStep-Inv {r} c v (PushStep.confirm e) = record {
    valid = record {
      log = v.valid.log;
      log_pos = v.valid.log_pos;
      log_le = v.valid.log_le;
      size_eq = v.valid.size_eq;
      storage = v.valid.storage;
      confirmed = refl;
      read_in = v.valid.read_in;
      write_in = omega arith;
      counted = refl;
      room = omega (arith, v.prod.2, small v.valid);
    };
    write_in = v.write_in;
    prod = omega arith;
    cons = ConsOk-keep c r _ refl (λ h. (omega (arith, v.valid.room, small v.valid), refl)) v.cons;
  }
  PushStep-Inv {r} c v PushStep.reload = record {
    valid = v.valid;
    write_in = v.write_in;
    prod = (v.prod.0, refl, v.prod.2, v.prod.3);
    cons = v.cons;
  }
  PushStep-Inv {r} c v PushStep.count = record {
    valid = v.valid;
    write_in = v.write_in;
    prod = v.prod;
    cons = ConsOk-keep c r _ refl (λ h. (h, refl)) v.cons;
  }
  PushStep-Inv {r} c v PushStep.leave = record {
    valid = v.valid;
    write_in = v.write_in;
    prod = v.prod;
    cons = v.cons;
  }

  -- The producer does not look at the length, and a cell that is freed is more room.
  ProdOk-length :
      (p : Prod A) (r : Ring A) (n : ℕ) → ProdOk p r → ProdOk p (record r { length = n })
  unfolding index_of_queue
  ProdOk-length p_idle r n h = h
  ProdOk-length (p_start x) r n h = h
  ProdOk-length (p_loaded x i) r n h = h
  ProdOk-length (p_claim x w) r n h = h
  ProdOk-length (p_store x w) r n h = h
  ProdOk-length (p_confirm x e) r n h = h
  ProdOk-length p_count r n h = h
  ProdOk-length (p_done b) r n h = h

  ProdOk-freed :
      (p : Prod A) (r : Ring A)
      → IsValid (view r)
      → 0 < sub32 r.last_write_index r.read_index
      → ProdOk p r
      → ProdOk p (record r { read_index = add32 r.read_index 1 })
  unfolding index_of_queue
  ProdOk-freed p_idle r v g h = h
  ProdOk-freed (p_start x) r v g h = h
  ProdOk-freed (p_loaded x i) r v g h =
      (h.0, h.1, h.2, omega (arith, v.read_in, v.write_in, h.0, h.1, h.2, h.3, g))
  ProdOk-freed (p_claim x w) r v g h =
      (h.0, h.1, omega (arith, v.read_in, v.write_in, h.0, h.1, h.2, g))
  ProdOk-freed (p_store x w) r v g h =
      (h.0, h.1, omega (arith, v.read_in, v.write_in, h.0, h.1, h.2, g))
  ProdOk-freed (p_confirm x e) r v g h =
      (h.0, h.1, omega (arith, v.read_in, v.write_in, h.0, h.1, h.2, g), h.3)
  ProdOk-freed p_count r v g h = h
  ProdOk-freed (p_done b) r v g h = h

  -- The consumer's accesses keep the invariant.
  pub PopStep-Inv :
      {r r' : Ring A} {c c' : Cons A} (p : Prod A)
      → Inv r p c
      → PopStep junk r c r' c'
      → Inv r' p c'
  unfolding index_of_queue
  PopStep-Inv {r} p v PopStep.call = record {
    valid = v.valid;
    write_in = v.write_in;
    prod = v.prod;
    cons = tt;
  }
  PopStep-Inv {r} p v PopStep.load_read = record {
    valid = v.valid;
    write_in = v.write_in;
    prod = v.prod;
    cons = refl;
  }
  PopStep-Inv {r} p v (PopStep.empty e) = record {
    valid = v.valid;
    write_in = v.write_in;
    prod = v.prod;
    cons = tt;
  }
  PopStep-Inv {r} p v (PopStep.found e) = record {
    valid = v.valid;
    write_in = v.write_in;
    prod = v.prod;
    cons = (v.cons, grind (arith, pop_test v.valid, ap (index_of_queue r) v.cons));
  }
  PopStep-Inv {r} p v PopStep.copy = record {
    valid = v.valid;
    write_in = v.write_in;
    prod = v.prod;
    cons = (v.cons.0, v.cons.1, ap (λ (t : ℕ). get_or r.queue (index_of_queue r t) junk) v.cons.0);
  }
  PopStep-Inv {r} p v (PopStep.claim {v = x} e) =
      subst (λ (t : ℕ). Inv (record r { read_index = add32 t 1 }) p (c_count x)) e
        (record {
          valid = record {
            log = v.valid.log;
            log_pos = v.valid.log_pos;
            log_le = v.valid.log_le;
            size_eq = v.valid.size_eq;
            storage = v.valid.storage;
            confirmed = refl;
            read_in = omega arith;
            write_in = v.valid.write_in;
            counted = refl;
            room = omega (arith, v.valid.room, v.valid.read_in, v.valid.write_in, v.cons.1);
          };
          write_in = v.write_in;
          prod = ProdOk-freed p r v.valid v.cons.1 v.prod;
          cons = tt;
        })
  PopStep-Inv {r} p v PopStep.retry = record {
    valid = v.valid;
    write_in = v.write_in;
    prod = v.prod;
    cons = tt;
  }
  PopStep-Inv {r} p v PopStep.count = record {
    valid = v.valid;
    write_in = v.write_in;
    prod = ProdOk-length p r _ v.prod;
    cons = tt;
  }
  PopStep-Inv {r} p v PopStep.leave = record {
    valid = v.valid;
    write_in = v.write_in;
    prod = v.prod;
    cons = tt;
  }
