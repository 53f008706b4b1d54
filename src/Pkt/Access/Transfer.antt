-- ===== src/Pkt/Access/Transfer.antt =====
-- What a loop that stores bytes at the cursor achieves, and how two such stretches make one.
use tinytcp.Base.{
  ℕ, ◌+◌, ◌≤◌, ◌<◌, ◌≡◌, refl, sym, ap, ap₂, ◌∙◌, List, [], ◌++◌, arith, length, length-append,
  overwrite,
}
use tinytcp.Base.Bytes.Laws.{overwrite-nil, overwrite-overwrite}
use tinytcp.Memblock.{Ptr}
use tinytcp.NetErr.{ok}
use tinytcp.Pkt.{PktBuffer, PktManager}
use tinytcp.Pkt.View.{contents, IsPacket, SameShape, SameShape-refl, SameShape-trans, IsPacket-same}
use tinytcp.Pkt.Access.{move_forward}
use tinytcp.Pkt.Access.Cursor.{IsCursor, room}
use tinytcp.Pkt.Access.Move.{Moved}
use tinytcp.Pkt.Access.Round.{Disjoint, Stored, round, IsCursor-same, room-same}

-- From `m`, `b` to `m'`, `b'` the bytes `src` were stored from the cursor on.
pub record Wrote (m : PktManager) (b : PktBuffer) (src : List ℕ) (b' : PktBuffer) (m' : PktManager)
    : Type 0 where
  pub moved : Moved m' b (length src) b'
  pub shape : SameShape m m'
  pub written : contents m' b.blk_list ≡ overwrite (contents m b.blk_list) b.pos src
  pub others : (qs : List Ptr) → Disjoint b.blk_list qs → contents m' qs ≡ contents m qs

-- A buffer that differs in the cursor alone is a packet still.
pub Moved-IsPacket :
    {m : PktManager} {b b' : PktBuffer} {n : ℕ} → Moved m b n b' → IsPacket m b → IsPacket m b'
Moved-IsPacket {m} v k = record {
  good = rw v.list_eq k.good;
  distinct = rw v.list_eq k.distinct;
  counted = rw (v.list_eq, v.capacity_eq) k.counted;
  small = rw v.capacity_eq k.small;
  block_small = k.block_small;
}

pub Wrote-none : (m : PktManager) (b : PktBuffer) → IsCursor m b → Wrote m b [] b m
Wrote-none m b c = record {
  moved = record {
    cursor = c;
    pos_eq = omega arith;
    list_eq = refl;
    capacity_eq = refl;
    ref_eq = refl;
  };
  shape = SameShape-refl m;
  written = sym (overwrite-nil (contents m b.blk_list) b.pos);
  others = λ qs h. refl;
}

pub Wrote-join :
    {m m1 m2 : PktManager} {b b1 b2 : PktBuffer} (s t : List ℕ)
    → Wrote m b s b1 m1
    → Wrote m1 b1 t b2 m2
    → Wrote m b (s ++ t) b2 m2
Wrote-join {m} {m1} {m2} {b} {b1} {b2} s t v w = record {
  moved = record {
    cursor = w.moved.cursor;
    pos_eq = omega (arith, w.moved.pos_eq, v.moved.pos_eq, length-append s t);
    list_eq = w.moved.list_eq ∙ v.moved.list_eq;
    capacity_eq = w.moved.capacity_eq ∙ v.moved.capacity_eq;
    ref_eq = w.moved.ref_eq ∙ v.moved.ref_eq;
  };
  shape = SameShape-trans v.shape w.shape;
  written =
      ap (contents m2) (sym v.moved.list_eq)
      ∙ w.written
      ∙ ap₂ (λ ps (i : ℕ). overwrite (contents m1 ps) i t) v.moved.list_eq v.moved.pos_eq
      ∙ ap (λ xs. overwrite xs (b.pos + length s) t) v.written
      ∙ overwrite-overwrite (contents m b.blk_list) b.pos s t;
  others = λ qs h. w.others qs (rw v.moved.list_eq h) ∙ v.others qs h;
}

-- One store and the step of the cursor after it.
pub one_round :
    (m : PktManager) (b : PktBuffer) (src : List ℕ)
    → IsPacket m b
    → IsCursor m b
    → b.pos < b.capacity
    → length src ≤ room m b
    → (b' : PktBuffer) × (m' : PktManager) × Stored m b src m'
      × (move_forward m' (length src) b ≡ ok b')
      × Wrote m b src b' m'
one_round m b src k c h g =
    let r = round m b k c h in
    let (m1, st) = r.store src g in
    let r1 = round m1 b (IsPacket-same st.shape b k) (IsCursor-same st.shape b c) h in
    let (b1, runs, mv) = r1.move (length src) (rw (room-same st.shape b) g) in
    (
      b1,
      m1,
      st,
      runs,
      record { moved = mv; shape = st.shape; written = st.written; others = st.others },
    )
