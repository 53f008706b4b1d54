-- ===== src/Pkt/Shape/Alloc.antt =====
-- `PktBuffer::alloc` with enough free blocks.
use tinytcp.Base.{
  ℕ, ◌+◌, ◌*◌, ◌^◌, ◌≤◌, ◌<◌, ◌≡◌, refl, sym, ap, subst, ◌∙◌, Bool, true, false, none, some, List,
  [], ◌∷◌, ◌++◌, length, add32, ◌==◌, arith,
}
use mathlib.Core.List.{append_assoc, append-nil, reverse}
use tinytcp.Memblock.{Ptr}
use tinytcp.NetErr.{ok}
use tinytcp.Pkt.{PktBuffer, PktManager, deref, reset_access}
use tinytcp.Pkt.View.{contents, Distinct, AllOk, IsPacket, AllOk-append, total-append}
use tinytcp.Pkt.Access.Cursor.{IsCursor}
use tinytcp.Pkt.Shape.{alloc, insert_blocks, push_back_each}
use tinytcp.Pkt.Shape.Take.{Stock, Untouched, alloc_loop_lem}
use tinytcp.Pkt.Shape.Lists.{
  Distinct-Apart, Distinct-left, Distinct-right, AllOk-Apart, total-Apart, contents-Apart, in_order,
  AllOk-in_order, total-in_order, Distinct-in_order,
}

push_back_each_lem : (got list : List Ptr) → push_back_each got list ≡ list ++ got
unfolding push_back_each
push_back_each_lem [] list = sym (append-nil list)
push_back_each_lem (p ∷ got) list =
    push_back_each_lem got (list ++ p ∷ []) ∙ append_assoc list (p ∷ []) got

-- The cursor at the start.
pub record AtStart (m : PktManager) (b b' : PktBuffer) : Type 0 where
  pub cursor : IsCursor m b'
  pub at_start : b'.pos ≡ 0
  pub list_eq : b'.blk_list ≡ b.blk_list
  pub capacity_eq : b'.capacity ≡ b.capacity
  pub ref_eq : b'.ref ≡ b.ref

start_of_list :
    (m : PktManager) (b : PktBuffer) (l : List Ptr)
    → b.blk_list ≡ l
    → AllOk m l
    → (b' : PktBuffer) × (reset_access m b ≡ ok b') × AtStart m b b'
unfolding reset_access deref
start_of_list m b [] e k =
    let b' : PktBuffer = record b { pos = 0; cur_blk = none; blk_offset = 0 } in
    (
      b',
      rw (e, reset_access)
          (ap (λ l. ok (record b { blk_list = l; pos = 0; cur_blk = none; blk_offset = 0 })) e),
      record {
        cursor = record { before = []; after = []; split = e; place = (refl, refl) };
        at_start = refl;
        list_eq = refl;
        capacity_eq = refl;
        ref_eq = refl;
      },
    )
start_of_list m b (p ∷ l) e (k, ks) =
    let b' : PktBuffer = record b { pos = 0; cur_blk = some p; blk_offset = (m.blocks p).offset } in
    let real : (p == 0) ≡ false = ground (arith, k.not_null) in
    (
      b',
      rw (e, reset_access, real)
          (ap
            (λ t. ok (record b {
              blk_list = t;
              pos = 0;
              cur_blk = some p;
              blk_offset = (m.blocks p).offset;
            }))
            e),
      record {
        cursor = record {
          before = [];
          after = p ∷ l;
          split = e;
          place = (refl, omega arith, omega (arith, k.nonempty), omega arith);
        };
        at_start = refl;
        list_eq = refl;
        capacity_eq = refl;
        ref_eq = refl;
      },
    )

-- reset_access of a well-formed packet succeeds and puts the cursor at its first byte.
pub reset_access_lem :
    (m : PktManager) (b : PktBuffer)
    → AllOk m b.blk_list
    → (b' : PktBuffer) × (reset_access m b ≡ ok b') × AtStart m b b'
reset_access_lem m b k = start_of_list m b b.blk_list refl k

-- What `alloc` at the end of a packet leaves: the blocks that it took, the first of `ps`, stand behind
-- the old ones in the order of `in_order`, and the rest of `ps` is free.
pub record Allocated (f : Bool) (m : PktManager) (size : ℕ) (b : PktBuffer) (ps : List Ptr)
    (b' : PktBuffer) (m' : PktManager) : Type 0 where
  pub added : List Ptr
  pub rest : List Ptr
  pub split : ps ≡ added ++ rest
  pub stock : Stock m' rest
  pub packet : IsPacket m' b'
  pub cursor : IsCursor m' b'
  pub at_start : b'.pos ≡ 0
  pub ref_one : b'.ref ≡ 1
  pub list_eq : b'.blk_list ≡ b.blk_list ++ in_order f added
  pub capacity_eq : b'.capacity ≡ b.capacity + size
  pub kept : contents m' b.blk_list ≡ contents m b.blk_list
  pub same : Untouched m m' added

inserted :
    (f : Bool) (got list : List Ptr) → insert_blocks f false got list ≡ list ++ in_order f got
unfolding insert_blocks
inserted true got list = push_back_each_lem (reverse got) list
inserted false got list = push_back_each_lem got list

-- With enough free blocks that the packet does not have, and a capacity that stays below 2^31,
-- `alloc` at the end of a well-formed packet succeeds: the packet is well formed, longer by the
-- bytes that were asked for, begins with the bytes that it had, and its cursor stands at the
-- start; the blocks that it took are the next free ones, in the order of `in_order`, the rest stay
-- free, and no other block has changed.
pub contents-alloc :
    (f : Bool) (size : ℕ) (b : PktBuffer) (m : PktManager) (ps : List Ptr)
    → Stock m ps
    → IsPacket m b
    → Distinct (b.blk_list ++ ps)
    → size ≤ length ps * m.blk_size
    → b.capacity + size < 2 ^ 31
    → (b' : PktBuffer) × (m' : PktManager) × (alloc size f false b m ≡ ok (true, b', m'))
      × Allocated f m size b ps b' m'
unfolding alloc
contents-alloc f size b m ps s k d room small =
    let (qs, m', e, g) = alloc_loop_lem (size + 1) f size [] m ps (omega arith) s room in
    let apart =
      Distinct-Apart b.blk_list qs g.rest (subst (λ l. Distinct (b.blk_list ++ l)) g.split d) in
    let fits : add32 b.capacity size ≡ b.capacity + size = omega arith in
    let whole = subst (λ l. Distinct (b.blk_list ++ l)) g.split d in
    let new = in_order f qs in
    let b1 : PktBuffer = record b {
      capacity = b.capacity + size;
      ref = 1;
      blk_list = b.blk_list ++ new;
    } in
    let good =
      AllOk-append m' b.blk_list new (AllOk-Apart g.same b.blk_list apart k.good)
        (AllOk-in_order f m' qs g.good) in
    let (b', r, st) = reset_access_lem m' b1 good in
    let distinct =
      Distinct-in_order f b.blk_list qs k.distinct
        (Distinct-left qs g.rest (Distinct-right b.blk_list (qs ++ g.rest) whole)) apart in
    (
      b',
      m',
      rw (e, inserted f qs b.blk_list, fits, r),
      record {
        added = qs;
        rest = g.rest;
        split = g.split;
        stock = g.stock;
        packet = record {
          good = rw st.list_eq good;
          distinct = rw st.list_eq distinct;
          counted =
              rw (st.list_eq, st.capacity_eq)
                (omega (
                  arith,
                  total-append m' b.blk_list new,
                  total-in_order f m' qs,
                  total-Apart g.same b.blk_list apart,
                  g.filled,
                  k.counted,
                ));
          small = rw st.capacity_eq small;
          block_small = rw g.same.same_size k.block_small;
        };
        cursor = st.cursor;
        at_start = st.at_start;
        ref_one = st.ref_eq;
        list_eq = st.list_eq;
        capacity_eq = st.capacity_eq;
        kept = contents-Apart g.same b.blk_list apart;
        same = g.same;
      },
    )
