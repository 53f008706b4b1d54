-- ===== src/Pkt/Access/Read.antt =====
-- `PktBuffer::seek` and `PktBuffer::read`: the cursor goes where it is told, and the bytes that are
-- read are those of the packet from the cursor on.
use mathlib.Core.List.{append_assoc, append-nil}
use tinytcp.Base.{
  ℕ, zero, suc, ◌+◌, ◌-◌, ◌≤◌, ◌<◌, ◌≡◌, refl, sym, subst, ap, ap₂, ◌∙◌, false, Bool-cases, inl,
  inr, dec_lt, List, [], ◌∷◌, ◌++◌, arith, ◌==◌, min, some, slice,
}
use tinytcp.Base.Bytes.Laws.{slice-append-slice}
use tinytcp.NetErr.{net_err_ok, ok}
use tinytcp.Memblock.{Ptr}
use tinytcp.Pkt.{PktBuffer, PktManager}
use tinytcp.Pkt.View.{contents, total, AllOk, IsPacket}
use tinytcp.Pkt.Access.{
  cur_blk_remain_size, load_current, move_forward, read_loop, read, seek_loop, rewind, seek,
}
use tinytcp.Pkt.Access.Cursor.{IsCursor, room, deref-ok}
use tinytcp.Pkt.Access.Move.{Moved}
use tinytcp.Pkt.Access.Round.{round}
use tinytcp.Pkt.Access.Transfer.{Moved-IsPacket}

Moved-none : (m : PktManager) (b : PktBuffer) → IsCursor m b → Moved m b 0 b
Moved-none m b c = record {
  cursor = c;
  pos_eq = omega arith;
  list_eq = refl;
  capacity_eq = refl;
  ref_eq = refl;
}

Moved-join :
    {m : PktManager} {b b1 b2 : PktBuffer} {n k s : ℕ}
    → Moved m b n b1
    → Moved m b1 k b2
    → n + k ≡ s
    → Moved m b s b2
Moved-join v w e = record {
  cursor = w.cursor;
  pos_eq = omega (arith, w.pos_eq, v.pos_eq);
  list_eq = w.list_eq ∙ v.list_eq;
  capacity_eq = w.capacity_eq ∙ v.capacity_eq;
  ref_eq = w.ref_eq ∙ v.ref_eq;
}

seek_step :
    (fuel : ℕ) (m : PktManager) (size : ℕ) (b b1 : PktBuffer)
    → 0 < size
    → cur_blk_remain_size m b ≡ ok (room m b)
    → move_forward m (min (room m b) size) b ≡ ok b1
    → seek_loop (suc fuel) m size b ≡ seek_loop fuel m (size - min (room m b) size) b1
unfolding seek_loop
seek_step fuel m size b b1 p remain move = rw (more, remain, move)
  where
    more : (size == 0) ≡ false
    more = ground arith

seek_loop_lem :
    (fuel : ℕ) (m : PktManager) (size : ℕ) (b : PktBuffer)
    → IsPacket m b
    → IsCursor m b
    → size < fuel
    → b.pos + size ≤ b.capacity
    → (b' : PktBuffer) × (seek_loop fuel m size b ≡ ok b') × Moved m b size b'
unfolding seek_loop
seek_loop_lem zero m size b k c f h = absurd (omega arith)
seek_loop_lem (suc fuel) m zero b k c f h = (b, refl, Moved-none m b c)
seek_loop_lem (suc fuel) m (suc size) b k c f h =
    let r = round m b k c (omega arith) in
    let n = min (room m b) (suc size) in
    let (b1, moves, v) = r.move n (omega arith) in
    let (b2, runs, w) =
      seek_loop_lem fuel m (suc size - n) b1 (Moved-IsPacket v k) v.cursor
        (omega (arith, r.room_pos)) (omega (arith, v.pos_eq, v.capacity_eq, r.fit)) in
    (
      b2,
      seek_step fuel m (suc size) b b1 (omega arith) r.remain moves ∙ runs,
      Moved-join v w (omega arith),
    )

-- The cursor at the first byte.
rewind_lem :
    (m : PktManager) (b : PktBuffer)
    → IsPacket m b
    → 0 < b.capacity
    → (b' : PktBuffer) × (rewind m b ≡ ok b')
      × IsCursor m b'
      × (b'.pos ≡ 0)
      × (b'.blk_list ≡ b.blk_list)
      × (b'.capacity ≡ b.capacity)
      × (b'.ref ≡ b.ref)
unfolding rewind
rewind_lem m b k p = go b.blk_list refl
  where
    go :
        (ps : List Ptr)
        → b.blk_list ≡ ps
        → (b' : PktBuffer) × (rewind m b ≡ ok b')
          × IsCursor m b'
          × (b'.pos ≡ 0)
          × (b'.blk_list ≡ b.blk_list)
          × (b'.capacity ≡ b.capacity)
          × (b'.ref ≡ b.ref)
    go [] e = absurd (omega (arith, k.counted, ap (total m) e))
    go (q ∷ ps) e =
        let good = subst (AllOk m) e k.good in
        (
          record b { pos = 0; cur_blk = some q; blk_offset = (m.blocks q).offset },
          ground (arith, deref-ok m q, good.0.not_null),
          record {
            before = [];
            after = q ∷ ps;
            split = e;
            place = (refl, omega arith, omega (arith, good.0.nonempty), omega arith);
          },
          refl,
          refl,
          refl,
          refl,
        )

-- Where a successful `seek` leaves the buffer.
pub record Sought (m : PktManager) (b : PktBuffer) (offset : ℕ) (b' : PktBuffer) : Type 0 where
  pub cursor : IsCursor m b'
  pub pos_eq : b'.pos ≡ offset
  pub list_eq : b'.blk_list ≡ b.blk_list
  pub capacity_eq : b'.capacity ≡ b.capacity
  pub ref_eq : b'.ref ≡ b.ref

seek_back :
    (m : PktManager) (offset : ℕ) (b : PktBuffer)
    → IsPacket m b
    → offset < b.pos
    → b.pos ≤ b.capacity
    → (b' : PktBuffer) × (seek m offset b ≡ ok (net_err_ok, b')) × Sought m b offset b'
unfolding seek
seek_back m offset b k h g =
    let (b1, starts, c, zeroed, lists, caps, refs) = rewind_lem m b k (omega arith) in
    let k1 : IsPacket m b1 = record {
      good = rw lists k.good;
      distinct = rw lists k.distinct;
      counted = rw (lists, caps) k.counted;
      small = rw caps k.small;
      block_small = k.block_small;
    } in
    let (b2, runs, v) = seek_loop_lem (offset + 1) m offset b1 k1 c (omega arith) (omega arith) in
    (
      b2,
      ground arith,
      record {
        cursor = v.cursor;
        pos_eq = omega (arith, v.pos_eq);
        list_eq = v.list_eq ∙ lists;
        capacity_eq = v.capacity_eq ∙ caps;
        ref_eq = v.ref_eq ∙ refs;
      },
    )

seek_forward :
    (m : PktManager) (offset : ℕ) (b : PktBuffer)
    → IsPacket m b
    → IsCursor m b
    → b.pos ≤ offset
    → offset ≤ b.capacity
    → (b' : PktBuffer) × (seek m offset b ≡ ok (net_err_ok, b')) × Sought m b offset b'
unfolding seek seek_loop
seek_forward m offset b k c h g =
    let (b1, runs, v) =
      seek_loop_lem (offset - b.pos + 1) m (offset - b.pos) b k c (omega arith) (omega arith) in
    elim (Bool-cases (b.pos == offset)) [
      | inl e ↦ (
        b,
        ground arith,
        record {
          cursor = c;
          pos_eq = ground arith;
          list_eq = refl;
          capacity_eq = refl;
          ref_eq = refl;
        },
      )
      | inr e ↦ (
        b1,
        ground arith,
        record {
          cursor = v.cursor;
          pos_eq = omega (arith, v.pos_eq);
          list_eq = v.list_eq;
          capacity_eq = v.capacity_eq;
          ref_eq = v.ref_eq;
        },
      )
    ]

-- From a cursor on the packet `seek` to any position of the packet, its end included, succeeds and
-- puts the cursor there; list, capacity and reference count stay.
pub seek_lem :
    (m : PktManager) (offset : ℕ) (b : PktBuffer)
    → IsPacket m b
    → IsCursor m b
    → b.pos ≤ b.capacity
    → offset ≤ b.capacity
    → (b' : PktBuffer) × (seek m offset b ≡ ok (net_err_ok, b')) × Sought m b offset b'
seek_lem m offset b k c p h = elim (dec_lt offset b.pos) [
  | yes q ↦ seek_back m offset b k q p
  | no q ↦ seek_forward m offset b k c (omega arith) h
]

read_step :
    (fuel : ℕ) (m : PktManager) (dest bytes : List ℕ) (size : ℕ) (b b1 : PktBuffer)
    → 0 < size
    → cur_blk_remain_size m b ≡ ok (room m b)
    → load_current m b (min size (room m b)) ≡ ok bytes
    → move_forward m (min size (room m b)) b ≡ ok b1
    → read_loop (suc fuel) m dest size b
      ≡ read_loop fuel m (dest ++ bytes) (size - min size (room m b)) b1
unfolding read_loop
read_step fuel m dest bytes size b b1 p remain load move = rw (more, remain, load, move)
  where
    more : (size == 0) ≡ false
    more = ground arith

read_loop_lem :
    (fuel : ℕ) (m : PktManager) (dest : List ℕ) (size : ℕ) (b : PktBuffer)
    → IsPacket m b
    → IsCursor m b
    → size < fuel
    → b.pos + size ≤ b.capacity
    → (b' : PktBuffer) × (read_loop fuel m dest size b
        ≡ ok (dest ++ slice (contents m b.blk_list) b.pos size, b'))
      × Moved m b size b'
unfolding read_loop
read_loop_lem zero m dest size b k c f h = absurd (omega arith)
read_loop_lem (suc fuel) m dest zero b k c f h =
    (b, ap (λ (xs : List ℕ). ok (xs, b)) (sym (append-nil dest)), Moved-none m b c)
read_loop_lem (suc fuel) m dest (suc size) b k c f h =
    let r = round m b k c (omega arith) in
    let n = min (suc size) (room m b) in
    let xs = contents m b.blk_list in
    let (b1, moves, v) = r.move n (omega arith) in
    let (b2, runs, w) =
      read_loop_lem fuel m (dest ++ slice xs b.pos n) (suc size - n) b1 (Moved-IsPacket v k)
        v.cursor (omega (arith, r.room_pos)) (omega (arith, v.pos_eq, v.capacity_eq, r.fit)) in
    (
      b2,
      read_step fuel m dest (slice xs b.pos n) (suc size) b b1 (omega arith) r.remain
            (r.load n (omega arith)) moves
          ∙ runs
          ∙ ap (λ (ys : List ℕ). ok (ys, b2))
              (ap₂
                  (λ ps (i : ℕ).
                    (dest ++ slice xs b.pos n) ++ slice (contents m ps) i (suc size - n))
                  v.list_eq v.pos_eq
                ∙ append_assoc dest (slice xs b.pos n) (slice xs (b.pos + n) (suc size - n))
                ∙ ap (λ ys. dest ++ ys)
                    (slice-append-slice xs b.pos n (suc size - n)
                      ∙ ap (λ (t : ℕ). slice xs b.pos t) {y = suc size} (omega arith))),
      Moved-join v w (omega arith),
    )

-- `read` of at least one byte, with as many bytes behind the cursor, gives exactly those bytes of
-- the packet and moves the cursor behind them.
pub read_lem :
    (m : PktManager) (size : ℕ) (b : PktBuffer)
    → IsPacket m b
    → IsCursor m b
    → 0 < size
    → b.pos + size ≤ b.capacity
    → (b' : PktBuffer) × (read m false size b
        ≡ ok (net_err_ok, slice (contents m b.blk_list) b.pos size, b'))
      × Moved m b size b'
unfolding read
read_lem m size b k c p h =
    let (b', runs, v) = read_loop_lem (size + 1) m [] size b k c (omega arith) h in
    (b', ground (arith, k.small), v)
