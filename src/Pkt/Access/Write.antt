-- ===== src/Pkt/Access/Write.antt =====
-- `PktBuffer::write` and `PktBuffer::fill` put their bytes at the cursor and leave all else alone.
use tinytcp.Base.{
  ℕ, zero, suc, ◌+◌, ◌-◌, ◌≤◌, ◌<◌, ◌≡◌, refl, sym, subst, ap, ◌∙◌, List, ◌++◌, arith, length,
  length-take, length-drop, take, drop, ◌==◌, some, min, false,
}
use tinytcp.Base.Bytes.Laws.{take-append-drop}
use tinytcp.NetErr.{net_err_ok, net_err_size, ok}
use tinytcp.Pkt.{PktBuffer, PktManager}
use tinytcp.Pkt.View.{IsPacket, IsPacket-same}
use tinytcp.Pkt.Access.{
  cur_blk_remain_size, store_current, move_forward, source_bytes, write_loop, write,
}
use tinytcp.Pkt.Access.Cursor.{IsCursor, room}
use tinytcp.Pkt.Access.Round.{round}
use tinytcp.Pkt.Access.Transfer.{Wrote, Wrote-none, Wrote-join, Moved-IsPacket, one_round}

source_bytes-ok : (src : List ℕ) (n : ℕ) → n ≤ length src → source_bytes src n ≡ ok (take n src)
unfolding source_bytes
source_bytes-ok src n h = ground arith

-- The loop after a round that went well.
write_step :
    (fuel : ℕ) (m m1 : PktManager) (src : List ℕ) (size n : ℕ) (b b1 : PktBuffer)
    → 0 < size
    → n ≡ min size (room m b)
    → n ≤ length src
    → cur_blk_remain_size m b ≡ ok (room m b)
    → store_current m b (take n src) ≡ ok m1
    → move_forward m1 n b ≡ ok b1
    → write_loop (suc fuel) m src size b ≡ write_loop fuel m1 (drop n src) (size - n) b1
unfolding write_loop
write_step fuel m m1 src zero n b b1 p e f remain store move = absurd (omega arith)
write_step fuel m m1 src (suc size) n b b1 p e f remain store move =
    rw (more, remain, ← e, source_bytes-ok src n f, store, move)
  where
    more : (suc size == 0) ≡ false
    more = ground arith

write_loop_lem :
    (fuel : ℕ) (m : PktManager) (src : List ℕ) (size : ℕ) (b : PktBuffer)
    → IsPacket m b
    → IsCursor m b
    → size < fuel
    → b.pos + size ≤ b.capacity
    → size ≤ length src
    → (b' : PktBuffer) × (m' : PktManager) × (write_loop fuel m src size b ≡ ok (b', m'))
      × Wrote m b (take size src) b' m'
write_loop_lem zero m src size b k c f h g = absurd (omega arith)
write_loop_lem (suc fuel) m src zero b k c f h g = (b, m, ended, Wrote-none m b c)
  where
    ended : write_loop (suc fuel) m src zero b ≡ ok (b, m)
    ended = unfold write_loop in refl
write_loop_lem (suc fuel) m src (suc size) b k c f h g =
    let r = round m b k c (omega arith) in
    let n = min (suc size) (room m b) in
    let len : length (take n src) ≡ n = omega (arith, length-take n src) in
    let (b1, m1, st, moves, w) =
      one_round m b (take n src) k c (omega arith) (omega (arith, len)) in
    let (b2, m2, runs, w2) =
      write_loop_lem fuel m1 (drop n src) (suc size - n) b1
        (Moved-IsPacket w.moved (IsPacket-same w.shape b k)) w.moved.cursor
        (omega (arith, r.room_pos)) (omega (arith, w.moved.pos_eq, w.moved.capacity_eq, r.fit, len))
        (omega (arith, length-drop n src)) in
    (
      b2,
      m2,
      write_step fuel m m1 src (suc size) n b b1 (omega arith) refl (omega arith) r.remain st.runs
            (ap (λ (t : ℕ). move_forward m1 t b) (sym len) ∙ moves)
          ∙ runs,
      subst (λ xs. Wrote m b xs b2 m2) (joined src (suc size) n (omega arith))
          (Wrote-join (take n src) (take (suc size - n) (drop n src)) w w2),
    )
  where
    joined : (xs : List ℕ) (s i : ℕ) → i ≤ s → take i xs ++ take (s - i) (drop i xs) ≡ take s xs
    joined xs s i q = take-append-drop xs i (s - i) ∙ ap (λ (t : ℕ). take t xs) (omega arith)

-- With room behind the cursor `write` puts the bytes of `src` there: the packet shows them from the
-- old position on, the position is behind them, and no other block has changed.
pub write_lem :
    (m : PktManager) (src : List ℕ) (size : ℕ) (b : PktBuffer)
    → IsPacket m b
    → IsCursor m b
    → 0 < size
    → size ≤ length src
    → b.pos + size ≤ b.capacity
    → (b' : PktBuffer) × (m' : PktManager) × (write m (some src) size b ≡ ok (net_err_ok, b', m'))
      × Wrote m b (take size src) b' m'
unfolding write
write_lem m src size b k c p g h =
    let (b', m', runs, w) = write_loop_lem (size + 1) m src size b k c (omega arith) h g in
    (b', m', ground (arith, k.small), w)

-- Without the room it stores nothing.
pub write_full :
    (m : PktManager) (src : List ℕ) (size : ℕ) (b : PktBuffer)
    → IsPacket m b
    → IsCursor m b
    → b.pos ≤ b.capacity
    → b.capacity < b.pos + size
    → write m (some src) size b ≡ ok (net_err_size, b, m)
unfolding write
write_full m src size b k c p h = ground (arith, k.small)
