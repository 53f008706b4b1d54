-- ===== src/Pkt/Access/Fill.antt =====
-- `PktBuffer::fill` repeats one byte from the cursor on.
use tinytcp.Base.{
  ℕ, zero, suc, ◌+◌, ◌-◌, ◌≤◌, ◌<◌, ◌≡◌, refl, sym, subst, ap, ◌∙◌, false, ◌++◌, ◌∷◌, arith, length,
  length-replicate, replicate, ◌==◌, min,
}
use tinytcp.NetErr.{net_err_ok, ok}
use tinytcp.Pkt.{PktBuffer, PktManager}
use tinytcp.Pkt.View.{IsPacket, IsPacket-same}
use tinytcp.Pkt.Access.{cur_blk_remain_size, store_current, move_forward, fill_loop, fill}
use tinytcp.Pkt.Access.Cursor.{IsCursor, room}
use tinytcp.Pkt.Access.Round.{round}
use tinytcp.Pkt.Access.Transfer.{Wrote, Wrote-none, Wrote-join, Moved-IsPacket, one_round}

fill_step :
    (fuel : ℕ) (m m1 : PktManager) (v size : ℕ) (b b1 : PktBuffer)
    → 0 < size
    → cur_blk_remain_size m b ≡ ok (room m b)
    → store_current m b (replicate (min size (room m b)) v) ≡ ok m1
    → move_forward m1 (min size (room m b)) b ≡ ok b1
    → fill_loop (suc fuel) m v size b ≡ fill_loop fuel m1 v (size - min size (room m b)) b1
unfolding fill_loop
fill_step fuel m m1 v size b b1 p remain store move = rw (more, remain, store, move)
  where
    more : (size == 0) ≡ false
    more = ground arith

replicate-append : (i j : ℕ) (v : ℕ) → replicate i v ++ replicate j v ≡ replicate (i + j) v
replicate-append zero j v = ap (λ (t : ℕ). replicate t v) (omega arith)
replicate-append (suc i) j v =
    ap (◌∷◌ v) (replicate-append i j v)
    ∙ ap (λ (t : ℕ). replicate t v) {x = suc (i + j)} (omega arith)

fill_loop_lem :
    (fuel : ℕ) (m : PktManager) (v size : ℕ) (b : PktBuffer)
    → IsPacket m b
    → IsCursor m b
    → size < fuel
    → b.pos + size ≤ b.capacity
    → (b' : PktBuffer) × (m' : PktManager) × (fill_loop fuel m v size b ≡ ok (b', m'))
      × Wrote m b (replicate size v) b' m'
unfolding fill_loop
fill_loop_lem zero m v size b k c f h = absurd (omega arith)
fill_loop_lem (suc fuel) m v zero b k c f h = (b, m, refl, Wrote-none m b c)
fill_loop_lem (suc fuel) m v (suc size) b k c f h =
    let r = round m b k c (omega arith) in
    let n = min (suc size) (room m b) in
    let len : length (replicate n v) ≡ n = length-replicate n v in
    let (b1, m1, st, moves, w) =
      one_round m b (replicate n v) k c (omega arith) (omega (arith, len)) in
    let (b2, m2, runs, w2) =
      fill_loop_lem fuel m1 v (suc size - n) b1 (Moved-IsPacket w.moved (IsPacket-same w.shape b k))
        w.moved.cursor (omega (arith, r.room_pos))
        (omega (arith, w.moved.pos_eq, w.moved.capacity_eq, r.fit, len)) in
    (
      b2,
      m2,
      fill_step fuel m m1 v (suc size) b b1 (omega arith) r.remain st.runs
            (ap (λ (t : ℕ). move_forward m1 t b) (sym len) ∙ moves)
          ∙ runs,
      subst (λ xs. Wrote m b xs b2 m2) (joined (suc size) n (omega arith))
          (Wrote-join (replicate n v) (replicate (suc size - n) v) w w2),
    )
  where
    joined : (s i : ℕ) → i ≤ s → replicate i v ++ replicate (s - i) v ≡ replicate s v
    joined s i q = replicate-append i (s - i) v ∙ ap (λ (t : ℕ). replicate t v) (omega arith)

-- With room behind the cursor `fill` writes `size` copies of the byte there.
pub fill_lem :
    (m : PktManager) (v size : ℕ) (b : PktBuffer)
    → IsPacket m b
    → IsCursor m b
    → 0 < size
    → b.pos + size ≤ b.capacity
    → (b' : PktBuffer) × (m' : PktManager) × (fill m v size b ≡ ok (net_err_ok, b', m'))
      × Wrote m b (replicate size v) b' m'
unfolding fill
fill_lem m v size b k c p h =
    let (b', m', runs, w) = fill_loop_lem (size + 1) m v size b k c (omega arith) h in
    (b', m', ground (arith, k.small), w)
