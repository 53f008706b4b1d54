-- ===== src/Stack/Pcap/Send.antt =====
-- A packet that is sent: its bytes are handed to libpcap.
use tinytcp.Base.{
  Option, ℕ, zero, suc, ◌-◌, ◌<◌, if◌then◌else◌, Bool-cases, inl, inr, false, ◌≡◌, refl, sym, ap,
  ◌∙◌, true, false, leb, some, List, [], ◌∷◌, ◌++◌, length, length-append, slice, take, replicate,
  arith,
}
use mathlib.Core.List.{append-nil}
use tinytcp.Ring
use tinytcp.Ring.Inv.{IsValid}
use tinytcp.Ring.Refine.{contents as items}
use tinytcp.Memblock.{Ptr, null}
use tinytcp.NetErr.{Run, net_err_ok, ok, fault, ◌>>=◌}
use tinytcp.Pkt.{PktBuffer, PktManager, reset_access}
use tinytcp.Pkt.View.{contents, IsPacket, length-contents}
use tinytcp.Pkt.Shape.Alloc.{AtStart, reset_access_lem}
use tinytcp.Pkt.Access
use tinytcp.Pkt.Access.Read.{read_lem}
use tinytcp.Stack.{World, Netif, put_buf, put_netif, free_known}
use tinytcp.Stack.Queues.{taken, get_buf_from_out_queue}
use tinytcp.Stack.Clear.{pop-some}
use tinytcp.Stack.Pcap.{rw_buffer_size, fill_buffer, injected, send_round}

take-append : (xs ys : List ℕ) (n : ℕ) → length xs ≡ n → take n (xs ++ ys) ≡ xs
take-append [] ys zero e = refl
take-append [] ys (suc n) e = absurd (omega (arith, e))
take-append (x ∷ xs) ys zero e = absurd (omega (arith, e))
take-append (x ∷ xs) ys (suc n) e = ap (◌∷◌ x) (take-append xs ys n (omega (arith, e)))

take_whole : (xs : List ℕ) (n : ℕ) → length xs ≡ n → take n xs ≡ xs
take_whole xs n e = ap (λ ys. take n ys) (sym (append-nil xs)) ∙ take-append xs [] n e

-- A well-formed packet as the threads see it that take it out of a queue: each starts at its first byte.
restart :
    (m : PktManager) (b : PktBuffer)
    → IsPacket m b
    → (b' : PktBuffer) × (reset_access m b ≡ ok b') × AtStart m b b' × IsPacket m b'
restart m b k =
    let (b', e, st) = reset_access_lem m b k.good in
    (
      b',
      e,
      st,
      record {
        good = rw st.list_eq k.good;
        distinct = rw st.list_eq k.distinct;
        counted = rw (st.list_eq, st.capacity_eq) k.counted;
        small = rw st.capacity_eq k.small;
        block_small = k.block_small;
      },
    )

-- The whole of a packet, read from its first byte.
read_whole :
    (m : PktManager) (b : PktBuffer)
    → IsPacket m b
    → 0 < b.capacity
    → (b1 : PktBuffer) × (b2 : PktBuffer) × (b3 : PktBuffer) × (reset_access m b ≡ ok b1)
      × (b1.capacity ≡ b.capacity)
      × (reset_access m b1 ≡ ok b2)
      × (Access.read m false b.capacity b2 ≡ ok (net_err_ok, contents m b.blk_list, b3))
read_whole m b k pos =
    let (b1, e1, s1, k1) = restart m b k in
    let (b2, e2, s2, k2) = restart m b1 k1 in
    let (b3, e3, _) =
      read_lem m b.capacity b2 k2 s2.cursor pos
        (omega (arith, s2.at_start, s2.capacity_eq, s1.capacity_eq)) in
    let len : length (contents m b.blk_list) ≡ b.capacity =
      omega (arith, length-contents m b.blk_list k.good, k.counted) in
    let bytes : slice (contents m b2.blk_list) b2.pos b.capacity ≡ contents m b.blk_list =
      rw (s2.at_start, s2.list_eq, s1.list_eq)
        (take_whole (contents m b.blk_list) b.capacity len) in
    (b1, b2, b3, e1, s1.capacity_eq, e2, e3 ∙ ap (λ xs. ok (net_err_ok, xs, b3)) bytes)

out_q-free_known : (p netif : Ptr) (w : World) → (free_known p w).netifs netif ≡ w.netifs netif
unfolding free_known
out_q-free_known p netif w = refl

-- A frame through `rw_buffer`.
abbrev framed : (bytes : List ℕ) (total_size : ℕ) → World → Run (Option (List ℕ) × World)
framed bytes total_size w' = do
  rw_buffer ← fill_buffer bytes
  frame ← injected total_size rw_buffer
  ok (some frame, w')

-- A round up to the use of `rw_buffer`.
sending :
    (netif buf : Ptr) (rest : List Ptr) (w : World)
    → IsValid (w.netifs netif).out_q
    → items null (w.netifs netif).out_q ≡ buf ∷ rest
    → IsPacket w.pkt (w.bufs buf)
    → 0 < (w.bufs buf).capacity
    → (w' : World) × (send_round netif w
        ≡ framed (contents w.pkt (w.bufs buf).blk_list) (w.bufs buf).capacity w')
      × (items null (w'.netifs netif).out_q ≡ rest)
unfolding send_round get_buf_from_out_queue taken
sending netif buf rest w v q k pos =
    let (b1, b2, b3, e1, c1, e2, e3) = read_whole w.pkt (w.bufs buf) k pos in
    let popped = pop-some (w.netifs netif).out_q buf rest v q in
    let w1 : World =
      put_netif netif (record (w.netifs netif) { out_q = (Ring.pop null (w.netifs netif).out_q).1 })
        w in
    let w2 : World = put_buf buf b1 w1 in
    let own : w2.bufs buf ≡ b1 = ground arith in
    let w3 : World = put_buf buf b3 w2 in
    (
      free_known buf w3,
      rw (popped.0, e1, own, c1, e2, e3) refl,
      ap (λ (n : Netif). items null n.out_q) (out_q-free_known buf netif w3)
          ∙ ground (arith, popped.1),
    )

through_buffer :
    (xs : List ℕ) (size : ℕ) (w' : World)
    → length xs ≡ size
    → framed xs size w' ≡ (if leb size rw_buffer_size then ok (some xs, w') else fault)
unfolding fill_buffer injected
through_buffer xs size w' len = elim (Bool-cases (leb size rw_buffer_size)) [
  | inl fits ↦
      let zeros : List ℕ = replicate (rw_buffer_size - length xs) 0 in
      let held : leb size (length (xs ++ zeros)) ≡ true = ground (arith, length-append xs zeros) in
      let all : leb (length xs) rw_buffer_size ≡ true = ground arith in
      rw (all, held, take-append xs zeros size len, fits) refl
  | inr big ↦
      let over : leb (length xs) rw_buffer_size ≡ false = ground arith in rw (over, big) refl
]

-- A round of the sending thread, where the output queue is valid and begins with a well-formed
-- packet of at least one byte: with at most 1514 bytes, exactly the bytes of the packet are handed
-- to libpcap and the packet leaves the queue; a longer packet is written past the end of the
-- thread's buffer.
pub send_round_lem :
    (netif buf : Ptr) (rest : List Ptr) (w : World)
    → IsValid (w.netifs netif).out_q
    → items null (w.netifs netif).out_q ≡ buf ∷ rest
    → IsPacket w.pkt (w.bufs buf)
    → 0 < (w.bufs buf).capacity
    → (w' : World) × (send_round netif w ≡ (
        if leb (w.bufs buf).capacity rw_buffer_size
        then ok (some (contents w.pkt (w.bufs buf).blk_list), w')
        else fault))
      × (items null (w'.netifs netif).out_q ≡ rest)
send_round_lem netif buf rest w v q k pos =
    let (w', e, r) = sending netif buf rest w v q k pos in
    let len : length (contents w.pkt (w.bufs buf).blk_list) ≡ (w.bufs buf).capacity =
      omega (arith, length-contents w.pkt (w.bufs buf).blk_list k.good, k.counted) in
    (w', e ∙ through_buffer (contents w.pkt (w.bufs buf).blk_list) (w.bufs buf).capacity w' len, r)
