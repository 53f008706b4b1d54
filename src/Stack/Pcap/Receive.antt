-- ===== src/Stack/Pcap/Receive.antt =====
-- A packet that is received comes to stand in the input queue with its bytes.
use tinytcp.Base.{
  ℕ, ◌-◌, ◌*◌, ◌^◌, ◌≤◌, ◌<◌, ◌≡◌, refl, sym, ap, ◌∙◌, true, false, some, List, [], ◌∷◌, ◌++◌,
  length, take, overwrite, arith,
}
use tinytcp.Ring.Inv.{IsValid}
use tinytcp.Ring.Refine.{contents as items}
use tinytcp.Memblock.{MemBlock, Ptr, null}
use tinytcp.Memblock
use tinytcp.Memblock.Pool.{IsPool, free_list, alloc-some}
use tinytcp.NetErr.{NetErr, is_error, net_err_ok, ok}
use tinytcp.Pkt.{PktBuffer, PktManager, get_pktbuffer, reset_access}
use tinytcp.Pkt
use tinytcp.Pkt.View.{contents, IsPacket, IsPacket-same, length-contents}
use tinytcp.Pkt.Shape
use tinytcp.Pkt.Shape.Take.{AllSized, Stock}
use tinytcp.Pkt.Shape.Alloc.{contents-alloc, reset_access_lem}
use tinytcp.Pkt.Access
use tinytcp.Pkt.Access.Transfer.{Moved-IsPacket}
use tinytcp.Pkt.Access.Write.{write_lem}
use tinytcp.Stack.{World, net_exmsg_netif_in, exmsg_netif_in, get_msg_block, push_msg, msg_send}
use tinytcp.Stack.Queues.{put_buf_to_in_queue}
use tinytcp.Stack.Ether.{put_packet}
use tinytcp.Stack.Conserve.{Ready, put_buf_to_in_queue_lem}
use tinytcp.Stack.Pcap.{deliver, receive_into, recv_round}

-- The fields that a packet needs are left alone when it is handed on.
kept_put_buf_to_in_queue :
    (netif buf : Ptr) (w : World)
    → ((put_buf_to_in_queue netif buf w).1.pkt ≡ w.pkt)
      × ((put_buf_to_in_queue netif buf w).1.bufs buf ≡ w.bufs buf)
unfolding put_buf_to_in_queue exmsg_netif_in get_msg_block msg_send push_msg
kept_put_buf_to_in_queue netif buf w = (ground arith, ground arith)

overwrite_all : (xs src : List ℕ) → length xs ≡ length src → overwrite xs 0 src ≡ src
overwrite_all [] [] e = refl
overwrite_all [] (y ∷ src) e = absurd (omega (arith, e))
overwrite_all (x ∷ xs) [] e = absurd (omega (arith, e))
overwrite_all (x ∷ xs) (y ∷ src) e = ap (◌∷◌ y) (overwrite_all xs src (omega (arith, e)))

take_all : (src : List ℕ) → take (length src) src ≡ src
take_all [] = refl
take_all (y ∷ src) = ap (◌∷◌ y) (take_all src)

-- A packet in an empty buffer: what alloc, reset_access and write make of it.
record Filled (m : PktManager) (pkt_data : List ℕ) (b : PktBuffer) (m' : PktManager)
    (b' : PktBuffer) : Type 0 where
  b1 : PktBuffer
  m1 : PktManager
  b2 : PktBuffer
  allocated : Shape.alloc (length pkt_data) true false b m ≡ ok (true, b1, m1)
  started : reset_access m1 b1 ≡ ok b2
  wrote : Access.write m1 (some pkt_data) (length pkt_data) b2 ≡ ok (net_err_ok, b', m')
  packet : IsPacket m' b'
  bytes : contents m' b'.blk_list ≡ pkt_data

filled :
    (m : PktManager) (pkt_data : List ℕ) (b : PktBuffer) (ps : List Ptr)
    → Stock m ps
    → b.blk_list ≡ []
    → b.capacity ≡ 0
    → m.blk_size < 2 ^ 31
    → 0 < length pkt_data
    → length pkt_data ≤ length ps * m.blk_size
    → length pkt_data < 2 ^ 31
    → (b' : PktBuffer) × (m' : PktManager) × Filled m pkt_data b m' b'
filled m pkt_data b ps s empty zero_cap bs pos room small =
    let k : IsPacket m b = record {
      good = rw empty tt;
      distinct = rw empty tt;
      counted = rw empty zero_cap;
      small = omega (arith, zero_cap);
      block_small = bs;
    } in
    let (b1, m1, e1, a) =
      contents-alloc true (length pkt_data) b m ps s k (rw empty s.distinct) room
        (omega (arith, zero_cap)) in
    let (b2, e2, st) = reset_access_lem m1 b1 a.packet.good in
    let k2 : IsPacket m1 b2 = record {
      good = rw st.list_eq a.packet.good;
      distinct = rw st.list_eq a.packet.distinct;
      counted = rw (st.list_eq, st.capacity_eq) a.packet.counted;
      small = rw st.capacity_eq a.packet.small;
      block_small = a.packet.block_small;
    } in
    let (b3, m3, e3, w) =
      write_lem m1 pkt_data (length pkt_data) b2 k2 st.cursor pos (omega arith)
        (omega (arith, st.at_start, st.capacity_eq, a.capacity_eq)) in
    let len : length (contents m1 b2.blk_list) ≡ length pkt_data = omega (
      arith,
      length-contents m1 b2.blk_list k2.good,
      k2.counted,
      st.capacity_eq,
      a.capacity_eq,
      zero_cap,
    ) in
    (
      b3,
      m3,
      record {
        b1 = b1;
        m1 = m1;
        b2 = b2;
        allocated = e1;
        started = e2;
        wrote = e3;
        packet = Moved-IsPacket w.moved (IsPacket-same w.shape b2 k2);
        bytes =
            ap (contents m3) w.moved.list_eq
            ∙ w.written
            ∙ rw (st.at_start, take_all pkt_data)
                (overwrite_all (contents m1 b2.blk_list) pkt_data len);
      },
    )

AllSized-buf :
    (m : PktManager) (pool : MemBlock) (ps : List Ptr)
    → AllSized m ps
    → AllSized (record m { pkt_buf = pool }) ps
AllSized-buf m pool [] s = tt
AllSized-buf m pool (p ∷ ps) (real, size, s) = (real, size, AllSized-buf m pool ps s)

Stock-buf :
    (m : PktManager) (pool : MemBlock) (ps : List Ptr)
    → Stock m ps
    → Stock (record m { pkt_buf = pool }) ps
Stock-buf m pool ps s = record {
  pool = s.pool;
  free = s.free;
  distinct = s.distinct;
  sized = AllSized-buf m pool ps s.sized;
  size_pos = s.size_pos;
}

-- The interface and the stack can take a packet: each queue has room, and `p` is the next message block.
pub record Open (netif : Ptr) (w : World) (p : Ptr) (msgs : List Ptr) : Type 0 where
  pub ready : Ready w p msgs
  pub in_valid : IsValid (w.netifs netif).in_q
  pub in_room : length (items null (w.netifs netif).in_q) < (w.netifs netif).in_q.size - 1
  pub msg_room : length (items null w.msg_queue) < w.msg_queue.size - 1

-- What a round leaves that has received `pkt_data` in `buf`.
pub record Received (netif buf : Ptr) (pkt_data : List ℕ) (w : World) (p : Ptr) (w' : World)
    : Type 0 where
  pub packet : IsPacket w'.pkt (w'.bufs buf)
  pub bytes : contents w'.pkt (w'.bufs buf).blk_list ≡ pkt_data
  pub queued : items null (w'.netifs netif).in_q ≡ items null (w.netifs netif).in_q ++ buf ∷ []
  pub told : items null w'.msg_queue ≡ items null w.msg_queue ++ p ∷ []
  pub message : w'.msgs p ≡ net_exmsg_netif_in netif

receive_into_lem :
    (netif buf : Ptr) (pkt_data : List ℕ) (w : World) (b' : PktBuffer) (m' : PktManager) (p : Ptr)
    (msgs : List Ptr)
    → Filled w.pkt pkt_data (Pkt.reset (w.bufs buf)) m' b'
    → Open netif w p msgs
    → (w' : World) × (receive_into netif (length pkt_data) pkt_data buf w ≡ ok w')
      × Received netif buf pkt_data w p w'
unfolding receive_into deliver put_packet is_error
receive_into_lem netif buf pkt_data w b' m' p msgs f o =
    let w1 = put_packet buf b' m' w in
    let ready : Ready w1 p msgs = record {
      pool = o.ready.pool;
      free = o.ready.free;
      queue = o.ready.queue;
    } in
    let (w2, e, q, t, x, _) =
      put_buf_to_in_queue_lem netif buf w1 p msgs ready o.in_valid o.in_room o.msg_room in
    let (k, h) = kept_put_buf_to_in_queue netif buf w1 in
    let own : w1.bufs buf ≡ b' = ground arith in
    let k' : w2.pkt ≡ m' = ap (λ (r : NetErr × World). r.1.pkt) (sym e) ∙ k in
    let h' : w2.bufs buf ≡ b' = ap (λ (r : NetErr × World). r.1.bufs buf) (sym e) ∙ h ∙ own in
    (
      w2,
      rw (f.allocated, f.started, f.wrote, e) refl,
      record {
        packet = rw (k', h') f.packet;
        bytes = rw (k', h') f.bytes;
        queued = q;
        told = t;
        message = x;
      },
    )

-- With a free buffer whose list is empty, enough free blocks of fewer than 2^31 bytes each, and
-- room in the queues, a round of the receiving thread with a packet of at least one byte and fewer
-- than 2^31 leaves that buffer, as a well-formed packet of exactly the bytes received, as the last
-- of the interface's input queue, and a message that names the interface as the last of the stack.
pub recv_round_lem :
    (netif buf : Ptr) (bufs : List Ptr) (pkt_data : List ℕ) (w : World) (ps : List Ptr) (p : Ptr)
    (msgs : List Ptr)
    → IsPool w.pkt.pkt_buf
    → free_list w.pkt.pkt_buf ≡ buf ∷ bufs
    → (w.bufs buf).blk_list ≡ []
    → Stock w.pkt ps
    → w.pkt.blk_size < 2 ^ 31
    → 0 < length pkt_data
    → length pkt_data ≤ length ps * w.pkt.blk_size
    → length pkt_data < 2 ^ 31
    → Open netif w p msgs
    → (w' : World) × (recv_round netif (length pkt_data) pkt_data w ≡ ok w')
      × Received netif buf pkt_data w p w'
unfolding recv_round get_pktbuffer Pkt.reset
recv_round_lem netif buf bufs pkt_data w ps p msgs v free empty s bs pos room small o =
    let m1 : PktManager = record w.pkt { pkt_buf = (Memblock.alloc w.pkt.pkt_buf).1 } in
    let w1 : World = record w { pkt = m1 } in
    let (b', m', f) =
      filled m1 pkt_data (Pkt.reset (w.bufs buf)) ps
        (Stock-buf w.pkt (Memblock.alloc w.pkt.pkt_buf).1 ps s) empty refl bs pos room small in
    let o1 : Open netif w1 p msgs = record {
      ready = record { pool = o.ready.pool; free = o.ready.free; queue = o.ready.queue };
      in_valid = o.in_valid;
      in_room = o.in_room;
      msg_room = o.msg_room;
    } in
    let (w', e, r) = receive_into_lem netif buf pkt_data w1 b' m' p msgs f o1 in
    (
      w',
      rw ((alloc-some w.pkt.pkt_buf buf bufs v free).0, recv_round) e,
      record {
        packet = r.packet;
        bytes = r.bytes;
        queued = r.queued;
        told = r.told;
        message = r.message;
      },
    )
