-- ===== src/Stack/Pcap.antt =====
-- The threads of `PcapNetWork` in src/net/network.cc that receive and send: one round of each loop.
-- What libpcap gives and takes are the arguments and the result.
pub mod Receive
pub mod Send
mod Tests
use tinytcp.Base.{
  ℕ, ◌-◌, ◌+◌, Bool, true, false, Option, none, some, List, [], ◌∷◌, ◌++◌, length, leb, take,
  replicate, if◌then◌else◌,
}
use tinytcp.Memblock.{Ptr}
use tinytcp.NetErr.{NetErr, is_error, Run, ok, fault, ◌>>=◌}
use tinytcp.Pkt.{PktBuffer, PktManager, get_pktbuffer, reset_access}
use tinytcp.Pkt
use tinytcp.Pkt.Shape
use tinytcp.Pkt.Access
use tinytcp.Stack.{World, put_buf, free_known}
use tinytcp.Stack.Queues.{get_buf_from_out_queue, put_buf_to_in_queue}
use tinytcp.Stack.Ether.{put_packet}

-- A buffer that is put into the input queue, or freed where that is full.
pub deliver : (netif buf : Ptr) → World → World
deliver netif buf w =
    let (err, w') = put_buf_to_in_queue netif buf w in
    if is_error err then free_known buf w' else w'

-- The buffer once it is there: `len` bytes are written to it. One that gets no blocks stays taken.
pub receive_into : (netif : Ptr) (len : ℕ) (pkt_data : List ℕ) (buf : Ptr) → World → Run World
unfolding deliver put_packet
receive_into netif len pkt_data buf w = do
  (done, b1, m1) ← Shape.alloc len true false (Pkt.reset (w.bufs buf)) w.pkt
  if done
      then (do
        b2 ← reset_access m1 b1
        (err, b3, m3) ← Access.write m1 (some pkt_data) len b2
        ok (deliver netif buf (put_packet buf b3 m3 w)))
      else ok (put_packet buf b1 m1 w)

-- A round of `recv_func` with a packet: `len` is `pkthdr->len`.
unfoldable pub recv_round : (netif : Ptr) (len : ℕ) (pkt_data : List ℕ) → World → Run World
unfolding receive_into
recv_round netif len pkt_data w =
    let (out, m) = get_pktbuffer w.pkt in
    elim out [
      | none ↦ ok (record w { pkt = m })
      | some buf ↦ receive_into netif len pkt_data buf (record w { pkt = m })
    ]

-- `sizeof(rw_buffer)`
abbrev pub rw_buffer_size : ℕ
rw_buffer_size = 1500 + 6 + 6 + 2

-- What `read` leaves in `rw_buffer`, which was zeroed; more bytes than it holds are a fault.
unfoldable pub fill_buffer : List ℕ → Run (List ℕ)
fill_buffer bytes =
    if leb (length bytes) rw_buffer_size
    then ok (bytes ++ replicate (rw_buffer_size - length bytes) 0)
    else fault

-- What is handed to `pcap_inject`; reading past the end of `rw_buffer` is a fault.
unfoldable pub injected : (total_size : ℕ) (rw_buffer : List ℕ) → Run (List ℕ)
injected total_size rw_buffer =
    if leb total_size (length rw_buffer) then ok (take total_size rw_buffer) else fault

-- A round of `send_func`: what is injected, none if the output queue was empty.
unfoldable pub send_round : (netif : Ptr) → World → Run (Option (List ℕ) × World)
unfolding fill_buffer injected
send_round netif w = do
  (out, w1) ← get_buf_from_out_queue netif w
  elim out [
    | none ↦ ok (none, w1)
    | some buf ↦ do
      let total_size = (w1.bufs buf).capacity
      b1 ← reset_access w1.pkt (w1.bufs buf)
      (err, bytes, b2) ← Access.read w1.pkt false total_size b1
      rw_buffer ← fill_buffer bytes
      frame ← injected total_size rw_buffer
      ok (some frame, free_known buf (put_buf buf b2 w1))
  ]
