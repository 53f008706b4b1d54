-- ===== src/Stack/Ether.antt =====
-- The link layer of src/net/netif.cc and the ARP request of src/net/arp.cc; the packet formats of
-- src/net/link_layer.h and src/net/arp.h.
use tinytcp.Base.{
  ℕ, ◌+◌, ◌-◌, ◌/◌, ◌%◌, Bool, true, false, ◌&&◌, Option, none, some, List, [], ◌∷◌, ◌++◌, ltb,
  ◌==◌, if◌then◌else◌, take, replicate,
}
use tinytcp.Memblock.{Ptr}
use tinytcp.NetErr.{NetErr, net_err_ok, net_err_size, net_err_none, is_error, Run, ok, fault, ◌>>=◌}
use tinytcp.Pkt.{
  PktBuffer, PktManager, get_pktbuffer, get_data, reset_access, load_bytes, store_bytes,
}
use tinytcp.Pkt
use tinytcp.Pkt.Shape
use tinytcp.Pkt.Shape.{alloc_header}
use tinytcp.Pkt.Resize.{resize, set_cont_header}
use tinytcp.Pkt.Access
use tinytcp.Pkt.Access.{seek}
use tinytcp.Ipaddr.{Ipaddr, same_addr}
use tinytcp.Endian.{host_to_net}
use tinytcp.Stack.{loop_net, ether_net, NetifType, netif_type_loop, World, put_buf, free_known}
use tinytcp.Stack.Queues.{get_buf_from_out_queue, put_buf_to_in_queue, put_buf_to_out_queue}

-- `sizeof(ether_hdr_t)`, `ETHER_DATA_MIN`, `ETHER_MTU` and `sizeof(arp_pkt_t)`
abbrev pub ether_hdr_size : ℕ
ether_hdr_size = 14

abbrev pub ether_data_min : ℕ
ether_data_min = 46

abbrev pub ether_mtu : ℕ
ether_mtu = 1500

abbrev pub arp_pkt_size : ℕ
arp_pkt_size = 28

abbrev pub net_protocol_arp : ℕ
net_protocol_arp = 2054

abbrev pub net_protocol_ipv4 : ℕ
net_protocol_ipv4 = 2048

pub ether_broadcast_addr : List ℕ
ether_broadcast_addr = replicate 6 255

-- The two bytes of a 16-bit field on a little-endian host.
pub word_bytes : ℕ → List ℕ
word_bytes v = v % 256 ∷ v / 256 ∷ []

pub is_pkt_ok : (total_size : ℕ) → NetErr
is_pkt_ok total_size =
    if ltb (ether_hdr_size + ether_mtu) total_size
    then net_err_size
    else if ltb total_size ether_hdr_size
    then net_err_size
    else net_err_ok

-- A change of the blocks and of one buffer.
unfoldable pub put_packet : Ptr → PktBuffer → PktManager → World → World
put_packet p b pkt w = put_buf p b (record w { pkt = pkt })

-- `EtherNet::link_in`; the protocol is read, and each case only logs it.
pub ether_link_in : (buf : Ptr) → World → Run (NetErr × World)
unfolding is_pkt_ok put_packet
ether_link_in buf w = do
  (done, b, pkt) ← set_cont_header ether_hdr_size (w.bufs buf) w.pkt
  frame ← get_data pkt b
  let w1 = put_packet buf b pkt w
  if is_error (is_pkt_ok b.capacity) then ok (is_pkt_ok b.capacity, w1) else elim frame [
    | none ↦ fault
    | some (p, at) ↦ do protocol ← load_bytes pkt p (at + 12) 2; ok (net_err_ok, w1)
  ]

-- `link_in`, by the class of the interface.
pub link_in : (netif buf : Ptr) → World → Run (NetErr × World)
unfolding ether_link_in
link_in netif buf w = elim (w.netifs netif).class [
  | loop_net ↦ ok (net_err_ok, w)
  | ether_net ↦ ether_link_in buf w
]

pub same_bytes : List ℕ → List ℕ → Bool
same_bytes [] [] = true
same_bytes [] (y ∷ ys) = false
same_bytes (x ∷ xs) [] = false
same_bytes (x ∷ xs) (y ∷ ys) = (x == y) && same_bytes xs ys

-- The first part of `ether_raw_out`: short packets grow to the least size, filled with zeros. What
-- `seek` and `fill` return is not looked at.
pub pad : (buf : Ptr) → PktBuffer → PktManager → Run (NetErr × PktBuffer × PktManager)
pad buf b m =
    if ltb b.capacity ether_data_min
    then (do
      (err, b1, m1) ← resize buf ether_data_min b m
      if is_error err then ok (err, b1, m1) else (do
        b2 ← reset_access m1 b1
        (sought, b3) ← seek m1 b.capacity b2
        (filled, b4, m4) ← Access.fill m1 0 (ether_data_min - b.capacity) b3
        ok (net_err_ok, b4, m4)))
    else ok (net_err_ok, b, m)

-- The Ethernet header as bytes.
pub ether_hdr : (protocol : ℕ) (dest src : List ℕ) → List ℕ
unfolding word_bytes
ether_hdr protocol dest src = take 6 dest ++ (take 6 src ++ word_bytes (host_to_net protocol))

-- The last part: to the own input queue, or to the output queue; `EtherNet::send` does nothing.
pub ether_queue : (netif : Ptr) (dest : List ℕ) (buf : Ptr) → World → NetErr × World
unfolding same_bytes
ether_queue netif dest buf w =
    if same_bytes (take 6 (w.netifs netif).hwaddr) (take 6 dest)
    then put_buf_to_in_queue netif buf w
    else put_buf_to_out_queue netif buf w

-- `EtherNet::ether_raw_out`
pub ether_raw_out :
    (netif : Ptr) (protocol : ℕ) (dest : List ℕ) (buf : Ptr) → World → Run (NetErr × World)
unfolding pad ether_hdr put_packet ether_queue
ether_raw_out netif protocol dest buf w = do
  (padded, b1, m1) ← pad buf (w.bufs buf) w.pkt
  if is_error padded then ok (padded, put_packet buf b1 m1 w) else (do
    (err, b2, m2) ← alloc_header ether_hdr_size true b1 m1
    if is_error err then ok (err, put_packet buf b2 m2 w) else (do
      frame ← get_data m2 b2
      elim frame [
        | none ↦ fault
        | some (p, at) ↦ do
          m3 ← store_bytes m2 p at (ether_hdr protocol dest (w.netifs netif).hwaddr)
          ok (ether_queue netif dest buf (put_packet buf b2 m3 w))
      ]))

-- `arp_pkt_t` of a request, as bytes.
pub arp_request : (hwaddr : List ℕ) (ip dest : Ipaddr) → List ℕ
unfolding word_bytes
arp_request hwaddr ip dest =
    word_bytes (host_to_net 1)
    ++ (word_bytes (host_to_net net_protocol_ipv4)
        ++ (6
            ∷ 4
            ∷ (word_bytes (host_to_net 1)
                ++ (take 6 hwaddr ++ (take 4 ip.a_addr ++ (replicate 6 0 ++ take 4 dest.a_addr))))))

-- `ARPProcessor::make_request`; its fields are stored at once.
pub make_request : (netif : Ptr) (dest : Ipaddr) → World → Run (Option Ptr × World)
unfolding arp_request put_packet
make_request netif dest w =
    let (out, m) = get_pktbuffer w.pkt in
    elim out [
      | none ↦ ok (none, record w { pkt = m })
      | some buf ↦ do
        (done, b1, m1) ← Shape.alloc arp_pkt_size true false (Pkt.reset (w.bufs buf)) m
        if done
            then (do
              (err, b2, m2) ← set_cont_header arp_pkt_size b1 m1
              frame ← get_data m2 b2
              elim frame [
                | none ↦ fault
                | some (p, at) ↦ do
                  m3 ←
                      store_bytes m2 p at
                        (arp_request (w.netifs netif).hwaddr (w.netifs netif).ipaddr dest)
                  ok (some buf, put_packet buf b2 m3 w)
              ])
            else ok (none, free_known buf (put_packet buf b1 m1 w))
    ]

-- `EtherNet::make_arp_request`
pub make_arp_request : (netif : Ptr) (dest : Ipaddr) → World → Run (NetErr × World)
unfolding make_request ether_raw_out
make_arp_request netif dest w = do
  (out, w1) ← make_request netif dest w
  elim out [
    | none ↦ ok (net_err_none, w1)
    | some buf ↦ do
      (err, w2) ← ether_raw_out netif net_protocol_arp ether_broadcast_addr buf w1
      ok (err, if is_error err then free_known buf w2 else w2)
  ]

-- `EtherNet::link_out`
pub ether_link_out : (netif : Ptr) (ip : Ipaddr) (buf : Ptr) → World → Run (NetErr × World)
unfolding ether_raw_out make_arp_request
ether_link_out netif ip buf w =
    if same_addr (w.netifs netif).ipaddr ip
    then (do
      (err, w1) ← ether_raw_out netif net_protocol_arp ether_broadcast_addr buf w
      ok (err, if is_error err then free_known buf w1 else w1))
    else make_arp_request netif ip w

-- `LoopNet::send`: what went out comes in.
pub loop_send : (netif : Ptr) → World → Run (NetErr × World)
loop_send netif w = do
  (out, w1) ← get_buf_from_out_queue netif w
  elim out [
    | none ↦ ok (net_err_ok, w1)
    | some buf ↦
        let (err, w2) = put_buf_to_in_queue netif buf w1 in
        ok (err, if is_error err then free_known buf w2 else w2)
  ]

-- `send` and `link_out`, by the class.
pub send : (netif : Ptr) → World → Run (NetErr × World)
unfolding loop_send
send netif w = elim (w.netifs netif).class [
  | loop_net ↦ loop_send netif w
  | ether_net ↦ ok (net_err_ok, w)
]

pub link_out : (netif : Ptr) (ip : Ipaddr) (buf : Ptr) → World → Run (NetErr × World)
unfolding ether_link_out
link_out netif ip buf w = elim (w.netifs netif).class [
  | loop_net ↦ ok (net_err_ok, w)
  | ether_net ↦ ether_link_out netif ip buf w
]

unfoldable pub is_loop : NetifType → Bool
is_loop netif_type_loop = true
is_loop _ = false

-- `INetIF::netif_out`
pub netif_out : (netif : Ptr) (ip : Ipaddr) (buf : Ptr) → World → Run (NetErr × World)
unfolding link_out send is_loop
netif_out netif ip buf w =
    if is_loop (w.netifs netif).type
    then (let (err, w1) = put_buf_to_out_queue netif buf w in
        if is_error err then ok (err, w1) else send netif w1)
    else link_out netif ip buf w
