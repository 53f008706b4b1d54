-- ===== src/Stack.antt =====
-- src/net/protocol_stack.cc, src/net/exmsg.h, the message blocks of src/net/net.cc, and the data of
-- src/net/netif.h and src/net/network.h: what the threads of the stack share, in one record.
-- A handler is the call of one thread, run without interruption.
pub mod Queues
pub mod Ether
pub mod Network
pub mod Conserve
pub mod Clear
pub mod Pcap
pub mod Open
mod Tests
use tinytcp.Base.{ℕ, Bool, true, false, Option, none, some, List, ◌==◌, if◌then◌else◌}
use tinytcp.Ring
use tinytcp.Ring.{Ring}
use tinytcp.Memblock
use tinytcp.Memblock.{MemBlock, Ptr}
use tinytcp.NetErr.{NetErr, net_err_ok, net_err_mem, Run, ok, fault}
use tinytcp.Pkt.{PktBuffer, PktManager}
use tinytcp.Pkt.View.{has}
use tinytcp.Pkt.Shape
use tinytcp.Ipaddr.{Ipaddr}
use tinytcp.Timer.{Callback}

-- The two classes that implement `INetIF`.
pub data Class : Type 0 where
  loop_net ether_net : Class

-- `netif_type_t`
pub data NetifType : Type 0 where
  netif_type_none netif_type_ether netif_type_loop : NetifType

-- `NETIF_STATE`
pub data NetifState : Type 0 where
  netif_closed netif_opened netif_active : NetifState

-- `INetIF`; `hwaddr` is the first six bytes of the hardware address.
pub record Netif : Type 0 where
  pub class : Class
  pub name : List ℕ
  pub hwaddr : List ℕ
  pub ipaddr : Ipaddr
  pub netmask : Ipaddr
  pub type : NetifType
  pub mtu : ℕ
  pub state : NetifState
  pub in_q : Ring Ptr
  pub out_q : Ring Ptr

-- `exmsg_t`, by its tag.
pub data Exmsg : Type 0 where
  net_exmsg_netif_in : (netif : Ptr) → Exmsg
  net_exmsg_timer_fun : (func : Option Callback) → Exmsg

-- The heap, the pools and queues of `ProtocolStack`, and `INetWork`. `buffers` are the addresses at
-- which a `PktBuffer` lies.
pub record World : Type 0 where
  pub pkt : PktManager
  pub bufs : Ptr → PktBuffer
  pub buffers : List Ptr
  pub netifs : Ptr → Netif
  pub msgs : Ptr → Exmsg
  pub mem_block : MemBlock
  pub msg_queue : Ring Ptr
  pub timer_mem_block : MemBlock
  pub netif_list : List Ptr
  pub default_netif : Option Ptr

abbrev pub put_buf : Ptr → PktBuffer → World → World
put_buf p b w = record w { bufs = λ q. if q == p then b else w.bufs q }

abbrev pub put_netif : Ptr → Netif → World → World
put_netif p n w = record w { netifs = λ q. if q == p then n else w.netifs q }

abbrev pub put_msg : Ptr → Exmsg → World → World
put_msg p x w = record w { msgs = λ q. if q == p then x else w.msgs q }

-- `buf->free()` of a buffer that the caller has followed before, or has got from the pool.
unfoldable pub free_known : Ptr → World → World
free_known p w =
    let (b, pkt) = Shape.free p (w.bufs p) w.pkt in put_buf p b (record w { pkt = pkt })

-- `pktbuf->free()` of a pointer that nothing has tested: a null or dangling one is followed.
unfoldable pub free_buf : Ptr → World → Run World
unfolding free_known
free_buf p w = if has p w.buffers then ok (free_known p w) else fault

-- `IProtocolStack::get_msg_block`
pub get_msg_block : World → Option Ptr × World
get_msg_block w =
    let (out, pool) = Memblock.alloc w.mem_block in (out, record w { mem_block = pool })

-- `IProtocolStack::release_msg_block`
pub release_msg_block : Ptr → World → World
release_msg_block p w = record w { mem_block = (Memblock.free p w.mem_block).1 }

-- `IProtocolStack::push_msg`; the timeout is not used.
pub push_msg : Ptr → World → NetErr × World
push_msg p w =
    let (done, q) = Ring.push w.msg_queue p in
    (if done then net_err_ok else net_err_mem, record w { msg_queue = q })

-- `INetWork::msg_send`, which does not look at what `push_msg` returns.
pub msg_send : Ptr → World → NetErr × World
msg_send p w = (net_err_ok, (push_msg p w).1)

-- `INetWork::exmsg_netif_in`; `msg_send` returns no error, so that its branch is not reached.
pub exmsg_netif_in : (netif : Ptr) → World → NetErr × World
exmsg_netif_in netif w =
    let (out, w1) = get_msg_block w in
    elim out [
      | none ↦ (net_err_mem, w1)
      | some p ↦ msg_send p (put_msg p (net_exmsg_netif_in netif) w1)
    ]

-- `ProtocolStack::get_timer_msg_block`
pub get_timer_msg_block : World → Option Ptr × World
get_timer_msg_block w =
    let (out, pool) = Memblock.alloc w.timer_mem_block in
    let w1 = record w { timer_mem_block = pool } in
    elim out [ none ↦ (none, w1) | some p ↦ (some p, put_msg p (net_exmsg_timer_fun none) w1) ]

-- `ProtocolStack::release_timer_msg_block` of a pointer that is not null.
pub release_timer_msg_block : Ptr → World → World
release_timer_msg_block p w = record w { timer_mem_block = (Memblock.free p w.timer_mem_block).1 }

-- The body of the loop over the callbacks in `timer_thread_func`.
pub post_timer : Option Callback → World → World
post_timer cb w =
    let (out, w1) = get_timer_msg_block w in
    elim out [
      | none ↦ w1
      | some p ↦
          let (err, w2) = push_msg p (put_msg p (net_exmsg_timer_fun cb) w1) in
          elim err [ net_err_ok ↦ w2 | _ ↦ release_timer_msg_block p w2 ]
    ]
