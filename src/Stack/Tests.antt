-- ===== src/Stack/Tests.antt =====
-- A stack with one loop interface at address 1, and the theorems at it.
use tinytcp.Base.{◌==◌, if◌then◌else◌, ◌≡◌, refl, Option, none, [], ◌∷◌, arith}
use tinytcp.Ring.{Ring}
use tinytcp.Ring.Inv.{IsValid}
use tinytcp.Ring.Refine.{contents}
use tinytcp.Memblock.{MemBlock, Ptr, null}
use tinytcp.Memblock.Pool.{free_list}
use tinytcp.NetErr.{net_err_ok, ok}
use tinytcp.Stack.{
  World, Netif, put_netif, loop_net, netif_type_loop, netif_active, net_exmsg_netif_in,
  net_exmsg_timer_fun,
}
use tinytcp.Stack.Queues.{put_buf_to_in_queue, clear_in_queue}
use tinytcp.Stack.Network.{find_netif_by_name}
use tinytcp.Stack.Network.Find.{FirstOther, find_netif_by_name_lem}
use tinytcp.Stack.Clear.{clear_in_queue_lem}
use tinytcp.Stack.Conserve.{put_buf_to_in_queue_lem, put_buf_to_in_queue-lost}

-- Room for one item, and one item.
abbrev pub empty_ring : Ring Ptr
empty_ring = record {
  size = 2;
  length = 0;
  read_index = 0;
  write_index = 0;
  last_write_index = 0;
  queue = 0 ∷ 0 ∷ [];
}

abbrev pub full_ring : Ring Ptr
full_ring = record {
  size = 2;
  length = 1;
  read_index = 0;
  write_index = 1;
  last_write_index = 1;
  queue = 70 ∷ 0 ∷ [];
}

pub empty-IsValid : IsValid empty_ring
empty-IsValid = record {
  log = 1;
  log_pos = omega arith;
  log_le = omega arith;
  size_eq = refl;
  storage = refl;
  confirmed = refl;
  read_in = omega arith;
  write_in = omega arith;
  counted = refl;
  room = omega arith;
}

pub full-IsValid : IsValid full_ring
full-IsValid = record {
  log = 1;
  log_pos = omega arith;
  log_le = omega arith;
  size_eq = refl;
  storage = refl;
  confirmed = refl;
  read_in = omega arith;
  write_in = omega arith;
  counted = refl;
  room = omega arith;
}

abbrev pool : MemBlock
pool = record { block_size = 16; queue = full_ring }

-- One free message block, and `q` as the message queue.
abbrev pub world : Ring Ptr → World
world q = record {
  pkt = record {
    blk_size = 4;
    blocks = λ p. record { size = 0; offset = 0; payload = [] };
    pkt_blk = pool;
    pkt_buf = pool;
  };
  bufs =
      λ p. record { capacity = 0; blk_list = []; pos = 0; cur_blk = none; blk_offset = 0; ref = 1 };
  buffers = 9 ∷ 70 ∷ [];
  netifs = λ p. record {
    class = loop_net;
    name = [];
    hwaddr = [];
    ipaddr = record { a_addr = 127 ∷ 0 ∷ 0 ∷ 1 ∷ [] };
    netmask = record { a_addr = 255 ∷ 0 ∷ 0 ∷ 0 ∷ [] };
    type = netif_type_loop;
    mtu = 0;
    state = netif_active;
    in_q = empty_ring;
    out_q = empty_ring;
  };
  msgs = λ p. net_exmsg_timer_fun none;
  mem_block = pool;
  msg_queue = q;
  timer_mem_block = pool;
  netif_list = 1 ∷ [];
  default_netif = none;
}

put_buf_to_in_queue_lem_example :
    (w' : World) × (put_buf_to_in_queue 1 9 (world empty_ring) ≡ (net_err_ok, w'))
    × (contents null (w'.netifs 1).in_q ≡ 9 ∷ [])
    × (contents null w'.msg_queue ≡ 70 ∷ [])
    × (w'.msgs 70 ≡ net_exmsg_netif_in 1)
    × (free_list w'.mem_block ≡ [])
put_buf_to_in_queue_lem_example =
    put_buf_to_in_queue_lem 1 9 (world empty_ring) 70 []
      (record { pool = full-IsValid; free = refl; queue = empty-IsValid }) empty-IsValid
      (omega arith) (omega arith)

put_buf_to_in_queue-lost_example :
    (w' : World) × (put_buf_to_in_queue 1 9 (world full_ring) ≡ (net_err_ok, w'))
    × (contents null w'.msg_queue ≡ 70 ∷ [])
    × (free_list w'.mem_block ≡ [])
put_buf_to_in_queue-lost_example =
    put_buf_to_in_queue-lost 1 9 (world full_ring) 70 []
      (record { pool = full-IsValid; free = refl; queue = full-IsValid }) empty-IsValid
      (omega arith) refl

-- The same with a packet in the interface's input queue.
abbrev busy : World
busy = put_netif 1 (record ((world empty_ring).netifs 1) { in_q = full_ring }) (world empty_ring)

clear_in_queue_lem_example :
    (w' : World) × (clear_in_queue 1 busy ≡ ok w')
    × IsValid (w'.netifs 1).in_q
    × (contents null (w'.netifs 1).in_q ≡ [])
clear_in_queue_lem_example = clear_in_queue_lem 1 busy full-IsValid (refl, tt)

-- Interfaces 1 and 2 have the names 7 and 8; asked for 7, the search ends at 2.
abbrev names : Ptr → Netif
names p = record ((world empty_ring).netifs p) { name = if p == 1 then 7 ∷ [] else 8 ∷ [] }

find_netif_by_name_lem_example :
    (o : Option Ptr) × (find_netif_by_name names (7 ∷ []) (1 ∷ 2 ∷ []) ≡ ok o)
    × FirstOther names (7 ∷ []) (1 ∷ 2 ∷ []) o
find_netif_by_name_lem_example =
    find_netif_by_name_lem names (7 ∷ []) (1 ∷ 2 ∷ []) (omega arith, (omega arith, tt))
