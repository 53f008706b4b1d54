-- ===== src/Stack/Pcap/Tests.antt =====
-- A frame of five bytes that is received into blocks of two bytes, and packets that are sent.
use tinytcp.Base.{ℕ, ◌≡◌, refl, none, some, List, [], ◌∷◌, arith}
use tinytcp.Ring.{Ring}
use tinytcp.Ring.Inv.{IsValid}
use tinytcp.Ring.Refine.{contents as items}
use tinytcp.Memblock.{Ptr, null}
use tinytcp.NetErr.{ok}
use tinytcp.Pkt.{PktManager}
use tinytcp.Pkt.Shape.Take.{Stock}
use tinytcp.Stack.{World, put_netif}
use tinytcp.Stack.Tests.{empty_ring, full_ring, empty-IsValid, full-IsValid, world}
use tinytcp.Stack.Pcap.{recv_round, send_round}
use tinytcp.Stack.Pcap.Receive.{Received, recv_round_lem}
use tinytcp.Stack.Pcap.Send.{send_round_lem}

-- Blocks 1, 2 and 3 are free.
abbrev three_ring : Ring Ptr
three_ring = record {
  size = 4;
  length = 3;
  read_index = 0;
  write_index = 3;
  last_write_index = 3;
  queue = 1 ∷ 2 ∷ 3 ∷ 0 ∷ [];
}

three-IsValid : IsValid three_ring
three-IsValid = record {
  log = 2;
  log_pos = omega arith;
  log_le = omega arith;
  size_eq = refl;
  storage = refl;
  confirmed = refl;
  read_in = omega arith;
  write_in = omega arith;
  counted = refl;
  room = omega arith;
}

abbrev blocks_of_two : PktManager
blocks_of_two = record {
  blk_size = 2;
  blocks = λ p. record { size = 0; offset = 0; payload = 0 ∷ 0 ∷ [] };
  pkt_blk = record { block_size = 2; queue = three_ring };
  pkt_buf = record { block_size = 2; queue = full_ring };
}

two-Stock : Stock blocks_of_two (1 ∷ 2 ∷ 3 ∷ [])
two-Stock = record {
  pool = three-IsValid;
  free = refl;
  distinct = (refl, (refl, (refl, tt)));
  sized = (omega arith, refl, (omega arith, refl, (omega arith, refl, tt)));
  size_pos = omega arith;
}

abbrev receiver : World
receiver = record (world empty_ring) { pkt = blocks_of_two }

recv_round_lem_example :
    (w' : World) × (recv_round 1 5 (10 ∷ 11 ∷ 12 ∷ 13 ∷ 14 ∷ []) receiver ≡ ok w')
    × Received 1 70 (10 ∷ 11 ∷ 12 ∷ 13 ∷ 14 ∷ []) receiver 70 w'
recv_round_lem_example =
    recv_round_lem 1 70 [] (10 ∷ 11 ∷ 12 ∷ 13 ∷ 14 ∷ []) receiver (1 ∷ 2 ∷ 3 ∷ []) 70 []
      full-IsValid refl refl two-Stock (omega arith) (omega arith) (omega arith) (omega arith)
      (record {
        ready = record { pool = full-IsValid; free = refl; queue = empty-IsValid };
        in_valid = empty-IsValid;
        in_room = omega arith;
        msg_room = omega arith;
      })

-- Packet 70 of `size` bytes in block 1, which has `payload`, in the output queue.
abbrev sender : (size : ℕ) (payload : List ℕ) → World
sender size payload =
    put_netif 1 (record ((world empty_ring).netifs 1) { out_q = full_ring })
      (record (world empty_ring) {
        pkt = record {
          blk_size = size;
          blocks = λ p. record { size = size; offset = 0; payload = payload };
          pkt_blk = record { block_size = size; queue = three_ring };
          pkt_buf = record { block_size = 2; queue = empty_ring };
        };
        bufs = λ p. record {
          capacity = size;
          blk_list = 1 ∷ [];
          pos = 0;
          cur_blk = none;
          blk_offset = 0;
          ref = 1;
        };
      })

send_round_lem_example :
    (w' : World) × (send_round 1 (sender 3 (5 ∷ 6 ∷ 7 ∷ [])) ≡ ok (some (5 ∷ 6 ∷ 7 ∷ []), w'))
    × (items null (w'.netifs 1).out_q ≡ [])
send_round_lem_example =
    send_round_lem 1 70 [] (sender 3 (5 ∷ 6 ∷ 7 ∷ [])) full-IsValid refl
      (record {
        good = (
          record {
            not_null = omega arith;
            nonempty = omega arith;
            inside = omega arith;
            sized = refl;
          },
          tt,
        );
        distinct = (refl, tt);
        counted = refl;
        small = omega arith;
        block_small = omega arith;
      })
      (omega arith)
