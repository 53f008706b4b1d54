-- ===== src/Pkt/Resize/Grow/Tests.antt =====
-- Packets that grow: one of 28 bytes in a block of 128, and one whose block is filled.
use tinytcp.Base.{ℕ, ◌≡◌, refl, [], ◌∷◌, arith, none, replicate}
use tinytcp.Ring.{Ring}
use tinytcp.Ring.Inv.{IsValid}
use tinytcp.Memblock.{Ptr}
use tinytcp.NetErr.{net_err_ok, ok}
use tinytcp.Pkt.{PktBuffer, PktManager}
use tinytcp.Pkt.Shape.Take.{Stock}
use tinytcp.Pkt.Resize.{resize}
use tinytcp.Pkt.Resize.Grow.{Grown, resize-added, resize_lem}

-- Blocks 3 and 4 are free.
abbrev two_ring : Ring Ptr
two_ring = record {
  size = 4;
  length = 2;
  read_index = 0;
  write_index = 2;
  last_write_index = 2;
  queue = 3 ∷ 4 ∷ 0 ∷ 0 ∷ [];
}

two-IsValid : IsValid two_ring
two-IsValid = record {
  log = 2;
  log_pos = omega arith;
  log_le = omega arith;
  size_eq = refl;
  storage = refl;
  confirmed = refl;
  read_in = omega arith;
  write_in = omega arith;
  counted = refl;
  room = omega arith;
}

-- Every block has `size` bytes in use.
abbrev blocks_of : (blk_size size : ℕ) → PktManager
blocks_of blk_size size = record {
  blk_size = blk_size;
  blocks = λ p. record { size = size; offset = 0; payload = replicate blk_size 7 };
  pkt_blk = record { block_size = blk_size; queue = two_ring };
  pkt_buf = record { block_size = blk_size; queue = two_ring };
}

-- A packet in block 1.
abbrev packet_of : (capacity : ℕ) → PktBuffer
packet_of capacity = record {
  capacity = capacity;
  blk_list = 1 ∷ [];
  pos = 0;
  cur_blk = none;
  blk_offset = 0;
  ref = 1;
}

-- The padding of an ARP packet: 46 bytes are asked for, and 74 come.
resize-added_example :
    (b' : PktBuffer) × (m' : PktManager) × (resize 9 46 (packet_of 28) (blocks_of 128 28)
      ≡ ok (net_err_ok, b', m'))
    × Grown (blocks_of 128 28) (packet_of 28) 46 b' m'
resize-added_example =
    resize-added 9 1 [] 46 (packet_of 28) (blocks_of 128 28)
      (record {
        good = (
          record {
            not_null = omega arith;
            nonempty = omega arith;
            inside = omega arith;
            sized = refl;
          },
          tt,
        );
        distinct = (refl, tt);
        counted = refl;
        small = omega arith;
        block_small = omega arith;
      })
      refl (omega arith) (omega arith) (omega arith) (omega arith)

four-Stock : Stock (blocks_of 4 3) (3 ∷ 4 ∷ [])
four-Stock = record {
  pool = two-IsValid;
  free = refl;
  distinct = (refl, (refl, tt));
  sized = (omega arith, refl, (omega arith, refl, tt));
  size_pos = omega arith;
}

resize_lem_example :
    (b' : PktBuffer) × (m' : PktManager) × (resize 9 10 (packet_of 3) (blocks_of 4 3)
      ≡ ok (net_err_ok, b', m'))
    × Grown (blocks_of 4 3) (packet_of 3) 7 b' m'
resize_lem_example =
    resize_lem 9 1 [] 10 (packet_of 3) (blocks_of 4 3) (3 ∷ 4 ∷ [])
      (record {
        good = (
          record {
            not_null = omega arith;
            nonempty = omega arith;
            inside = omega arith;
            sized = refl;
          },
          tt,
        );
        distinct = (refl, tt);
        counted = refl;
        small = omega arith;
        block_small = omega arith;
      })
      refl four-Stock (refl, (refl, (refl, tt))) (omega arith) (omega arith) (omega arith)
      (omega arith) (omega arith)
