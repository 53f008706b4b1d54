-- ===== src/Pkt/Shape/Tests.antt =====
-- A packet of two blocks, and the removal of a header and the addition of blocks at it.
use tinytcp.Base.{
  ℕ, ◌+◌, ◌≡◌, refl, List, [], ◌∷◌, arith, true, false, none, drop, ◌==◌, if◌then◌else◌,
}
use tinytcp.Ring.{Ring}
use tinytcp.Ring.Inv.{IsValid}
use tinytcp.Memblock.{MemBlock, Ptr}
use tinytcp.NetErr.{net_err_ok, ok}
use tinytcp.Pkt.{PktBuffer, PktManager}
use tinytcp.Pkt.View.{contents, BlockOk, IsPacket}
use tinytcp.Pkt.Shape.{alloc, remove_header}
use tinytcp.Pkt.Shape.Take.{Stock}
use tinytcp.Pkt.Shape.Alloc.{Allocated, contents-alloc}
use tinytcp.Pkt.Shape.Remove.{remove_header_lem}

abbrev pool : MemBlock
pool = record {
  block_size = 1;
  queue = record {
    size = 2;
    length = 0;
    read_index = 0;
    write_index = 0;
    last_write_index = 0;
    queue = 0 ∷ 0 ∷ [];
  };
}

-- Blocks 1 and 2 are full from byte 2 and from byte 0.
abbrev m : PktManager
m = record {
  blk_size = 4;
  blocks = λ p.
      if p == 1
      then record { size = 2; offset = 2; payload = 0 ∷ 0 ∷ 10 ∷ 11 ∷ [] }
      else record { size = 4; offset = 0; payload = 12 ∷ 13 ∷ 14 ∷ 15 ∷ [] };
  pkt_blk = pool;
  pkt_buf = pool;
}

abbrev packet_of : (capacity : ℕ) → List Ptr → PktBuffer
packet_of capacity ps = record {
  capacity = capacity;
  blk_list = ps;
  pos = 0;
  cur_blk = none;
  blk_offset = 0;
  ref = 1;
}

first-BlockOk : BlockOk m 1
first-BlockOk = record {
  not_null = omega arith;
  nonempty = omega arith;
  inside = omega arith;
  sized = refl;
}

second-BlockOk : BlockOk m 2
second-BlockOk = record {
  not_null = omega arith;
  nonempty = omega arith;
  inside = omega arith;
  sized = refl;
}

b-IsPacket : IsPacket m (packet_of 6 (1 ∷ 2 ∷ []))
b-IsPacket = record {
  good = (first-BlockOk, (second-BlockOk, tt));
  distinct = (refl, (refl, tt));
  counted = refl;
  small = omega arith;
  block_small = omega arith;
}

remove_header_lem_example :
    (b' : PktBuffer) × (m' : PktManager) × (remove_header 3 (packet_of 6 (1 ∷ 2 ∷ [])) m
      ≡ ok (net_err_ok, b', m'))
    × (contents m' b'.blk_list ≡ drop 3 (contents m (1 ∷ 2 ∷ [])))
    × (b'.capacity + 3 ≡ 6)
    × IsPacket m' b'
remove_header_lem_example =
    remove_header_lem 3 (packet_of 6 (1 ∷ 2 ∷ [])) m b-IsPacket (omega arith) (omega arith)

-- Blocks 3 and 4 are free.
abbrev two_ring : Ring Ptr
two_ring = record {
  size = 4;
  length = 2;
  read_index = 0;
  write_index = 2;
  last_write_index = 2;
  queue = 3 ∷ 4 ∷ 0 ∷ 0 ∷ [];
}

two-IsValid : IsValid two_ring
two-IsValid = record {
  log = 2;
  log_pos = omega arith;
  log_le = omega arith;
  size_eq = refl;
  storage = refl;
  confirmed = refl;
  read_in = omega arith;
  write_in = omega arith;
  counted = refl;
  room = omega arith;
}

abbrev stocked : PktManager
stocked = record m { pkt_blk = record { block_size = 4; queue = two_ring } }

two-Stock : Stock stocked (3 ∷ 4 ∷ [])
two-Stock = record {
  pool = two-IsValid;
  free = refl;
  distinct = (refl, (refl, tt));
  sized = (omega arith, refl, (omega arith, refl, tt));
  size_pos = omega arith;
}

-- Five more bytes behind the packet's six.
contents-alloc_example :
    (b' : PktBuffer) × (m' : PktManager) × (alloc 5 true false (packet_of 6 (1 ∷ 2 ∷ [])) stocked
      ≡ ok (true, b', m'))
    × Allocated true stocked 5 (packet_of 6 (1 ∷ 2 ∷ [])) (3 ∷ 4 ∷ []) b' m'
contents-alloc_example =
    contents-alloc true 5 (packet_of 6 (1 ∷ 2 ∷ [])) stocked (3 ∷ 4 ∷ []) two-Stock
      (record {
        good = (
          record {
            not_null = omega arith;
            nonempty = omega arith;
            inside = omega arith;
            sized = refl;
          },
          (
            record {
              not_null = omega arith;
              nonempty = omega arith;
              inside = omega arith;
              sized = refl;
            },
            tt,
          ),
        );
        distinct = (refl, (refl, tt));
        counted = refl;
        small = omega arith;
        block_small = omega arith;
      })
      (refl, (refl, (refl, (refl, tt)))) (omega arith) (omega arith)
