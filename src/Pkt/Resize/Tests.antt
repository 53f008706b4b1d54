-- ===== src/Pkt/Resize/Tests.antt =====
-- Two packets of one block each, and their merging.
use tinytcp.Base.{ℕ, ◌≡◌, refl, List, [], ◌∷◌, ◌++◌, arith, none, ◌==◌, if◌then◌else◌}
use tinytcp.Memblock.{MemBlock, Ptr}
use tinytcp.Pkt.{PktBuffer, PktManager}
use tinytcp.Pkt.View.{contents, BlockOk, IsPacket}
use tinytcp.Pkt.Resize.{merge_buf}
use tinytcp.Pkt.Resize.Merge.{merge_buf_lem}

abbrev pool : MemBlock
pool = record {
  block_size = 1;
  queue = record {
    size = 2;
    length = 0;
    read_index = 0;
    write_index = 0;
    last_write_index = 0;
    queue = 0 ∷ 0 ∷ [];
  };
}

-- Blocks 1 and 2 are full from byte 2 and from byte 0.
abbrev m : PktManager
m = record {
  blk_size = 4;
  blocks = λ p.
      if p == 1
      then record { size = 2; offset = 2; payload = 0 ∷ 0 ∷ 10 ∷ 11 ∷ [] }
      else record { size = 4; offset = 0; payload = 12 ∷ 13 ∷ 14 ∷ 15 ∷ [] };
  pkt_blk = pool;
  pkt_buf = pool;
}

abbrev packet_of : (capacity : ℕ) → List Ptr → PktBuffer
packet_of capacity ps = record {
  capacity = capacity;
  blk_list = ps;
  pos = 0;
  cur_blk = none;
  blk_offset = 0;
  ref = 1;
}

first-BlockOk : BlockOk m 1
first-BlockOk = record {
  not_null = omega arith;
  nonempty = omega arith;
  inside = omega arith;
  sized = refl;
}

second-BlockOk : BlockOk m 2
second-BlockOk = record {
  not_null = omega arith;
  nonempty = omega arith;
  inside = omega arith;
  sized = refl;
}

b-IsPacket : IsPacket m (packet_of 2 (1 ∷ []))
b-IsPacket = record {
  good = (first-BlockOk, tt);
  distinct = (refl, tt);
  counted = refl;
  small = omega arith;
  block_small = omega arith;
}

other-IsPacket : IsPacket m (packet_of 4 (2 ∷ []))
other-IsPacket = record {
  good = (second-BlockOk, tt);
  distinct = (refl, tt);
  counted = refl;
  small = omega arith;
  block_small = omega arith;
}

merge_buf_lem_example :
    IsPacket
      (merge_buf 7 (packet_of 2 (1 ∷ [])) (packet_of 4 (2 ∷ [])) m).2
      (merge_buf 7 (packet_of 2 (1 ∷ [])) (packet_of 4 (2 ∷ [])) m).0
    × (contents
          (merge_buf 7 (packet_of 2 (1 ∷ [])) (packet_of 4 (2 ∷ [])) m).2
          (merge_buf 7 (packet_of 2 (1 ∷ [])) (packet_of 4 (2 ∷ [])) m).0.blk_list
        ≡ contents m (1 ∷ []) ++ contents m (2 ∷ []))
    × ((merge_buf 7 (packet_of 2 (1 ∷ [])) (packet_of 4 (2 ∷ [])) m).1.blk_list ≡ [])
merge_buf_lem_example =
    merge_buf_lem 7 (packet_of 2 (1 ∷ [])) (packet_of 4 (2 ∷ [])) m b-IsPacket other-IsPacket
      (refl, (refl, tt)) (omega arith)
