-- ===== src/Pkt/Access/Tests.antt =====
-- A packet of six bytes in two blocks of four, and the theorems at it.
use tinytcp.Base.{ℕ, ◌≡◌, refl, false, List, [], ◌∷◌, arith, some, replicate, ◌==◌, if◌then◌else◌}
use tinytcp.Memblock.{MemBlock}
use tinytcp.NetErr.{net_err_ok, ok}
use tinytcp.Pkt.{PktBuffer, PktManager}
use tinytcp.Pkt.View.{BlockOk, IsPacket}
use tinytcp.Pkt.Access.{write, read, seek, fill}
use tinytcp.Pkt.Access.Cursor.{IsCursor}
use tinytcp.Pkt.Access.Move.{Moved}
use tinytcp.Pkt.Access.Transfer.{Wrote}
use tinytcp.Pkt.Access.Write.{write_lem}
use tinytcp.Pkt.Access.Read.{Sought, seek_lem, read_lem}
use tinytcp.Pkt.Access.Fill.{fill_lem}
use tinytcp.Pkt.Access.RoundTrip.{read-seek-write}

abbrev pool : MemBlock
pool = record {
  block_size = 1;
  queue = record {
    size = 2;
    length = 0;
    read_index = 0;
    write_index = 0;
    last_write_index = 0;
    queue = 0 ∷ 0 ∷ [];
  };
}

abbrev m : PktManager
m = record {
  blk_size = 4;
  blocks = λ p.
      if p == 1
      then record { size = 2; offset = 2; payload = 0 ∷ 0 ∷ 10 ∷ 11 ∷ [] }
      else record { size = 4; offset = 0; payload = 12 ∷ 13 ∷ 14 ∷ 15 ∷ [] };
  pkt_blk = pool;
  pkt_buf = pool;
}

abbrev b : PktBuffer
b = record {
  capacity = 6;
  blk_list = 1 ∷ 2 ∷ [];
  pos = 1;
  cur_blk = some 1;
  blk_offset = 3;
  ref = 1;
}

first-BlockOk : BlockOk m 1
first-BlockOk = record {
  not_null = omega arith;
  nonempty = omega arith;
  inside = omega arith;
  sized = refl;
}

second-BlockOk : BlockOk m 2
second-BlockOk = record {
  not_null = omega arith;
  nonempty = omega arith;
  inside = omega arith;
  sized = refl;
}

b-IsPacket : IsPacket m b
b-IsPacket = record {
  good = (first-BlockOk, (second-BlockOk, tt));
  distinct = (refl, (refl, tt));
  counted = refl;
  small = omega arith;
  block_small = omega arith;
}

b-IsCursor : IsCursor m b
b-IsCursor = record {
  before = [];
  after = 1 ∷ 2 ∷ [];
  split = refl;
  place = (refl, omega arith, omega arith, refl);
}

abbrev src : List ℕ
src = 20 ∷ 21 ∷ 22 ∷ []

write_lem_example :
    (b' : PktBuffer) × (m' : PktManager) × (write m (some src) 3 b ≡ ok (net_err_ok, b', m'))
    × Wrote m b src b' m'
write_lem_example =
    write_lem m src 3 b b-IsPacket b-IsCursor (omega arith) (omega arith) (omega arith)

seek_lem_example : (b' : PktBuffer) × (seek m 0 b ≡ ok (net_err_ok, b')) × Sought m b 0 b'
seek_lem_example = seek_lem m 0 b b-IsPacket b-IsCursor (omega arith) (omega arith)

read_lem_example :
    (b' : PktBuffer) × (read m false 3 b ≡ ok (net_err_ok, 11 ∷ 12 ∷ 13 ∷ [], b')) × Moved m b 3 b'
read_lem_example = read_lem m 3 b b-IsPacket b-IsCursor (omega arith) (omega arith)

fill_lem_example :
    (b' : PktBuffer) × (m' : PktManager) × (fill m 7 5 b ≡ ok (net_err_ok, b', m'))
    × Wrote m b (replicate 5 7) b' m'
fill_lem_example = fill_lem m 7 5 b b-IsPacket b-IsCursor (omega arith) (omega arith)

read-seek-write_example :
    (b1 : PktBuffer) × (m1 : PktManager) × (b2 : PktBuffer) × (b3 : PktBuffer) × (write m
        (some src)
        3
        b
      ≡ ok (net_err_ok, b1, m1))
    × (seek m1 1 b1 ≡ ok (net_err_ok, b2))
    × (read m1 false 3 b2 ≡ ok (net_err_ok, src, b3))
read-seek-write_example =
    read-seek-write m src 3 b b-IsPacket b-IsCursor (omega arith) (omega arith) (omega arith)
