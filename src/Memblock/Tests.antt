-- ===== src/Memblock/Tests.antt =====
-- A pool asked for four blocks of ten bytes at address 100.
use tinytcp.Base.{◌≡◌, refl, [], ◌∷◌, arith}
use tinytcp.Fifo
use tinytcp.NetErr.{ok}
use tinytcp.Memblock.{MemBlock, new, alloc, free}
use tinytcp.Memblock.Pool.{IsPool, bound, free_list, calls_lem, new-IsPool}

abbrev pool : MemBlock
pool = record {
  block_size = 10;
  queue = record {
    size = 4;
    length = 2;
    read_index = 1;
    write_index = 3;
    last_write_index = 3;
    queue = 100 ∷ 110 ∷ 120 ∷ 0 ∷ [];
  };
}

pool-IsPool : IsPool pool
pool-IsPool = record {
  log = 2;
  log_pos = omega arith;
  log_le = omega arith;
  size_eq = refl;
  storage = refl;
  confirmed = refl;
  read_in = omega arith;
  write_in = omega arith;
  counted = refl;
  room = omega arith;
}

new-IsPool_example :
    (m : MemBlock) × (new 100 10 4 ≡ ok m)
    × IsPool m
    × (bound m ≡ 3)
    × (free_list m ≡ 100 ∷ 110 ∷ 120 ∷ [])
new-IsPool_example = new-IsPool 100 10 2 (omega arith) (omega arith)

calls_lem_example :
    (IsPool (alloc pool).1
      × (bound (alloc pool).1 ≡ 3)
      × (((alloc pool).0, free_list (alloc pool).1) ≡ Fifo.pop (110 ∷ 120 ∷ [])))
    × (IsPool (free 100 pool).1
        × (bound (free 100 pool).1 ≡ 3)
        × (((free 100 pool).0, free_list (free 100 pool).1) ≡ Fifo.push 3 (110 ∷ 120 ∷ []) 100))
calls_lem_example = calls_lem 100 pool pool-IsPool
