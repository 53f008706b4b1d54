-- ===== src/Memblock.antt =====
-- src/net/memblock.h and src/net/memblock.cc, `MemBlock`: a pool of equal blocks whose free blocks
-- wait in a ring queue. A pointer is an address, and 0 is the null pointer.
pub mod Pool
mod Tests
use tinytcp.Base.{
  ℕ, zero, suc, ◌+◌, ◌*◌, ◌^◌, ◌==◌, Bool, true, false, Option, none, some, List, ltb,
  if◌then◌else◌,
}
use tinytcp.NetErr.{Run, ok, fault}
use tinytcp.Ring
use tinytcp.Ring.{Ring}

abbrev pub Ptr : Type 0
Ptr = ℕ

abbrev pub null : Ptr
null = 0

pub record MemBlock : Type 0 where
  pub block_size : ℕ
  pub queue : Ring Ptr

-- The loop of the constructor: `n` more rounds, `block_ptr` moves on by `block_size`.
pub fill : ℕ → ℕ → Ptr → Ring Ptr → Ring Ptr
fill block_size zero block_ptr q = q
fill block_size (suc n) block_ptr q =
    fill block_size n (block_ptr + block_size) (Ring.push q block_ptr).1

-- The constructor; `base` is the address of the memory that it allocates, `block_size` an `int`
-- that is not negative, and `capacity` the `uint32_t` that its `int` becomes. The queue's capacity
-- comes back as an `int`: from 2 ^ 31 on it is negative, and no block is pushed. A fault is a
-- product outside of `int`, an array of negative length, or the exception of the queue's
-- constructor, which nothing catches.
pub new : (base : Ptr) (block_size capacity : ℕ) → Run MemBlock
unfolding fill
new base block_size capacity = elim (Ring.new capacity null) [
  | none ↦ fault
  | some q ↦
      if ltb (Ring.capacity q) (2 ^ 31)
      then if ltb (block_size * Ring.capacity q) (2 ^ 31)
        then ok
            (record { block_size = block_size; queue = fill block_size (Ring.capacity q) base q })
        else fault
      else if block_size == 0
      then ok (record { block_size = block_size; queue = q })
      else fault
]

pub size : MemBlock → ℕ
size m = Ring.count m.queue

pub capacity : MemBlock → ℕ
capacity m = Ring.capacity m.queue

-- `none` is the result false, which leaves `*ptr` alone. The timeout is not used.
pub alloc : MemBlock → Option Ptr × MemBlock
alloc m = let (out, q) = Ring.pop null m.queue in (out, record m { queue = q })

pub free : Ptr → MemBlock → Bool × MemBlock
free p m = let (done, q) = Ring.push m.queue p in (done, record m { queue = q })
