-- ===== src/Ring.antt =====
-- src/lock_free_ring_queue.h, `LockFreeRingQueue<T>`: a queue on an array whose length is a power
-- of two, with free-running 32-bit indices that are masked at each access.
-- `push` and `pop` are one thread's calls, run without interruption: there the compare-exchange on
-- the index that the thread has just loaded succeeds. The interleavings are in Ring/Threads.
pub mod Full
pub mod Inv
pub mod Refine
pub mod Rounding
pub mod Threads
mod Tests
use Prim.Native.Nat.{bit_and, bit_or}
use tinytcp.Base.{
  ℕ, zero, suc, ◌+◌, ◌-◌, ◌*◌, ◌/◌, ◌%◌, ◌^◌, Bool, true, false, not, ◌&&◌, Option, none, some,
  List, ltb, leb, ◌==◌, if◌then◌else◌, get_or, set, replicate, add32, sub32,
}

-- The fields of the class; `queue` is `m_queue`, of `size` cells.
pub record Ring {ℓ} (A : Type ℓ) : Type ℓ where
  pub size : ℕ
  pub length : ℕ
  pub read_index : ℕ
  pub write_index : ℕ
  pub last_write_index : ℕ
  pub queue : List A

pub is_power_of_two : ℕ → Bool
is_power_of_two num = not (num == 0) && (bit_and num (sub32 num 1) == 0)

-- `num |= num >> k`
abbrev pub smear : ℕ → ℕ → ℕ
smear k num = bit_or num (num / 2 ^ k)

pub ceil_power_of_two : ℕ → ℕ
ceil_power_of_two num =
    let num = smear 16 (smear 8 (smear 4 (smear 2 (smear 1 num)))) in sub32 num (num / 2)

pub round_uppower_of_two : ℕ → ℕ
round_uppower_of_two num = ceil_power_of_two (sub32 num 1 * 2 % 2 ^ 32)

-- The initialiser of `m_size`.
pub ring_size : ℕ → ℕ
ring_size size =
    if leb size 1 then 2 else if is_power_of_two size then size else round_uppower_of_two size

module _ {ℓ} {A : Type ℓ} where
  abbrev pub fresh : ℕ → A → Ring A
  fresh n default = record {
    size = n;
    length = 0;
    read_index = 0;
    write_index = 0;
    last_write_index = 0;
    queue = replicate n default;
  }

  -- The constructor; `none` is `std::out_of_range`. `default` is what `make_unique<T[]>` fills with.
  unfoldable pub new : ℕ → A → Option (Ring A)
  new size default = if size == 0 then none else some (fresh (ring_size size) default)

  pub index_of_queue : Ring A → ℕ → ℕ
  index_of_queue r index = bit_and index (sub32 r.size 1)

  unfoldable pub is_empty : Ring A → Bool
  is_empty r = r.length == 0

  pub is_full : Ring A → Bool
  is_full r = index_of_queue r (add32 r.write_index 1) == r.read_index

  unfoldable pub count : Ring A → ℕ
  count r = r.length

  unfoldable pub capacity : Ring A → ℕ
  capacity r = r.size

-- `atomic::compare_exchange`: whether it stored, the cell, and the expected value, which a failure
-- sets to what the cell holds.
abbrev pub compare_exchange : (cell expected desired : ℕ) → Bool × ℕ × ℕ
compare_exchange cell expected desired =
    if cell == expected then (true, desired, expected) else (false, cell, cell)

-- The loop on `m_last_write_index` of `push`. Undisturbed it ends in the second round at the
-- latest, in which the expected value is the one that the first round loaded.
pub confirm : (last current : ℕ) → ℕ
confirm last current =
    let (stored, last', expected) = compare_exchange last current (add32 current 1) in
    if stored then last' else (compare_exchange last' expected (add32 expected 1)).1

module _ {ℓ} {A : Type ℓ} where
  pub push : Ring A → A → Bool × Ring A
  push r x =
      if index_of_queue r (add32 r.write_index 1) == index_of_queue r r.read_index
      then (false, r)
      else (
        true,
        record r {
          length = add32 r.length 1;
          write_index = add32 r.write_index 1;
          last_write_index = confirm r.last_write_index r.write_index;
          queue = set r.queue (index_of_queue r r.write_index) x;
        },
      )

  -- `junk` is what a read outside the array would give; `Inv` rules it out.
  pub pop : A → Ring A → Option A × Ring A
  pop junk r =
      if index_of_queue r r.last_write_index == index_of_queue r r.read_index then (none, r) else (
        some (get_or r.queue (index_of_queue r r.read_index) junk),
        record r { length = sub32 r.length 1; read_index = add32 r.read_index 1 },
      )
