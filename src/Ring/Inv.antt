-- ===== src/Ring/Inv.antt =====
-- The representation invariant of `LockFreeRingQueue`, kept by each call of one thread.
use tinytcp.Base.{
  ℕ, ◌+◌, ◌%◌, ◌^◌, ◌≤◌, ◌<◌, ◌≡◌, ◌∙◌, ap, sym, arith, ◌==◌, length, length-set, add32, sub32,
  mod-mod_low, mod_turn,
}
use Prim.Native.Nat.{bit_and}
use tinytcp.Base.Bits.{bit_and_mask}
use native.Mathlib.Nat.{pow-le-pow_right, add-mod_right}
use tinytcp.Ring.{Ring, index_of_queue, confirm, push, pop}

-- `log` is the binary logarithm of the size.
pub record IsValid {ℓ} {A : Type ℓ} (r : Ring A) : Type 0 where
  pub log : ℕ
  pub log_pos : 1 ≤ log
  pub log_le : log ≤ 31
  pub size_eq : r.size ≡ 2 ^ log
  pub storage : length r.queue ≡ r.size
  pub confirmed : r.last_write_index ≡ r.write_index
  pub read_in : r.read_index < 2 ^ 32
  pub write_in : r.write_index < 2 ^ 32
  pub counted : r.length ≡ sub32 r.write_index r.read_index
  pub room : r.length < r.size

-- A power of two fits a word and has a predecessor.
pub size_bounds : (k : ℕ) → 1 ≤ k → k ≤ 31 → (2 ≤ 2 ^ k) × (2 ^ k ≤ 2 ^ 31)
size_bounds k h g =
    (pow-le-pow_right {n = 2} (omega arith) {i = 1} h, pow-le-pow_right {n = 2} (omega arith) g)

module _ {ℓ} {A : Type ℓ} {r : Ring A} (v : IsValid r) where
  -- The mask is the remainder by the size.
  pub index_of_queue_lem : (i : ℕ) → index_of_queue r i ≡ i % r.size
  unfolding index_of_queue
  index_of_queue_lem i =
      ap (bit_and i) (omega (arith, v.size_eq, size_bounds v.log v.log_pos v.log_le))
      ∙ bit_and_mask v.log i
      ∙ ap (λ (t : ℕ). i % t) (sym v.size_eq)

  -- The cell `n` places past the write index, counted from the read index.
  pub write_cell :
      (n : ℕ) → index_of_queue r (add32 r.write_index n) ≡ (r.read_index + (r.length + n)) % r.size
  write_cell n =
      index_of_queue_lem (add32 r.write_index n)
      ∙ ap (λ (t : ℕ). t % r.size) same
      ∙ ap (λ (t : ℕ). (r.read_index + (r.length + n)) % 2 ^ 32 % t) v.size_eq
      ∙ mod-mod_low v.log (r.read_index + (r.length + n)) (omega (arith, v.log_le))
      ∙ ap (λ (t : ℕ). (r.read_index + (r.length + n)) % t) (sym v.size_eq)
    where
      same : add32 r.write_index n ≡ (r.read_index + (r.length + n)) % 2 ^ 32
      same = omega arith

  pub small : r.size ≤ 2 ^ 31
  small = omega (arith, v.size_eq, size_bounds v.log v.log_pos v.log_le)

  pub size_pos : 2 ≤ r.size
  size_pos = omega (arith, v.size_eq, size_bounds v.log v.log_pos v.log_le)

  -- The write and the read index reach the same cell exactly when the ring is empty.
  pub pop_test :
      (index_of_queue r r.last_write_index == index_of_queue r r.read_index) ≡ (r.length == 0)
  pop_test = ground (
    arith,
    v.confirmed,
    write_cell 0,
    index_of_queue_lem r.read_index,
    mod_turn r.size r.read_index r.length (omega (arith, size_pos)),
  )

  full_turn :
      r.length + 1 ≡ r.size → (r.read_index + (r.length + 1)) % r.size ≡ r.read_index % r.size
  full_turn e = rw e (add-mod_right r.read_index r.size)

  -- The next write would reach the cell to read exactly when one cell is left.
  pub push_test :
      (index_of_queue r (add32 r.write_index 1) == index_of_queue r r.read_index)
      ≡ (r.length + 1 == r.size)
  push_test = ground (
    arith,
    write_cell 1,
    index_of_queue_lem r.read_index,
    full_turn,
    mod_turn r.size r.read_index (r.length + 1) (omega (arith, size_pos)),
  )

pub confirm_lem : (last : ℕ) → confirm last last ≡ add32 last 1
unfolding confirm
confirm_lem last = ground arith

module _ {ℓ} {A : Type ℓ} where
  -- `push` keeps the invariant, also when it refuses.
  pub push-IsValid : (r : Ring A) (x : A) → IsValid r → IsValid (push r x).1
  unfolding push
  push-IsValid r x v = record {
    log = v.log;
    log_pos = v.log_pos;
    log_le = v.log_le;
    size_eq = ground (arith, v.size_eq);
    storage = ground (arith, v.storage, length-set r.queue (index_of_queue r r.write_index) x);
    confirmed = ground (arith, v.confirmed, confirm_lem r.write_index);
    read_in = ground (arith, v.read_in);
    write_in = ground (arith, v.write_in);
    counted = ground (arith, v.counted, v.room, v.read_in, v.write_in, push_test v, small v);
    room = ground (arith, v.room, push_test v, small v);
  }

  -- pop keeps the invariant of the ring.
  pub pop-IsValid : (junk : A) (r : Ring A) → IsValid r → IsValid (pop junk r).1
  unfolding pop
  pop-IsValid junk r v = record {
    log = v.log;
    log_pos = v.log_pos;
    log_le = v.log_le;
    size_eq = ground (arith, v.size_eq);
    storage = ground (arith, v.storage);
    confirmed = ground (arith, v.confirmed);
    read_in = ground (arith, v.read_in);
    write_in = ground (arith, v.write_in);
    counted = ground (arith, v.counted, v.room, v.read_in, v.write_in, pop_test v, small v);
    room = ground (arith, v.room, pop_test v, small v);
  }
