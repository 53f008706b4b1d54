-- ===== src/Ring/Rounding.antt =====
-- The size that the constructor of `LockFreeRingQueue` chooses.
use Prim.Native.Nat.{bit_and}
use native.Mathlib.Nat.{mod_self}
use tinytcp.Base.{
  ℕ, ◌-◌, ◌^◌, ◌≤◌, ◌≡◌, refl, ap, ◌∙◌, true, some, [], arith, sub32, length-replicate,
}
use tinytcp.Base.Bits.{bit_and_mask}
use tinytcp.Ring.{Ring, is_power_of_two, ring_size, fresh, new}
use tinytcp.Ring.Inv.{IsValid, size_bounds}
use tinytcp.Ring.Refine.{contents}

is_power_of_two-pow : (k : ℕ) → 1 ≤ k → k ≤ 31 → is_power_of_two (2 ^ k) ≡ true
unfolding is_power_of_two
is_power_of_two-pow k h g = ground (arith, masked, size_bounds k h g)
  where
    minus : sub32 (2 ^ k) 1 ≡ 2 ^ k - 1
    minus = omega (arith, size_bounds k h g)

    masked : bit_and (2 ^ k) (sub32 (2 ^ k) 1) ≡ 0
    masked = ap (bit_and (2 ^ k)) minus ∙ bit_and_mask k (2 ^ k) ∙ mod_self (2 ^ k)

-- A power of two is taken as it is.
pub ring_size-pow : (k : ℕ) → 1 ≤ k → k ≤ 31 → ring_size (2 ^ k) ≡ 2 ^ k
unfolding ring_size
ring_size-pow k h g = ground (arith, is_power_of_two-pow k h g, size_bounds k h g)

-- Asked for a power of two from 2 to 2 ^ 31, the constructor gives a valid and empty ring of it.
pub new-IsValid :
    {A : Type 0} (k : ℕ) (default : A)
    → 1 ≤ k
    → k ≤ 31
    → (r : Ring A) × (new (2 ^ k) default ≡ some r)
      × IsValid r
      × (r.size ≡ 2 ^ k)
      × (contents default r ≡ [])
unfolding new
new-IsValid {A} k default h g = (
  r,
  made,
  record {
    log = k;
    log_pos = h;
    log_le = g;
    size_eq = ring_size-pow k h g;
    storage = length-replicate (ring_size (2 ^ k)) default;
    confirmed = refl;
    read_in = omega arith;
    write_in = omega arith;
    counted = refl;
    room = omega (arith, ring_size-pow k h g, size_bounds k h g);
  },
  ring_size-pow k h g,
  refl,
)
  where
    r : Ring A
    r = fresh (ring_size (2 ^ k)) default

    made : new (2 ^ k) default ≡ some r
    made = ground (arith, size_bounds k h g)
