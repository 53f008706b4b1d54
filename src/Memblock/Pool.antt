-- ===== src/Memblock/Pool.antt =====
-- A pool as the list of its free blocks, the next one to be handed out first.
use tinytcp.Base.{
  ℕ, zero, suc, ◌+◌, ◌-◌, ◌^◌, ◌≤◌, ◌<◌, ◌≡◌, ◌*◌, ltb, if◌then◌else◌, sym, ap, ◌∙◌, true, none,
  some, List, [], ◌∷◌, ◌++◌, arith, length, length-append,
}
use mathlib.Core.List.{append_assoc, append-nil}
use tinytcp.Fifo
use tinytcp.Ring
use tinytcp.Ring.{Ring}
use tinytcp.Ring.Inv.{IsValid, push-IsValid, pop-IsValid, size_bounds}
use tinytcp.Ring.Refine.{contents, push_refines, pop_refines, size-push, size-pop}
use tinytcp.Ring.Rounding.{new-IsValid}
use tinytcp.NetErr.{Run, ok, fault}
use tinytcp.Memblock.{MemBlock, Ptr, null, fill, new, alloc, free}

abbrev pub free_list : MemBlock → List Ptr
free_list m = contents null m.queue

abbrev pub IsPool : MemBlock → Type 0
IsPool m = IsValid m.queue

-- How many blocks the queue has room for.
abbrev pub bound : MemBlock → ℕ
bound m = m.queue.size - 1

-- What `alloc` and `free` do to the list.
pub alloc_lem :
    (m : MemBlock)
    → IsPool m
    → IsPool (alloc m).1
      × (bound (alloc m).1 ≡ bound m)
      × (((alloc m).0, free_list (alloc m).1) ≡ Fifo.pop (free_list m))
unfolding alloc
alloc_lem m v = (
  pop-IsValid null m.queue v,
  ap (λ (t : ℕ). t - 1) (size-pop null m.queue),
  pop_refines null m.queue v,
)

-- free on a valid pool keeps it valid, keeps its bound, and returns and leaves what pushing on the
-- bounded list of free blocks does, a refusal at the bound included.
free_lem :
    (p : Ptr) (m : MemBlock)
    → IsPool m
    → IsPool (free p m).1
      × (bound (free p m).1 ≡ bound m)
      × (((free p m).0, free_list (free p m).1) ≡ Fifo.push (bound m) (free_list m) p)
unfolding free
free_lem p m v = (
  push-IsValid m.queue p v,
  ap (λ (t : ℕ). t - 1) (size-push null m.queue p),
  push_refines null m.queue p v,
)

-- On a valid pool alloc and free keep the pool valid and keep its bound; alloc returns and leaves what
-- popping the list of free blocks does, and free what pushing on that list, bounded, does, a refusal
-- at the bound included.
pub calls_lem :
    (p : Ptr) (m : MemBlock)
    → IsPool m
    → (IsPool (alloc m).1
        × (bound (alloc m).1 ≡ bound m)
        × (((alloc m).0, free_list (alloc m).1) ≡ Fifo.pop (free_list m)))
      × (IsPool (free p m).1
          × (bound (free p m).1 ≡ bound m)
          × (((free p m).0, free_list (free p m).1) ≡ Fifo.push (bound m) (free_list m) p))
calls_lem p m v = (alloc_lem m v, free_lem p m v)

pub free-room :
    (p : Ptr) (m : MemBlock)
    → IsPool m
    → length (free_list m) < bound m
    → ((free p m).0 ≡ true) × (free_list (free p m).1 ≡ free_list m ++ p ∷ [])
unfolding Fifo.push
free-room p m v h = ground (arith, (free_lem p m v).2)

-- `alloc` hands out the first free block, and none if there is none.
pub alloc-some :
    (m : MemBlock) (p : Ptr) (ps : List Ptr)
    → IsPool m
    → free_list m ≡ p ∷ ps
    → ((alloc m).0 ≡ some p) × (free_list (alloc m).1 ≡ ps)
unfolding Fifo.pop
alloc-some m p ps v e = ground (arith, (alloc_lem m v).2)

pub alloc-none :
    (m : MemBlock)
    → IsPool m
    → free_list m ≡ []
    → ((alloc m).0 ≡ none) × (free_list (alloc m).1 ≡ [])
unfolding Fifo.pop
alloc-none m v e = ground (arith, (alloc_lem m v).2)

-- The addresses `base`, `base + block_size`, … of `n` blocks.
abbrev pub addresses : (base : Ptr) (block_size n : ℕ) → List Ptr
addresses base block_size zero = []
addresses base block_size (suc n) = base ∷ addresses (base + block_size) block_size n

-- `n` rounds of the constructor's loop on a ring with room for all of them, and for one less.
fill_lem :
    (block_size n : ℕ) (base : Ptr) (r : Ring Ptr)
    → IsValid r
    → length (contents null r) + n ≡ r.size - 1
    → IsValid (fill block_size (suc n) base r)
      × ((fill block_size (suc n) base r).size ≡ r.size)
      × (contents null (fill block_size (suc n) base r)
          ≡ contents null r ++ addresses base block_size n)
unfolding fill Fifo.push
fill_lem block_size zero base r v h = (
  push-IsValid r base v,
  size-push null r base,
  ground (arith, push_refines null r base v) ∙ sym (append-nil (contents null r)),
)
fill_lem block_size (suc n) base r v h =
    let r1 = (Ring.push r base).1 in
    let pushed : contents null r1 ≡ contents null r ++ base ∷ [] =
      ground (arith, push_refines null r base v) in
    let (w, s, e) = fill_lem block_size n (base + block_size) r1 (push-IsValid r base v) (
      omega (
        arith,
        ap length pushed,
        length-append (contents null r) (base ∷ []),
        size-push null r base,
      )) in
    (
      w,
      s ∙ size-push null r base,
      e
          ∙ ap (λ xs. xs ++ addresses (base + block_size) block_size n) pushed
          ∙ append_assoc (contents null r) (base ∷ []) (addresses (base + block_size) block_size n),
    )

-- Asked for 2 ^ k blocks, k from 1 to 30: with fewer than 2 ^ 31 bytes in all the
-- constructor makes a valid pool whose free blocks are the first 2 ^ k - 1 addresses, in order, since
-- the queue has no room for the last; with more, the product of the two sizes overflows.
pub new-IsPool :
    (base : Ptr) (block_size k : ℕ)
    → 1 ≤ k
    → k ≤ 30
    → (m : MemBlock) × (new base block_size (2 ^ k)
        ≡ (if ltb (block_size * 2 ^ k) (2 ^ 31) then ok m else fault))
      × IsPool m
      × (bound m ≡ 2 ^ k - 1)
      × (free_list m ≡ addresses base block_size (2 ^ k - 1))
unfolding new Ring.capacity
new-IsPool base block_size k h g =
    let (r, made, v, size, nothing) = new-IsValid {A = Ptr} k null h (omega arith) in
    let n = 2 ^ k - 1 in
    let rounds : r.size ≡ suc n = omega (arith, size, size_bounds k h (omega arith)) in
    let (w, s, e) = fill_lem block_size n base r v (omega (arith, ap length nothing, rounds)) in
    let positive : ltb r.size (2 ^ 31) ≡ true =
      ground (arith, size, size_bounds (suc k) (omega arith) (omega arith)) in
    (
      record { block_size = block_size; queue = fill block_size (suc n) base r },
      rw (made, new, positive)
          (ap (λ (t : ℕ). outcome r t r.size) size ∙ ap (outcome r (2 ^ k)) rounds),
      w,
      omega (arith, s, rounds),
      e ∙ ap (λ xs. xs ++ addresses base block_size n) nothing,
    )
  where
    outcome : Ring Ptr → (blocks rounds : ℕ) → Run MemBlock
    outcome r blocks rounds =
        if ltb (block_size * blocks) (2 ^ 31)
        then ok (record { block_size = block_size; queue = fill block_size rounds base r })
        else fault
