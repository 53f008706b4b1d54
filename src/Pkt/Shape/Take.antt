-- ===== src/Pkt/Shape/Take.antt =====
-- The loop of `PktBuffer::alloc` with enough free blocks.
use tinytcp.Base.{
  ℕ, zero, suc, ◌+◌, ◌-◌, ◌*◌, ◌≤◌, ◌<◌, ◌≡◌, ◌≢◌, refl, sym, ap, subst, ◌∙◌, Bool, true, false,
  some, List, [], ◌∷◌, ◌++◌, length, min, ◌==◌, if◌then◌else◌, arith,
}
use mathlib.Core.List.{append_assoc, append-nil}
use tinytcp.Memblock.{Ptr}
use tinytcp.Memblock
use tinytcp.Memblock.Pool.{IsPool, free_list, alloc_lem, alloc-some}
use tinytcp.NetErr.{ok}
use tinytcp.Pkt.{PktBlock, PktManager, put_block, get_pktblock, reset_block}
use tinytcp.Pkt.View.{total, has, Distinct, BlockOk, AllOk, has-append}
use tinytcp.Pkt.Shape.{place_block, alloc_loop}

-- A free block is memory of the size of a block.
abbrev pub AllSized : PktManager → List Ptr → Type 0
AllSized m [] = Unit {0}
AllSized m (p ∷ ps) = (p ≢ 0) × (length (m.blocks p).payload ≡ m.blk_size) × AllSized m ps

-- The free blocks of a manager, the next one first.
pub record Stock (m : PktManager) (ps : List Ptr) : Type 0 where
  pub pool : IsPool m.pkt_blk
  pub free : free_list m.pkt_blk ≡ ps
  pub distinct : Distinct ps
  pub sized : AllSized m ps
  pub size_pos : 0 < m.blk_size

-- The managers have the same blocks but for those of `qs`.
pub record Untouched (m m' : PktManager) (qs : List Ptr) : Type 0 where
  pub others : (q : Ptr) → has q qs ≡ false → m'.blocks q ≡ m.blocks q
  pub same_size : m'.blk_size ≡ m.blk_size
  pub same_buf : m'.pkt_buf ≡ m.pkt_buf

pub AllSized-same :
    (m m' : PktManager) (p : Ptr) (ps : List Ptr)
    → ((q : Ptr) → (q == p) ≡ false → m'.blocks q ≡ m.blocks q)
    → m'.blk_size ≡ m.blk_size
    → has p ps ≡ false
    → AllSized m ps
    → AllSized m' ps
AllSized-same m m' p [] o s d h = tt
AllSized-same m m' p (q ∷ ps) o s d (h, k, hs) =
    let ne : (q == p) ≡ false = ground arith in
    (
      h,
      ap (λ (b : PktBlock). length b.payload) (o q ne) ∙ k ∙ sym s,
      AllSized-same m m' p ps o s (ground arith) hs,
    )

-- The next block, taken and placed.
abbrev taken_block : (alloc_front : Bool) (cur : ℕ) (p : Ptr) → PktManager → PktManager
taken_block f cur p m = place_block f cur p (get_pktblock m).1

get_pktblock-some :
    (m : PktManager) (p : Ptr) (ps : List Ptr)
    → Stock m (p ∷ ps)
    → get_pktblock m ≡ (
      some p,
      put_block p (reset_block (m.blocks p)) (record m { pkt_blk = (Memblock.alloc m.pkt_blk).1 }),
    )
unfolding get_pktblock
get_pktblock-some m p ps s = rw ((alloc-some m.pkt_blk p ps s.pool s.free).0, get_pktblock)

taken_block-Stock :
    (f : Bool) (cur : ℕ) (m : PktManager) (p : Ptr) (ps : List Ptr)
    → Stock m (p ∷ ps)
    → 0 < cur
    → cur ≤ m.blk_size
    → Stock (taken_block f cur p m) ps
      × ((q : Ptr) → (q == p) ≡ false → (taken_block f cur p m).blocks q ≡ m.blocks q)
      × ((taken_block f cur p m).blk_size ≡ m.blk_size)
      × ((taken_block f cur p m).pkt_buf ≡ m.pkt_buf)
      × BlockOk (taken_block f cur p m) p
      × (((taken_block f cur p m).blocks p).size ≡ cur)
unfolding place_block reset_block
taken_block-Stock f cur m p ps s h le = rw (get_pktblock-some m p ps s) (
  record {
    pool = (alloc_lem m.pkt_blk s.pool).0;
    free = (alloc-some m.pkt_blk p ps s.pool s.free).1;
    distinct = s.distinct.1;
    sized = AllSized-same m m' p ps others refl s.distinct.0 s.sized.2;
    size_pos = s.size_pos;
  },
  others,
  refl,
  refl,
  record {
    not_null = s.sized.0;
    nonempty = rw same h;
    inside = rw same (inside f);
    sized = rw same s.sized.1;
  },
  rw same refl,
)
  where
    same : (p == p) ≡ true
    same = ground arith

    m' : PktManager
    m' = place_block f cur p (
        put_block p (reset_block (m.blocks p))
          (record m { pkt_blk = (Memblock.alloc m.pkt_blk).1 }))

    others : (q : Ptr) → (q == p) ≡ false → m'.blocks q ≡ m.blocks q
    others q e = rw e refl

    inside : (g : Bool) → (if g then m.blk_size - cur else 0) + cur ≤ m.blk_size
    inside true = omega arith
    inside false = omega arith

-- What the loop leaves: the blocks that it took, and the managers' difference.
pub record Got (m : PktManager) (size : ℕ) (ps qs : List Ptr) (m' : PktManager) : Type 0 where
  pub rest : List Ptr
  pub split : ps ≡ qs ++ rest
  pub stock : Stock m' rest
  pub good : AllOk m' qs
  pub filled : total m' qs ≡ size
  pub same : Untouched m m' qs

pub has-left : (p : Ptr) (qs rest : List Ptr) → has p (qs ++ rest) ≡ false → has p qs ≡ false
has-left p qs rest h = ground (arith, has-append p qs rest)

pub BlockOk-moved :
    (m m' : PktManager) (p : Ptr)
    → m'.blocks p ≡ m.blocks p
    → m'.blk_size ≡ m.blk_size
    → BlockOk m p
    → BlockOk m' p
BlockOk-moved m m' p e s k = record {
  not_null = k.not_null;
  nonempty = rw e k.nonempty;
  inside = rw (e, s) k.inside;
  sized = rw (e, s) k.sized;
}

Got-cons :
    (m m1 m2 : PktManager) (cur size : ℕ) (p : Ptr) (ps qs : List Ptr)
    → Distinct (p ∷ ps)
    → ((q : Ptr) → (q == p) ≡ false → m1.blocks q ≡ m.blocks q)
    → m1.blk_size ≡ m.blk_size
    → m1.pkt_buf ≡ m.pkt_buf
    → BlockOk m1 p
    → (m1.blocks p).size ≡ cur
    → Got m1 size ps qs m2
    → Got m (cur + size) (p ∷ ps) (p ∷ qs) m2
Got-cons m m1 m2 cur size p ps qs d o s b k c g =
    let fresh = has-left p qs g.rest (subst (λ l. has p l ≡ false) g.split d.0) in
    let kept = g.same.others p fresh in
    record {
      rest = g.rest;
      split = ap (λ l. p ∷ l) g.split;
      stock = g.stock;
      good = (BlockOk-moved m1 m2 p kept g.same.same_size k, g.good);
      filled = omega (arith, ap (λ (x : PktBlock). x.size) kept, c, g.filled);
      same = record {
        others = λ q h. g.same.others q (ground arith) ∙ o q (ground arith);
        same_size = g.same.same_size ∙ s;
        same_buf = g.same.same_buf ∙ b;
      };
    }

alloc_loop_step :
    (fuel : ℕ) (f : Bool) (size : ℕ) (got : List Ptr) (m : PktManager) (p : Ptr)
    → (get_pktblock m).0 ≡ some p
    → (size == 0) ≡ false
    → alloc_loop (suc fuel) f size got m
      ≡ alloc_loop fuel f
          (size - min size m.blk_size)
          (got ++ p ∷ [])
          (taken_block f (min size m.blk_size) p m)
unfolding alloc_loop
alloc_loop_step fuel f size got m p e h = rw (h, e, alloc_loop)

room_left : (s n b : ℕ) → s ≤ suc n * b → s - min s b ≤ n * b
room_left s n b h = omega arith

nonzero : (n : ℕ) → (suc n == 0) ≡ false
nonzero n = ground arith

pub alloc_loop_lem :
    (fuel : ℕ) (f : Bool) (size : ℕ) (got : List Ptr) (m : PktManager) (ps : List Ptr)
    → size < fuel
    → Stock m ps
    → size ≤ length ps * m.blk_size
    → (qs : List Ptr) × (m' : PktManager) × (alloc_loop fuel f size got m
        ≡ ok (true, got ++ qs, m'))
      × Got m size ps qs m'
alloc_loop_lem zero f size got m ps h s room = absurd (omega arith)
alloc_loop_lem (suc fuel) f zero got m ps h s room = (
  [],
  m,
  done,
  record {
    rest = ps;
    split = refl;
    stock = s;
    good = tt;
    filled = refl;
    same = record { others = λ q e. refl; same_size = refl; same_buf = refl };
  },
)
  where
    done : alloc_loop (suc fuel) f zero got m ≡ ok (true, got ++ [], m)
    done = unfold alloc_loop in ap (λ l. ok (true, l, m)) (sym (append-nil got))
alloc_loop_lem (suc fuel) f (suc size) got m [] h s room = absurd (omega arith)
alloc_loop_lem (suc fuel) f (suc size) got m (p ∷ ps) h s room =
    let cur = min (suc size) m.blk_size in
    let (s1, o, bs, pb, k, c) =
      taken_block-Stock f cur m p ps s (omega (arith, s.size_pos)) (omega arith) in
    let m1 = taken_block f cur p m in
    let (qs, m2, e, g) =
      alloc_loop_lem fuel f (suc size - cur) (got ++ p ∷ []) m1 ps (omega (arith, s.size_pos)) s1 (
        subst (λ B. suc size - cur ≤ length ps * B) (sym bs)
          (room_left (suc size) (length ps) m.blk_size room)) in
    (
      p ∷ qs,
      m2,
      alloc_loop_step fuel f (suc size) got m p (ap (λ r. r.0) (get_pktblock-some m p ps s))
            (nonzero size)
          ∙ e
          ∙ ap (λ l. ok (true, l, m2)) (append_assoc got (p ∷ []) qs),
      subst (λ n. Got m n (p ∷ ps) (p ∷ qs) m2) (omega arith)
          (Got-cons m m1 m2 cur (suc size - cur) p ps qs s.distinct o bs pb k c g),
    )
