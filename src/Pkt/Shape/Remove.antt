-- ===== src/Pkt/Shape/Remove.antt =====
-- `PktBuffer::remove_header` drops bytes from the front of a packet.
use tinytcp.Base.{
  ◌⊎◌, ℕ, zero, suc, ◌+◌, ◌-◌, ◌^◌, ◌≤◌, ◌<◌, ◌≡◌, refl, sym, ap, ap₂, ◌∙◌, false, List, [], ◌∷◌,
  ◌++◌, arith, drop, dec_lt, inl, inr, sub32,
}
use tinytcp.Base.Bytes.Laws.{drop-append_left, drop-append_right, drop-slice}
use tinytcp.Memblock.{Ptr}
use tinytcp.NetErr.{net_err_ok, ok, ◌>>=◌}
use tinytcp.Pkt.{PktBuffer, PktManager, put_block, deref, release_pktblock}
use tinytcp.Pkt.View.{
  bytes, contents, total, has, Distinct, BlockOk, AllOk, IsPacket, length-bytes, contents-put_block,
  total-put_block, AllOk-put_block,
}
use tinytcp.Pkt.Shape.{remove_loop, remove_header}

list-cases : (ps : List Ptr) → (ps ≡ []) ⊎ ((p : Ptr) × (qs : List Ptr) × (ps ≡ p ∷ qs))
list-cases [] = inl refl
list-cases (p ∷ qs) = inr (p, qs, refl)

-- `size` bytes have gone from the front of the list `ps`.
pub record Removed (m : PktManager) (b : PktBuffer) (ps : List Ptr) (size : ℕ) (b' : PktBuffer)
    (m' : PktManager) : Type 0 where
  pub left : contents m' b'.blk_list ≡ drop size (contents m ps)
  pub total_eq : total m' b'.blk_list + size ≡ total m ps
  pub capacity_eq : b'.capacity + size ≡ b.capacity
  pub good : AllOk m' b'.blk_list
  pub distinct : Distinct b'.blk_list
  pub same_size : m'.blk_size ≡ m.blk_size

-- A block that goes back to the pool keeps its bytes.
module _ (m : PktManager) (p : Ptr) where
  BlockOk-release : (q : Ptr) → BlockOk m q → BlockOk (release_pktblock p m) q
  unfolding release_pktblock
  BlockOk-release q k = record {
    not_null = k.not_null;
    nonempty = k.nonempty;
    inside = k.inside;
    sized = k.sized;
  }

  AllOk-release : (ps : List Ptr) → AllOk m ps → AllOk (release_pktblock p m) ps
  AllOk-release [] k = tt
  AllOk-release (q ∷ ps) k = (BlockOk-release q k.0, AllOk-release ps k.1)

  contents-release : (ps : List Ptr) → contents (release_pktblock p m) ps ≡ contents m ps
  unfolding release_pktblock
  contents-release [] = refl
  contents-release (q ∷ ps) = ap (λ t. bytes m q ++ t) (contents-release ps)

  total-release : (ps : List Ptr) → total (release_pktblock p m) ps ≡ total m ps
  unfolding release_pktblock
  total-release [] = refl
  total-release (q ∷ ps) = ap (λ (t : ℕ). (m.blocks q).size + t) (total-release ps)

-- The last block that loses bytes keeps some.
module _ (m : PktManager) (p : Ptr) (size : ℕ) (k : BlockOk m p)
    (h : size < (m.blocks p).size) where
  cut : PktManager
  cut =
      put_block p
        (record (m.blocks p) {
          offset = (m.blocks p).offset + size;
          size = (m.blocks p).size - size;
        })
        m

  bytes-cut : bytes cut p ≡ drop size (bytes m p)
  unfolding cut
  bytes-cut =
      ground (arith, drop-slice (m.blocks p).payload (m.blocks p).offset (m.blocks p).size size)

  BlockOk-cut : BlockOk cut p
  unfolding cut
  BlockOk-cut = record {
    not_null = k.not_null;
    nonempty = ground arith;
    inside = ground (arith, k.inside);
    sized = ground (arith, k.sized);
  }

  contents-cut : (ps : List Ptr) → has p ps ≡ false → contents cut ps ≡ contents m ps
  unfolding cut
  contents-cut ps d = contents-put_block m p _ ps d

  total-cut : (ps : List Ptr) → has p ps ≡ false → total cut ps ≡ total m ps
  unfolding cut
  total-cut ps d = total-put_block m p _ ps d

  AllOk-cut : (ps : List Ptr) → has p ps ≡ false → AllOk m ps → AllOk cut ps
  unfolding cut
  AllOk-cut ps d a = AllOk-put_block m p _ ps d a

remove_loop_lem :
    (size : ℕ) (ps : List Ptr) (b : PktBuffer) (m : PktManager)
    → AllOk m ps
    → Distinct ps
    → size ≤ total m ps
    → total m ps ≤ b.capacity
    → b.capacity < 2 ^ 31
    → (b' : PktBuffer) × (m' : PktManager) × (remove_loop size ps b m ≡ ok (b', m'))
      × Removed m b ps size b' m'
unfolding remove_loop deref cut release_pktblock
remove_loop_lem size [] b m k d h g s = (
  record b { blk_list = [] },
  m,
  ground arith,
  record {
    left = ground (arith, zeroed);
    total_eq = omega (arith, zeroed);
    capacity_eq = omega (arith, zeroed);
    good = tt;
    distinct = tt;
    same_size = refl;
  },
)
  where
    zeroed : size ≡ 0
    zeroed = omega arith
remove_loop_lem zero (p ∷ ps) b m k d h g s = (
  record b { blk_list = p ∷ ps },
  m,
  refl,
  record {
    left = refl;
    total_eq = omega arith;
    capacity_eq = omega arith;
    good = k;
    distinct = d;
    same_size = refl;
  },
)
remove_loop_lem (suc n) (p ∷ ps) b m k d h g s = elim (dec_lt (suc n) (m.blocks p).size) [
  | yes less ↦ (
    record b { blk_list = p ∷ ps; capacity = sub32 b.capacity (suc n) },
    cut m p (suc n) k.0 less,
    ground (arith, k.0.not_null),
    record {
      left =
          ap₂ ◌++◌ (bytes-cut m p (suc n) k.0 less) (contents-cut m p (suc n) k.0 less ps d.0)
          ∙ sym (
              drop-append_left (bytes m p) (contents m ps) (suc n)
                (omega (arith, length-bytes m p k.0)));
      total_eq = grind (arith, total-cut m p (suc n) k.0 less ps d.0);
      capacity_eq = omega arith;
      good = (BlockOk-cut m p (suc n) k.0 less, AllOk-cut m p (suc n) k.0 less ps d.0 k.1);
      distinct = d;
      same_size = refl;
    },
  )
  | no more ↦
      let (b', m', runs, v) =
        remove_loop_lem (suc n - (m.blocks p).size) ps
          (record b { capacity = sub32 b.capacity (m.blocks p).size }) (release_pktblock p m)
          (AllOk-release m p ps k.1) d.1 (omega (arith, total-release m p ps))
          (omega (arith, total-release m p ps)) (omega arith) in
      (
        b',
        m',
        ground (arith, k.0.not_null, runs),
        record {
          left =
              v.left
              ∙ ap (drop (suc n - (m.blocks p).size)) (contents-release m p ps)
              ∙ ap (λ (t : ℕ). drop (suc n - t) (contents m ps)) (sym (length-bytes m p k.0))
              ∙ sym (
                  drop-append_right (bytes m p) (contents m ps) (suc n)
                    (omega (arith, length-bytes m p k.0)));
          total_eq = omega (arith, v.total_eq, total-release m p ps);
          capacity_eq = omega (arith, v.capacity_eq);
          good = v.good;
          distinct = v.distinct;
          same_size = v.same_size;
        },
      )
]

header-loop :
    (size : ℕ) (b : PktBuffer) (m : PktManager) (p : Ptr) (ps : List Ptr)
    → b.blk_list ≡ p ∷ ps
    → remove_header size b m
      ≡ (do (b', m') ← remove_loop size b.blk_list b m; ok (net_err_ok, b', m'))
unfolding remove_header
header-loop size b m p ps e = rw e refl

-- Removing no more bytes than a packet that is not empty has succeeds: its contents lose exactly
-- that many bytes from the front, its capacity says so, and it is a packet again.
pub remove_header_lem :
    (size : ℕ) (b : PktBuffer) (m : PktManager)
    → IsPacket m b
    → size ≤ b.capacity
    → 0 < b.capacity
    → (b' : PktBuffer) × (m' : PktManager) × (remove_header size b m ≡ ok (net_err_ok, b', m'))
      × (contents m' b'.blk_list ≡ drop size (contents m b.blk_list))
      × (b'.capacity + size ≡ b.capacity)
      × IsPacket m' b'
remove_header_lem size b m k h pos = elim (list-cases b.blk_list) [
  | inl e ↦ absurd (grind (arith, k.counted, ap (total m) e))
  | inr (p, ps, e) ↦
      let (b', m', runs, v) =
        remove_loop_lem size b.blk_list b m k.good k.distinct (omega (arith, k.counted))
          (omega (arith, k.counted)) k.small in
      (
        b',
        m',
        header-loop size b m p ps e ∙ ap (λ r. do (c, n) ← r; ok (net_err_ok, c, n)) runs,
        v.left,
        v.capacity_eq,
        record {
          good = v.good;
          distinct = v.distinct;
          counted = omega (arith, v.total_eq, v.capacity_eq, k.counted);
          small = omega (arith, v.capacity_eq, k.small);
          block_small = omega (arith, v.same_size, k.block_small);
        },
      )
]
