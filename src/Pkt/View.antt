-- ===== src/Pkt/View.antt =====
-- What a packet stands for: the bytes of its blocks, in order; and when its list is well formed.
use tinytcp.Base.{
  ℕ, ◌+◌, ◌^◌, ◌≤◌, ◌<◌, ◌≡◌, ◌≢◌, refl, sym, ap, ap₂, ◌∙◌, Bool, false, ◌||◌, List, [], ◌∷◌, ◌++◌,
  ◌==◌, arith, length, length-append, slice, Bool-cases, inl, inr,
}
use mathlib.Core.List.{append_assoc}
use tinytcp.Base.Bytes.Laws.{length-slice}
use tinytcp.Memblock.{Ptr}
use tinytcp.Pkt.{PktBlock, PktBuffer, PktManager, put_block}

abbrev pub bytes : PktManager → Ptr → List ℕ
bytes m p = slice (m.blocks p).payload (m.blocks p).offset (m.blocks p).size

abbrev pub contents : PktManager → List Ptr → List ℕ
contents m [] = []
contents m (p ∷ ps) = bytes m p ++ contents m ps

abbrev pub total : PktManager → List Ptr → ℕ
total m [] = 0
total m (p ∷ ps) = (m.blocks p).size + total m ps

abbrev pub has : Ptr → List Ptr → Bool
has p [] = false
has p (q ∷ ps) = (q == p) || has p ps

abbrev pub Distinct : List Ptr → Type 0
Distinct [] = Unit {0}
Distinct (p ∷ ps) = (has p ps ≡ false) × Distinct ps

-- A block in use: its bytes lie inside its payload, and there is at least one.
pub record BlockOk (m : PktManager) (p : Ptr) : Type 0 where
  pub not_null : p ≢ 0
  pub nonempty : 0 < (m.blocks p).size
  pub inside : (m.blocks p).offset + (m.blocks p).size ≤ m.blk_size
  pub sized : length (m.blocks p).payload ≡ m.blk_size

abbrev pub AllOk : PktManager → List Ptr → Type 0
AllOk m [] = Unit {0}
AllOk m (p ∷ ps) = BlockOk m p × AllOk m ps

-- `m_capacity` counts the bytes of the list; the limit keeps `m_pos` from going negative.
pub record IsPacket (m : PktManager) (b : PktBuffer) : Type 0 where
  pub good : AllOk m b.blk_list
  pub distinct : Distinct b.blk_list
  pub counted : b.capacity ≡ total m b.blk_list
  pub small : b.capacity < 2 ^ 31
  pub block_small : m.blk_size < 2 ^ 31

-- The managers differ in payload bytes alone.
pub record SameShape (m g : PktManager) : Type 0 where
  pub offsets : (p : Ptr) → (g.blocks p).offset ≡ (m.blocks p).offset
  pub sizes : (p : Ptr) → (g.blocks p).size ≡ (m.blocks p).size
  pub lengths : (p : Ptr) → length (g.blocks p).payload ≡ length (m.blocks p).payload
  pub same_size : g.blk_size ≡ m.blk_size
  pub same_blk : g.pkt_blk ≡ m.pkt_blk
  pub same_buf : g.pkt_buf ≡ m.pkt_buf

pub SameShape-refl : (m : PktManager) → SameShape m m
SameShape-refl m = record {
  offsets = λ p. refl;
  sizes = λ p. refl;
  lengths = λ p. refl;
  same_size = refl;
  same_blk = refl;
  same_buf = refl;
}

pub SameShape-trans : {m g k : PktManager} → SameShape m g → SameShape g k → SameShape m k
SameShape-trans s t = record {
  offsets = λ p. t.offsets p ∙ s.offsets p;
  sizes = λ p. t.sizes p ∙ s.sizes p;
  lengths = λ p. t.lengths p ∙ s.lengths p;
  same_size = t.same_size ∙ s.same_size;
  same_blk = t.same_blk ∙ s.same_blk;
  same_buf = t.same_buf ∙ s.same_buf;
}

module _ {m g : PktManager} (s : SameShape m g) where
  pub BlockOk-same : (p : Ptr) → BlockOk m p → BlockOk g p
  BlockOk-same p k = record {
    not_null = k.not_null;
    nonempty = omega (arith, k.nonempty, s.sizes p);
    inside = omega (arith, k.inside, s.sizes p, s.offsets p, s.same_size);
    sized = omega (arith, k.sized, s.lengths p, s.same_size);
  }

  pub AllOk-same : (ps : List Ptr) → AllOk m ps → AllOk g ps
  AllOk-same [] h = tt
  AllOk-same (p ∷ ps) h = (BlockOk-same p h.0, AllOk-same ps h.1)

  pub total-same : (ps : List Ptr) → total g ps ≡ total m ps
  total-same [] = refl
  total-same (p ∷ ps) = ap₂ ◌+◌ (s.sizes p) (total-same ps)

  pub IsPacket-same : (b : PktBuffer) → IsPacket m b → IsPacket g b
  IsPacket-same b k = record {
    good = AllOk-same b.blk_list k.good;
    distinct = k.distinct;
    counted = k.counted ∙ sym (total-same b.blk_list);
    small = k.small;
    block_small = omega (arith, k.block_small, s.same_size);
  }

pub length-bytes : (m : PktManager) (p : Ptr) → BlockOk m p → length (bytes m p) ≡ (m.blocks p).size
length-bytes m p k = length-slice (m.blocks p).payload _ _ (omega (arith, k.inside, k.sized))

pub length-contents :
    (m : PktManager) (ps : List Ptr) → AllOk m ps → length (contents m ps) ≡ total m ps
length-contents m [] h = refl
length-contents m (p ∷ ps) h = omega (
  arith,
  length-append (bytes m p) (contents m ps),
  length-bytes m p h.0,
  length-contents m ps h.1,
)

pub contents-append :
    (m : PktManager) (ps qs : List Ptr) → contents m (ps ++ qs) ≡ contents m ps ++ contents m qs
contents-append m [] qs = refl
contents-append m (p ∷ ps) qs =
    ap (λ t. bytes m p ++ t) (contents-append m ps qs)
    ∙ sym (append_assoc (bytes m p) (contents m ps) (contents m qs))

pub total-append :
    (m : PktManager) (ps qs : List Ptr) → total m (ps ++ qs) ≡ total m ps + total m qs
total-append m [] qs = omega arith
total-append m (p ∷ ps) qs = omega (arith, total-append m ps qs)

pub AllOk-append_left : (m : PktManager) (ps qs : List Ptr) → AllOk m (ps ++ qs) → AllOk m ps
AllOk-append_left m [] qs h = tt
AllOk-append_left m (p ∷ ps) qs h = (h.0, AllOk-append_left m ps qs h.1)

pub AllOk-append_right : (m : PktManager) (ps qs : List Ptr) → AllOk m (ps ++ qs) → AllOk m qs
AllOk-append_right m [] qs h = h
AllOk-append_right m (p ∷ ps) qs h = AllOk-append_right m ps qs h.1

pub AllOk-append :
    (m : PktManager) (ps qs : List Ptr) → AllOk m ps → AllOk m qs → AllOk m (ps ++ qs)
AllOk-append m [] qs h g = g
AllOk-append m (p ∷ ps) qs h g = (h.0, AllOk-append m ps qs h.1 g)

pub has-append : (p : Ptr) (ps qs : List Ptr) → has p (ps ++ qs) ≡ (has p ps || has p qs)
has-append p [] qs = refl
has-append p (q ∷ ps) qs = ground (arith, has-append p ps qs)

-- The node of `c` is the only one that holds `c`.
pub Distinct-split :
    (ps : List Ptr) (c : Ptr) (qs : List Ptr)
    → Distinct (ps ++ c ∷ qs)
    → (has c ps ≡ false) × (has c qs ≡ false)
Distinct-split [] c qs h = (refl, h.0)
Distinct-split (p ∷ ps) c qs h =
    ground (arith, has-append p ps (c ∷ qs), Distinct-split ps c qs h.1)

-- A change of one block does not show in the others.
module _ (m : PktManager) (c : Ptr) (blk : PktBlock) where
  pub contents-put_block :
      (ps : List Ptr) → has c ps ≡ false → contents (put_block c blk m) ps ≡ contents m ps
  contents-put_block [] h = refl
  contents-put_block (p ∷ ps) h = elim (Bool-cases (p == c)) [
    | inl e ↦ ground arith
    | inr e ↦ rw (e, contents-put_block ps (ground arith))
  ]

  pub total-put_block :
      (ps : List Ptr) → has c ps ≡ false → total (put_block c blk m) ps ≡ total m ps
  total-put_block [] h = refl
  total-put_block (p ∷ ps) h = elim (Bool-cases (p == c)) [
    | inl e ↦ ground arith
    | inr e ↦ rw (e, total-put_block ps (ground arith))
  ]

  pub AllOk-put_block :
      (ps : List Ptr) → has c ps ≡ false → AllOk m ps → AllOk (put_block c blk m) ps
  AllOk-put_block [] h k = tt
  AllOk-put_block (p ∷ ps) h k = (kept, AllOk-put_block ps (ground arith) k.1)
    where
      other : (p == c) ≡ false
      other = ground arith

      kept : BlockOk (put_block c blk m) p
      kept = record {
        not_null = k.0.not_null;
        nonempty = rw other k.0.nonempty;
        inside = rw other k.0.inside;
        sized = rw other k.0.sized;
      }
