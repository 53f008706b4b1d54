-- ===== src/Pkt/Shape/Lists.antt =====
-- Lists of blocks that share none, and lists backwards.
use tinytcp.Base.{◌≡◌, refl, ap, ◌∙◌, Bool, true, false, List, [], ◌∷◌, ◌++◌, arith}
use mathlib.Core.List.{reverse, reverse-append}
use tinytcp.Memblock.{Ptr}
use tinytcp.Pkt.{PktBlock, PktManager}
use tinytcp.Pkt.View.{contents, total, has, Distinct, AllOk, has-append, AllOk-append, total-append}
use tinytcp.Pkt.Shape.Take.{Untouched, has-left, BlockOk-moved}

-- The blocks of one list are none of the other's.
abbrev pub Apart : List Ptr → List Ptr → Type 0
Apart [] qs = Unit {0}
Apart (p ∷ l) qs = (has p qs ≡ false) × Apart l qs

pub Distinct-Apart : (l qs rest : List Ptr) → Distinct (l ++ (qs ++ rest)) → Apart l qs
Distinct-Apart [] qs rest d = tt
Distinct-Apart (p ∷ l) qs rest (h, d) =
    (has-left p qs rest (ground (arith, has-append p l (qs ++ rest))), Distinct-Apart l qs rest d)

pub Distinct-left : (l rest : List Ptr) → Distinct (l ++ rest) → Distinct l
Distinct-left [] rest d = tt
Distinct-left (p ∷ l) rest (h, d) = (has-left p l rest h, Distinct-left l rest d)

module _ {m m' : PktManager} {qs : List Ptr} (u : Untouched m m' qs) where
  pub AllOk-Apart : (l : List Ptr) → Apart l qs → AllOk m l → AllOk m' l
  AllOk-Apart [] a k = tt
  AllOk-Apart (p ∷ l) (a, as') (k, ks) =
      (BlockOk-moved m m' p (u.others p a) u.same_size k, AllOk-Apart l as' ks)

  pub total-Apart : (l : List Ptr) → Apart l qs → total m' l ≡ total m l
  total-Apart [] a = refl
  total-Apart (p ∷ l) (a, as') =
      omega (arith, ap (λ (x : PktBlock). x.size) (u.others p a), total-Apart l as')

  pub contents-Apart : (l : List Ptr) → Apart l qs → contents m' l ≡ contents m l
  contents-Apart [] a = refl
  contents-Apart (p ∷ l) (a, as') = rw (u.others p a, contents-Apart l as')

-- The same list backwards.
reverse-cons : (p : Ptr) (ps : List Ptr) → reverse (p ∷ ps) ≡ reverse ps ++ p ∷ []
reverse-cons p ps = reverse-append (p ∷ []) ps

AllOk-reverse : (m : PktManager) (ps : List Ptr) → AllOk m ps → AllOk m (reverse ps)
AllOk-reverse m [] k = tt
AllOk-reverse m (p ∷ ps) (k, ks) =
    rw (reverse-cons p ps) (AllOk-append m (reverse ps) (p ∷ []) (AllOk-reverse m ps ks) (k, tt))

total-reverse : (m : PktManager) (ps : List Ptr) → total m (reverse ps) ≡ total m ps
total-reverse m [] = refl
total-reverse m (p ∷ ps) =
    rw (reverse-cons p ps) (omega (arith, total-append m (reverse ps) (p ∷ []), total-reverse m ps))

has-reverse : (q : Ptr) (ps : List Ptr) → has q (reverse ps) ≡ has q ps
has-reverse q [] = refl
has-reverse q (p ∷ ps) =
    rw (reverse-cons p ps) (ground (arith, has-append q (reverse ps) (p ∷ []), has-reverse q ps))

Apart-reverse : (l qs : List Ptr) → Apart l qs → Apart l (reverse qs)
Apart-reverse [] qs a = tt
Apart-reverse (p ∷ l) qs (a, as') = (has-reverse p qs ∙ a, Apart-reverse l qs as')

Apart-one : (l : List Ptr) (p : Ptr) → has p l ≡ false → Apart l (p ∷ [])
Apart-one [] p h = tt
Apart-one (q ∷ l) p h = (ground arith, Apart-one l p (ground arith))

pub Distinct-append : (l qs : List Ptr) → Distinct l → Distinct qs → Apart l qs → Distinct (l ++ qs)
Distinct-append [] qs d e a = e
Distinct-append (p ∷ l) qs (h, d) e (a, as') =
    (ground (arith, has-append p l qs), Distinct-append l qs d e as')

Distinct-reverse : (ps : List Ptr) → Distinct ps → Distinct (reverse ps)
Distinct-reverse [] d = tt
Distinct-reverse (p ∷ ps) (h, d) = rw (reverse-cons p ps) (
    Distinct-append (reverse ps) (p ∷ []) (Distinct-reverse ps d) (refl, tt)
      (Apart-one (reverse ps) p (has-reverse p ps ∙ h)))

pub Distinct-right : (l rest : List Ptr) → Distinct (l ++ rest) → Distinct rest
Distinct-right [] rest d = d
Distinct-right (p ∷ l) rest (h, d) = Distinct-right l rest d

-- The order in which `alloc` puts the blocks that it took.
abbrev pub in_order : (alloc_front : Bool) → List Ptr → List Ptr
in_order true qs = reverse qs
in_order false qs = qs

pub AllOk-in_order :
    (f : Bool) (m : PktManager) (qs : List Ptr) → AllOk m qs → AllOk m (in_order f qs)
AllOk-in_order true m qs k = AllOk-reverse m qs k
AllOk-in_order false m qs k = k

pub total-in_order :
    (f : Bool) (m : PktManager) (qs : List Ptr) → total m (in_order f qs) ≡ total m qs
total-in_order true m qs = total-reverse m qs
total-in_order false m qs = refl

pub Distinct-in_order :
    (f : Bool) (l qs : List Ptr)
    → Distinct l
    → Distinct qs
    → Apart l qs
    → Distinct (l ++ in_order f qs)
Distinct-in_order true l qs d e a =
    Distinct-append l (reverse qs) d (Distinct-reverse qs e) (Apart-reverse l qs a)
Distinct-in_order false l qs d e a = Distinct-append l qs d e a
