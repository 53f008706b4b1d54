-- ===== src/Stack/Network/Find.antt =====
-- What `find_netif_by_name` finds.
use tinytcp.Base.{
  ℕ, zero, suc, ◌<◌, ◌≡◌, ◌≢◌, refl, ◌==◌, Bool, true, false, Option, none, some, List, [], ◌∷◌,
  length, arith, Bool-cases, inl, inr,
}
use tinytcp.Memblock.{Ptr}
use tinytcp.NetErr.{ok}
use tinytcp.Stack.{Netif}
use tinytcp.Stack.Network.{find_netif_by_name, same_name, netif_name_size}

-- The answer of `strcmp` about an array with a terminator.
data Compared (array string : List ℕ) : Bool → Type 0 where
  equal : array ≡ string → Compared array string true
  other : array ≢ string → Compared array string false

Compared-cons :
    (x y : ℕ) (xs ys : List ℕ) (b : Bool) → x ≡ y → Compared xs ys b → Compared (x ∷ xs) (y ∷ ys) b
Compared-cons x y xs ys true e (equal q) = equal (cc)
Compared-cons x y xs ys false e (other n) = other (λ q. n (grind (arith, q)))

same_name_lem :
    (room : ℕ) (array string : List ℕ)
    → length array < room
    → (b : Bool) × (same_name room array string ≡ ok b) × Compared array string b
unfolding same_name
same_name_lem zero array string h = absurd (omega arith)
same_name_lem (suc room) [] [] h = (true, refl, equal refl)
same_name_lem (suc room) [] (y ∷ ys) h = (false, refl, other (λ e. grind (arith, e)))
same_name_lem (suc room) (x ∷ xs) [] h = (false, refl, other (λ e. grind (arith, e)))
same_name_lem (suc room) (x ∷ xs) (y ∷ ys) h = elim (Bool-cases (x == y)) [
  | inl e ↦
      let (b, r, c) = same_name_lem room xs ys (omega arith) in
      (b, rw e r, Compared-cons x y xs ys b (ground arith) c)
  | inr e ↦ (false, rw e refl, other (λ q. grind (arith, q)))
]

-- The first interface of the list with another name than `name`.
pub data FirstOther (netifs : Ptr → Netif) (name : List ℕ) : List Ptr → Option Ptr → Type 0 where
  at_end : FirstOther netifs name [] none
  skipped :
      {p : Ptr} {ps : List Ptr} {o : Option Ptr}
      → (netifs p).name ≡ name
      → FirstOther netifs name ps o
      → FirstOther netifs name (p ∷ ps) o
  differs :
      {p : Ptr} {ps : List Ptr} → (netifs p).name ≢ name → FirstOther netifs name (p ∷ ps) (some p)

-- The names of the interfaces end before their arrays do.
abbrev pub Terminated : (Ptr → Netif) → List Ptr → Type 0
Terminated netifs [] = Unit {0}
Terminated netifs (p ∷ ps) = (length (netifs p).name < netif_name_size) × Terminated netifs ps

-- The first interface of the list, and what is found behind it.
find_step :
    (netifs : Ptr → Netif) (name : List ℕ) (p : Ptr) (ps : List Ptr) (b : Bool) (o : Option Ptr)
    → same_name netif_name_size (netifs p).name name ≡ ok b
    → Compared (netifs p).name name b
    → find_netif_by_name netifs name ps ≡ ok o
    → FirstOther netifs name ps o
    → (o' : Option Ptr) × (find_netif_by_name netifs name (p ∷ ps) ≡ ok o')
      × FirstOther netifs name (p ∷ ps) o'
unfolding find_netif_by_name
find_step netifs name p ps true o e (equal q) r f = (o, rw (find_netif_by_name, e) r, skipped q f)
find_step netifs name p ps false o e (other n) r f =
    (some p, rw (find_netif_by_name, e) refl, differs n)

-- Where every interface of the list has a name of at most nine bytes, find_netif_by_name ends without
-- a fault with the first interface whose name is not the one that was asked for, or with the end of
-- the list if all have that name.
pub find_netif_by_name_lem :
    (netifs : Ptr → Netif) (name : List ℕ) (ps : List Ptr)
    → Terminated netifs ps
    → (o : Option Ptr) × (find_netif_by_name netifs name ps ≡ ok o) × FirstOther netifs name ps o
unfolding find_netif_by_name
find_netif_by_name_lem netifs name [] t = (none, refl, at_end)
find_netif_by_name_lem netifs name (p ∷ ps) (h, t) =
    let (b, e, c) = same_name_lem netif_name_size (netifs p).name name h in
    let (o, r, f) = find_netif_by_name_lem netifs name ps t in
    find_step netifs name p ps b o e c r f
