-- ===== src/Config/Tree/Paths.antt =====
-- What `list_all_member` lists, by the paths of a document.
use tinytcp.Base.{
  ℕ, zero, suc, ◌<◌, ◌≡◌, refl, sym, ◌∙◌, true, false, List, [], ◌∷◌, ◌++◌, ◌⊎◌, inl, inr, arith,
  Bool-cases,
}
use mathlib.Core.Bool.{true≢false}
use tinytcp.Base.Text.{Text}
use tinytcp.NetErr.{Run, ok}
use tinytcp.Config.Yaml.{Yaml}
use tinytcp.Config.Tree.{child_key, list_entries, list_all_member}

-- An element of a list.
pub data In {A : Type 0} (a : A) : List A → Type 0 where
  here : {xs : List A} → In a (a ∷ xs)
  there : {x : A} {xs : List A} → In a xs → In a (x ∷ xs)

-- The key of what stands at a path below a prefix.
abbrev pub key_of : (prefix : Text) → List Text → Text
key_of prefix [] = prefix
key_of prefix (k ∷ path) = key_of (child_key prefix k) path

In-left : {A : Type 0} {a : A} (xs ys : List A) → In a xs → In a (xs ++ ys)
In-left _ ys here = here
In-left _ ys (there {xs = xs} h) = there (In-left xs ys h)

In-right : {A : Type 0} {a : A} (xs ys : List A) → In a ys → In a (xs ++ ys)
In-right [] ys h = h
In-right (x ∷ xs) ys h = there (In-right xs ys h)

In-split : {A : Type 0} {a : A} (xs ys : List A) → In a (xs ++ ys) → In a xs ⊎ In a ys
In-split [] ys h = inr h
In-split (x ∷ xs) ys here = inl here
In-split (x ∷ xs) ys (there h) = elim (In-split xs ys h) [ inl l ↦ inl (there l) | inr r ↦ inr r ]

module _ (y : Yaml) where
  open y use {Node, is_map, entries}

  -- What stands at a path of a document.
  pub data At : Node → List Text → Node → Type 0 where
    root : {n : Node} → At n [] n
    into :
        {n m o : Node} {k : Text} {path : List Text}
        → is_map n ≡ true
        → In (k, m) (entries n)
        → At m path o
        → At n (k ∷ path) o

  -- The nodes below have smaller heights: the document is a finite tree.
  abbrev pub IsHeight : (Node → ℕ) → Type 0
  IsHeight height = (n : Node) (p : Text × Node) → In p (entries n) → height p.1 < height n

  -- What is listed of a node: it and all that stands below it, under its key, and no more.
  abbrev pub Lists : Text → Node → List (Text × Node) → Type 0
  Lists prefix n out =
      ((path : List Text) (o : Node) → At n path o → In (key_of prefix path, o) out)
      × ((p : Text × Node)
          → In p out
          → (path : List Text) × (p.0 ≡ key_of prefix path) × At n path p.1)

  -- An entry and a path below it that lead to what is listed.
  abbrev Below : Text → List (Text × Node) → Text × Node → Type 0
  Below prefix es p =
      (q : Text × Node) × (path : List Text) × In q es
      × (p.0 ≡ key_of (child_key prefix q.0) path)
      × At q.1 path p.1

  -- The same of the entries of a node.
  abbrev ListsAll : Text → List (Text × Node) → List (Text × Node) → Type 0
  ListsAll prefix es out =
      ((q : Text × Node) (path : List Text) (o : Node)
        → In q es
        → At q.1 path o
        → In (key_of (child_key prefix q.0) path, o) out)
      × ((p : Text × Node) → In p out → Below prefix es p)

  all_listed :
      (prefix : Text) (q : Text × Node) (es first rest : List (Text × Node))
      → Lists (child_key prefix q.0) q.1 first
      → ListsAll prefix es rest
      → (r : Text × Node) (path : List Text) (o : Node) → In r (q ∷ es)
      → At r.1 path o
      → In (key_of (child_key prefix r.0) path, o) (first ++ rest)
  all_listed prefix q es first rest (l, b) (ls, bs) _ path o here a =
      In-left first rest (l path o a)
  all_listed prefix q es first rest (l, b) (ls, bs) r path o (there i) a =
      In-right first rest (ls r path o i a)

  only_listed :
      (prefix : Text) (q : Text × Node) (es first rest : List (Text × Node))
      → Lists (child_key prefix q.0) q.1 first
      → ListsAll prefix es rest
      → (p : Text × Node) → In p (first ++ rest)
      → Below prefix (q ∷ es) p
  only_listed prefix q es first rest (l, b) (ls, bs) p i = elim (In-split first rest i) [
    | inl h ↦ (let (path, e, a) = b p h in (q, path, here, e, a))
    | inr h ↦ (let (r, path, j, e, a) = bs p h in (r, path, there j, e, a))
  ]

  list_entries_lem :
      (call : Text → Node → Run (List (Text × Node))) (prefix : Text) (es : List (Text × Node))
      → ((q : Text × Node)
          → In q es
          → (out : List (Text × Node)) × (call (child_key prefix q.0) q.1 ≡ ok out)
            × Lists (child_key prefix q.0) q.1 out)
      → (out : List (Text × Node)) × (list_entries y call prefix es ≡ ok out)
        × ListsAll prefix es out
  unfolding list_entries
  list_entries_lem call prefix [] h = ([], refl, ((λ q path o i. elim i [ ]), (λ p i. elim i [ ])))
  list_entries_lem call prefix (q ∷ es) h =
      let (first, e1, l1) = h q here in
      let (rest, e2, l2) = list_entries_lem call prefix es (λ r i. h r (there i)) in
      (
        first ++ rest,
        rw (e1, e2),
        (all_listed prefix q es first rest l1 l2, only_listed prefix q es first rest l1 l2),
      )

  map_listed :
      (prefix : Text) (n : Node) (rest : List (Text × Node))
      → is_map n ≡ true
      → ListsAll prefix (entries n) rest
      → Lists prefix n ((prefix, n) ∷ rest)
  map_listed prefix n rest mp (ls, bs) = (listed, only)
    where
      listed :
          (path : List Text) (o : Node)
          → At n path o
          → In (key_of prefix path, o) ((prefix, n) ∷ rest)
      listed _ _ root = here
      listed _ o (into {m = m} {k = k} {path = path} e i a) = there (ls (k, m) path o i a)

      only :
          (p : Text × Node)
          → In p ((prefix, n) ∷ rest)
          → (path : List Text) × (p.0 ≡ key_of prefix path) × At n path p.1
      only _ here = ([], refl, root)
      only p (there i) = let (q, path, j, e, a) = bs p i in (q.0 ∷ path, e, into mp j a)

  leaf_listed : (prefix : Text) (n : Node) → is_map n ≡ false → Lists prefix n ((prefix, n) ∷ [])
  leaf_listed prefix n leaf = (listed, only)
    where
      listed :
          (path : List Text) (o : Node)
          → At n path o
          → In {A = Text × Node} (key_of prefix path, o) ((prefix, n) ∷ [])
      listed _ _ root = here
      listed _ o (into e i a) = absurd (true≢false (sym e ∙ leaf))

      only :
          (p : Text × Node)
          → In p ((prefix, n) ∷ [])
          → (path : List Text) × (p.0 ≡ key_of prefix path) × At n path p.1
      only _ here = ([], refl, root)
      only p (there i) = elim i [ ]

  -- To a depth above the height of a finite document, list_all_member ends, and what it lists is
  -- exactly each node that stands at a path of the document, under the key of the path.
  pub list_all_member_lem :
      (height : Node → ℕ) (fuel : ℕ) (prefix : Text) (n : Node)
      → IsHeight height
      → height n < fuel
      → (out : List (Text × Node)) × (list_all_member y fuel prefix n ≡ ok out) × Lists prefix n out
  unfolding list_all_member
  list_all_member_lem height zero prefix n falls h = absurd (omega arith)
  list_all_member_lem height (suc fuel) prefix n falls h = elim (Bool-cases (is_map n)) [
    | inl mp ↦
        (let (rest, e, l) = list_entries_lem (list_all_member y fuel) prefix (entries n) (λ q i.
            list_all_member_lem height fuel (child_key prefix q.0) q.1 falls
              (omega (arith, falls n q i))) in
          ((prefix, n) ∷ rest, rw (mp, e), map_listed prefix n rest mp l))
    | inr leaf ↦ ((prefix, n) ∷ [], rw leaf, leaf_listed prefix n leaf)
  ]
