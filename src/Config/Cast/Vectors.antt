-- ===== src/Config/Cast/Vectors.antt =====
-- A container that is converted to a text and back.
use mathlib.Core.Path.{fun_ext}
use tinytcp.Base.{true, ◌≡◌, refl, sym, ap, ◌∙◌, List, [], ◌∷◌, ◌++◌}
use mathlib.Core.List.{map, append_assoc, append-nil}
use tinytcp.Base.Text.{Text}
use tinytcp.Config.Yaml.{Try, value, thrown, Yaml, IsYaml, ◌>>=◌}
use tinytcp.Config.Cast.{from_nodes, vector_of_text, push_all, text_of_vector}

abbrev pub All {ℓ κ} : {A : Type ℓ} → (A → Type κ) → List A → Type κ
All P [] = Unit
All P (x ∷ xs) = P x × All P xs

-- The elements are put in one by one.
abbrev pub put_list : {T : Type 0} → (T → List T → List T) → List T → List T → List T
put_list put [] vec = vec
put_list put (x ∷ xs) vec = put_list put xs (put x vec)

pub >>=-eq-value {ℓ κ} :
    {A : Type ℓ} {B : Type κ} (m : Try A) (f : A → Try B) {b : B}
    → (m >>= f) ≡ value b
    → (a : A) × (m ≡ value a) × (f a ≡ value b)
>>=-eq-value (value a) f h = (a, refl, h)
>>=-eq-value thrown f h = cc

>>=_assoc :
    {A B C : Type 0} (m : Try A) (f : A → Try B) (g : B → Try C)
    → ((m >>= f) >>= g) ≡ (m >>= λ a. f a >>= g)
>>=_assoc (value a) f g = refl
>>=_assoc thrown f g = refl

>>=_value : {A : Type 0} (m : Try A) → (m >>= value) ≡ m
>>=_value (value a) = refl
>>=_value thrown = refl

-- `keep` says what is left of an element that is written and read.
module _ (y : Yaml) (law : IsYaml y) {T : Type 0} (to : T → Try Text) (from : Text → Try T)
    (keep : T → T) where
  open y use {Node, load, print, null, push_back, elements}

  -- The text of an element is read as what is kept of it, by way of a node.
  abbrev pub Reads : T → Type 0
  Reads x = (to x >>= λ t. load t >>= λ n. from (print n)) ≡ value (keep x)

  from_nodes-append :
      (put : T → List T → List T) (ns : List Node) (n : Node) (vec : List T)
      → from_nodes y from put (ns ++ n ∷ []) vec
        ≡ (from_nodes y from put ns vec >>= λ v. from (print n) >>= λ x. value (put x v))
  unfolding from_nodes
  from_nodes-append put [] n vec = refl
  from_nodes-append put (m ∷ ns) n vec =
      rw (>>=_assoc (from (print m)) _ _)
        (ap (λ f. from (print m) >>= f) (fun_ext (λ x. from_nodes-append put ns n (put x vec))))

  push_all_lem :
      (put : T → List T → List T) (vec : List T) (xs : List T) (node : Node)
      → law.has_items node ≡ true
      → All Reads xs
      → (n : Node) × (push_all y to xs node ≡ value n)
        × (from_nodes y from put (elements n) vec ≡ (
            from_nodes y from put (elements node) vec >>= λ v.
            value (put_list put (map keep xs) v)))
  unfolding push_all
  push_all_lem put vec [] node h r = (node, refl, sym (>>=_value _))
  push_all_lem put vec (x ∷ xs) node h (rx, r) =
      let (t, et, h1) = >>=-eq-value (to x) _ rx in
      let (n, en, h2) = >>=-eq-value (load t) _ h1 in
      let (m, em, fm) =
        push_all_lem put vec xs (push_back node n) (law.has_items-push_back node n h) r in
      (
        m,
        rw (et, en) em,
        fm
            ∙ simp (
              law.elements-push_back node n h,
              from_nodes-append put (elements node) n vec,
              h2,
              >>=_assoc,
            ),
      )

  -- A container that is written and read has the kept elements, put in one by one.
  pub container_lem :
      (put : T → List T → List T) (xs : List T)
      → ((node : Node) → push_all y to xs null ≡ value node → load (print node) ≡ value node)
      → All Reads xs
      → (text_of_vector y to xs >>= λ t. load t >>= λ n. from_nodes y from put (elements n) [])
        ≡ value (put_list put (map keep xs) [])
  unfolding text_of_vector from_nodes
  container_lem put xs loads r =
      let (node, e, f) = push_all_lem put [] xs null law.has_items-null r in
      rw (e, loads node e) (f ∙ rw law.elements-null)

  put_list-snoc : (xs vec : List T) → put_list (λ x v. v ++ x ∷ []) xs vec ≡ vec ++ xs
  put_list-snoc [] vec = sym (append-nil vec)
  put_list-snoc (x ∷ xs) vec = put_list-snoc xs (vec ++ x ∷ []) ∙ append_assoc vec (x ∷ []) xs

  -- A vector or list whose elements are read from what is written of them, as what is kept of
  -- them, is read from its text as the list of what is kept, if the node that its text stands for
  -- is loaded from that text.
  pub vector_of_text-text_of_vector :
      (xs : List T)
      → ((node : Node) → push_all y to xs null ≡ value node → load (print node) ≡ value node)
      → All Reads xs
      → (text_of_vector y to xs >>= vector_of_text y from) ≡ value (map keep xs)
  unfolding vector_of_text
  vector_of_text-text_of_vector xs loads r =
      container_lem (λ x v. v ++ x ∷ []) xs loads r ∙ ap value (put_list-snoc (map keep xs) [])
