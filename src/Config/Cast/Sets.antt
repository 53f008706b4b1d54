-- ===== src/Config/Cast/Sets.antt =====
-- A set that is converted to a text and back.
use tinytcp.Base.{Bool, true, false, ◌≡◌, refl, sym, ap, subst, ◌∙◌, List, [], ◌∷◌, ◌++◌}
use mathlib.Core.List.{map, append_assoc, append-nil}
use tinytcp.Base.Text.{Text}
use tinytcp.Config.Yaml.{Try, value, Yaml, IsYaml, ◌>>=◌}
use tinytcp.Config.Cast.{set_insert, set_of_text, push_all, text_of_vector}
use tinytcp.Config.Cast.Vectors.{All, put_list, Reads, container_lem}

-- The elements stand in the order of the set, each of them once.
abbrev pub Ordered : {T : Type 0} → (T → T → Bool) → List T → Type 0
Ordered less [] = Unit
Ordered less (x ∷ xs) = All (λ z. (less x z ≡ true) × (less z x ≡ false)) xs × Ordered less xs

module _ {T : Type 0} (less : T → T → Bool) where
  set_insert-last :
      (x : T) (vec : List T)
      → All (λ z. (less z x ≡ true) × (less x z ≡ false)) vec
      → set_insert less x vec ≡ vec ++ x ∷ []
  unfolding set_insert
  set_insert-last x [] h = refl
  set_insert-last x (z ∷ vec) ((a, b), h) = rw (a, b) (ap (λ v. z ∷ v) (set_insert-last x vec h))

  all_before :
      (vec : List T) (x : T) (xs : List T)
      → Ordered less (vec ++ x ∷ xs)
      → All (λ z. (less z x ≡ true) × (less x z ≡ false)) vec
  all_before [] x xs h = tt
  all_before (z ∷ vec) x xs (h, o) = (at_end vec h, all_before vec x xs o)
    where
      at_end :
          (v : List T)
          → All (λ u. (less z u ≡ true) × (less u z ≡ false)) (v ++ x ∷ xs)
          → (less z x ≡ true) × (less x z ≡ false)
      at_end [] k = k.0
      at_end (u ∷ v) k = at_end v k.1

  pub put_list-set_insert :
      (xs vec : List T) → Ordered less (vec ++ xs) → put_list (set_insert less) xs vec ≡ vec ++ xs
  put_list-set_insert [] vec o = sym (append-nil vec)
  put_list-set_insert (x ∷ xs) vec o =
      let assoc = append_assoc vec (x ∷ []) xs in
      rw (set_insert-last x vec (all_before vec x xs o))
        (put_list-set_insert xs (vec ++ x ∷ []) (subst (Ordered less) (sym assoc) o) ∙ assoc)

module _ (y : Yaml) (law : IsYaml y) {T : Type 0} (to : T → Try Text) (from : Text → Try T)
    (keep : T → T) where
  open y use {Node, load, print, null}

  -- A set whose elements are read from what is written of them, as what is kept of them, is read
  -- from its text as the set of what is kept, if that keeps the order and the node that its text
  -- stands for is loaded from that text.
  pub set_of_text-text_of_set :
      (less : T → T → Bool) (xs : List T)
      → Ordered less (map keep xs)
      → ((node : Node) → push_all y to xs null ≡ value node → load (print node) ≡ value node)
      → All (Reads y law to from keep) xs
      → (text_of_vector y to xs >>= set_of_text y from less) ≡ value (map keep xs)
  unfolding set_of_text
  set_of_text-text_of_set less xs o loads r =
      container_lem y law to from keep (set_insert less) xs loads r
      ∙ ap value (put_list-set_insert less (map keep xs) [] o)
