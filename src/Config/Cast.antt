-- ===== src/Config/Cast.antt =====
-- `LexicalCast` of src/config.h for containers, from text to values and back. The conversions of
-- the elements are arguments; a vector and a list are converted by the same code.
pub mod Vectors
pub mod Sets
use tinytcp.Base.{Bool, true, false, ◌&&◌, ◌||◌, List, [], ◌∷◌, ◌++◌, ◌==◌, ltb, if◌then◌else◌}
use tinytcp.Base.Text.{Text, same_text}
use tinytcp.Config.Yaml.{Try, value, thrown, Yaml, ◌>>=◌}

-- `operator<` of `std::string`
unfoldable pub text_less : Text → Text → Bool
text_less s [] = false
text_less [] (y ∷ ys) = true
text_less (x ∷ xs) (y ∷ ys) = ltb x y || (x == y) && text_less xs ys

-- `insert` of a `std::set`: an element that is equivalent to one of the set is dropped.
pub set_insert : {T : Type 0} → (T → T → Bool) → T → List T → List T
set_insert less x [] = x ∷ []
set_insert less x (y ∷ ys) =
    let rest = y ∷ set_insert less x ys in
    if less x y then x ∷ y ∷ ys else if less y x then rest else y ∷ ys

-- `insert` of a `std::map`: a key that the map has is dropped.
unfoldable pub map_insert : {T : Type 0} → Text × T → List (Text × T) → List (Text × T)
unfolding text_less
map_insert p [] = p ∷ []
map_insert p (q ∷ qs) =
    let rest = q ∷ map_insert p qs in
    if text_less p.0 q.0 then p ∷ q ∷ qs else if text_less q.0 p.0 then rest else q ∷ qs

module _ (y : Yaml) {T : Type 0} (from : Text → Try T) where
  open y use {Node, load, print, elements, entries}

  -- The loop over the elements of a node, where `put` adds to the container.
  pub from_nodes : (put : T → List T → List T) → List Node → (vec : List T) → Try (List T)
  from_nodes put [] vec = value vec
  from_nodes put (n ∷ ns) vec = from (print n) >>= λ x. from_nodes put ns (put x vec)

  -- From a text to a `std::set`
  pub set_of_text : (less : T → T → Bool) → Text → Try (List T)
  unfolding from_nodes set_insert
  set_of_text less v = load v >>= λ n. from_nodes (set_insert less) (elements n) []

  -- From a text to a `std::vector`, and so to a `std::list`
  pub vector_of_text : Text → Try (List T)
  unfolding from_nodes
  vector_of_text v = load v >>= λ n. from_nodes (λ x vec. vec ++ x ∷ []) (elements n) []

  -- The loop over the entries of a node.
  pub from_entries : List (Text × Node) → (vec : List (Text × T)) → Try (List (Text × T))
  unfolding map_insert
  from_entries [] vec = value vec
  from_entries (p ∷ ps) vec = from (print p.1) >>= λ x. from_entries ps (map_insert (p.0, x) vec)

  -- From a text to a `std::map`
  pub map_of_text : Text → Try (List (Text × T))
  unfolding from_entries
  map_of_text v = load v >>= λ n. from_entries (entries n) []

module _ (y : Yaml) {T : Type 0} (to : T → Try Text) where
  open y use {Node, load, print, null, push_back, put}

  -- The loop over a container.
  pub push_all : List T → Node → Try Node
  push_all [] node = value node
  push_all (x ∷ xs) node = do t ← to x; n ← load t; push_all xs (push_back node n)

  -- From a vector, a list or a set to a text
  pub text_of_vector : List T → Try Text
  unfolding push_all
  text_of_vector v = push_all v null >>= λ node. value (print node)

  -- The loop over a map.
  pub put_all : List (Text × T) → Node → Try Node
  put_all [] node = value node
  put_all (p ∷ ps) node = do t ← to p.1; n ← load t; put_all ps (put p.0 n node)

  -- From a map to a text
  pub text_of_map : List (Text × T) → Try Text
  unfolding put_all
  text_of_map v = put_all v null >>= λ node. value (print node)
