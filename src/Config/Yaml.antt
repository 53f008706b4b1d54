-- ===== src/Config/Yaml.antt =====
-- What src/config.h, src/config.cc and src/log.cc use of yaml-cpp, as a parameter, and exceptions.
use tinytcp.Base.{Bool, true, false, ◌≡◌, Option, none, some, List, [], ◌∷◌, ◌++◌}
use tinytcp.Base.Text.{Text, same_text}

-- The outcome of code that may throw.
pub data Try {ℓ} (A : Type ℓ) : Type ℓ where
  value : A → Try A
  thrown : Try A

infixl 5 ◌>>=◌
abbrev pub ◌>>=◌ {ℓ κ} : {A : Type ℓ} {B : Type κ} → Try A → (A → Try B) → Try B
value a >>= f = f a
thrown >>= f = thrown

-- `YAML::Node` and its functions.
pub record Yaml : Type 1 where
  pub Node : Type 0
  -- `YAML::Load`
  pub load : Text → Try Node
  -- `ss << n`
  pub print : Node → Text
  -- `YAML::Node()`
  pub null : Node
  -- a node made of a text
  pub scalar : Text → Node
  -- `n.as<std::string>()`
  pub as_text : Node → Try Text
  -- `n.IsScalar()` and `n.Scalar()`
  pub is_scalar : Node → Bool
  pub scalar_text : Node → Text
  -- `n[k]`, with no value if it is not defined
  pub get : Text → Node → Try (Option Node)
  -- `n[k] = v`
  pub put : Text → Node → Node → Node
  -- `n.push_back(v)`
  pub push_back : Node → Node → Node
  -- `n[i]` for each `i` below `n.size()`
  pub elements : Node → List Node
  -- `n.IsMap()`, and the pairs from `n.begin()` to `n.end()` with their first as `Scalar()`
  pub is_map : Node → Bool
  pub entries : Node → List (Text × Node)

-- What the conversions rely on: a node that is null or was made of it by `n[k] = v` has what was put
-- into it, and one that is null or was made of it by `push_back` has the elements that were pushed.
pub record IsYaml (y : Yaml) : Type 0 where
  pub has_fields : y.Node → Bool
  pub has_items : y.Node → Bool
  pub has_fields-null : has_fields y.null ≡ true
  pub has_fields-put :
      (k : Text) (v n : y.Node) → has_fields n ≡ true → has_fields (y.put k v n) ≡ true
  pub has_items-null : has_items y.null ≡ true
  pub has_items-push_back : (n v : y.Node) → has_items n ≡ true → has_items (y.push_back n v) ≡ true
  pub get-null : (k : Text) → y.get k y.null ≡ value none
  pub get-put :
      (k : Text) (v n : y.Node) → has_fields n ≡ true → y.get k (y.put k v n) ≡ value (some v)
  pub get-put_ne :
      (j k : Text) (v n : y.Node)
      → same_text j k ≡ false
      → has_fields n ≡ true
      → y.get j (y.put k v n) ≡ y.get j n
  pub elements-null : y.elements y.null ≡ []
  pub elements-push_back :
      (n v : y.Node) → has_items n ≡ true → y.elements (y.push_back n v) ≡ y.elements n ++ v ∷ []
  pub as_text-scalar : (t : Text) → y.as_text (y.scalar t) ≡ value t
