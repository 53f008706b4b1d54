-- ===== src/Config/Tree.antt =====
-- src/config.cc: what a document sets. The log lines are left out.
pub mod Paths
use tinytcp.Base.{
  ℕ, zero, suc, Bool, true, false, Option, none, some, List, [], ◌∷◌, ◌++◌, if◌then◌else◌,
}
use tinytcp.Base.Text.{Text}
use tinytcp.NetErr.{Run, ok, out_of_fuel, ◌>>=◌}
use tinytcp.Config.Yaml.{Yaml}
use tinytcp.Config.Var.{Entry, look_up_base}

is_empty : Text → Bool
is_empty [] = true
is_empty (c ∷ s) = false

-- The prefix of an entry of a node.
pub child_key : (prefix key : Text) → Text
unfolding is_empty
child_key prefix key = if is_empty prefix then key else prefix ++ b'.' ∷ key

module _ (y : Yaml) where
  open y use {Node, print, is_map, entries, is_scalar, scalar_text}

  -- The loop over the entries of a map.
  pub list_entries :
      (call : Text → Node → Run (List (Text × Node))) (prefix : Text)
      → List (Text × Node)
      → Run (List (Text × Node))
  unfolding child_key
  list_entries call prefix [] = ok []
  list_entries call prefix (p ∷ ps) = do
    first ← call (child_key prefix p.0) p.1
    rest ← list_entries call prefix ps
    ok (first ++ rest)

  -- `list_all_member`, down to the depth `fuel`: what it appends to `output`.
  pub list_all_member : (fuel : ℕ) (prefix : Text) → Node → Run (List (Text × Node))
  unfolding list_entries
  list_all_member zero prefix node = out_of_fuel
  list_all_member (suc fuel) prefix node =
      let below = list_entries (list_all_member fuel) prefix (entries node) in
      if is_map node
      then (below >>= λ rest. ok ((prefix, node) ∷ rest))
      else ok ((prefix, node) ∷ [])

  module _ {W : Type 0} (from_string : (var : ℕ) → Text → W → Run W) where
    -- What is done with the setting of a key, if there is one.
    set_found : Option Entry → Node → W → Run W
    set_found none node w = ok w
    set_found (some e) node w =
        from_string e.var (if is_scalar node then scalar_text node else print node) w

    -- A round of the loop of `load_from_yaml`.
    pub load_one : List (Text × Entry) → (key : Text) → Node → W → Run W
    unfolding is_empty look_up_base set_found
    load_one datas key node w =
        if is_empty key then ok w else set_found (look_up_base key datas) node w

    pub load_all : List (Text × Entry) → List (Text × Node) → W → Run W
    unfolding load_one
    load_all datas [] w = ok w
    load_all datas (p ∷ ps) w = load_one datas p.0 p.1 w >>= load_all datas ps

    -- `Config::load_from_yaml`
    pub load_from_yaml : (fuel : ℕ) → List (Text × Entry) → (root : Node) → W → Run W
    unfolding list_all_member load_all
    load_from_yaml fuel datas root w =
        list_all_member fuel [] root >>= λ all_nodes. load_all datas all_nodes w
