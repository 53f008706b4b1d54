-- ===== src/Log/Define/Cast/RoundTrip.antt =====
-- A definition that is converted to a text and back.
use tinytcp.Base.{◌≡◌, refl, sym, ap, ◌∙◌, true, false, Option, none, some, List, [], ◌∷◌, ◌++◌}
use mathlib.Core.List.{map, append_assoc, append-nil}
use tinytcp.Base.Text.{Text, codes, same_text}
use tinytcp.Config.Yaml.{value, Yaml, IsYaml, ◌>>=◌}
use tinytcp.Config.Cast.Vectors.{>>=-eq-value}
use tinytcp.Log.{level_of_text}
use tinytcp.Log.Define.{LogAppenderDefine, LogDefine}
use tinytcp.Log.Define.Cast.{
  text_or, required, append_some, appenders_of_nodes, appenders_of, define_of_node, define_of_text,
  put_level, put_formatter, node_of_appender, or_null, push_appenders, node_of_define,
  text_of_define,
}
use tinytcp.Log.Define.Cast.Appenders.{
  kept_appender, add_some, kept_appenders, kept, bind_back, dress, put_level-Extends,
  put_formatter-Extends, level_back, dress_lem, dress-formatter, appender_back,
}

module _ (y : Yaml) (law : IsYaml y) where
  open y use {Node, load, print, null, scalar, as_text, get, put, push_back, elements}

  append-add_some :
      (xs : List LogAppenderDefine) (o : Option LogAppenderDefine) (ys : List LogAppenderDefine)
      → append_some y xs o ++ ys ≡ xs ++ add_some o ys
  unfolding append_some
  append-add_some xs none ys = refl
  append-add_some xs (some x) ys = append_assoc xs (x ∷ []) ys

  nodes_back :
      (as' acc : List LogAppenderDefine)
      → appenders_of_nodes y (map (node_of_appender y) as') acc ≡ value (acc ++ kept_appenders as')
  unfolding appenders_of_nodes
  nodes_back [] acc = ap value (sym (append-nil acc))
  nodes_back (a ∷ as') acc = rw (appender_back y law a) (
      nodes_back as' (append_some y acc (kept_appender a))
      ∙ ap value (append-add_some acc (kept_appender a) (kept_appenders as')))

  -- The elements of the field "appenders", none if it is not there.
  abbrev found_elements : Option Node → List Node
  found_elements o = elements (or_null y o)

  push_appenders_lem :
      (as' : List LogAppenderDefine) (n : Node) (o : Option Node)
      → law.has_fields n ≡ true
      → get (codes "appenders") n ≡ value o
      → law.has_items (or_null y o) ≡ true
      → (m : Node) × (o' : Option Node) × (push_appenders y as' n ≡ value m)
        × ((k : Text) → same_text k (codes "appenders") ≡ false → get k m ≡ get k n)
        × (get (codes "appenders") m ≡ value o')
        × (found_elements o' ≡ found_elements o ++ map (node_of_appender y) as')
  unfolding push_appenders or_null
  push_appenders_lem [] n o h g i = (n, o, refl, (λ k e. refl), g, sym (append-nil _))
  push_appenders_lem (a ∷ as') n o h g i =
      let list = push_back (or_null y o) (node_of_appender y a) in
      let n' = put (codes "appenders") list n in
      let (m, o', e, others, found, els) =
        push_appenders_lem as' n' (some list) (law.has_fields-put (codes "appenders") list n h)
          (law.get-put (codes "appenders") list n h)
          (law.has_items-push_back (or_null y o) (node_of_appender y a) i) in
      (
        m,
        o',
        rw g e,
        (λ k d. others k d ∙ law.get-put_ne k (codes "appenders") list n d h),
        found,
        els
            ∙ ap (λ es. es ++ map (node_of_appender y) as')
                (law.elements-push_back (or_null y o) (node_of_appender y a) i)
            ∙ append_assoc (found_elements o) (node_of_appender y a ∷ [])
                (map (node_of_appender y) as'),
      )

  appenders_of_lem :
      (o : Option Node) → appenders_of y o ≡ appenders_of_nodes y (found_elements o) []
  unfolding appenders_of or_null appenders_of_nodes
  appenders_of_lem none = rw law.elements-null
  appenders_of_lem (some n) = refl

  fields_back :
      (m : Node) (name t f : Text) (o : Option Node) (apps : List LogAppenderDefine)
      → get (codes "name") m ≡ value (some (scalar name))
      → (get (codes "level") m >>= text_or y []) ≡ value t
      → (get (codes "formatter") m >>= text_or y []) ≡ value f
      → get (codes "appenders") m ≡ value o
      → appenders_of y o ≡ value apps
      → define_of_node y m
        ≡ value (record { name = name; level = level_of_text t; formatter = f; appenders = apps })
  unfolding define_of_node required
  fields_back m name t f o apps n l g a as' =
      rw (n, law.as_text-scalar name)
        (bind_back (get (codes "level") m) (text_or y []) _ t l
          ∙ bind_back (get (codes "formatter") m) (text_or y []) _ f g
          ∙ rw (a, as'))

  -- A definition is read from its node as what is kept of it.
  pub define_back : (i : LogDefine) → (node_of_define y i >>= define_of_node y) ≡ value (kept i)
  unfolding node_of_define dress
  define_back i =
      let n0 = put (codes "name") (scalar i.name) null in
      let h0 = law.has_fields-put (codes "name") (scalar i.name) null law.has_fields-null in
      let bare : (k : Text) → same_text k (codes "name") ≡ false → get k n0 ≡ value none = λ k e.
        law.get-put_ne k (codes "name") (scalar i.name) null e law.has_fields-null
        ∙ law.get-null k in
      let (h1, same1) = put_level-Extends y law i.level n0 h0 in
      let n1 = put_level y i.level n0 in
      let (h2, same2) = put_formatter-Extends y law i.formatter n1 h1 in
      let n2 = put_formatter y i.formatter n1 in
      let none_yet : get (codes "appenders") n2 ≡ value none =
        dress_lem y law i.level i.formatter n0 (codes "appenders") h0 refl refl
        ∙ bare (codes "appenders") refl in
      let (m, o, e, others, found, els) =
        push_appenders_lem i.appenders n2 none h2 none_yet law.has_items-null in
      let name : get (codes "name") m ≡ value (some (scalar i.name)) =
        others (codes "name") refl
        ∙ dress_lem y law i.level i.formatter n0 (codes "name") h0 refl refl
        ∙ law.get-put (codes "name") (scalar i.name) null law.has_fields-null in
      let (t, read, same) =
        >>=-eq-value (get (codes "level") n1 >>= text_or y []) (λ u. value (level_of_text u))
          (level_back y law i.level n0 h0 (bare (codes "level") refl)) in
      let level : (get (codes "level") m >>= text_or y []) ≡ value t =
        ap (λ g. g >>= text_or y []) (others (codes "level") refl ∙ same2 (codes "level") refl)
        ∙ read in
      let formatter : (get (codes "formatter") m >>= text_or y []) ≡ value i.formatter =
        ap (λ g. g >>= text_or y []) (others (codes "formatter") refl)
        ∙ dress-formatter y law i.level i.formatter n0 h0 (bare (codes "formatter") refl) in
      let appenders : appenders_of y o ≡ value (kept_appenders i.appenders) =
        appenders_of_lem o
        ∙ ap (λ es. appenders_of_nodes y es [])
            (els ∙ ap (λ es. es ++ map (node_of_appender y) i.appenders) law.elements-null)
        ∙ nodes_back i.appenders [] in
      rw e (
        fields_back m i.name t i.formatter o (kept_appenders i.appenders) name level formatter found
          appenders
        ∙ ap
            (λ r. r >>= λ l. value (record i { level = l; appenders = kept_appenders i.appenders }))
            same)

  -- A definition is read from its text, if the node that the text stands for is loaded from it, but
  -- for what is not written or not read: the level `NEVER`, the levels of its appenders, the
  -- files of those of the type 2, and those of no type.
  pub define_of_text-text_of_define :
      (i : LogDefine)
      → ((n : Node) → node_of_define y i ≡ value n → load (print n) ≡ value n)
      → (text_of_define y i >>= define_of_text y) ≡ value (kept i)
  unfolding text_of_define define_of_text
  define_of_text-text_of_define i loads =
      let (n, e, back) = >>=-eq-value (node_of_define y i) (define_of_node y) (define_back i) in
      rw (e, loads n e) back
