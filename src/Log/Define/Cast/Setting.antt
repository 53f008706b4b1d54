-- ===== src/Log/Define/Cast/Setting.antt =====
-- The setting "logs", a set of definitions, to a text and back.
use tinytcp.Base.{◌≡◌, Bool, true, false, List, [], ◌∷◌}
use mathlib.Core.List.{map}
use tinytcp.Config.Yaml.{value, Yaml, IsYaml, ◌>>=◌}
use tinytcp.Config.Cast.{text_less, set_of_text, text_of_vector}
use tinytcp.Config.Cast.Vectors.{All, Reads, >>=-eq-value}
use tinytcp.Config.Cast.Sets.{Ordered, set_of_text-text_of_set}
use tinytcp.Log.Define.{LogDefine}
use tinytcp.Log.Define.Cast.{define_of_node, define_of_text, node_of_define, text_of_define}
use tinytcp.Log.Define.Cast.Appenders.{kept}
use tinytcp.Log.Define.Cast.RoundTrip.{define_back}

-- `LogDefine::operator<`
abbrev pub define_less : LogDefine → LogDefine → Bool
define_less a b = text_less a.name b.name

before_kept :
    (i : LogDefine) (ds : List LogDefine)
    → All (λ d. (define_less i d ≡ true) × (define_less d i ≡ false)) ds
    → All (λ d. (define_less (kept i) d ≡ true) × (define_less d (kept i) ≡ false)) (map kept ds)
before_kept i [] h = tt
before_kept i (d ∷ ds) (h, hs) = (h, before_kept i ds hs)

kept-Ordered : (ds : List LogDefine) → Ordered define_less ds → Ordered define_less (map kept ds)
kept-Ordered [] o = tt
kept-Ordered (i ∷ ds) (h, o) = (before_kept i ds h, kept-Ordered ds o)

module _ (y : Yaml) (law : IsYaml y) (loads : (n : y.Node) → y.load (y.print n) ≡ value n) where
  define-Reads : (i : LogDefine) → Reads y law (text_of_define y) (define_of_text y) kept i
  unfolding text_of_define define_of_text
  define-Reads i =
      let (n, e, back) =
        >>=-eq-value (node_of_define y i) (define_of_node y) (define_back y law i) in
      rw (e, loads n) (rw (loads n) back)

  all-Reads :
      (ds : List LogDefine) → All (Reads y law (text_of_define y) (define_of_text y) kept) ds
  all-Reads [] = tt
  all-Reads (i ∷ ds) = (define-Reads i, all-Reads ds)

  -- If every node is loaded from its text, the set of definitions is read from its text as the
  -- same definitions, but for what the conversions drop: the level `NEVER`, the levels of
  -- appenders, the files of those of the type 2, and the appenders of no type.
  pub logs_back :
      (ds : List LogDefine)
      → Ordered define_less ds
      → (text_of_vector y (text_of_define y) ds >>= set_of_text y (define_of_text y) define_less)
        ≡ value (map kept ds)
  logs_back ds o =
      set_of_text-text_of_set y law (text_of_define y) (define_of_text y) kept define_less ds
        (kept-Ordered ds o) (λ n e. loads n) (all-Reads ds)
