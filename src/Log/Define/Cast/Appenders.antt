-- ===== src/Log/Define/Cast/Appenders.antt =====
-- An appender of a definition, and the fields that it shares with the definition, to a node and back.
use tinytcp.Base.{
  ◌≡◌, refl, sym, ap, ◌∙◌, true, false, Option, none, some, List, [], ◌∷◌, ◌==◌, if◌then◌else◌, inl,
  inr, Bool-cases,
}
use tinytcp.Base.Text.{Text, codes, same_text}
use tinytcp.Config.Yaml.{Try, value, thrown, Yaml, IsYaml, ◌>>=◌}
use tinytcp.Log.{Level, unknow, debug, info, warn, error, fatal, never, level_text, level_of_text}
use tinytcp.Log.Define.{LogAppenderDefine, LogDefine, is_empty, same_level}
use tinytcp.Log.Define.Cast.{
  text_or, file_appender, stdout_appender, typed_appender, appender_of_node, put_level,
  put_formatter, put_type, node_of_appender,
}

-- A level is written by its name, and `NEVER` as `UNKNOW`.
abbrev pub kept_level : Level → Level
kept_level never = unknow
kept_level l = l

-- An appender loses its level, and one of the type 2 its file; one of no type is lost.
abbrev pub kept_appender : LogAppenderDefine → Option LogAppenderDefine
kept_appender a =
    if a.kind == 1
    then some (record { kind = 1; level = unknow; formatter = a.formatter; file = a.file })
    else if a.kind == 2
    then some (record { kind = 2; level = unknow; formatter = a.formatter; file = [] })
    else none

abbrev pub add_some : Option LogAppenderDefine → List LogAppenderDefine → List LogAppenderDefine
add_some none xs = xs
add_some (some x) xs = x ∷ xs

abbrev pub kept_appenders : List LogAppenderDefine → List LogAppenderDefine
kept_appenders [] = []
kept_appenders (a ∷ xs) = add_some (kept_appender a) (kept_appenders xs)

abbrev pub kept : LogDefine → LogDefine
kept i = record i { level = kept_level i.level; appenders = kept_appenders i.appenders }

level_of_text-level_text : (l : Level) → level_of_text (level_text l) ≡ kept_level l
unfolding level_of_text level_text
level_of_text-level_text unknow = refl
level_of_text-level_text debug = refl
level_of_text-level_text info = refl
level_of_text-level_text warn = refl
level_of_text-level_text error = refl
level_of_text-level_text fatal = refl
level_of_text-level_text never = refl

empty_text : (f : Text) → is_empty f ≡ true → f ≡ []
unfolding is_empty
empty_text [] h = refl
empty_text (c ∷ f) h = cc

default_level : (l : Level) → same_level l unknow ≡ true → level_of_text [] ≡ kept_level l
unfolding level_of_text same_level
default_level unknow h = refl
default_level debug h = cc
default_level info h = cc
default_level warn h = cc
default_level error h = cc
default_level fatal h = cc
default_level never h = refl

pub bind_back {ℓ} :
    {A B : Type 0} {C : Type ℓ} (m : Try A) (f : A → Try B) (g : B → Try C) (b : B)
    → (m >>= f) ≡ value b
    → (m >>= λ x. f x >>= g) ≡ g b
bind_back (value a) f g b h = rw h
bind_back thrown f g b h = cc

module _ (y : Yaml) (law : IsYaml y) where
  open y use {Node, load, print, null, scalar, as_text, get, put, push_back, elements}

  -- A field that only one of two nodes has.
  abbrev pub Extends : Text → Node → Node → Type 0
  Extends key n m =
      (law.has_fields m ≡ true) × ((k : Text) → same_text k key ≡ false → get k m ≡ get k n)

  put-Extends : (key : Text) (v n : Node) → law.has_fields n ≡ true → Extends key n (put key v n)
  put-Extends key v n h = (law.has_fields-put key v n h, (λ k e. law.get-put_ne k key v n e h))

  pub put_level-Extends :
      (l : Level) (n : Node) → law.has_fields n ≡ true → Extends (codes "level") n (put_level y l n)
  unfolding put_level
  put_level-Extends l n h = elim (Bool-cases (same_level l unknow)) [
    | inl e ↦ rw e (h, (λ k d. refl))
    | inr e ↦ rw e (put-Extends (codes "level") _ n h)
  ]

  pub put_formatter-Extends :
      (f : Text) (n : Node)
      → law.has_fields n ≡ true
      → Extends (codes "formatter") n (put_formatter y f n)
  unfolding put_formatter
  put_formatter-Extends f n h = elim (Bool-cases (is_empty f)) [
    | inl e ↦ rw e (h, (λ k d. refl))
    | inr e ↦ rw e (put-Extends (codes "formatter") _ n h)
  ]

  -- The formatter is read back, the empty one as the default.
  formatter_back :
      (f : Text) (n : Node)
      → law.has_fields n ≡ true
      → get (codes "formatter") n ≡ value none
      → (get (codes "formatter") (put_formatter y f n) >>= text_or y []) ≡ value f
  unfolding put_formatter text_or
  formatter_back f n h d = elim (Bool-cases (is_empty f)) [
    | inl e ↦ rw (e, d) (ap value (sym (empty_text f e)))
    | inr e ↦ rw (e, law.get-put (codes "formatter") (scalar f) n h) (law.as_text-scalar f)
  ]

  pub level_back :
      (l : Level) (n : Node)
      → law.has_fields n ≡ true
      → get (codes "level") n ≡ value none
      → (get (codes "level") (put_level y l n) >>= text_or y [] >>= λ t. value (level_of_text t))
        ≡ value (kept_level l)
  unfolding put_level text_or
  level_back l n h d = elim (Bool-cases (same_level l unknow)) [
    | inl e ↦ rw (e, d) (ap value (default_level l e))
    | inr e ↦
        rw
          (
            e,
            law.get-put (codes "level") (scalar (level_text l)) n h,
            law.as_text-scalar (level_text l),
          )
          (ap value (level_of_text-level_text l))
  ]

  -- The two common fields of a node that has neither yet.
  unfoldable pub dress : Level → Text → Node → Node
  dress l f n = put_formatter y f (put_level y l n)

  pub dress_lem :
      (l : Level) (f : Text) (n : Node) (k : Text)
      → law.has_fields n ≡ true
      → same_text k (codes "level") ≡ false
      → same_text k (codes "formatter") ≡ false
      → get k (dress l f n) ≡ get k n
  unfolding dress
  dress_lem l f n k h a b =
      let (h1, same1) = put_level-Extends l n h in
      let (h2, same2) = put_formatter-Extends f (put_level y l n) h1 in same2 k b ∙ same1 k a

  pub dress-formatter :
      (l : Level) (f : Text) (n : Node)
      → law.has_fields n ≡ true
      → get (codes "formatter") n ≡ value none
      → (get (codes "formatter") (dress l f n) >>= text_or y []) ≡ value f
  unfolding dress
  dress-formatter l f n h d =
      let (h1, same1) = put_level-Extends l n h in
      formatter_back f (put_level y l n) h1 (same1 (codes "formatter") refl ∙ d)

  file_back :
      (l : Level) (f name : Text)
      → let n =
          put
            (codes "file")
            (scalar name)
            (put (codes "type") (scalar (codes "FileLogAppender")) null) in
        appender_of_node y (dress l f n)
        ≡ value (some (record { kind = 1; level = unknow; formatter = f; file = name }))
  unfolding appender_of_node typed_appender file_appender
  file_back l f name =
      let n1 = put (codes "type") (scalar (codes "FileLogAppender")) null in
      let h1 =
        law.has_fields-put (codes "type") (scalar (codes "FileLogAppender")) null
          law.has_fields-null in
      let n = put (codes "file") (scalar name) n1 in
      let h = law.has_fields-put (codes "file") (scalar name) n1 h1 in
      let type : get (codes "type") (dress l f n)
          ≡ value (some (scalar (codes "FileLogAppender"))) =
        dress_lem l f n (codes "type") h refl refl
        ∙ law.get-put_ne (codes "type") (codes "file") (scalar name) n1 refl h1
        ∙ law.get-put (codes "type") (scalar (codes "FileLogAppender")) null law.has_fields-null in
      let file : get (codes "file") (dress l f n) ≡ value (some (scalar name)) =
        dress_lem l f n (codes "file") h refl refl
        ∙ law.get-put (codes "file") (scalar name) n1 h1 in
      let no_formatter : get (codes "formatter") n ≡ value none =
        law.get-put_ne (codes "formatter") (codes "file") (scalar name) n1 refl h1
        ∙ law.get-put_ne (codes "formatter") (codes "type") (scalar (codes "FileLogAppender")) null
            refl law.has_fields-null
        ∙ law.get-null (codes "formatter") in
      rw (type, law.as_text-scalar (codes "FileLogAppender"), file, law.as_text-scalar name)
        (bind_back (get (codes "formatter") (dress l f n)) (text_or y []) _ f
          (dress-formatter l f n h no_formatter))

  stdout_back :
      (l : Level) (f : Text)
      → let n = put (codes "type") (scalar (codes "StdoutLogAppender")) null in
        appender_of_node y (dress l f n)
        ≡ value (some (record { kind = 2; level = unknow; formatter = f; file = [] }))
  unfolding appender_of_node typed_appender stdout_appender
  stdout_back l f =
      let n = put (codes "type") (scalar (codes "StdoutLogAppender")) null in
      let h =
        law.has_fields-put (codes "type") (scalar (codes "StdoutLogAppender")) null
          law.has_fields-null in
      let type : get (codes "type") (dress l f n)
          ≡ value (some (scalar (codes "StdoutLogAppender"))) =
        dress_lem l f n (codes "type") h refl refl
        ∙ law.get-put (codes "type") (scalar (codes "StdoutLogAppender")) null
            law.has_fields-null in
      let no_formatter : get (codes "formatter") n ≡ value none =
        law.get-put_ne (codes "formatter") (codes "type") (scalar (codes "StdoutLogAppender")) null
          refl law.has_fields-null
        ∙ law.get-null (codes "formatter") in
      rw (type, law.as_text-scalar (codes "StdoutLogAppender"))
        (bind_back (get (codes "formatter") (dress l f n)) (text_or y []) _ f
          (dress-formatter l f n h no_formatter))

  untyped_back : (l : Level) (f : Text) → appender_of_node y (dress l f null) ≡ value none
  unfolding appender_of_node typed_appender
  untyped_back l f =
      let type : get (codes "type") (dress l f null) ≡ value none =
        dress_lem l f null (codes "type") law.has_fields-null refl refl
        ∙ law.get-null (codes "type") in
      rw type

  -- An appender is read from its node as what is kept of it.
  pub appender_back :
      (a : LogAppenderDefine) → appender_of_node y (node_of_appender y a) ≡ value (kept_appender a)
  unfolding node_of_appender put_type dress
  appender_back a = elim (Bool-cases (a.kind == 1)) [
    | inl e ↦ rw e (file_back a.level a.formatter a.file)
    | inr e ↦ elim (Bool-cases (a.kind == 2)) [
      | inl d ↦ rw (e, d) (stdout_back a.level a.formatter)
      | inr d ↦ rw (e, d) (untyped_back a.level a.formatter)
    ]
  ]
