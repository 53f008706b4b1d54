-- ===== src/Log/Define/Cast.antt =====
-- `LexicalCast` of src/log.cc between a text and a `LogDefine`.
pub mod Appenders
pub mod RoundTrip
pub mod Setting
use tinytcp.Base.{Bool, Option, none, some, List, [], ◌∷◌, ◌++◌, ◌==◌, if◌then◌else◌}
use tinytcp.Base.Text.{Text, codes, same_text}
use tinytcp.Config.Yaml.{Try, value, thrown, Yaml, ◌>>=◌}
use tinytcp.Log.{Level, unknow, level_text, level_of_text}
use tinytcp.Log.Define.{LogAppenderDefine, LogDefine, is_empty, same_level}

module _ (y : Yaml) where
  open y use {Node, load, print, null, scalar, as_text, get, put, push_back, elements}

  -- The text of a field, or `other` if it is not defined.
  pub text_or : (other : Text) → Option Node → Try Text
  text_or other none = value other
  text_or other (some n) = as_text n

  -- What a node that the text must have holds.
  required : Option Node → Try Text
  required none = thrown
  required (some n) = as_text n

  -- An appender of the type 1, none without a file.
  file_appender : (a : Node) → Option Node → Try (Option LogAppenderDefine)
  unfolding text_or
  file_appender a none = value none
  file_appender a (some n) = do
    file ← as_text n
    f ← get (codes "formatter") a
    formatter ← text_or [] f
    value (some (record { kind = 1; level = unknow; formatter = formatter; file = file }))

  -- An appender of the type 2.
  stdout_appender : (a : Node) → Try (Option LogAppenderDefine)
  unfolding text_or
  stdout_appender a = do
    f ← get (codes "formatter") a
    formatter ← text_or [] f
    value (some (record { kind = 2; level = unknow; formatter = formatter; file = [] }))

  -- A round of the loop over the appenders once the type is looked up.
  typed_appender : (a : Node) → Option Node → Try (Option LogAppenderDefine)
  unfolding file_appender stdout_appender
  typed_appender a none = value none
  typed_appender a (some n) = do
    type ← as_text n
    if same_text type (codes "FileLogAppender")
        then get (codes "file") a >>= file_appender a
        else if same_text type (codes "StdoutLogAppender")
        then stdout_appender a
        else value none

  -- A round of the loop over the appenders: none where it goes on with the next.
  pub appender_of_node : (a : Node) → Try (Option LogAppenderDefine)
  unfolding typed_appender
  appender_of_node a = get (codes "type") a >>= typed_appender a

  pub append_some : List LogAppenderDefine → Option LogAppenderDefine → List LogAppenderDefine
  append_some xs none = xs
  append_some xs (some x) = xs ++ x ∷ []

  -- The loop over the appenders.
  pub appenders_of_nodes : List Node → List LogAppenderDefine → Try (List LogAppenderDefine)
  unfolding appender_of_node append_some
  appenders_of_nodes [] xs = value xs
  appenders_of_nodes (a ∷ as') xs =
      appender_of_node a >>= λ x. appenders_of_nodes as' (append_some xs x)

  appenders_of : Option Node → Try (List LogAppenderDefine)
  unfolding appenders_of_nodes
  appenders_of none = value []
  appenders_of (some n) = appenders_of_nodes (elements n) []

  -- `LexicalCast<std::string, LogDefine>` of a node
  pub define_of_node : Node → Try LogDefine
  unfolding required text_or appenders_of
  define_of_node n = do
    found ← get (codes "name") n
    name ← required found
    l ← get (codes "level") n
    level ← text_or [] l
    f ← get (codes "formatter") n
    formatter ← text_or [] f
    a ← get (codes "appenders") n
    appenders ← appenders_of a
    value (record {
      name = name;
      level = level_of_text level;
      formatter = formatter;
      appenders = appenders;
    })

  -- `LexicalCast<std::string, LogDefine>`
  pub define_of_text : Text → Try LogDefine
  unfolding define_of_node
  define_of_text v = load v >>= define_of_node

  -- The two fields that definitions and appenders share, each where it is not the default.
  pub put_level : Level → Node → Node
  unfolding same_level
  put_level l n = if same_level l unknow then n else put (codes "level") (scalar (level_text l)) n

  pub put_formatter : Text → Node → Node
  unfolding is_empty
  put_formatter f n = if is_empty f then n else put (codes "formatter") (scalar f) n

  put_type : LogAppenderDefine → Node → Node
  put_type a n =
      if a.kind == 1
      then put (codes "file") (scalar a.file)
          (put (codes "type") (scalar (codes "FileLogAppender")) n)
      else if a.kind == 2
      then put (codes "type") (scalar (codes "StdoutLogAppender")) n
      else n

  -- The node `na`
  pub node_of_appender : LogAppenderDefine → Node
  unfolding put_type put_level put_formatter
  node_of_appender a = put_formatter a.formatter (put_level a.level (put_type a null))

  or_null : Option Node → Node
  or_null none = null
  or_null (some n) = n

  -- The loop over the appenders of a definition.
  pub push_appenders : List LogAppenderDefine → Node → Try Node
  unfolding node_of_appender or_null
  push_appenders [] n = value n
  push_appenders (a ∷ xs) n = do
    found ← get (codes "appenders") n
    push_appenders xs (put (codes "appenders") (push_back (or_null found) (node_of_appender a)) n)

  pub node_of_define : LogDefine → Try Node
  unfolding push_appenders put_level put_formatter
  node_of_define i =
      push_appenders i.appenders
        (put_formatter i.formatter (put_level i.level (put (codes "name") (scalar i.name) null)))

  -- `LexicalCast<LogDefine, std::string>`
  pub text_of_define : LogDefine → Try Text
  unfolding node_of_define
  text_of_define i = node_of_define i >>= λ n. value (print n)
