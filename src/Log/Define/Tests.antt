-- ===== src/Log/Define/Tests.antt =====
-- Two definitions with appenders of every kind.
use tinytcp.Base.{◌≡◌, refl, List, [], ◌∷◌}
use mathlib.Core.List.{map}
use tinytcp.Base.Text.{codes}
use tinytcp.Config.Yaml.{value, ◌>>=◌}
use tinytcp.Config.Cast.{text_less, set_of_text, text_of_vector}
use tinytcp.Config.Cast.Sets.{Ordered}
use tinytcp.Config.Sample.{docs, docs-IsYaml, read-written}
use tinytcp.Log.{unknow, info, error, never}
use tinytcp.Log.Define.{LogAppenderDefine, LogDefine}
use tinytcp.Log.Define.Cast.{define_of_text, text_of_define}
use tinytcp.Log.Define.Cast.Appenders.{kept}
use tinytcp.Log.Define.Cast.Setting.{define_less, logs_back}

abbrev appender_defines : List LogAppenderDefine
appender_defines =
    (record { kind = 1; level = error; formatter = codes "%m%n"; file = codes "net.log" })
    ∷ (record { kind = 2; level = unknow; formatter = []; file = codes "lost" })
    ∷ (record { kind = 0; level = unknow; formatter = []; file = [] })
    ∷ []

abbrev two_defines : List LogDefine
two_defines =
    (record { name = codes "root"; level = info; formatter = []; appenders = appender_defines })
    ∷ (record { name = codes "system"; level = never; formatter = codes "%m"; appenders = [] })
    ∷ []

two_defines-Ordered : Ordered define_less two_defines
unfolding text_less
two_defines-Ordered = (((refl, refl), tt), (tt, tt))

logs_back_example :
    (text_of_vector docs (text_of_define docs) two_defines
      >>= set_of_text docs (define_of_text docs) define_less)
    ≡ value (map kept two_defines)
logs_back_example = logs_back docs docs-IsYaml read-written two_defines two_defines-Ordered
