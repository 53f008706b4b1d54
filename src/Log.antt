-- ===== src/Log.antt =====
-- src/log.h and src/log.cc: levels, patterns, loggers and what they write.
pub mod Pattern
pub mod Logger
pub mod Define
mod Tests
use tinytcp.Base.{ℕ, Bool, leb}
use tinytcp.Base.Text.{Text, codes, same_text}
use tinytcp.Base.{if◌then◌else◌}

-- `LogLevel::Level`
pub data Level : Type 0 where
  unknow debug info warn error fatal never : Level

-- The value of an enumerator.
abbrev pub level_value : Level → ℕ
level_value unknow = 0
level_value debug = 1
level_value info = 2
level_value warn = 3
level_value error = 4
level_value fatal = 5
level_value never = 100

-- `a >= b`
abbrev pub level_ge : Level → Level → Bool
level_ge a b = leb (level_value b) (level_value a)

-- `LogLevel::to_string`
pub level_text : Level → Text
level_text debug = codes "DEBUG"
level_text info = codes "INFO"
level_text warn = codes "WARN"
level_text error = codes "ERROR"
level_text fatal = codes "FATAL"
level_text _ = codes "UNKNOW"

-- `LogLevel::from_string`
pub level_of_text : Text → Level
level_of_text str =
    if same_text str (codes "DEBUG")
    then debug
    else if same_text str (codes "INFO")
    then info
    else if same_text str (codes "WARN")
    then warn
    else if same_text str (codes "ERROR")
    then error
    else if same_text str (codes "FATAL")
    then fatal
    else unknow
