-- ===== src/Log/Tests.antt =====
-- A pattern with every kind of piece, and a manager with one logger.
use tinytcp.Base.{ℕ, ◌≡◌, refl, true, false, none, some, List, [], ◌∷◌, ◌++◌, if◌then◌else◌, arith}
use mathlib.Core.List.{cons≢nil}
use tinytcp.Base.Text.{codes}
use tinytcp.Base.Text.{Text}
use tinytcp.NetErr.{ok, ◌>>=◌}
use tinytcp.Log.{debug, info, warn, error, level_ge}
use tinytcp.Log.Pattern as Pattern
use tinytcp.Log.Logger.{stdout, file, Appender, Logger, Event, World, deref, log, new_manager}
use tinytcp.Log.Logger.Output.{lines, log_lem}
use tinytcp.Log.Logger.Valid.{IsValid}
use tinytcp.Log.Logger.Valid.Ops.{EndsValid}
use tinytcp.Log.Logger.Valid.Calls.{Act, say, attach, adopt, formatter_ptr, level, acts, acts_lem}
use tinytcp.Log.Define.{LogAppenderDefine, LogDefine, on_change}
use tinytcp.Log.Define.SetUp.{Decided, all_fit}
use tinytcp.Log.Define.Change.{on_change_lem}
use tinytcp.Log.Pattern.{Piece, text, item, cut}
use tinytcp.Log.Pattern.Print.{print, All, no_close, Printable, cut-print}

abbrev sample_pieces : List Piece
sample_pieces =
    item (codes "d") (codes "%H:%M")
    ∷ item (codes "T") []
    ∷ text (codes "[")
    ∷ item (codes "t") []
    ∷ text (codes " ")
    ∷ item (codes "N") []
    ∷ text (codes "]")
    ∷ item (codes "T") []
    ∷ item (codes "m") []
    ∷ item (codes "n") []
    ∷ []

-- What is true of every character of a one-letter text.
abbrev named : (true ≡ true) × Unit {0}
named = (refl, tt)

abbrev date : All no_close (codes "%H:%M")
date = (refl, (refl, (refl, (refl, (refl, tt)))))

sample_pieces-Printable : Printable sample_pieces
sample_pieces-Printable = (
  cons≢nil,
  named,
  date,
  tt,
  (
    cons≢nil,
    named,
    tt,
    refl,
    (
      cons≢nil,
      named,
      tt,
      (
        cons≢nil,
        named,
        tt,
        refl,
        (
          cons≢nil,
          named,
          tt,
          (
            cons≢nil,
            named,
            tt,
            refl,
            (
              cons≢nil,
              named,
              tt,
              (
                cons≢nil,
                named,
                tt,
                refl,
                (cons≢nil, named, tt, refl, (cons≢nil, named, tt, refl, tt)),
              ),
            ),
          ),
        ),
      ),
    ),
  ),
)

cut-print_example : cut (print sample_pieces) 0 [] ≡ (sample_pieces, false)
cut-print_example = cut-print sample_pieces sample_pieces-Printable

abbrev console : Appender
console = record { target = stdout; level = info; formatter = some (Pattern.new (codes "%p %m%n")) }

abbrev root_logger : Logger
root_logger = record {
  name = codes "root";
  level = debug;
  appenders = 0 ∷ [];
  formatter = some (Pattern.new (codes "%m%n"));
  root = none;
}

abbrev one_logger : World
one_logger = record {
  appenders = console ∷ [];
  loggers = root_logger ∷ [];
  root = 0;
  names = (codes "root", 0) ∷ [];
  written = [];
}

abbrev event : Event
event = record {
  file = codes "net.cc";
  line = 7;
  elapse = 0;
  thread_id = 1;
  thread_name = codes "main";
  time = 0;
  content = codes "up";
  logger = 0;
  level = warn;
}

abbrev no_dates : Text → ℕ → Text
no_dates fmt time = []

log_lem_example :
    log 1 no_dates 0 warn event one_logger
    ≡ ok (record one_logger {
      written =
          []
          ++ (if level_ge warn debug
              then lines no_dates (codes "root") warn event (console ∷ []) (0 ∷ [])
              else []);
    })
unfolding deref
log_lem_example = log_lem 0 no_dates 0 root_logger root_logger warn event one_logger refl refl refl

one_logger-IsValid : IsValid one_logger
one_logger-IsValid = record { good = refl; root_in = omega arith; names_in = refl }

abbrev some_acts : List (Text × Act)
some_acts =
    (codes "system", attach (file (codes "net.log")))
    ∷ (codes "system", formatter_ptr (some (Pattern.new (codes "%m"))))
    ∷ (codes "system", adopt (some (record { target = stdout; level = error; formatter = none })))
    ∷ (codes "system", level error)
    ∷ (codes "system", say warn event)
    ∷ []

acts_lem_example : EndsValid 1 (new_manager >>= acts 1 no_dates some_acts)
acts_lem_example = acts_lem 0 no_dates some_acts (tt, (refl, (refl, (tt, (tt, tt)))))

abbrev to_file : LogAppenderDefine
to_file = record { kind = 1; level = debug; formatter = []; file = codes "net.log" }

abbrev old_defines : List LogDefine
old_defines = (record { name = codes "net"; level = debug; formatter = []; appenders = [] }) ∷ []

abbrev new_defines : List LogDefine
new_defines =
    (record { name = codes "net"; level = error; formatter = codes "%m"; appenders = to_file ∷ [] })
    ∷ []

on_change_lem_example :
    Decided
      (all_fit old_defines new_defines)
      1
      (on_change 1 no_dates event old_defines new_defines one_logger)
on_change_lem_example =
    on_change_lem 0 no_dates event old_defines new_defines one_logger one_logger-IsValid
