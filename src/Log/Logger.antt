-- ===== src/Log/Logger.antt =====
-- Loggers, appenders and their manager, of src/log.h and src/log.cc. They lie in stores, and a
-- pointer is an index.
pub mod Output
pub mod Valid
use tinytcp.Base.{
  ℕ, zero, suc, Bool, true, false, not, Option, none, some, List, [], ◌∷◌, ◌++◌, set, length, ◌==◌,
  if◌then◌else◌,
}
use tinytcp.Base.Text.{Text, codes, same_text, decimal_text}
use tinytcp.NetErr.{Run, ok, fault, out_of_fuel, ◌>>=◌}
use tinytcp.Log.{Level, debug, level_ge, level_text}
use tinytcp.Log.Pattern.{
  FormatItem, message, level, elapse, name, thread_id, new_line, filename, line, tab, thread_name,
  date_time, string, LogFormatter,
}
use tinytcp.Log.Pattern as Pattern

-- `StdoutLogAppender` and `FileLogAppender`
pub data Target : Type 0 where
  stdout : Target
  file : (filename : Text) → Target

-- `LogAppender`: no formatter is the null pointer.
pub record Appender : Type 0 where
  pub target : Target
  pub level : Level
  pub formatter : Option LogFormatter

pub record Logger : Type 0 where
  pub name : Text
  pub level : Level
  pub appenders : List ℕ
  pub formatter : Option LogFormatter
  pub root : Option ℕ

-- `LogEvent`
pub record Event : Type 0 where
  pub file : Text
  pub line : ℕ
  pub elapse : ℕ
  pub thread_id : ℕ
  pub thread_name : Text
  pub time : ℕ
  pub content : Text
  pub logger : ℕ
  pub level : Level

-- All appenders and loggers, `LoggerManager`, and what has been written, in order.
pub record World : Type 0 where
  pub appenders : List Appender
  pub loggers : List Logger
  pub root : ℕ
  pub names : List (Text × ℕ)
  pub written : List (Target × Text)

-- `*p`
unfoldable pub deref : {A : Type 0} → List A → ℕ → Run A
deref [] p = fault
deref (x ∷ xs) zero = ok x
deref (x ∷ xs) (suc p) = deref xs p

pub not_null : {A : Type 0} → Option A → Run A
not_null none = fault
not_null (some a) = ok a

-- `format` of each subclass of `FormatItem`. `strftime` is what `localtime_r` and `strftime` leave
-- in the buffer; `by` is the name of the event's logger.
pub format_item : (strftime : Text → ℕ → Text) (by : Text) → Level → Event → FormatItem → Text
format_item strftime by l e message = e.content
format_item strftime by l e level = level_text l
format_item strftime by l e elapse = decimal_text e.elapse
format_item strftime by l e name = by
format_item strftime by l e thread_id = decimal_text e.thread_id
format_item strftime by l e new_line = 10 ∷ []
format_item strftime by l e filename = e.file
format_item strftime by l e line = decimal_text e.line
format_item strftime by l e tab = 9 ∷ []
format_item strftime by l e thread_name = e.thread_name
format_item strftime by l e (date_time format) = strftime format e.time
format_item strftime by l e (string s) = s

format_items : (strftime : Text → ℕ → Text) (by : Text) → Level → Event → List FormatItem → Text
unfolding format_item
format_items strftime by l e [] = []
format_items strftime by l e (i ∷ is) =
    format_item strftime by l e i ++ format_items strftime by l e is

-- `LogFormatter::format`
pub format : (strftime : Text → ℕ → Text) (by : Text) → Level → Event → LogFormatter → Text
unfolding format_items
format strftime by l e f = format_items strftime by l e f.items

-- `log` of both appenders
pub appender_log : (strftime : Text → ℕ → Text) (a : ℕ) → Level → Event → World → Run World
unfolding deref not_null format
appender_log strftime a l e w = do
  ap ← deref w.appenders a
  if level_ge l ap.level
      then (do
        f ← not_null ap.formatter
        by ← deref w.loggers e.logger
        ok (record w { written = w.written ++ (ap.target, format strftime by.name l e f) ∷ [] }))
      else ok w

-- `m_root->log` where there is a root
pub root_log : (ℕ → World → Run World) → Option ℕ → World → Run World
root_log call none w = ok w
root_log call (some r) w = call r w

-- The loop of `Logger::log` over `m_appender`, which is the list `all`.
pub log_loop :
    (strftime : Text → ℕ → Text) (call : World → Run World) (all todo : List ℕ)
    → Level
    → Event
    → World
    → Run World
unfolding appender_log
log_loop strftime call all [] l e w = ok w
log_loop strftime call all (a ∷ todo) l e w = do
  w' ← if not (length all == 0) then appender_log strftime a l e w else call w
  log_loop strftime call all todo l e w'

-- `Logger::log`, through at most `fuel` loggers
pub log : (fuel : ℕ) (strftime : Text → ℕ → Text) (g : ℕ) → Level → Event → World → Run World
unfolding deref log_loop root_log
log zero strftime g l e w = out_of_fuel
log (suc fuel) strftime g l e w = do
  lg ← deref w.loggers g
  let call = root_log (λ r v. log fuel strftime r l e v) lg.root
  if level_ge l lg.level then log_loop strftime call lg.appenders lg.appenders l e w else ok w

-- The destructor of `LogEventWrap`
unfoldable pub event_wrap_end : (fuel : ℕ) (strftime : Text → ℕ → Text) → Event → World → Run World
unfolding log
event_wrap_end fuel strftime e w = log fuel strftime e.logger e.level e w

update_logger : (Logger → Logger) → ℕ → World → Run World
unfolding deref
update_logger f g w = do lg ← deref w.loggers g; ok (record w { loggers = set w.loggers g (f lg) })

-- An appender without a formatter takes the logger's.
pub give : Option LogFormatter → Appender → Appender
give f ap = elim ap.formatter [ none ↦ record ap { formatter = f } | some own ↦ ap ]

-- `Logger::add_appender`
unfoldable pub add_appender : (g a : ℕ) → World → Run World
unfolding deref give
add_appender g a w = do
  lg ← deref w.loggers g
  ap ← deref w.appenders a
  ok (record w {
    appenders = set w.appenders a (give lg.formatter ap);
    loggers = set w.loggers g (record lg { appenders = lg.appenders ++ a ∷ [] });
  })

erase_first : ℕ → List ℕ → List ℕ
erase_first a [] = []
erase_first a (b ∷ bs) = let rest = erase_first a bs in if b == a then bs else b ∷ rest

-- `Logger::del_appender`
pub del_appender : (g a : ℕ) → World → Run World
unfolding update_logger erase_first
del_appender g a w = update_logger (λ lg. record lg { appenders = erase_first a lg.appenders }) g w

-- `Logger::clear_appenders`
unfoldable pub clear_appenders : (g : ℕ) → World → Run World
unfolding update_logger
clear_appenders g w = update_logger (λ lg. record lg { appenders = [] }) g w

-- `Logger::set_level`
unfoldable pub set_level : Level → (g : ℕ) → World → Run World
unfolding update_logger
set_level l g w = update_logger (λ lg. record lg { level = l }) g w

-- `Logger::set_formatter` of a text
unfoldable pub set_formatter : Text → (g : ℕ) → World → Run World
unfolding update_logger
set_formatter val g w =
    let f = Pattern.new val in
    update_logger (λ lg. if f.is_error then lg else record lg { formatter = some f }) g w

-- `Logger::set_formatter` of a pointer, which may be null
unfoldable pub set_formatter_ptr : Option LogFormatter → (g : ℕ) → World → Run World
unfolding update_logger
set_formatter_ptr val g w = update_logger (λ lg. record lg { formatter = val }) g w

-- An appender that the caller has made and set up.
abbrev pub made_appender : Appender → World → ℕ × World
made_appender ap w = (length w.appenders, record w { appenders = w.appenders ++ ap ∷ [] })

-- A new appender: `DEBUG` and no formatter.
unfoldable pub new_appender : Target → World → ℕ × World
new_appender t w = (
  length w.appenders,
  record w {
    appenders = w.appenders ++ (record { target = t; level = debug; formatter = none }) ∷ [];
  },
)

-- `Logger::Logger`
pub new_logger : Text → Option ℕ → Logger
new_logger n root = record {
  name = n;
  level = debug;
  appenders = [];
  formatter =
      some (Pattern.new (codes "%d{%Y-%m-%d %H:%M:%S}%T[%t %N]%T%T[%p]%T[%c]%T%f:%l%T%m%T%n"));
  root = root;
}

find_name : Text → List (Text × ℕ) → Option ℕ
find_name n [] = none
find_name n (p ∷ ps) = let rest = find_name n ps in if same_text p.0 n then some p.1 else rest

-- The logger that was found, or a new one that is entered under the name.
pub found_or_new : Option ℕ → Text → World → ℕ × World
unfolding new_logger
found_or_new (some g) n w = (g, w)
found_or_new none n w = (
  length w.loggers,
  record w {
    loggers = w.loggers ++ new_logger n (some w.root) ∷ [];
    names = w.names ++ (n, length w.loggers) ∷ [];
  },
)

-- `LoggerManager::LoggerManager`: the root logger writes to the console.
unfoldable pub new_manager : Run World
unfolding new_appender new_logger add_appender
new_manager =
    let bare : World = record {
      appenders = [];
      loggers = new_logger (codes "root") none ∷ [];
      root = 0;
      names = [];
      written = [];
    } in
    let (a, w) = new_appender stdout bare in
    do w' ← add_appender 0 a w; ok (record w' { names = (codes "root", 0) ∷ [] })

-- `LoggerManager::get_logger`
unfoldable pub get_logger : Text → World → ℕ × World
unfolding find_name found_or_new
get_logger n w = found_or_new (find_name n w.names) n w
