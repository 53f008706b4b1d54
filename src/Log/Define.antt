-- ===== src/Log/Define.antt =====
-- `LogAppenderDefine`, `LogDefine` and the listener of `LogIniter`, of src/log.cc: what a change of
-- the setting "logs" does to the loggers.
pub mod Cast
mod Tests
pub mod SetUp
pub mod Change
use tinytcp.Base.{
  ℕ, Bool, true, false, not, ◌&&◌, Option, none, some, List, [], ◌∷◌, set, ◌==◌, if◌then◌else◌,
}
use tinytcp.Base.Text.{Text, codes, same_text}
use tinytcp.NetErr.{Run, ok, fault, ◌>>=◌}
use tinytcp.Log.{Level, info, never, level_value, level_ge}
use tinytcp.Log.Logger.{
  Target, stdout, file, Event, World, deref, event_wrap_end, add_appender, clear_appenders,
  set_level, set_formatter, new_appender, get_logger,
}

-- `kind` is the field `type`: 1 is a file, 2 the console.
pub record LogAppenderDefine : Type 0 where
  pub kind : ℕ
  pub level : Level
  pub formatter : Text
  pub file : Text

pub record LogDefine : Type 0 where
  pub name : Text
  pub level : Level
  pub formatter : Text
  pub appenders : List LogAppenderDefine

same_level : Level → Level → Bool
same_level a b = level_value a == level_value b

-- `LogAppenderDefine::operator==`
pub same_appender : LogAppenderDefine → LogAppenderDefine → Bool
unfolding same_level
same_appender a b =
    (a.kind == b.kind)
    && same_level a.level b.level
    && same_text a.formatter b.formatter
    && same_text a.file b.file

same_appenders : List LogAppenderDefine → List LogAppenderDefine → Bool
unfolding same_appender
same_appenders [] [] = true
same_appenders [] (b ∷ bs) = false
same_appenders (a ∷ xs) [] = false
same_appenders (a ∷ xs) (b ∷ bs) = same_appender a b && same_appenders xs bs

-- `LogDefine::operator==`
pub same_define : LogDefine → LogDefine → Bool
unfolding same_level same_appenders
same_define a b =
    same_text a.name b.name
    && same_level a.level b.level
    && same_text a.formatter b.formatter
    && same_appenders a.appenders b.appenders

-- `find` of a `std::set` that is ordered by `LogDefine::operator<`, so by the names.
pub find_define : Text → List LogDefine → Option LogDefine
find_define n [] = none
find_define n (d ∷ ds) = let rest = find_define n ds in if same_text d.name n then some d else rest

-- Whether the listener makes a logger for the definition: it is new, or it is not what it was.
pub picks : Option LogDefine → LogDefine → Bool
unfolding same_define
picks none i = true
picks (some d) i = not (same_define i d)

-- `LogAppender::set_level`
pub set_appender_level : Level → (a : ℕ) → World → Run World
unfolding deref
set_appender_level l a w = do
  x ← deref w.appenders a
  ok (record w { appenders = set w.appenders a (record x { level = l }) })

-- A new appender of the kind that is asked for, none for another kind.
pub kind_target : LogAppenderDefine → Option Target
kind_target a =
    if a.kind == 1 then some (file a.file) else if a.kind == 2 then some stdout else none

-- `ap` is a null pointer if there is no target.
pub set_up_target : Option Target → Level → (g : ℕ) → World → Run World
unfolding set_appender_level new_appender add_appender
set_up_target none l g w = fault
set_up_target (some t) l g w = do
  w' ← set_appender_level l (new_appender t w).0 (new_appender t w).1
  add_appender g (new_appender t w).0 w'

-- The loop over the appenders of a definition.
pub set_up_appenders : List LogAppenderDefine → (g : ℕ) → World → Run World
unfolding set_up_target kind_target
set_up_appenders [] g w = ok w
set_up_appenders (a ∷ xs) g w = do
  w' ← set_up_target (kind_target a) a.level g w
  set_up_appenders xs g w'

is_empty : Text → Bool
is_empty [] = true
is_empty (c ∷ s) = false

-- What is done to the logger of a definition.
pub set_up : LogDefine → (g : ℕ) → World → Run World
unfolding set_level set_formatter clear_appenders set_up_appenders is_empty
set_up i g w = do
  w1 ← set_level i.level g w
  w2 ← if is_empty i.formatter then ok w1 else set_formatter i.formatter g w1
  w3 ← clear_appenders g w2
  set_up_appenders i.appenders g w3

-- The loop over the new definitions; `logger` is a null pointer if none is made.
pub add_loop : (old todo : List LogDefine) → World → Run World
unfolding picks find_define get_logger set_up
add_loop old [] w = ok w
add_loop old (i ∷ todo) w = do
  let made = get_logger i.name w
  w' ← if picks (find_define i.name old) i then set_up i made.0 made.1 else fault
  add_loop old todo w'

pub remove_one : LogDefine → (g : ℕ) → World → Run World
unfolding set_level clear_appenders
remove_one i g w = do w1 ← set_level never g w; clear_appenders g w1

gone : Option LogDefine → Bool
gone none = true
gone (some d) = false

-- The loop over the old definitions.
pub remove_loop : (new todo : List LogDefine) → World → Run World
unfolding find_define get_logger remove_one gone
remove_loop new [] w = ok w
remove_loop new (i ∷ todo) w = do
  let made = get_logger i.name w
  w' ← if gone (find_define i.name new) then remove_one i made.0 made.1 else ok w
  remove_loop new todo w'

-- `TINYTCP_LOG_LEVEL`, for an event that has its logger and its level.
pub log_level : (fuel : ℕ) (strftime : Text → ℕ → Text) → Event → World → Run World
unfolding event_wrap_end deref
log_level fuel strftime e w = do
  lg ← deref w.loggers e.logger
  if level_ge e.level lg.level then event_wrap_end fuel strftime e w else ok w

-- The listener. `e` is the event of its own line, whose other fields the macro fills.
pub on_change :
    (fuel : ℕ) (strftime : Text → ℕ → Text) → Event → (old new : List LogDefine) → World → Run World
unfolding log_level add_loop remove_loop
on_change fuel strftime e old new w = do
  w1 ←
      log_level fuel strftime
        (record e { logger = w.root; level = info; content = codes "on_logger_conf_changed" }) w
  w2 ← add_loop old new w1
  remove_loop new old w2
