-- ===== src/Log/Logger/Valid/Calls.antt =====
-- Uses of the log by names of loggers that end without a fault.
use tinytcp.Base.{
  ℕ, suc, ◌<◌, ◌≡◌, refl, true, Option, none, some, List, [], ◌∷◌, length, length-append, arith,
}
use tinytcp.Base.Text.{Text}
use tinytcp.Log.Pattern.{LogFormatter}
use tinytcp.Log.Logger.Output.{has}
use tinytcp.NetErr.{Run, ok, fault, ◌>>=◌}
use tinytcp.Log.{Level, debug}
use tinytcp.Log.Logger.{
  Target, Event, World, get_logger, new_appender, add_appender, del_appender, clear_appenders,
  set_level, set_formatter, set_formatter_ptr, made_appender, Appender, event_wrap_end, new_manager,
}
use tinytcp.Log.Logger.Valid.{IsValid}
use tinytcp.Log.Logger.Valid.Ops.{
  EndsValid, set_level-IsValid, set_formatter-IsValid, clear_appenders-IsValid,
  add_appender-IsValid, del_appender-IsValid, made_appender-IsValid, set_formatter_ptr-IsValid,
  get_logger-IsValid, log-IsValid,
}

-- What is done to the logger that `TINYTCP_LOG_NAME` gives.
pub data Act : Type 0 where
  say : Level → Event → Act
  attach : Target → Act
  detach : (appender : ℕ) → Act
  clear : Act
  level : Level → Act
  formatter : Text → Act
  adopt : Option Appender → Act  -- an appender that the caller has made, or null
  formatter_ptr : Option LogFormatter → Act  -- a formatter that the caller has made, or null

pub act : (fuel : ℕ) (strftime : Text → ℕ → Text) (g : ℕ) → Act → World → Run World
unfolding event_wrap_end new_appender add_appender del_appender clear_appenders set_level
    set_formatter set_formatter_ptr
act fuel strftime g (say l e) w =
    event_wrap_end fuel strftime (record e { logger = g; level = l }) w
act fuel strftime g (attach t) w = add_appender g (new_appender t w).0 (new_appender t w).1
act fuel strftime g (detach a) w = del_appender g a w
act fuel strftime g clear w = clear_appenders g w
act fuel strftime g (level l) w = set_level l g w
act fuel strftime g (formatter val) w = set_formatter val g w
act fuel strftime g (adopt none) w = fault
act fuel strftime g (adopt (some ap)) w =
    add_appender g (made_appender ap w).0 (made_appender ap w).1
act fuel strftime g (formatter_ptr f) w = set_formatter_ptr f g w

-- An act with no null pointer.
abbrev pub NoNull : Act → Type 0
NoNull (adopt ap) = has ap ≡ true
NoNull (formatter_ptr f) = has f ≡ true
NoNull (say l e) = Unit
NoNull (attach t) = Unit
NoNull (detach a) = Unit
NoNull clear = Unit
NoNull (level l) = Unit
NoNull (formatter val) = Unit

abbrev pub NoNulls : List (Text × Act) → Type 0
NoNulls [] = Unit
NoNulls (x ∷ xs) = NoNull x.1 × NoNulls xs

pub acts : (fuel : ℕ) (strftime : Text → ℕ → Text) → List (Text × Act) → World → Run World
unfolding act get_logger
acts fuel strftime [] w = ok w
acts fuel strftime (x ∷ xs) w = do
  w' ← act fuel strftime (get_logger x.0 w).0 x.1 (get_logger x.0 w).1
  acts fuel strftime xs w'

event_wrap_end-IsValid :
    (fuel : ℕ) (strftime : Text → ℕ → Text) (e : Event) (w : World)
    → IsValid w
    → e.logger < length w.loggers
    → EndsValid (length w.loggers) (event_wrap_end (suc fuel) strftime e w)
unfolding event_wrap_end
event_wrap_end-IsValid fuel strftime e w v h = log-IsValid fuel strftime e.logger e.level e w v h h

adopt-IsValid :
    (ap : Appender) (g : ℕ) (w : World)
    → IsValid w
    → g < length w.loggers
    → EndsValid (length w.loggers) (add_appender g (made_appender ap w).0 (made_appender ap w).1)
adopt-IsValid ap g w v h =
    add_appender-IsValid g (length w.appenders) (made_appender ap w).1
      (made_appender-IsValid ap w v) h (omega (arith, length-append w.appenders (ap ∷ [])))

act-IsValid :
    (fuel : ℕ) (strftime : Text → ℕ → Text) (g : ℕ) (a : Act) (w : World)
    → IsValid w
    → g < length w.loggers
    → NoNull a
    → EndsValid (length w.loggers) (act (suc fuel) strftime g a w)
unfolding act new_appender
act-IsValid fuel strftime g (say l e) w v h k =
    event_wrap_end-IsValid fuel strftime (record e { logger = g; level = l }) w v h
act-IsValid fuel strftime g (attach t) w v h k =
    adopt-IsValid (record { target = t; level = debug; formatter = none }) g w v h
act-IsValid fuel strftime g (detach a) w v h k = del_appender-IsValid g a w v h
act-IsValid fuel strftime g clear w v h k = clear_appenders-IsValid g w v h
act-IsValid fuel strftime g (level l) w v h k = set_level-IsValid l g w v h
act-IsValid fuel strftime g (formatter val) w v h k = set_formatter-IsValid val g w v h
act-IsValid fuel strftime g (adopt none) w v h k = absurd (grind (arith, k))
act-IsValid fuel strftime g (adopt (some ap)) w v h k = adopt-IsValid ap g w v h
act-IsValid fuel strftime g (formatter_ptr none) w v h k = absurd (grind (arith, k))
act-IsValid fuel strftime g (formatter_ptr (some f)) w v h k = set_formatter_ptr-IsValid f g w v h

acts-IsValid :
    (fuel : ℕ) (strftime : Text → ℕ → Text) (xs : List (Text × Act)) (w : World)
    → IsValid w
    → NoNulls xs
    → EndsValid (length w.loggers) (acts (suc fuel) strftime xs w)
unfolding acts
acts-IsValid fuel strftime [] w v k = (w, refl, v, omega arith)
acts-IsValid fuel strftime (x ∷ xs) w v (k, ks) =
    let (g, u) = get_logger x.0 w in
    let (vu, h, le) = get_logger-IsValid x.0 w v in
    let (w1, e1, v1, le1) = act-IsValid fuel strftime g x.1 u vu h k in
    let (w2, e2, v2, le2) = acts-IsValid fuel strftime xs w1 v1 ks in
    (w2, rw e1 e2, v2, omega arith)

new_manager-IsValid : (w : World) × (new_manager ≡ ok w) × IsValid w × (length w.loggers ≡ 1)
unfolding new_manager
new_manager-IsValid =
    (_, refl, record { good = refl; root_in = omega arith; names_in = refl }, refl)

-- From the manager that its constructor makes, every list of writes, of changes of level or
-- formatter, the formatter given by its text or by a pointer, and of appenders attached, detached
-- or cleared, on loggers that are asked for by name, with no null pointer for an appender or a
-- formatter, ends without a fault, in a world in which every logger and every appender that a
-- logger has can be followed and has a formatter. An appender is attached once, to one logger, and
-- is not changed from outside after that.
pub acts_lem :
    (fuel : ℕ) (strftime : Text → ℕ → Text) (xs : List (Text × Act))
    → NoNulls xs
    → EndsValid 1 (new_manager >>= acts (suc fuel) strftime xs)
acts_lem fuel strftime xs k =
    let (w, e, v, n) = new_manager-IsValid in
    let (w', e', v', le) = acts-IsValid fuel strftime xs w v k in (w', rw e e', v', omega arith)
