-- ===== src/Log/Logger/Output.antt =====
-- What `Logger::log` writes, and that one logger is enough.
use tinytcp.Base.{
  ℕ, zero, suc, ◌≡◌, refl, ap, sym, ◌∙◌, Bool, true, false, ◌&&◌, Option, none, some, List, [], ◌∷◌,
  ◌++◌, length, ◌==◌, if◌then◌else◌, arith,
}
use mathlib.Core.List.{append_assoc, append-nil}
use tinytcp.Base.Text.{Text}
use tinytcp.NetErr.{Run, ok}
use tinytcp.Log.{Level, level_ge}
use tinytcp.Log.Pattern.{LogFormatter}
use tinytcp.Log.Logger.{
  Target, Appender, Logger, Event, World, deref, not_null, format, appender_log, log_loop, root_log,
  log,
}

abbrev pub has : {A : Type 0} → Option A → Bool
has none = false
has (some x) = true

from_has : {A : Type 0} (o : Option A) → has o ≡ true → (x : A) × (o ≡ some x)
from_has none h = absurd (grind arith)
from_has (some x) h = (x, refl)

-- Whether a pointer leads to an appender that has a formatter.
abbrev pub formatted : List Appender → ℕ → Bool
formatted [] a = false
formatted (x ∷ xs) zero = has x.formatter
formatted (x ∷ xs) (suc a) = formatted xs a

abbrev pub all_formatted : List Appender → List ℕ → Bool
all_formatted apps [] = true
all_formatted apps (a ∷ ids) = formatted apps a && all_formatted apps ids

module _ (strftime : Text → ℕ → Text) (by : Text) (l : Level) (e : Event) where
  -- What one appender has to write.
  pub line_of : Appender → List (Target × Text)
  line_of x = elim x.formatter [
    | none ↦ []
    | some f ↦ if level_ge l x.level then (x.target, format strftime by l e f) ∷ [] else []
  ]

  line_at : List Appender → ℕ → List (Target × Text)
  unfolding line_of
  line_at [] a = []
  line_at (x ∷ xs) zero = line_of x
  line_at (x ∷ xs) (suc a) = line_at xs a

  -- What the appenders of a list of pointers have to write, in their order.
  pub lines : List Appender → List ℕ → List (Target × Text)
  unfolding line_at
  lines apps [] = []
  lines apps (a ∷ ids) = line_at apps a ++ lines apps ids

-- The appender behind a pointer to a formatted one.
deref-formatted :
    (strftime : Text → ℕ → Text) (by : Text) (l : Level) (e : Event) (apps : List Appender) (a : ℕ)
    → formatted apps a ≡ true
    → (x : Appender) × (f : LogFormatter) × (deref apps a ≡ ok x)
      × (x.formatter ≡ some f)
      × (line_at strftime by l e apps a ≡ line_of strftime by l e x)
unfolding deref line_at
deref-formatted strftime by l e [] a h = absurd (grind arith)
deref-formatted strftime by l e (x ∷ xs) zero h =
    let (f, q) = from_has x.formatter h in (x, f, refl, q, refl)
deref-formatted strftime by l e (x ∷ xs) (suc a) h = deref-formatted strftime by l e xs a h

written_if :
    (b : Bool) (run : Run World) (out : List (Target × Text)) (w : World)
    → run ≡ ok (record w { written = w.written ++ out })
    → (if b then run else ok w) ≡ ok (record w { written = w.written ++ (if b then out else []) })
written_if true run out w h = h
written_if false run out w h = ap (λ t. ok (record w { written = t })) (sym (append-nil w.written))

appender_log_lem :
    (strftime : Text → ℕ → Text) (by : Logger) (l : Level) (e : Event) (a : ℕ) (w : World)
    → deref w.loggers e.logger ≡ ok by
    → formatted w.appenders a ≡ true
    → appender_log strftime a l e w
      ≡ ok (record w { written = w.written ++ line_at strftime by.name l e w.appenders a })
unfolding appender_log line_of not_null
appender_log_lem strftime by l e a w d h =
    let (x, f, dx, fx, lx) = deref-formatted strftime by.name l e w.appenders a h in
    let line : Target × Text = (x.target, format strftime by.name l e f) in
    let opened : line_of strftime by.name l e x ≡ (if level_ge l x.level then line ∷ [] else []) =
      rw (line_of, fx) in
    rw (dx, lx, opened, fx, d) (written_if (level_ge l x.level) _ (line ∷ []) w refl)

nonzero : (n : ℕ) → (suc n == 0) ≡ false
nonzero n = ground arith

log_loop_lem :
    (strftime : Text → ℕ → Text) (call : World → Run World) (b : ℕ) (all todo : List ℕ)
    (by : Logger) (l : Level) (e : Event) (w : World)
    → deref w.loggers e.logger ≡ ok by
    → all_formatted w.appenders todo ≡ true
    → log_loop strftime call (b ∷ all) todo l e w
      ≡ ok (record w { written = w.written ++ lines strftime by.name l e w.appenders todo })
unfolding log_loop lines
log_loop_lem strftime call b all [] by l e w d h =
    ap (λ t. ok (record w { written = t })) (sym (append-nil w.written))
log_loop_lem strftime call b all (a ∷ todo) by l e w d h =
    let first = appender_log_lem strftime by l e a w d (ground arith) in
    let v = record w { written = w.written ++ line_at strftime by.name l e w.appenders a } in
    let rest = log_loop_lem strftime call b all todo by l e v d (ground arith) in
    let assoc =
      append_assoc w.written (line_at strftime by.name l e w.appenders a)
        (lines strftime by.name l e w.appenders todo) in
    rw (nonzero (length all), first) (rest ∙ ap (λ t. ok (record w { written = t })) assoc)

log_loop_all :
    (strftime : Text → ℕ → Text) (call : World → Run World) (all : List ℕ) (by : Logger) (l : Level)
    (e : Event) (w : World)
    → deref w.loggers e.logger ≡ ok by
    → all_formatted w.appenders all ≡ true
    → log_loop strftime call all all l e w
      ≡ ok (record w { written = w.written ++ lines strftime by.name l e w.appenders all })
unfolding log_loop lines
log_loop_all strftime call [] by l e w d h =
    ap (λ t. ok (record w { written = t })) (sym (append-nil w.written))
log_loop_all strftime call (b ∷ all) by l e w d h =
    log_loop_lem strftime call b all (b ∷ all) by l e w d h

-- A logger whose appenders have formatters writes, for an event at its level or above, what each
-- appender that admits the event has to write, in the order of the appenders, and nothing else
-- changes; an event below its level changes nothing. One logger is enough: its root is not asked.
pub log_lem :
    (fuel : ℕ) (strftime : Text → ℕ → Text) (g : ℕ) (lg by : Logger) (l : Level) (e : Event)
    (w : World)
    → deref w.loggers g ≡ ok lg
    → deref w.loggers e.logger ≡ ok by
    → all_formatted w.appenders lg.appenders ≡ true
    → log (suc fuel) strftime g l e w
      ≡ ok (record w {
        written =
            w.written
            ++ (if level_ge l lg.level
                then lines strftime by.name l e w.appenders lg.appenders
                else []);
      })
unfolding log
log_lem fuel strftime g lg by l e w d r h =
    let call = root_log (λ p v. log fuel strftime p l e v) lg.root in
    let looped = log_loop_all strftime call lg.appenders by l e w r h in
    rw (d) (
      written_if (level_ge l lg.level) _ (lines strftime by.name l e w.appenders lg.appenders) w
        looped)
