-- ===== src/Log/Logger/Valid/Ops.antt =====
-- Every operation on loggers keeps them valid, and none of them faults.
use tinytcp.Base.{
  ℕ, suc, ◌+◌, ◌<◌, ◌≤◌, ◌≡◌, refl, sym, subst, Bool, true, false, Option, none, some, List, [],
  ◌∷◌, ◌++◌, set, length, length-set, length-append, if◌then◌else◌, arith,
}
use tinytcp.Base.Text.{Text, same_text}
use tinytcp.NetErr.{Run, ok, ◌>>=◌}
use tinytcp.Log.{Level, debug}
use tinytcp.Log.Pattern.{LogFormatter}
use tinytcp.Log.Pattern as Pattern
use tinytcp.Log.Logger.{
  Target, Appender, Logger, Event, World, give, log, update_logger, add_appender, del_appender,
  clear_appenders, set_level, set_formatter, set_formatter_ptr, made_appender, new_appender,
  new_logger, find_name, found_or_new, get_logger,
}
use tinytcp.Log.Logger.Output.{has, log_lem}
use tinytcp.Log.Logger.Valid.{
  IsValid, logger_ok, loggers_ok, names_ok, Grows, deref-in, deref-loggers_ok, loggers_ok-grow,
  loggers_ok-set, loggers_ok-snoc, names_ok-grow, names_ok-snoc, all_formatted-grow,
  all_formatted-snoc, all_formatted-erase, Grows-snoc, Grows-set, formatted-set,
}

-- A call ends in a valid world that has at least `n` loggers.
abbrev pub EndsValid : ℕ → Run World → Type 0
EndsValid n r = (w : World) × (r ≡ ok w) × IsValid w × (n ≤ length w.loggers)

pub EndsValid-bind :
    (n : ℕ) (r : Run World) (f : World → Run World)
    → EndsValid n r
    → ((w : World) → IsValid w → n ≤ length w.loggers → EndsValid n (f w))
    → EndsValid n (r >>= f)
EndsValid-bind n r f (w, e, v, le) k = rw e (k w v le)

Grows-same : (A : List Appender) → Grows A A
unfolding Grows
Grows-same A a h = h

update_logger-IsValid :
    (f : Logger → Logger) (g : ℕ) (w : World)
    → IsValid w
    → g < length w.loggers
    → ((lg : Logger)
        → logger_ok w.appenders (length w.loggers) lg ≡ true
        → logger_ok w.appenders (length w.loggers) (f lg) ≡ true)
    → EndsValid (length w.loggers) (update_logger f g w)
unfolding update_logger
update_logger-IsValid f g w v h keep =
    let (lg, d) = deref-in w.loggers g h in
    let n = length-set w.loggers g (f lg) in
    let w' : World = record w { loggers = set w.loggers g (f lg) } in
    let kept = keep lg (deref-loggers_ok w.appenders (length w.loggers) w.loggers g lg v.good d) in
    let v' : IsValid w' = record {
      good =
          subst (λ m. loggers_ok w.appenders m (set w.loggers g (f lg)) ≡ true) (sym n)
            (loggers_ok-set w.appenders (length w.loggers) w.loggers g (f lg) v.good kept);
      root_in = omega (arith, n, v.root_in);
      names_in = subst (λ m. names_ok m w.names ≡ true) (sym n) v.names_in;
    } in
    (w', rw d, v', omega (arith, n))

pub del_appender-IsValid :
    (g a : ℕ) (w : World)
    → IsValid w
    → g < length w.loggers
    → EndsValid (length w.loggers) (del_appender g a w)
unfolding del_appender
del_appender-IsValid g a w v h = update_logger-IsValid _ g w v h (λ lg k.
    let ids = all_formatted-erase w.appenders lg.appenders a (ground arith) in ground arith)

pub clear_appenders-IsValid :
    (g : ℕ) (w : World)
    → IsValid w
    → g < length w.loggers
    → EndsValid (length w.loggers) (clear_appenders g w)
unfolding clear_appenders
clear_appenders-IsValid g w v h = update_logger-IsValid _ g w v h (λ lg k. ground arith)

pub set_level-IsValid :
    (l : Level) (g : ℕ) (w : World)
    → IsValid w
    → g < length w.loggers
    → EndsValid (length w.loggers) (set_level l g w)
unfolding set_level
set_level-IsValid l g w v h = update_logger-IsValid _ g w v h (λ lg k. k)

logger_ok-if :
    (A : List Appender) (n : ℕ) (b : Bool) (x y : Logger)
    → logger_ok A n x ≡ true
    → logger_ok A n y ≡ true
    → logger_ok A n (if b then x else y) ≡ true
logger_ok-if A n true x y h k = h
logger_ok-if A n false x y h k = k

pub set_formatter-IsValid :
    (val : Text) (g : ℕ) (w : World)
    → IsValid w
    → g < length w.loggers
    → EndsValid (length w.loggers) (set_formatter val g w)
unfolding set_formatter
set_formatter-IsValid val g w v h =
    let f = Pattern.new val in
    update_logger-IsValid _ g w v h (λ lg k.
      logger_ok-if w.appenders (length w.loggers) f.is_error lg (record lg { formatter = some f }) k
        (ground arith))

pub set_formatter_ptr-IsValid :
    (val : LogFormatter) (g : ℕ) (w : World)
    → IsValid w
    → g < length w.loggers
    → EndsValid (length w.loggers) (set_formatter_ptr (some val) g w)
unfolding set_formatter_ptr
set_formatter_ptr-IsValid val g w v h = update_logger-IsValid _ g w v h (λ lg k. ground arith)

pub log-IsValid :
    (fuel : ℕ) (strftime : Text → ℕ → Text) (g : ℕ) (l : Level) (e : Event) (w : World)
    → IsValid w
    → g < length w.loggers
    → e.logger < length w.loggers
    → EndsValid (length w.loggers) (log (suc fuel) strftime g l e w)
log-IsValid fuel strftime g l e w v h k =
    let (lg, d) = deref-in w.loggers g h in
    let (by, c) = deref-in w.loggers e.logger k in
    let fine = deref-loggers_ok w.appenders (length w.loggers) w.loggers g lg v.good d in
    (
      _,
      log_lem fuel strftime g lg by l e w d c (ground arith),
      record { good = v.good; root_in = v.root_in; names_in = v.names_in },
      omega arith,
    )

has-give : (f : Option LogFormatter) (x : Appender) → has f ≡ true → has (give f x).formatter ≡ true
unfolding give
has-give f x h = ground arith

pub add_appender-IsValid :
    (g a : ℕ) (w : World)
    → IsValid w
    → g < length w.loggers
    → a < length w.appenders
    → EndsValid (length w.loggers) (add_appender g a w)
unfolding add_appender give
add_appender-IsValid g a w v h k =
    let (lg, d) = deref-in w.loggers g h in
    let (x, c) = deref-in w.appenders a k in
    let y : Appender = give lg.formatter x in
    let lg' : Logger = record lg { appenders = lg.appenders ++ a ∷ [] } in
    let n = length-set w.loggers g lg' in
    let fine = deref-loggers_ok w.appenders (length w.loggers) w.loggers g lg v.good d in
    let filled = has-give lg.formatter x (ground arith) in
    let grows = Grows-set w.appenders a y filled in
    let size = length w.loggers in
    let same : size ≤ size = omega arith in
    let all =
      loggers_ok-grow w.appenders (set w.appenders a y) size size w.loggers grows same v.good in
    let ids =
      all_formatted-snoc _ lg.appenders a
        (all_formatted-grow w.appenders (set w.appenders a y) lg.appenders grows (ground arith))
        (formatted-set w.appenders a y k filled) in
    let put =
      loggers_ok-set (set w.appenders a y) (length w.loggers) w.loggers g lg' all (ground arith) in
    let w' : World = record w { appenders = set w.appenders a y; loggers = set w.loggers g lg' } in
    let v' : IsValid w' = record {
      good =
          subst (λ m. loggers_ok (set w.appenders a y) m (set w.loggers g lg') ≡ true) (sym n) put;
      root_in = omega (arith, n, v.root_in);
      names_in = subst (λ m. names_ok m w.names ≡ true) (sym n) v.names_in;
    } in
    (w', rw (d, c), v', omega (arith, n))

pub made_appender-IsValid : (ap : Appender) (w : World) → IsValid w → IsValid (made_appender ap w).1
made_appender-IsValid ap w v = record {
  good = loggers_ok-grow _ _ _ _ w.loggers (Grows-snoc w.appenders ap) (omega arith) v.good;
  root_in = v.root_in;
  names_in = v.names_in;
}

pub new_appender-IsValid : (t : Target) (w : World) → IsValid w → IsValid (new_appender t w).1
unfolding new_appender
new_appender-IsValid t w v =
    made_appender-IsValid (record { target = t; level = debug; formatter = none }) w v

some_below :
    (b : Bool) (x m g : ℕ) (o : Option ℕ)
    → x < m
    → (o ≡ some g → g < m)
    → (if b then some x else o) ≡ some g
    → g < m
some_below true x m g o h ih e = let same : x ≡ g = grind arith in omega (arith, same, h)
some_below false x m g o h ih e = ih e

find_name-in :
    (n : Text) (ps : List (Text × ℕ)) (m : ℕ)
    → names_ok m ps ≡ true
    → (g : ℕ) → find_name n ps ≡ some g
    → g < m
unfolding find_name
find_name-in n [] m h g e = absurd (grind arith)
find_name-in n (p ∷ ps) m h g e =
    some_below (same_text p.0 n) p.1 m g (find_name n ps) (ground arith)
      (find_name-in n ps m (ground arith) g) e

pub found_or_new-IsValid :
    (o : Option ℕ) (n : Text) (w : World)
    → IsValid w
    → ((g : ℕ) → o ≡ some g → g < length w.loggers)
    → IsValid (found_or_new o n w).1
      × ((found_or_new o n w).0 < length (found_or_new o n w).1.loggers)
      × (length w.loggers ≤ length (found_or_new o n w).1.loggers)
unfolding found_or_new new_logger
found_or_new-IsValid (some g) n w v h = (v, h g refl, omega arith)
found_or_new-IsValid none n w v h =
    let lg = new_logger n (some w.root) in
    let m = length-append w.loggers (lg ∷ []) in
    let grown =
      loggers_ok-grow w.appenders w.appenders (length w.loggers) (length w.loggers + 1) w.loggers
        (Grows-same w.appenders) (omega arith) v.good in
    let good =
      loggers_ok-snoc w.appenders (length w.loggers + 1) w.loggers lg grown
        (ground (arith, v.root_in)) in
    let names =
      names_ok-snoc (length w.loggers + 1) w.names (n, length w.loggers)
        (names_ok-grow (length w.loggers) (length w.loggers + 1) w.names (omega arith) v.names_in)
        (omega arith) in
    (
      record {
        good = subst (λ k. loggers_ok w.appenders k (w.loggers ++ lg ∷ []) ≡ true) (sym m) good;
        root_in = omega (arith, m, v.root_in);
        names_in =
            subst (λ k. names_ok k (w.names ++ (n, length w.loggers) ∷ []) ≡ true) (sym m) names;
      },
      omega (arith, m),
      omega (arith, m),
    )

pub get_logger-IsValid :
    (n : Text) (w : World)
    → IsValid w
    → IsValid (get_logger n w).1
      × ((get_logger n w).0 < length (get_logger n w).1.loggers)
      × (length w.loggers ≤ length (get_logger n w).1.loggers)
unfolding get_logger
get_logger-IsValid n w v =
    found_or_new-IsValid (find_name n w.names) n w v
      (find_name-in n w.names (length w.loggers) v.names_in)
