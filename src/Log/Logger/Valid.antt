-- ===== src/Log/Logger/Valid.antt =====
-- Loggers and appenders are never left in a state in which writing follows a null pointer.
pub mod Ops
pub mod Calls
use tinytcp.Base.{
  ℕ, zero, suc, ◌+◌, ◌<◌, ◌≤◌, ◌≡◌, refl, ap, sym, subst, ◌∙◌, Bool, true, false, not, ◌&&◌, ltb,
  Option, none, some, List, [], ◌∷◌, ◌++◌, set, length, length-set, length-append, ◌==◌,
  if◌then◌else◌, arith,
}
use tinytcp.Base.Text.{Text, same_text}
use tinytcp.NetErr.{Run, ok, fault, out_of_fuel}
use tinytcp.Log.{Level}
use tinytcp.Log.Pattern.{LogFormatter}
use tinytcp.Log.Pattern as Pattern
use tinytcp.Log.Logger.{
  Target, Appender, Logger, Event, World, deref, give, log, update_logger, add_appender,
  erase_first, del_appender, clear_appenders, set_level, set_formatter, new_appender, new_logger,
  find_name, get_logger,
}
use tinytcp.Log.Logger.Output.{has, formatted, all_formatted, log_lem}

abbrev pub root_ok : ℕ → Option ℕ → Bool
root_ok n none = true
root_ok n (some r) = ltb r n

abbrev pub logger_ok : List Appender → ℕ → Logger → Bool
logger_ok apps n lg = has lg.formatter && all_formatted apps lg.appenders && root_ok n lg.root

abbrev pub loggers_ok : List Appender → ℕ → List Logger → Bool
loggers_ok apps n [] = true
loggers_ok apps n (lg ∷ lgs) = logger_ok apps n lg && loggers_ok apps n lgs

abbrev pub names_ok : ℕ → List (Text × ℕ) → Bool
names_ok n [] = true
names_ok n (p ∷ ps) = ltb p.1 n && names_ok n ps

-- Every logger has a formatter, the appenders of loggers are there and have formatters, and the
-- manager's and every logger's root, and the manager's loggers, are there.
pub record IsValid (w : World) : Type 0 where
  pub good : loggers_ok w.appenders (length w.loggers) w.loggers ≡ true
  pub root_in : w.root < length w.loggers
  pub names_in : names_ok (length w.loggers) w.names ≡ true

-- Appenders that had a formatter have one in `B`.
unfoldable pub Grows : (A B : List Appender) → Type 0
Grows A B = (a : ℕ) → formatted A a ≡ true → formatted B a ≡ true

all_formatted-grow :
    (A B : List Appender) (ids : List ℕ)
    → Grows A B
    → all_formatted A ids ≡ true
    → all_formatted B ids ≡ true
unfolding Grows
all_formatted-grow A B [] g h = refl
all_formatted-grow A B (a ∷ ids) g h =
    let first = g a (ground arith) in
    let rest = all_formatted-grow A B ids g (ground arith) in ground arith

root_ok-grow : (m n : ℕ) (r : Option ℕ) → m ≤ n → root_ok m r ≡ true → root_ok n r ≡ true
root_ok-grow m n none le h = refl
root_ok-grow m n (some r) le h = ground arith

pub loggers_ok-grow :
    (A B : List Appender) (m n : ℕ) (lgs : List Logger)
    → Grows A B
    → m ≤ n
    → loggers_ok A m lgs ≡ true
    → loggers_ok B n lgs ≡ true
loggers_ok-grow A B m n [] g le h = refl
loggers_ok-grow A B m n (lg ∷ lgs) g le h =
    let ids = all_formatted-grow A B lg.appenders g (ground arith) in
    let r = root_ok-grow m n lg.root le (ground arith) in
    let rest = loggers_ok-grow A B m n lgs g le (ground arith) in ground arith

names_ok-grow :
    (m n : ℕ) (ps : List (Text × ℕ)) → m ≤ n → names_ok m ps ≡ true → names_ok n ps ≡ true
names_ok-grow m n [] le h = refl
names_ok-grow m n (p ∷ ps) le h = let rest = names_ok-grow m n ps le (ground arith) in ground arith

pub deref-in : {A : Type 0} (xs : List A) (p : ℕ) → p < length xs → (x : A) × (deref xs p ≡ ok x)
unfolding deref
deref-in [] p h = absurd (omega arith)
deref-in (x ∷ xs) zero h = (x, refl)
deref-in (x ∷ xs) (suc p) h = deref-in xs p (omega arith)

deref-loggers_ok :
    (A : List Appender) (n : ℕ) (lgs : List Logger) (g : ℕ) (lg : Logger)
    → loggers_ok A n lgs ≡ true
    → deref lgs g ≡ ok lg
    → logger_ok A n lg ≡ true
unfolding deref
deref-loggers_ok A n [] g lg h d = absurd (grind arith)
deref-loggers_ok A n (x ∷ lgs) zero lg h d =
    let same : x ≡ lg = grind arith in subst (λ y. logger_ok A n y ≡ true) same (ground arith)
deref-loggers_ok A n (x ∷ lgs) (suc g) lg h d = deref-loggers_ok A n lgs g lg (ground arith) d

loggers_ok-set :
    (A : List Appender) (n : ℕ) (lgs : List Logger) (g : ℕ) (lg : Logger)
    → loggers_ok A n lgs ≡ true
    → logger_ok A n lg ≡ true
    → loggers_ok A n (set lgs g lg) ≡ true
loggers_ok-set A n [] g lg h k = refl
loggers_ok-set A n (x ∷ lgs) zero lg h k = ground arith
loggers_ok-set A n (x ∷ lgs) (suc g) lg h k =
    let rest = loggers_ok-set A n lgs g lg (ground arith) k in ground arith

loggers_ok-snoc :
    (A : List Appender) (n : ℕ) (lgs : List Logger) (lg : Logger)
    → loggers_ok A n lgs ≡ true
    → logger_ok A n lg ≡ true
    → loggers_ok A n (lgs ++ lg ∷ []) ≡ true
loggers_ok-snoc A n [] lg h k = ground arith
loggers_ok-snoc A n (x ∷ lgs) lg h k =
    let rest = loggers_ok-snoc A n lgs lg (ground arith) k in ground arith

names_ok-snoc :
    (n : ℕ) (ps : List (Text × ℕ)) (p : Text × ℕ)
    → names_ok n ps ≡ true
    → p.1 < n
    → names_ok n (ps ++ p ∷ []) ≡ true
names_ok-snoc n [] p h k = ground arith
names_ok-snoc n (q ∷ ps) p h k = let rest = names_ok-snoc n ps p (ground arith) k in ground arith

all_formatted-snoc :
    (A : List Appender) (ids : List ℕ) (a : ℕ)
    → all_formatted A ids ≡ true
    → formatted A a ≡ true
    → all_formatted A (ids ++ a ∷ []) ≡ true
all_formatted-snoc A [] a h k = ground arith
all_formatted-snoc A (b ∷ ids) a h k =
    let rest = all_formatted-snoc A ids a (ground arith) k in ground arith

all_formatted-erase :
    (A : List Appender) (ids : List ℕ) (a : ℕ)
    → all_formatted A ids ≡ true
    → all_formatted A (erase_first a ids) ≡ true
unfolding erase_first
all_formatted-erase A [] a h = refl
all_formatted-erase A (b ∷ ids) a h =
    let rest = all_formatted-erase A ids a (ground arith) in ground arith

Grows-snoc : (A : List Appender) (x : Appender) → Grows A (A ++ x ∷ [])
unfolding Grows
Grows-snoc [] x a h = absurd (grind arith)
Grows-snoc (y ∷ A) x zero h = h
Grows-snoc (y ∷ A) x (suc a) h = Grows-snoc A x a h

Grows-set :
    (A : List Appender) (a : ℕ) (x : Appender) → has x.formatter ≡ true → Grows A (set A a x)
unfolding Grows
Grows-set [] a x h b k = k
Grows-set (y ∷ A) zero x h zero k = h
Grows-set (y ∷ A) zero x h (suc b) k = k
Grows-set (y ∷ A) (suc a) x h zero k = k
Grows-set (y ∷ A) (suc a) x h (suc b) k = Grows-set A a x h b k

formatted-set :
    (A : List Appender) (a : ℕ) (x : Appender)
    → a < length A
    → has x.formatter ≡ true
    → formatted (set A a x) a ≡ true
formatted-set [] a x h k = absurd (omega arith)
formatted-set (y ∷ A) zero x h k = k
formatted-set (y ∷ A) (suc a) x h k = formatted-set A a x (omega arith) k
