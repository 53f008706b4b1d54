-- ===== src/Log/Define/SetUp.antt =====
-- What the listener does to the logger of one definition: it ends, or follows a null pointer for
-- an appender of an unknown kind.
use tinytcp.Base.{
  ℕ, zero, suc, ◌<◌, ◌≤◌, ◌≡◌, refl, Bool, true, false, ◌&&◌, Option, none, some, List, [], ◌∷◌,
  set, length, length-set, length-append, ◌==◌, if◌then◌else◌, arith,
}
use tinytcp.Base.Text.{Text}
use tinytcp.NetErr.{Run, ok, fault, ◌>>=◌}
use tinytcp.Log.{Level, debug}
use tinytcp.Log.Logger.{
  Target, Appender, World, deref, new_appender, set_level, set_formatter, clear_appenders,
}
use tinytcp.Log.Logger.Output.{has}
use tinytcp.Log.Logger.Valid.{IsValid, Grows, deref-in, loggers_ok-grow}
use tinytcp.Log.Logger.Valid.Ops.{
  EndsValid, set_level-IsValid, set_formatter-IsValid, clear_appenders-IsValid,
  add_appender-IsValid, new_appender-IsValid,
}
use tinytcp.Log.Define.{
  LogAppenderDefine, LogDefine, find_define, picks, set_appender_level, kind_target, set_up_target,
  set_up_appenders, set_up, is_empty,
}

-- The kind of an appender is that of a file or of the console.
abbrev pub known : LogAppenderDefine → Bool
known a = if a.kind == 1 then true else (a.kind == 2)

abbrev pub all_known : List LogAppenderDefine → Bool
all_known [] = true
all_known (a ∷ xs) = known a && all_known xs

-- Every definition is new or changed, and its appenders are of a known kind.
abbrev pub all_fit : (old todo : List LogDefine) → Bool
all_fit old [] = true
all_fit old (i ∷ todo) =
    picks (find_define i.name old) i && all_known i.appenders && all_fit old todo

-- What a run comes to: a valid world with at least `n` loggers if `b`, else a fault.
abbrev pub Decided : (b : Bool) (n : ℕ) → Run World → Type 0
Decided b n r = (b ≡ true → EndsValid n r) × (b ≡ false → r ≡ fault)

pub Decided-bind :
    (b c : Bool) (m n : ℕ) (r : Run World) (f : World → Run World)
    → m ≤ n
    → Decided b n r
    → ((w : World) → IsValid w → n ≤ length w.loggers → Decided c n (f w))
    → Decided (b && c) m (r >>= f)
Decided-bind true c m n r f le (good, bad) k =
    let (w, e, v, more) = good (ground arith) in
    let (fine, ill) = k w v more in
    ((λ h. let (w', e', v', more') = fine h in (w', rw e e', v', omega arith)), (λ h. rw e (ill h)))
Decided-bind false c m n r f le (good, bad) k =
    ((λ h. absurd (grind arith)), (λ h. rw (bad (ground arith))))

pub Decided-weaken : (b : Bool) (m n : ℕ) (r : Run World) → m ≤ n → Decided b n r → Decided b m r
Decided-weaken b m n r le (good, bad) =
    ((λ h. let (w, e, v, more) = good h in (w, e, v, omega arith)), bad)

pub EndsValid-Decided : (n : ℕ) (r : Run World) → EndsValid n r → Decided true n r
EndsValid-Decided n r e = ((λ h. e), (λ h. absurd (grind arith)))

same_formatted :
    (A : List Appender) (a : ℕ) (x y : Appender)
    → deref A a ≡ ok x
    → has y.formatter ≡ has x.formatter
    → Grows A (set A a y)
unfolding deref Grows
same_formatted [] a x y d e b h = h
same_formatted (z ∷ A) zero x y d e zero h = let same : z ≡ x = grind arith in rw e (rw same at h)
same_formatted (z ∷ A) zero x y d e (suc b) h = h
same_formatted (z ∷ A) (suc a) x y d e zero h = h
same_formatted (z ∷ A) (suc a) x y d e (suc b) h = same_formatted A a x y d e b h

set_appender_level-IsValid :
    (l : Level) (a : ℕ) (w : World)
    → IsValid w
    → a < length w.appenders
    → (w' : World) × (set_appender_level l a w ≡ ok w')
      × IsValid w'
      × (length w.loggers ≤ length w'.loggers)
      × (a < length w'.appenders)
unfolding set_appender_level
set_appender_level-IsValid l a w v h =
    let (x, d) = deref-in w.appenders a h in
    let y : Appender = record x { level = l } in
    let grows = same_formatted w.appenders a x y d (ground arith) in
    let size = length w.loggers in
    let same : size ≤ size = omega arith in
    let w' : World = record w { appenders = set w.appenders a y } in
    (
      w',
      rw d,
      record {
        good =
            loggers_ok-grow w.appenders (set w.appenders a y) size size w.loggers grows same v.good;
        root_in = v.root_in;
        names_in = v.names_in;
      },
      same,
      omega (arith, length-set w.appenders a y, h),
    )

-- A kind of target that is known, and the appender that is then made and added.
set_up_target-Decided :
    (o : Option Target) (l : Level) (g : ℕ) (w : World)
    → IsValid w
    → g < length w.loggers
    → Decided (has o) (length w.loggers) (set_up_target o l g w)
unfolding set_up_target new_appender
set_up_target-Decided none l g w v h = ((λ e. absurd (grind arith)), (λ e. refl))
set_up_target-Decided (some t) l g w v h =
    let u = (new_appender t w).1 in
    let (w', e, v', le, a) =
      set_appender_level-IsValid l (length w.appenders) u (new_appender-IsValid t w v) (
        omega (
          arith,
          length-append w.appenders (record { target = t; level = debug; formatter = none } ∷ []),
        )) in
    let (w2, e2, v2, le2) = add_appender-IsValid g (length w.appenders) w' v' (omega arith) a in
    EndsValid-Decided (length w.loggers) _ (w2, rw e e2, v2, omega arith)

known_target : (a : LogAppenderDefine) → has (kind_target a) ≡ known a
unfolding kind_target
known_target a = ground arith

set_up_appenders-Decided :
    (xs : List LogAppenderDefine) (g : ℕ) (w : World)
    → IsValid w
    → g < length w.loggers
    → Decided (all_known xs) (length w.loggers) (set_up_appenders xs g w)
unfolding set_up_appenders
set_up_appenders-Decided [] g w v h =
    EndsValid-Decided (length w.loggers) (ok w) (w, refl, v, omega arith)
set_up_appenders-Decided (a ∷ xs) g w v h =
    Decided-bind (known a) (all_known xs) (length w.loggers) (length w.loggers)
      (set_up_target (kind_target a) a.level g w) (set_up_appenders xs g) (omega arith)
      (rw (← known_target a) (set_up_target-Decided (kind_target a) a.level g w v h))
      (λ u vu le.
        Decided-weaken (all_known xs) (length w.loggers) (length u.loggers) _ le
          (set_up_appenders-Decided xs g u vu (omega arith)))

formatter-EndsValid :
    (b : Bool) (val : Text) (g : ℕ) (w : World)
    → IsValid w
    → g < length w.loggers
    → EndsValid (length w.loggers) (if b then ok w else set_formatter val g w)
formatter-EndsValid true val g w v h = (w, refl, v, omega arith)
formatter-EndsValid false val g w v h = set_formatter-IsValid val g w v h

-- The same, from a world that has grown to `w`.
pub EndsValid-weaken : (m n : ℕ) (r : Run World) → m ≤ n → EndsValid n r → EndsValid m r
EndsValid-weaken m n r le (w, e, v, more) = (w, e, v, omega arith)

pub set_up-Decided :
    (i : LogDefine) (g : ℕ) (w : World)
    → IsValid w
    → g < length w.loggers
    → Decided (all_known i.appenders) (length w.loggers) (set_up i g w)
unfolding set_up
set_up-Decided i g w v h =
    let n = length w.loggers in
    let known = all_known i.appenders in
    Decided-bind true known n n (set_level i.level g w) _ (omega arith)
      (EndsValid-Decided n _ (set_level-IsValid i.level g w v h))
      λ w1 v1 le1.
        Decided-bind true known n n
          (if is_empty i.formatter then ok w1 else set_formatter i.formatter g w1) _ (omega arith)
          (EndsValid-Decided n _ (
            EndsValid-weaken n (length w1.loggers) _ le1
              (formatter-EndsValid (is_empty i.formatter) i.formatter g w1 v1 (omega arith))))
          λ w2 v2 le2.
            Decided-bind true known n n (clear_appenders g w2) _ (omega arith)
              (EndsValid-Decided n _ (
                EndsValid-weaken n (length w2.loggers) _ le2
                  (clear_appenders-IsValid g w2 v2 (omega arith))))
              λ w3 v3 le3.
                Decided-weaken known n (length w3.loggers) _ le3
                  (set_up_appenders-Decided i.appenders g w3 v3 (omega arith))
