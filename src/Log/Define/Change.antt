-- ===== src/Log/Define/Change.antt =====
-- When a change of the setting "logs" leaves the loggers valid, and when it faults.
use tinytcp.Base.{
  ℕ, suc, ◌<◌, ◌≤◌, ◌≡◌, refl, Bool, true, false, ◌&&◌, List, [], ◌∷◌, length, if◌then◌else◌, arith,
}
use tinytcp.Base.Text.{Text, codes}
use tinytcp.NetErr.{Run, ok, fault, ◌>>=◌}
use tinytcp.Log.{info, never, level_ge}
use tinytcp.Log.Logger.{
  Event, Logger, World, deref, event_wrap_end, get_logger, set_level, clear_appenders,
}
use tinytcp.Log.Logger.Valid.{IsValid, deref-in}
use tinytcp.Log.Logger.Valid.Ops.{
  EndsValid, EndsValid-bind, set_level-IsValid, clear_appenders-IsValid, get_logger-IsValid,
  log-IsValid,
}
use tinytcp.Log.Define.{
  LogDefine, find_define, picks, set_up, add_loop, remove_one, remove_loop, gone, log_level,
  on_change,
}
use tinytcp.Log.Define.SetUp.{
  all_known, all_fit, Decided, Decided-bind, Decided-weaken, EndsValid-Decided, set_up-Decided,
  EndsValid-weaken,
}

-- With a null pointer for a logger that is not made.
set_up_if-Decided :
    (b : Bool) (i : LogDefine) (g : ℕ) (w : World)
    → IsValid w
    → g < length w.loggers
    → Decided (b && all_known i.appenders) (length w.loggers) (if b then set_up i g w else fault)
set_up_if-Decided true i g w v h = set_up-Decided i g w v h
set_up_if-Decided false i g w v h = ((λ e. absurd (grind arith)), (λ e. refl))

and_true : (a : Bool) → (a && true) ≡ a
and_true true = refl
and_true false = refl

add_loop-Decided :
    (old todo : List LogDefine) (w : World)
    → IsValid w
    → Decided (all_fit old todo) (length w.loggers) (add_loop old todo w)
unfolding add_loop
add_loop-Decided old [] w v = EndsValid-Decided (length w.loggers) (ok w) (w, refl, v, omega arith)
add_loop-Decided old (i ∷ todo) w v =
    let n = length w.loggers in
    let (g, u) = get_logger i.name w in
    let (vu, gu, le) = get_logger-IsValid i.name w v in
    let new = picks (find_define i.name old) i in
    (Decided-bind (new && all_known i.appenders) (all_fit old todo) n n
      (if new then set_up i g u else fault) (add_loop old todo) (omega arith)
      (Decided-weaken (new && all_known i.appenders) n (length u.loggers) _ le
        (set_up_if-Decided new i g u vu gu))
      (λ w' v' le'.
        Decided-weaken (all_fit old todo) n (length w'.loggers) _ le'
          (add_loop-Decided old todo w' v')))

remove_one-EndsValid :
    (i : LogDefine) (g : ℕ) (w : World)
    → IsValid w
    → g < length w.loggers
    → EndsValid (length w.loggers) (remove_one i g w)
unfolding remove_one
remove_one-EndsValid i g w v h =
    EndsValid-bind (length w.loggers) (set_level never g w) (clear_appenders g)
      (set_level-IsValid never g w v h)
      (λ u vu le.
        EndsValid-weaken (length w.loggers) (length u.loggers) _ le
          (clear_appenders-IsValid g u vu (omega arith)))

remove_if-EndsValid :
    (b : Bool) (i : LogDefine) (g : ℕ) (w u : World)
    → IsValid w
    → IsValid u
    → length w.loggers ≤ length u.loggers
    → g < length u.loggers
    → EndsValid (length w.loggers) (if b then remove_one i g u else ok w)
remove_if-EndsValid true i g w u v vu le h =
    EndsValid-weaken (length w.loggers) (length u.loggers) _ le (remove_one-EndsValid i g u vu h)
remove_if-EndsValid false i g w u v vu le h = (w, refl, v, omega arith)

remove_loop-EndsValid :
    (new todo : List LogDefine) (w : World)
    → IsValid w
    → EndsValid (length w.loggers) (remove_loop new todo w)
unfolding remove_loop
remove_loop-EndsValid new [] w v = (w, refl, v, omega arith)
remove_loop-EndsValid new (i ∷ todo) w v =
    let n = length w.loggers in
    let (g, u) = get_logger i.name w in
    let (vu, gu, le) = get_logger-IsValid i.name w v in
    let lost = gone (find_define i.name new) in
    EndsValid-bind n (if lost then remove_one i g u else ok w) (remove_loop new todo)
      (remove_if-EndsValid lost i g w u v vu le gu)
      (λ w' v' le'.
        EndsValid-weaken n (length w'.loggers) _ le' (remove_loop-EndsValid new todo w' v'))

choose-EndsValid :
    (b : Bool) (r : Run World) (w : World)
    → IsValid w
    → EndsValid (length w.loggers) r
    → EndsValid (length w.loggers) (if b then r else ok w)
choose-EndsValid true r w v h = h
choose-EndsValid false r w v h = (w, refl, v, omega arith)

log_if-EndsValid :
    (test : Logger → Bool) (o : Run Logger) (lg : Logger) (r : Run World) (w : World)
    → IsValid w
    → o ≡ ok lg
    → EndsValid (length w.loggers) r
    → EndsValid (length w.loggers) (o >>= λ x. if test x then r else ok w)
log_if-EndsValid test o lg r w v d h = rw d (choose-EndsValid (test lg) r w v h)

event_wrap_end-EndsValid :
    (fuel : ℕ) (strftime : Text → ℕ → Text) (e : Event) (w : World)
    → IsValid w
    → e.logger < length w.loggers
    → EndsValid (length w.loggers) (event_wrap_end (suc fuel) strftime e w)
unfolding event_wrap_end
event_wrap_end-EndsValid fuel strftime e w v h =
    log-IsValid fuel strftime e.logger e.level e w v h h

log_level-EndsValid :
    (fuel : ℕ) (strftime : Text → ℕ → Text) (e : Event) (w : World)
    → IsValid w
    → e.logger < length w.loggers
    → EndsValid (length w.loggers) (log_level (suc fuel) strftime e w)
unfolding log_level
log_level-EndsValid fuel strftime e w v h =
    let (lg, d) = deref-in w.loggers e.logger h in
    log_if-EndsValid (λ x. level_ge e.level x.level) (deref w.loggers e.logger) lg _ w v d
      (event_wrap_end-EndsValid fuel strftime e w v h)

-- In a valid world, a change of the setting from `old` to `new` ends, in a valid world, if every
-- definition of `new` is not in `old` or differs from the one of its name there, and its appenders
-- are files or the console; else it follows a null pointer.
pub on_change_lem :
    (fuel : ℕ) (strftime : Text → ℕ → Text) (e : Event) (old new : List LogDefine) (w : World)
    → IsValid w
    → Decided (all_fit old new) (length w.loggers) (on_change (suc fuel) strftime e old new w)
unfolding on_change
on_change_lem fuel strftime e old new w v =
    let n = length w.loggers in
    let fit = all_fit old new in
    let e' : Event = record e {
      logger = w.root;
      level = info;
      content = codes "on_logger_conf_changed";
    } in
    Decided-bind true fit n n (log_level (suc fuel) strftime e' w) _ (omega arith)
      (EndsValid-Decided n _ (log_level-EndsValid fuel strftime e' w v v.root_in))
      λ w1 v1 le1. rw (← and_true fit) (
        Decided-bind fit true n n (add_loop old new w1) (remove_loop new old) (omega arith)
          (Decided-weaken fit n (length w1.loggers) _ le1 (add_loop-Decided old new w1 v1))
          (λ w2 v2 le2.
            EndsValid-Decided n _
              (EndsValid-weaken n (length w2.loggers) _ le2 (remove_loop-EndsValid new old w2 v2))))
