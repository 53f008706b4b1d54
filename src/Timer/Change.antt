-- ===== src/Timer/Change.antt =====
-- Adding and cancelling timers, and how long the timer thread may sleep.
use tinytcp.Base.{
  ℕ, ◌-◌, ◌^◌, ◌≤◌, ◌<◌, ◌≡◌, ◌≢◌, refl, subst, ap, Bool, true, false, ◌||◌, not, ◌&&◌, Option,
  none, some, List, [], ◌∷◌, arith, ◌==◌, Bool-cases, inl, inr,
}
use tinytcp.NetErr.{ok}
use tinytcp.Timer.{
  Timer, TimerPtr, TimerManager, Callback, put_timer, less, set_erase, add_timer, add_timer_locked,
  cancel, get_next_time, new_timer,
}
use tinytcp.Timer.Order.{
  NonNull, Above, IsSorted, has, less-next, less_irrefl, less-total, not-has-Above,
  set_insert-IsSorted, NonNull-set_insert, has-set_insert, set_find-has,
}
use tinytcp.Timer.Expiry.{Agree, Agree-marked, NonNull-Agree, IsSorted-Agree, IsTimers}

head-least :
    (h : TimerPtr → Timer) (q : TimerPtr) (qs : List TimerPtr) (p : TimerPtr)
    → NonNull h (q ∷ qs)
    → Above h q qs
    → has p (q ∷ qs) ≡ true
    → (h q).next ≤ (h p).next
head-least h q [] p n a e = ground arith
head-least h q (r ∷ qs) p n a e = ground (
  arith,
  less-next h q r n.0 n.1.0 a.0,
  λ (f : has p (q ∷ qs) ≡ true). head-least h q qs p (n.0, n.1.1) a.1 f,
)

-- The time to sleep never goes past a timer of the set, and for a set that is not empty it ends
-- exactly at one, or is 0 if that one is due.
pub get_next_time_lem :
    (now : ℕ) (m : TimerManager) (p : TimerPtr)
    → IsTimers m
    → now < 2 ^ 64
    → (m.timer p).next < 2 ^ 64
    → has p m.timers ≡ true
    → ((get_next_time now m).0 ≤ (m.timer p).next - now)
      × (q : TimerPtr) × (has q m.timers ≡ true)
      × ((get_next_time now m).0 ≡ (m.timer q).next - now)
unfolding get_next_time
get_next_time_lem now m p v w u e = go m.timers refl
  where
    go :
        (ps : List TimerPtr)
        → m.timers ≡ ps
        → ((get_next_time now m).0 ≤ (m.timer p).next - now)
          × (q : TimerPtr) × (has q m.timers ≡ true)
          × ((get_next_time now m).0 ≡ (m.timer q).next - now)
    go [] f = absurd (ground arith)
    go (q ∷ qs) f =
        let least =
          head-least m.timer q qs p (subst (NonNull m.timer) f v.not_null)
            (subst (IsSorted m.timer) f v.sorted).0 (subst (λ xs. has p xs ≡ true) f e) in
        (ground (arith, least), q, ground (arith, least), ground (arith, least))

Above-set_erase :
    (h : TimerPtr → Timer) (r p : TimerPtr) (ps : List TimerPtr)
    → Above h r ps
    → Above h r (set_erase h p ps)
unfolding set_erase
Above-set_erase h r p [] a = tt
Above-set_erase h r p (q ∷ qs) a = elim (Bool-cases (not (less h p q) && not (less h q p))) [
  | inl e ↦ rw e a.1
  | inr e ↦ rw e (a.0, Above-set_erase h r p qs a.1)
]

NonNull-set_erase :
    (h : TimerPtr → Timer) (p : TimerPtr) (ps : List TimerPtr)
    → NonNull h ps
    → NonNull h (set_erase h p ps)
unfolding set_erase
NonNull-set_erase h p [] a = tt
NonNull-set_erase h p (q ∷ qs) a = elim (Bool-cases (not (less h p q) && not (less h q p))) [
  | inl e ↦ rw e a.1
  | inr e ↦ rw e (a.0, NonNull-set_erase h p qs a.1)
]

IsSorted-set_erase :
    (h : TimerPtr → Timer) (p : TimerPtr) (ps : List TimerPtr)
    → IsSorted h ps
    → IsSorted h (set_erase h p ps)
unfolding set_erase
IsSorted-set_erase h p [] s = tt
IsSorted-set_erase h p (q ∷ qs) s = elim (Bool-cases (not (less h p q) && not (less h q p))) [
  | inl e ↦ rw e s.1
  | inr e ↦ rw e (Above-set_erase h q p qs s.0, IsSorted-set_erase h p qs s.1)
]

-- Erasing takes out the one element and no other.
has-set_erase :
    (h : TimerPtr → Timer) (x p : TimerPtr) (ps : List TimerPtr)
    → p ≢ 0
    → NonNull h ps
    → IsSorted h ps
    → has x (set_erase h p ps) ≡ (has x ps && not (p == x))
unfolding set_erase
has-set_erase h x p [] np n s = refl
has-set_erase h x p (q ∷ qs) np n s = ground (
  arith,
  less-total h p q np n.0,
  same,
  not-has-Above h q qs n.1 s.0,
  moved,
  has-set_erase h x p qs np n.1 s.1,
)
  where
    same : q ≡ p → (less h p q ≡ false) × (less h q p ≡ false)
    same e = rw e (less_irrefl h p, less_irrefl h p)

    moved : q ≡ x → has q qs ≡ has x qs
    moved e = ap (λ (t : ℕ). has t qs) e

-- A new timer, at an address that no timer of the set has, joins the set and leaves it in order.
pub add_timer_lem :
    (now : ℕ) (p : TimerPtr) (ms : ℕ) (cb : Option Callback) (recurring : Bool) (m : TimerManager)
    (x : TimerPtr)
    → IsTimers m
    → p ≢ 0
    → has p m.timers ≡ false
    → IsTimers (add_timer now p ms cb recurring m).1
      × (has x (add_timer now p ms cb recurring m).1.timers ≡ ((p == x) || has x m.timers))
unfolding add_timer add_timer_locked
add_timer_lem now p ms cb recurring m x v np out = (
  record {
    not_null = NonNull-set_insert h p m.timers np not_null;
    sorted =
        set_insert-IsSorted h p m.timers np not_null
          (IsSorted-Agree h m.timer m.timers agree v.sorted);
  },
  has-set_insert h x p m.timers np not_null,
)
  where
    h : TimerPtr → Timer
    h = (put_timer p (new_timer now ms cb recurring) m).timer

    agree : Agree h m.timer m.timers
    agree = Agree-marked m.timer p (new_timer now ms cb recurring) m.timers out

    not_null : NonNull h m.timers
    not_null = NonNull-Agree h m.timer m.timers v.not_null

Agree-put_timer :
    (m : TimerManager) (p : TimerPtr) (t : Timer) (ps : List TimerPtr)
    → t.next ≡ (m.timer p).next
    → Agree (put_timer p t m).timer m.timer ps
Agree-put_timer m p t [] e = tt
Agree-put_timer m p t (q ∷ qs) e = (kept, Agree-put_timer m p t qs e)
  where
    moved : q ≡ p → (m.timer q).next ≡ (m.timer p).next
    moved f = ap (λ (s : ℕ). (m.timer s).next) f

    kept : ((put_timer p t m).timer q).next ≡ (m.timer q).next
    kept = ground (arith, moved)

-- Cancelling a timer of the set, with its callback set, takes it and no other timer out, in order
-- and with no fault, and empties its callback.
pub cancel_lem :
    (p : TimerPtr) (f : Callback) (m : TimerManager) (x : TimerPtr)
    → IsTimers m
    → p ≢ 0
    → (m.timer p).cb ≡ some f
    → has p m.timers ≡ true
    → (m' : TimerManager) × (cancel p m ≡ ok (true, m'))
      × IsTimers m'
      × ((m'.timer p).cb ≡ none)
      × (has x m'.timers ≡ (has x m.timers && not (p == x)))
unfolding cancel
cancel_lem p f m x v np e here = (
  record m1 { timers = set_erase m1.timer p m.timers },
  ground (arith, set_find-has m1.timer p m.timers np not_null),
  record {
    not_null = NonNull-set_erase m1.timer p m.timers not_null;
    sorted = IsSorted-set_erase m1.timer p m.timers sorted;
  },
  ground arith,
  has-set_erase m1.timer x p m.timers np not_null sorted,
)
  where
    m1 : TimerManager
    m1 = put_timer p (record (m.timer p) { cb = none }) m

    agree : Agree m1.timer m.timer m.timers
    agree = Agree-put_timer m p (record (m.timer p) { cb = none }) m.timers refl

    not_null : NonNull m1.timer m.timers
    not_null = NonNull-Agree m1.timer m.timer m.timers v.not_null

    sorted : IsSorted m1.timer m.timers
    sorted = IsSorted-Agree m1.timer m.timer m.timers agree v.sorted
