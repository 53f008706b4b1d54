-- ===== src/Timer.antt =====
-- src/timer.h and src/timer.cc: `Timer` and `TimerManager`.
-- The timers lie in a store indexed by their addresses; the ordered set is the list of its elements
-- in order. The clock is an argument: what `get_current_ms` returns. A callback is a number, and
-- `none` is the empty function. The mutex is left out: each operation holds it from its first read
-- of shared state to its last write, except where a comment says otherwise.
pub mod Order
pub mod Expiry
pub mod Change
mod Tests
use tinytcp.Base.{
  ℕ, ◌+◌, ◌-◌, ◌*◌, ◌^◌, Bool, true, false, not, ◌&&◌, Option, none, some, List, [], ◌∷◌, ltb, leb,
  ◌==◌, if◌then◌else◌, add64, sub64,
}
use tinytcp.NetErr.{Run, ok, fault, ◌>>=◌}

abbrev pub TimerPtr : Type 0
TimerPtr = ℕ

abbrev pub Callback : Type 0
Callback = ℕ

pub record Timer : Type 0 where
  pub recurring : Bool
  pub ms : ℕ
  pub next : ℕ
  pub cb : Option Callback

-- `timer` is the store; the other fields are those of the class.
pub record TimerManager : Type 0 where
  pub timer : TimerPtr → Timer
  pub timers : List TimerPtr
  pub tickled : Bool
  pub previous_time : ℕ

abbrev pub put_timer : TimerPtr → Timer → TimerManager → TimerManager
put_timer p t m = record m { timer = λ q. if q == p then t else m.timer q }

-- `Timer::Comparator`; 0 is the null pointer.
pub less : (TimerPtr → Timer) → TimerPtr → TimerPtr → Bool
less h lhs rhs =
    if (lhs == 0) && (rhs == 0)
    then false
    else if lhs == 0
    then true
    else if rhs == 0
    then false
    else if ltb (h lhs).next (h rhs).next
    then true
    else if ltb (h rhs).next (h lhs).next
    then false
    else ltb lhs rhs

-- `std::set::insert`: an equivalent element stays.
pub set_insert : (TimerPtr → Timer) → TimerPtr → List TimerPtr → List TimerPtr
set_insert h p [] = p ∷ []
set_insert h p (q ∷ qs) =
    let later = set_insert h p qs in
    if less h p q then p ∷ q ∷ qs else if less h q p then q ∷ later else q ∷ qs

-- Whether `std::set::find` finds an element: one that is equivalent.
pub set_find : (TimerPtr → Timer) → TimerPtr → List TimerPtr → Bool
set_find h p [] = false
set_find h p (q ∷ qs) =
    let later = set_find h p qs in if not (less h p q) && not (less h q p) then true else later

-- `std::set::erase` of the element that `find` found.
pub set_erase : (TimerPtr → Timer) → TimerPtr → List TimerPtr → List TimerPtr
set_erase h p [] = []
set_erase h p (q ∷ qs) =
    let later = q ∷ set_erase h p qs in if not (less h p q) && not (less h q p) then qs else later

-- The constructor of `Timer` that `add_timer` calls.
pub new_timer : (now ms : ℕ) → Option Callback → (recurring : Bool) → Timer
new_timer now ms cb recurring = record {
  recurring = recurring;
  ms = ms;
  next = add64 now ms;
  cb = cb;
}

-- `it == m_timers.begin()` for the element `p`.
at_begin : TimerPtr → List TimerPtr → Bool
at_begin p [] = false
at_begin p (q ∷ qs) = q == p

-- The protected `add_timer`; the Boolean says that it calls `on_timer_inserted_at_front`, which it
-- does after it has released the mutex.
pub add_timer_locked : TimerPtr → TimerManager → Bool × TimerManager
unfolding at_begin
add_timer_locked p m =
    let timers = set_insert m.timer p m.timers in
    let at_front = at_begin p timers && not m.tickled in
    (at_front, record m { timers = timers; tickled = if at_front then true else m.tickled })

-- The public `add_timer`: `p` is the address of the new timer.
pub add_timer :
    (now : ℕ) (p : TimerPtr) (ms : ℕ)
    → Option Callback
    → (recurring : Bool) → TimerManager
    → Bool × TimerManager
add_timer now p ms cb recurring m =
    add_timer_locked p (put_timer p (new_timer now ms cb recurring) m)

-- `Timer::cancel`; erasing the end iterator is a fault.
pub cancel : TimerPtr → TimerManager → Run (Bool × TimerManager)
cancel p m = elim (m.timer p).cb [
  | none ↦ ok (false, m)
  | some f ↦
      let m' = put_timer p (record (m.timer p) { cb = none }) m in
      if set_find m'.timer p m.timers
      then ok (true, record m' { timers = set_erase m'.timer p m.timers })
      else fault
]

-- `Timer::refresh`
pub refresh : (now : ℕ) → TimerPtr → TimerManager → Bool × TimerManager
refresh now p m = elim (m.timer p).cb [
  | none ↦ (false, m)
  | some f ↦
      if set_find m.timer p m.timers
      then (let m' = put_timer p (record (m.timer p) { next = add64 now (m.timer p).ms }) m in
          (true, record m' { timers = set_insert m'.timer p (set_erase m.timer p m.timers) }))
      else (false, m)
]

-- `Timer::reset`; the second Boolean is that of `add_timer_locked`. The first test is made before
-- the mutex is taken.
pub reset :
    (now : ℕ) → TimerPtr → (ms : ℕ) (from_now : Bool) → TimerManager → Bool × Bool × TimerManager
reset now p ms from_now m =
    if (ms == (m.timer p).ms) && not from_now then (true, false, m) else elim (m.timer p).cb [
      | none ↦ (false, false, m)
      | some f ↦
          if set_find m.timer p m.timers
          then (let start = if from_now then now else sub64 (m.timer p).next (m.timer p).ms in
              let m1 = record m { timers = set_erase m.timer p m.timers } in
              let t = record (m.timer p) { ms = ms; next = add64 start ms } in
              let (at_front, m2) = add_timer_locked p (put_timer p t m1) in (true, at_front, m2))
          else (false, false, m)
    ]

-- `get_next_time`; `~0ULL` if there is no timer.
pub get_next_time : (now : ℕ) → TimerManager → ℕ × TimerManager
get_next_time now m = elim m.timers [
  | [] ↦ (2 ^ 64 - 1, record m { tickled = false })
  | p ∷ ps ↦ (
    if leb (m.timer p).next now then 0 else sub64 (m.timer p).next now,
    record m { tickled = false },
  )
]

pub has_timer : TimerManager → Bool
has_timer m = elim m.timers [ [] ↦ false | p ∷ ps ↦ true ]

pub detect_clock_roll_over : (now : ℕ) → TimerManager → Bool × TimerManager
detect_clock_roll_over now m = (
  ltb now m.previous_time && ltb now (sub64 m.previous_time (60 * 60 * 1000)),
  record m { previous_time = now },
)

-- The iterator of `list_expired_cb` as a split of the list: `lower_bound` of a timer at `now` with
-- the address `mark`, and the loop over the timers that are due at `now` exactly.
pub skip_due : (TimerPtr → Timer) → (now : ℕ) → List TimerPtr → List TimerPtr × List TimerPtr
skip_due h now [] = ([], [])
skip_due h now (p ∷ ps) =
    let (due, rest) = skip_due h now ps in
    if (h p).next == now then (p ∷ due, rest) else ([], p ∷ ps)

pub split_due :
    (TimerPtr → Timer) → (mark : TimerPtr) (now : ℕ) → List TimerPtr → List TimerPtr × List TimerPtr
unfolding skip_due
split_due h mark now [] = ([], [])
split_due h mark now (p ∷ ps) =
    let (due, rest) = split_due h mark now ps in
    if less h p mark then (p ∷ due, rest) else skip_due h now (p ∷ ps)

-- The loop over the expired timers.
pub rearm : (now : ℕ) → List TimerPtr → TimerManager → List (Option Callback) × TimerManager
rearm now [] m = ([], m)
rearm now (p ∷ ps) m =
    let t = m.timer p in
    let m1 =
      if t.recurring
      then (let m' = put_timer p (record t { next = add64 now t.ms }) m in
          record m' { timers = set_insert m'.timer p m.timers })
      else put_timer p (record t { cb = none }) m in
    let (cbs, m2) = rearm now ps m1 in (t.cb ∷ cbs, m2)

abbrev due_first : (now : ℕ) → TimerManager → Bool
due_first now m = elim m.timers [ [] ↦ false | p ∷ ps ↦ leb (m.timer p).next now ]

-- `list_expired_cb`; `mark` is the address of the timer made for the search.
pub list_expired_cb :
    (mark : TimerPtr) (now : ℕ) → TimerManager → List (Option Callback) × TimerManager
unfolding detect_clock_roll_over split_due rearm
list_expired_cb mark now m = elim m.timers [
  | [] ↦ ([], m)
  | q ∷ qs ↦
      let (roll_over, m1) = detect_clock_roll_over now m in
      let h = λ (p : TimerPtr).
        if p == mark
        then record { recurring = false; ms = 0; next = now; cb = none }
        else m.timer p in
      let (due, rest) = if roll_over then (q ∷ qs, []) else split_due h mark now (q ∷ qs) in
      if not roll_over && not (due_first now m)
      then ([], m1)
      else rearm now due (record m1 { timers = rest })
]
