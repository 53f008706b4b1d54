-- ===== src/Timer/Expiry.antt =====
-- `list_expired_cb` takes out the timers that are due, and those only.
use tinytcp.Base.{
  ℕ, ◌≤◌, ◌<◌, ◌≡◌, ◌≢◌, refl, subst, ap, ◌∙◌, false, Option, none, List, [], ◌∷◌, arith, leb, ◌==◌,
  if◌then◌else◌, Bool-cases, inl, inr,
}
use tinytcp.Timer.{
  Timer, TimerPtr, TimerManager, Callback, put_timer, less, skip_due, split_due, rearm,
  list_expired_cb, detect_clock_roll_over,
}
use tinytcp.Timer.Order.{NonNull, Above, IsSorted, has, less-next, not_less, not-has-Above}

module _ (h : TimerPtr → Timer) (now : ℕ) where
  -- The timers whose time has come, and the others, in the order of the list.
  abbrev pub due_of : List TimerPtr → List TimerPtr
  due_of [] = []
  due_of (p ∷ ps) = let later = due_of ps in if leb (h p).next now then p ∷ later else later

  abbrev pub rest_of : List TimerPtr → List TimerPtr
  rest_of [] = []
  rest_of (p ∷ ps) = let later = rest_of ps in if leb (h p).next now then later else p ∷ later

  none_due :
      (p : TimerPtr) (ps : List TimerPtr)
      → p ≢ 0
      → NonNull h ps
      → Above h p ps
      → now < (h p).next
      → (due_of ps ≡ []) × (rest_of ps ≡ ps)
  none_due p [] np n a l = (refl, refl)
  none_due p (q ∷ qs) np n a l =
      ground (arith, less-next h p q np n.0 a.0, none_due p qs np n.1 a.1 l)

  skip_due_lem :
      (ps : List TimerPtr) (low : TimerPtr)
      → low ≢ 0
      → now ≤ (h low).next
      → NonNull h ps
      → Above h low ps
      → IsSorted h ps
      → skip_due h now ps ≡ (due_of ps, rest_of ps)
  unfolding skip_due
  skip_due_lem [] low nl l n a s = refl
  skip_due_lem (p ∷ ps) low nl l n a s =
      ground (arith, less-next h low p nl n.0 a.0, none_due p ps n.0 n.1 s.0, skip_due_lem ps p n.0)

  skip_due-cons :
      (p : TimerPtr) (ps : List TimerPtr)
      → now ≤ (h p).next
      → NonNull h (p ∷ ps)
      → IsSorted h (p ∷ ps)
      → skip_due h now (p ∷ ps) ≡ (due_of (p ∷ ps), rest_of (p ∷ ps))
  unfolding skip_due
  skip_due-cons p ps l n s = ground (
    arith,
    none_due p ps n.0 n.1 s.0,
    λ (e : now ≤ (h p).next). skip_due_lem ps p n.0 e n.1 s.0 s.1,
  )

  -- Whatever the address of the timer made for the search, the split is at the time.
  pub split_due_lem :
      (mark : TimerPtr) (ps : List TimerPtr)
      → mark ≢ 0
      → (h mark).next ≡ now
      → NonNull h ps
      → IsSorted h ps
      → split_due h mark now ps ≡ (due_of ps, rest_of ps)
  unfolding split_due
  split_due_lem mark [] nm e n s = refl
  split_due_lem mark (p ∷ ps) nm e n s = elim (Bool-cases (less h p mark)) [
    | inl before ↦
        ground (arith, less-next h p mark n.0 nm before, split_due_lem mark ps nm e n.1 s.1)
    | inr after ↦ rw after (skip_due-cons p ps (reached after) n s)
  ]
    where
      reached : less h p mark ≡ false → now ≤ (h p).next
      reached after = ground (arith, not_less h p mark n.0 nm after)

-- The stores agree on the times of the list's timers.
abbrev pub Agree : (h g : TimerPtr → Timer) → List TimerPtr → Type 0
Agree h g [] = Unit {0}
Agree h g (p ∷ ps) = ((h p).next ≡ (g p).next) × Agree h g ps

module _ (h g : TimerPtr → Timer) where
  pub less-Agree :
      (a b : TimerPtr) → (h a).next ≡ (g a).next → (h b).next ≡ (g b).next → less h a b ≡ less g a b
  unfolding less
  less-Agree a b p q = ground arith

  due_of-Agree :
      (now : ℕ) (ps : List TimerPtr)
      → Agree h g ps
      → (due_of h now ps ≡ due_of g now ps) × (rest_of h now ps ≡ rest_of g now ps)
  due_of-Agree now [] a = (refl, refl)
  due_of-Agree now (p ∷ ps) a = ground (arith, a.0, due_of-Agree now ps a.1)

  pub NonNull-Agree : (ps : List TimerPtr) → NonNull g ps → NonNull h ps
  NonNull-Agree [] n = tt
  NonNull-Agree (p ∷ ps) n = (n.0, NonNull-Agree ps n.1)

  Above-Agree :
      (p : TimerPtr) (ps : List TimerPtr)
      → (h p).next ≡ (g p).next
      → Agree h g ps
      → Above g p ps
      → Above h p ps
  Above-Agree p [] e a s = tt
  Above-Agree p (q ∷ qs) e a s = (less-Agree p q e a.0 ∙ s.0, Above-Agree p qs e a.1 s.1)

  pub IsSorted-Agree : (ps : List TimerPtr) → Agree h g ps → IsSorted g ps → IsSorted h ps
  IsSorted-Agree [] a s = tt
  IsSorted-Agree (p ∷ ps) a s = (Above-Agree p ps a.0 a.1 s.0, IsSorted-Agree ps a.1 s.1)

pub Agree-marked :
    (h : TimerPtr → Timer) (mark : TimerPtr) (t : Timer) (ps : List TimerPtr)
    → has mark ps ≡ false
    → Agree (λ q. if q == mark then t else h q) h ps
Agree-marked h mark t [] n = tt
Agree-marked h mark t (p ∷ ps) n = (ground arith, Agree-marked h mark t ps (ground arith))

abbrev pub callbacks : (TimerPtr → Timer) → List TimerPtr → List (Option Callback)
callbacks h [] = []
callbacks h (p ∷ ps) = (h p).cb ∷ callbacks h ps

abbrev Distinct : List TimerPtr → Type 0
Distinct [] = Unit {0}
Distinct (p ∷ ps) = (has p ps ≡ false) × Distinct ps

callbacks-put_timer :
    (m : TimerManager) (p : TimerPtr) (t : Timer) (ps : List TimerPtr)
    → has p ps ≡ false
    → callbacks (put_timer p t m).timer ps ≡ callbacks m.timer ps
callbacks-put_timer m p t [] n = refl
callbacks-put_timer m p t (q ∷ qs) n = ground (arith, callbacks-put_timer m p t qs)

callbacks-rearm :
    (now : ℕ) (ps : List TimerPtr) (m : TimerManager)
    → Distinct ps
    → (rearm now ps m).0 ≡ callbacks m.timer ps
unfolding rearm
callbacks-rearm now [] m d = refl
callbacks-rearm now (p ∷ ps) m d =
    ap (◌∷◌ (m.timer p).cb) (elim (Bool-cases (m.timer p).recurring) [
      | inl e ↦ rw e (callbacks-rearm now ps _ d.1 ∙ callbacks-put_timer m p _ ps d.0)
      | inr e ↦ rw e (callbacks-rearm now ps _ d.1 ∙ callbacks-put_timer m p _ ps d.0)
    ])

has-due_of :
    (h : TimerPtr → Timer) (now : ℕ) (x : TimerPtr) (ps : List TimerPtr)
    → has x ps ≡ false
    → has x (due_of h now ps) ≡ false
has-due_of h now x [] n = refl
has-due_of h now x (p ∷ ps) n = ground (arith, has-due_of h now x ps)

Distinct-due_of :
    (h : TimerPtr → Timer) (now : ℕ) (ps : List TimerPtr)
    → NonNull h ps
    → IsSorted h ps
    → Distinct (due_of h now ps)
Distinct-due_of h now [] n s = tt
Distinct-due_of h now (p ∷ ps) n s = elim (Bool-cases (leb (h p).next now)) [
  | inl e ↦
      rw e (has-due_of h now p ps (not-has-Above h p ps n.1 s.0), Distinct-due_of h now ps n.1 s.1)
  | inr e ↦ rw e (Distinct-due_of h now ps n.1 s.1)
]

-- The set of the manager is in order and holds no null pointer.
pub record IsTimers (m : TimerManager) : Type 0 where
  pub not_null : NonNull m.timer m.timers
  pub sorted : IsSorted m.timer m.timers

pair : {A B : Type 0} {a c : A} {b d : B} → (a ≡ c) × (b ≡ d) → ◌≡◌ {A = A × B} (a, b) (c, d)
pair h = λ i. (h.0 i, h.1 i)

-- With no clock jump, and with `mark` the address of no timer in the set, the callbacks that
-- `list_expired_cb` returns are those of the timers with a time up to now, in the order of their
-- times, and of no other.
pub list_expired_cb_lem :
    (mark : TimerPtr) (now : ℕ) (m : TimerManager)
    → IsTimers m
    → mark ≢ 0
    → has mark m.timers ≡ false
    → (detect_clock_roll_over now m).0 ≡ false
    → (list_expired_cb mark now m).0 ≡ callbacks m.timer (due_of m.timer now m.timers)
unfolding list_expired_cb detect_clock_roll_over
list_expired_cb_lem mark now m v nm out steady = go m.timers refl
  where
    marked : TimerPtr → Timer
    marked p =
        if p == mark then record { recurring = false; ms = 0; next = now; cb = none } else m.timer p

    here : marked mark ≡ record { recurring = false; ms = 0; next = now; cb = none }
    here = ground arith

    agree : Agree marked m.timer m.timers
    agree = Agree-marked m.timer mark _ m.timers out

    found :
        split_due marked mark now m.timers
        ≡ (due_of m.timer now m.timers, rest_of m.timer now m.timers)
    found =
        split_due_lem marked now mark m.timers nm (ap Timer.next here)
          (NonNull-Agree marked m.timer m.timers v.not_null)
          (IsSorted-Agree marked m.timer m.timers agree v.sorted)
        ∙ pair (due_of-Agree marked m.timer now m.timers agree)

    expired : TimerManager
    expired = record m { previous_time = now; timers = rest_of m.timer now m.timers }

    rearmed :
        (rearm now (due_of m.timer now m.timers) expired).0
        ≡ callbacks m.timer (due_of m.timer now m.timers)
    rearmed =
        callbacks-rearm now (due_of m.timer now m.timers) expired
          (Distinct-due_of m.timer now m.timers v.not_null v.sorted)

    go :
        (ps : List TimerPtr)
        → m.timers ≡ ps
        → (list_expired_cb mark now m).0 ≡ callbacks m.timer (due_of m.timer now m.timers)
    go [] e = ground arith
    go (q ∷ qs) e = elim (Bool-cases (leb (m.timer q).next now)) [
      | inl due ↦ ground (arith, steady, found, rearmed, due)
      | inr later ↦ ground (
        arith,
        steady,
        later,
        none_due m.timer now q qs (subst (NonNull m.timer) e v.not_null).0
            (subst (NonNull m.timer) e v.not_null).1 (subst (IsSorted m.timer) e v.sorted).0,
      )
    ]
