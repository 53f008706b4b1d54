-- ===== src/Timer/Tests.antt =====
-- Three timers, two of them due at 100, and the theorems at them.
use tinytcp.Base.{◌-◌, ◌≤◌, ◌≡◌, refl, true, false, none, some, [], ◌∷◌, arith, ◌==◌, if◌then◌else◌}
use tinytcp.NetErr.{ok}
use tinytcp.Timer.{
  TimerPtr, TimerManager, less, add_timer, cancel, get_next_time, list_expired_cb,
  detect_clock_roll_over,
}
use tinytcp.Timer.Order.{has}
use tinytcp.Timer.Expiry.{IsTimers, list_expired_cb_lem}
use tinytcp.Timer.Change.{add_timer_lem, cancel_lem, get_next_time_lem}

abbrev m : TimerManager
m = record {
  timer = λ p.
      if p == 1
      then record { recurring = true; ms = 50; next = 100; cb = some 11 }
      else if p == 2
      then record { recurring = false; ms = 90; next = 90; cb = some 12 }
      else record { recurring = false; ms = 10; next = 130; cb = some 13 };
  timers = 2 ∷ 1 ∷ 3 ∷ [];
  tickled = false;
  previous_time = 80;
}

m-IsTimers : IsTimers m
unfolding less
m-IsTimers = record {
  not_null = (omega arith, (omega arith, (omega arith, tt)));
  sorted = ((refl, (refl, tt)), ((refl, tt), (tt, tt)));
}

list_expired_cb_lem_example : (list_expired_cb 7 100 m).0 ≡ some 12 ∷ some 11 ∷ []
list_expired_cb_lem_example = list_expired_cb_lem 7 100 m m-IsTimers (omega arith) refl steady
  where
    steady : (detect_clock_roll_over 100 m).0 ≡ false
    steady = unfold detect_clock_roll_over in refl

get_next_time_lem_example :
    ((get_next_time 85 m).0 ≤ 100 - 85)
    × (q : TimerPtr) × (has q m.timers ≡ true)
    × ((get_next_time 85 m).0 ≡ (m.timer q).next - 85)
get_next_time_lem_example = get_next_time_lem 85 m 1 m-IsTimers (omega arith) (omega arith) refl

add_timer_lem_example :
    IsTimers (add_timer 85 5 10 (some 14) false m).1
    × (has 5 (add_timer 85 5 10 (some 14) false m).1.timers ≡ true)
add_timer_lem_example = add_timer_lem 85 5 10 (some 14) false m 5 m-IsTimers (omega arith) refl

cancel_lem_example :
    (m' : TimerManager) × (cancel 1 m ≡ ok (true, m'))
    × IsTimers m'
    × ((m'.timer 1).cb ≡ none)
    × (has 1 m'.timers ≡ false)
cancel_lem_example = cancel_lem 1 11 m 1 m-IsTimers (omega arith) refl refl
