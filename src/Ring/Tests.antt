-- ===== src/Ring/Tests.antt =====
-- Rings of four cells, and the theorems at them.
use tinytcp.Base.{ℕ, ◌-◌, ◌^◌, ◌≡◌, refl, true, false, none, some, List, [], ◌∷◌, arith}
use tinytcp.Fifo
use tinytcp.Fifo.{Op, put, get, Reply, stored, got}
use tinytcp.Ring.{
  Ring, push, is_full, ring_size, is_power_of_two, round_uppower_of_two, ceil_power_of_two,
}
use tinytcp.Ring.Inv.{IsValid}
use tinytcp.Ring.Refine.{run, run_refines}
use tinytcp.Ring.Full.{is_full-later}

-- Three items; the indices have gone round the range of `uint32_t`.
abbrev wrapped : Ring ℕ
wrapped = record {
  size = 4;
  length = 3;
  read_index = 2 ^ 32 - 2;
  write_index = 1;
  last_write_index = 1;
  queue = 9 ∷ 0 ∷ 7 ∷ 8 ∷ [];
}

wrapped-IsValid : IsValid wrapped
wrapped-IsValid = record {
  log = 2;
  log_pos = omega arith;
  log_le = omega arith;
  size_eq = refl;
  storage = refl;
  confirmed = refl;
  read_in = omega arith;
  write_in = omega arith;
  counted = refl;
  room = omega arith;
}

abbrev script : List (Op ℕ)
script = put 1 ∷ get ∷ put 2 ∷ get ∷ get ∷ get ∷ get ∷ []

run_refines_example : run 0 wrapped script ≡ Fifo.run 3 (7 ∷ 8 ∷ 9 ∷ []) script
run_refines_example = run_refines 0 script wrapped wrapped-IsValid

script_replies :
    Fifo.run 3 (7 ∷ 8 ∷ 9 ∷ []) script
    ≡ stored false
      ∷ got (some 7)
      ∷ stored true
      ∷ got (some 8)
      ∷ got (some 9)
      ∷ got (some 2)
      ∷ got none
      ∷ []
unfolding Fifo.run Fifo.push Fifo.pop
script_replies = refl

is_full-later_example : (is_full wrapped ≡ false) × ((push wrapped 5).0 ≡ false)
is_full-later_example = is_full-later wrapped wrapped-IsValid 5 (omega arith) refl

sizes : (ring_size 1 ≡ 2) × (ring_size 8 ≡ 8) × (ring_size 9 ≡ 16) × (ring_size 1000 ≡ 1024)
unfolding ring_size is_power_of_two round_uppower_of_two ceil_power_of_two
sizes = (refl, refl, refl, refl)
