-- ===== src/NetErr.antt =====
-- src/net/net_err.h, `net_err_t`, and the outcome of a run of the program.
use tinytcp.Base.{Bool, true, false}

-- Negative but for the last.
pub data NetErr : Type 0 where
  net_err_sys net_err_mem net_err_full net_err_timeout net_err_size net_err_empty : NetErr
  net_err_none net_err_param net_err_state net_err_io net_err_ok : NetErr

-- `(int8_t)err < 0`
unfoldable pub is_error : NetErr → Bool
is_error net_err_ok = false
is_error _ = true

-- `fault` is undefined behaviour or a failed assertion: a null or dangling pointer or an end
-- iterator that is followed, a copy outside an array. `out_of_fuel` means that a loop was given
-- too few rounds.
pub data Run {ℓ} (A : Type ℓ) : Type ℓ where
  ok : A → Run A
  fault : Run A
  out_of_fuel : Run A

infixl 5 ◌>>=◌
abbrev pub ◌>>=◌ {ℓ κ} : {A : Type ℓ} {B : Type κ} → Run A → (A → Run B) → Run B
ok a >>= f = f a
fault >>= f = fault
out_of_fuel >>= f = out_of_fuel
