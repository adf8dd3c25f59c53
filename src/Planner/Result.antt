-- ===== src/Planner/Result.antt =====
-- What a search ends with: its legs, or one of the errors of internal/planner. `nil_stop` is the
-- panic on a stop that the network does not have.
use travel_mcp.Prelude.{ℕ, Bool, true, false}

pub data PlanError : Type 0 where
  no_route : PlanError
  too_many_transfers : ℕ → ℕ → PlanError
  transfers_forbidden : PlanError
  no_stop_near_origin : PlanError
  no_stop_near_target : PlanError
  gap_too_long : ℕ → PlanError
  nil_stop : PlanError
  out_of_fuel : PlanError

pub data Result {ℓ} (A : Type ℓ) : Type ℓ where
  ok : A → Result A
  err : PlanError → Result A

-- A panic, and a run that has not ended, are no errors that the code could answer to.
unfoldable pub aborts : PlanError → Bool
aborts nil_stop = true
aborts out_of_fuel = true
aborts no_route = false
aborts (too_many_transfers made limit) = false
aborts transfers_forbidden = false
aborts no_stop_near_origin = false
aborts no_stop_near_target = false
aborts (gap_too_long minutes) = false
