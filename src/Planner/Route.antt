-- ===== src/Planner/Route.antt =====
-- internal/planner/planner.go, `reconstruct`: from the predecessors to the steps of the route.
pub mod Trails
use mathlib.Core.Option
use travel_mcp.Prelude.{
  ℕ, zero, suc, String, List, [], ◌∷◌, Option, none, some, reverse, str_eq, if◌then◌else◌,
}
use travel_mcp.Model.{Connection}
use travel_mcp.Planner.Scan.{Prev, by_conn, by_foot}

-- `step`.
pub data Step : Type 0 where
  on_conn : Connection → Step
  on_foot : String → String → Step

-- The loop, from the last step to the first; `none` means that the fuel ran out.
unfoldable pub reconstruct_rev : ℕ → (String → Option Prev) → String → String → Option (List Step)
reconstruct_rev zero pred from stop = none
reconstruct_rev (suc fuel) pred from stop = if str_eq stop from then some [] else elim (pred stop) [
  | none ↦ some []
  | some (by_conn c) ↦ Option.map (◌∷◌ (on_conn c)) (reconstruct_rev fuel pred from c.from)
  | some (by_foot s) ↦ Option.map (◌∷◌ (on_foot s stop)) (reconstruct_rev fuel pred from s)
]

unfoldable pub reconstruct : ℕ → (String → Option Prev) → String → String → Option (List Step)
reconstruct fuel pred from stop = Option.map reverse (reconstruct_rev fuel pred from stop)
