-- ===== src/Planner/Raptor/Limit.antt =====
-- The limit on transfers.
use travel_mcp.Prelude.{
  ℕ, zero, suc, ◌+◌, ◌≤◌, ◌≡◌, arith, String, List, subst, inl, inr, Option-cases, length, pos,
}
use travel_mcp.Model.{Network, SearchParams, Leg}
use travel_mcp.Float.{Float}
use travel_mcp.Planner.Result.{ok}
use travel_mcp.Planner.Route.{reconstruct}
use travel_mcp.Planner.Legs.{build_legs}
use travel_mcp.Planner.Csa.{check_transfers}
use travel_mcp.Planner.Csa.Search.{csa-within_limit}
use travel_mcp.Planner.Raptor.{raptor, raptor_labels, transfers_limit}

check_transfers-within :
    {F : Type 0} (n : ℕ) (found legs : List (Leg F))
    → check_transfers (pos n) found ≡ ok legs
    → length legs ≤ n + 1
unfolding check_transfers
check_transfers-within zero found legs e = ground arith
check_transfers-within (suc n) found legs e = ground arith

module _ {F : Type 0} ⦃fl : Float F⦄ where
  -- What `raptor` returns keeps to a limit on transfers that is not negative, also where it falls back
  -- on `csa`.
  pub raptor-within_limit :
      (net : Network F) (params : SearchParams) (fuel : ℕ) (from to : String) (depart n : ℕ)
      (legs : List (Leg F))
      → params.max_transfers ≡ pos n
      → raptor fuel net from to depart params ≡ ok legs
      → length legs ≤ n + 1
  unfolding raptor transfers_limit
  raptor-within_limit net params fuel from to depart n legs limit run =
      let l = raptor_labels net from depart params in
      elim (Option-cases (l.pred to)) [
        | inl e ↦
            csa-within_limit net params fuel from to depart n legs limit (rw (e, raptor) at run)
        | inr (p, e) ↦ elim (Option-cases (reconstruct fuel l.pred from to)) [
          | inl e2 ↦ absurd (ground arith)
          | inr (steps, e2) ↦ elim (Option-cases (build_legs net.stops l.arr steps)) [
            | inl e3 ↦ absurd (ground arith)
            | inr (found, e3) ↦ check_transfers-within n found legs (
                subst (λ z. check_transfers (pos (transfers_limit z)) found ≡ ok legs) limit
                  (ground arith))
          ]
        ]
      ]
