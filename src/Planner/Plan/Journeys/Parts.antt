-- ===== src/Planner/Plan/Journeys/Parts.antt =====
-- The legs between the two stops.
use travel_mcp.Prelude.{ℕ, ◌-◌, ◌*◌, ◌≤◌, ◌<◌, ◌≡◌, true, List, [], ◌∷◌, In}
use travel_mcp.Model.{Stop, Network, SearchParams, Leg, minute}
use travel_mcp.Float.{Float}
use travel_mcp.Texts.{Texts}
use travel_mcp.Planner.Result.{Result, ok}
use travel_mcp.Planner.Plan.Arrival.{search, candidate_departures, window_start}
use travel_mcp.Planner.Plan.Arrival.First.{Misses}
use travel_mcp.Planner.Plan.Journeys.{Planner, gap_leg, gap_minutes}

module _ {F : Type 0} ⦃fl : Float F⦄ ⦃tx : Texts⦄ where
  module _ (p : Planner) (fuel : ℕ) (net : Network F) (from_stop to_stop : Stop F) (t egress : ℕ)
      (params : SearchParams) where
    abbrev pub searched : ℕ → Result (List (Leg F))
    searched d = search p.engine fuel net from_stop.id to_stop.id d params

    -- A departure of which the search for the latest one takes note.
    abbrev pub IsTried : ℕ → Type 0
    IsTried d = In d (
        candidate_departures from_stop.id (window_start t (t - egress * minute))
          (t - egress * minute) net.trips)

    -- The departure is one of those that are tried, the legs are what the search finds at it, and no
    -- later one that is tried arrives in time.
    abbrev pub IsFound : List (Leg F) → ℕ → Type 0
    IsFound legs dep =
        IsTried dep
        × (searched dep ≡ ok legs)
        × ((d : ℕ) → IsTried d → dep < d → Misses (t - egress * minute) (searched d))

    -- No departure that is tried arrives in time, and the one leg is the walk that fills the gap, which
    -- is allowed, is no longer than the limit, takes its minutes, and ends at the latest time.
    abbrev pub FillsGap : ℕ → List (Leg F) → ℕ → Type 0
    FillsGap max_walk legs dep =
        ((d : ℕ) → IsTried d → Misses (t - egress * minute) (searched d))
        × (params.allow_gap ≡ true)
        × (gap_minutes from_stop to_stop ≤ max_walk)
        × (dep ≡ t - egress * minute - gap_minutes from_stop to_stop * minute)
        × (legs ≡ gap_leg from_stop to_stop dep (t - egress * minute) ∷ [])
