-- ===== src/Planner/Legs.antt =====
-- internal/planner/planner.go, `legPoint` and `buildLegs`: from the steps of a route to its legs.
-- `none` stands for the dereference of a missing stop.
pub mod Ridden
pub mod Merged
pub mod Chain
pub mod Built
use mathlib.Core.Option
use mathlib.Core.Option.{get_or}
use travel_mcp.Prelude.{
  ℕ, String, Bool, true, false, not, ◌&&◌, List, [], ◌∷◌, ◌++◌, Option, none, some, str_eq, lookup,
  if◌then◌else◌,
}
use travel_mcp.Model.{Stop, Connection, Network, LegPoint, Leg, Cost}
use travel_mcp.Float.{Float}
use travel_mcp.Planner.Route.{Step, on_conn, on_foot}

unfoldable pub leg_point : {F : Type 0} → Stop F → LegPoint F
leg_point s = record { stop_id = s.id; name = s.name; lat = s.lat; lon = s.lon }

-- `endLeg`: the leg under construction goes to the finished ones.
unfoldable pub end_leg : {F : Type 0} → List (Leg F) → Option (Leg F) → List (Leg F)
end_leg legs none = legs
end_leg legs (some leg) = legs ++ (leg ∷ [])

-- `cur != nil && cur.TripID != "" && cur.TripID == c.TripID`
unfoldable pub continues : {F : Type 0} → Option (Leg F) → Connection → Bool
continues none c = false
continues (some leg) c = not (str_eq leg.trip_id "") && str_eq leg.trip_id c.trip_id

module _ {F : Type 0} ⦃fl : Float F⦄ where
  -- The zero value of `Cost`.
  abbrev pub no_cost : Cost F
  no_cost = record { has = false; amount = fl.of_ℕ 0; currency = ""; basis = ""; method = "" }

  unfoldable pub ride_leg : Connection → Stop F → Stop F → Leg F
  ride_leg c from to = record {
    mode = c.mode;
    provider_id = c.provider_id;
    route_id = c.route_id;
    trip_id = c.trip_id;
    from = leg_point from;
    to = leg_point to;
    departure = c.departure;
    arrival = c.arrival;
    self_provided = false;
    cost = no_cost;
  }

  unfoldable pub walk_leg : Stop F → Stop F → ℕ → ℕ → Leg F
  walk_leg from to dep ar = record {
    mode = "walk";
    provider_id = from.provider_id;
    route_id = "";
    trip_id = "";
    from = leg_point from;
    to = leg_point to;
    departure = dep;
    arrival = ar;
    self_provided = false;
    cost = no_cost;
  }

  unfoldable pub extend : Option (Leg F) → Stop F → ℕ → Option (Leg F)
  extend cur to t = Option.map (λ (leg : Leg F). record leg { to = leg_point to; arrival = t }) cur

  -- One turn of the loop, over the finished legs and the one under construction.
  unfoldable pub build_step :
      List (String × Stop F)
      → (String → Option ℕ)
      → Step
      → List (Leg F) × Option (Leg F)
      → Option (List (Leg F) × Option (Leg F))
  build_step stops arr (on_conn c) (legs, cur) = elim (lookup c.to stops) [
    | none ↦ none
    | some to ↦
        if continues cur c
        then some (legs, extend cur to c.arrival)
        else elim (lookup c.from stops) [
          | none ↦ none
          | some from ↦ some (end_leg legs cur, some (ride_leg c from to))
        ]
  ]
  build_step stops arr (on_foot x y) (legs, cur) = elim (lookup x stops) [
    | none ↦ none
    | some from ↦ elim (lookup y stops) [
      | none ↦ none
      | some to ↦
          some (
            end_leg legs cur ++ (walk_leg from to (get_or (arr x) 0) (get_or (arr y) 0) ∷ []),
            none,
          )
    ]
  ]

  unfoldable pub build_loop :
      List (String × Stop F)
      → (String → Option ℕ)
      → List Step
      → List (Leg F) × Option (Leg F)
      → Option (List (Leg F) × Option (Leg F))
  unfolding Option.bind
  build_loop stops arr [] st = some st
  build_loop stops arr (s ∷ steps) st =
      Option.bind (build_step stops arr s st) (build_loop stops arr steps)

  unfoldable pub build_legs :
      List (String × Stop F) → (String → Option ℕ) → List Step → Option (List (Leg F))
  build_legs stops arr steps =
      Option.map (λ (st : List (Leg F) × Option (Leg F)). end_leg st.0 st.1)
        (build_loop stops arr steps ([], none))
