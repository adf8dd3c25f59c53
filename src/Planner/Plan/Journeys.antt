-- ===== src/Planner/Plan/Journeys.antt =====
-- `Plan`, `PlanWithPlaces` and `planWithStops`. `default_max_walk` is the planner's own limit, and a
-- place hint is the name of a place. Where no stop is found, `none` leads to the error for that end.
pub mod Parts
use travel_mcp.Prelude.{
  ℕ, zero, suc, ◌+◌, ◌-◌, ◌*◌, String, Bool, true, false, not, ◌&&◌, List, [], ◌∷◌, ◌++◌, map,
  Option, none, some, last?, ltb, leb, if◌then◌else◌, length, ℤ, pos, negsuc,
}
use travel_mcp.Model.{
  Coords, Stop, Trip, Network, SearchParams, Leg, LegPoint, Journey, coordinates, minute,
}
use travel_mcp.Float.{Float}
use travel_mcp.Texts.{Texts}
use travel_mcp.Geo.{haversine, walk_time_minutes}
use travel_mcp.Pricing.Totals.{enrich_journey}
use travel_mcp.Planner.Result.{
  Result, ok, err, no_route, no_stop_near_origin, no_stop_near_target, gap_too_long, nil_stop,
  PlanError, aborts,
}
use travel_mcp.Planner.Legs.{leg_point, no_cost}
use travel_mcp.Planner.Choose.{
  or_else, choose_best_stop, choose_best_to_stop, find_stop_by_place, index_nearest, nearest_stops,
}
use travel_mcp.Planner.Plan.Arrival.{search, plan_arrival}
use travel_mcp.Planner.Plan.Alternatives.{bare, pareto_alternatives}
use travel_mcp.Planner.Plan.Prefer.{prefer}

-- The planner's fields that a search reads.
pub record Planner : Type 0 where
  pub engine : String
  pub default_max_walk : ℤ

pub max_walk_of : ℤ → ℤ → ℕ
max_walk_of (pos (suc n)) default_max_walk = suc n
max_walk_of asked (pos (suc n)) = suc n
max_walk_of asked default_max_walk = 30

-- The stops where trips start.
pub origin_stops : List (String × Trip) → List String
origin_stops [] = []
origin_stops ((k, t) ∷ trips) =
    let rest = origin_stops trips in elim t.stop_times [ [] ↦ rest | st ∷ _ ↦ st.stop_id ∷ rest ]

abbrev pub Answer : Type 0 → Type 0
Answer F = Journey F (Journey F (Journey F Unit))

module _ {F : Type 0} ⦃fl : Float F⦄ ⦃tx : Texts⦄ where
  -- By the index, and by all stops if it finds none.
  pub near : Network F → Coords F → ℕ → List (Stop F)
  near net p max_walk = elim (index_nearest net.stops p max_walk) [
    | [] ↦ nearest_stops net.stops p max_walk 0
    | s ∷ ss ↦ s ∷ ss
  ]

  pub by_place : Network F → Option String → Coords F → ℕ → Option (List String) → Option (Stop F)
  by_place net none p max_walk origin = none
  by_place net (some name) p max_walk origin = find_stop_by_place net.stops name p max_walk origin

  pub from_stop_of : Network F → Option String → Coords F → ℕ → Option (Stop F)
  from_stop_of net place p max_walk =
      let origin = some (origin_stops net.trips) in
      or_else (by_place net place p max_walk origin) (choose_best_stop (near net p max_walk) origin)

  pub to_stop_of : Network F → Option String → Coords F → ℕ → Option (Stop F)
  to_stop_of net place p max_walk =
      or_else (by_place net place p max_walk none) (choose_best_to_stop (near net p max_walk))

  pub walk_of : LegPoint F → LegPoint F → ℕ → ℕ → Leg F
  walk_of a b dep ar = record {
    mode = "walk";
    provider_id = "";
    route_id = "";
    trip_id = "";
    from = a;
    to = b;
    departure = dep;
    arrival = ar;
    self_provided = false;
    cost = no_cost;
  }

  -- The walk that fills a gap.
  pub gap_leg : Stop F → Stop F → ℕ → ℕ → Leg F
  gap_leg from_stop to_stop dep ar =
      record (walk_of (leg_point from_stop) (leg_point to_stop) dep ar) {
        provider_id = from_stop.provider_id;
        self_provided = true;
      }

  pub gap_minutes : Stop F → Stop F → ℕ
  gap_minutes a b = walk_time_minutes (haversine (coordinates a) (coordinates b))

  -- What becomes of an error: an abort stays, and else the gap is walked if that is allowed and not too
  -- long.
  unfoldable pub fill_gap :
      Stop F → Stop F → ℕ → SearchParams → PlanError → ℕ → ℕ → Result (List (Leg F) × ℕ)
  fill_gap from_stop to_stop max_walk params e dep ar =
      if params.allow_gap && not (aborts e)
      then if ltb max_walk (gap_minutes from_stop to_stop)
        then err (gap_too_long (gap_minutes from_stop to_stop))
        else ok (gap_leg from_stop to_stop dep ar ∷ [], dep)
      else err e

  -- The legs between the two stops and the time at the first of them.
  unfoldable pub transit :
      Planner
      → ℕ
      → Network F
      → Stop F
      → Stop F
      → ℕ
      → ℕ
      → ℕ
      → SearchParams
      → Result (List (Leg F) × ℕ)
  transit p fuel net from_stop to_stop access egress max_walk params = elim params.arrival [
    | none ↦
        let dep = params.departure + access * minute in
        elim (search p.engine fuel net from_stop.id to_stop.id dep params) [
          | ok legs ↦ ok (legs, dep)
          | err e ↦
              fill_gap from_stop to_stop max_walk params e dep
                (dep + gap_minutes from_stop to_stop * minute)
        ]
    | some t ↦
        let latest = t - egress * minute in
        elim (plan_arrival p.engine fuel net from_stop.id to_stop.id t latest params) [
          | ok found ↦ ok found
          | err e ↦
              fill_gap from_stop to_stop max_walk params e
                (latest - gap_minutes from_stop to_stop * minute) latest
        ]
  ]

  -- The walk to the first stop, the legs, and the walk from the last stop.
  pub assemble :
      Coords F
      → Coords F
      → Stop F
      → Stop F
      → ℕ
      → ℕ
      → List (Leg F)
      → ℕ
      → Result (Journey F (Journey F Unit))
  assemble from to from_stop to_stop access egress legs dep = elim (last? legs) [
    | none ↦ err nil_stop
    | some end ↦
        let start = dep - access * minute in
        let finish = end.arrival + egress * minute in
        ok (record {
          from = from;
          to = to;
          departure = start;
          arrival = finish;
          legs =
              walk_of
                (record {
                  stop_id = "";
                  name = "Точка отправления";
                  lat = from.lat;
                  lon = from.lon;
                })
                (leg_point from_stop) start dep
              ∷ (legs
                  ++ (walk_of (leg_point to_stop)
                        (record {
                          stop_id = "";
                          name = "Точка назначения";
                          lat = to.lat;
                          lon = to.lon;
                        })
                        end.arrival finish
                      ∷ []));
          transfers = length legs - 1;
          alternatives = [];
        })
  ]

  -- From the two stops on.
  pub plan_between :
      Planner
      → String
      → ℕ
      → Network F
      → Coords F
      → Coords F
      → SearchParams
      → ℕ
      → Stop F
      → Stop F
      → Result (Answer F)
  plan_between p default_currency fuel net from to params max_walk from_stop to_stop =
      let access = walk_time_minutes (haversine from (coordinates from_stop)) in
      let egress = walk_time_minutes (haversine to (coordinates to_stop)) in
      elim (transit p fuel net from_stop to_stop access egress max_walk params) [
        | err e ↦ err e
        | ok found ↦ elim (assemble from to from_stop to_stop access egress found.0 found.1) [
          | err e ↦ err e
          | ok j ↦
              elim (pareto_alternatives p.engine fuel net from to params from_stop to_stop
                (bare j)) [
                  | err e ↦ err e
                  | ok alts ↦ ok (
                      prefer params.preference
                        (enrich_journey default_currency net (record j { alternatives = alts })))
                ]
        ]
      ]

  pub plan_with_stops :
      Planner
      → String
      → ℕ
      → Network F
      → Coords F
      → Coords F
      → SearchParams
      → Option String
      → Option String
      → Result (Answer F)
  plan_with_stops p default_currency fuel net from to params from_place to_place =
      let max_walk = max_walk_of params.max_walk_minutes p.default_max_walk in
      elim (from_stop_of net from_place from max_walk) [
        | none ↦ err no_stop_near_origin
        | some from_stop ↦ elim (to_stop_of net to_place to max_walk) [
          | none ↦ err no_stop_near_target
          | some to_stop ↦
              plan_between p default_currency fuel net from to params max_walk from_stop to_stop
        ]
      ]

  pub plan :
      Planner → String → ℕ → Network F → Coords F → Coords F → SearchParams → Result (Answer F)
  plan p default_currency fuel net from to params =
      plan_with_stops p default_currency fuel net from to params none none
