-- ===== src/Tests/Plans.antt =====
-- Plans over the small town, and prices.
use travel_mcp.Prelude.{
  ℕ, ◌+◌, ◌≤◌, ◌≡◌, refl, arith, String, true, false, List, [], ◌∷◌, none, some, length, pos,
  lookup, str_eq, keep, contains, All,
}
use travel_mcp.Prelude.Sort.{insert_by, sort_by}
use travel_mcp.Model.{StopTime, Network, SearchParams, Leg, Journey, coordinates}
use travel_mcp.Texts.{Texts}
use travel_mcp.Geo.{haversine}
use travel_mcp.Planner.Result.{ok}
use travel_mcp.Planner.Speed.{is_implausible_connection, is_implausible_leg, max_speed}
use travel_mcp.Planner.Scan.{
  init, improves, relabel, relax_edge, relax_edges, visit, relax_loop, relax, scan_one, scan,
  labels,
}
use travel_mcp.Planner.Route.{reconstruct_rev, reconstruct}
use travel_mcp.Planner.Legs.{
  leg_point, end_leg, continues, ride_leg, walk_leg, extend, build_step, build_loop, build_legs,
}
use travel_mcp.Planner.Csa.{
  csa, finish, graph, mode_allowed, scan_order, first_after_last, check_transfers, transfers_from,
}
use travel_mcp.Planner.Raptor.{
  roll, midnight, add_trip, leaves_before, group_trips, route_trips, transfer_minutes, relax_hops,
  relax_stop, board_at, board_time, best_trip, ride_one, ride_trip, scan_route, scan_routes,
  run_rounds, transfers_limit, raptor_labels, raptor,
}
use travel_mcp.Planner.Raptor.Limit.{raptor-within_limit}
use travel_mcp.Planner.Choose.{find_stop_by_place}
use travel_mcp.Planner.Choose.Reach.{Answer, IsReachable, find_stop_by_place-IsReachable}
use travel_mcp.Planner.Plan.Arrival.{
  roll_back, first_from, window_start, departures, half_hours, candidate_departures, search,
  in_time, first_in_time, plan_arrival,
}
use travel_mcp.Planner.Plan.Alternatives.{by_transfers}
use travel_mcp.Planner.Plan.Prefer.{prefer, prefer-fewest}
use travel_mcp.Planner.Plan.Journeys.{Planner}
use travel_mcp.Planner.Plan.Arrival.First.{IsLatest}
use travel_mcp.Planner.Plan.Arrival.Window.{IsCandidate}
use travel_mcp.Planner.Plan.Arrival.Latest.{plan_arrival_lem}
use travel_mcp.Pricing.Currency.{supported, normalize_currency, default_currency, configure}
use travel_mcp.Pricing.Currency.Valid.{IsValidDefault, configure-IsValidDefault}
use travel_mcp.Tests.Plane.{plane, town, anyhow, bus, stop}

-- Texts of small letters without spaces.
instance abbrev pub plain : Texts
plain = record {
  lower = λ s. s;
  upper = λ s. s;
  trim_space = λ s. s;
  trim_cut = λ s cut. s;
  fields = λ s. s ∷ [];
  split = λ s sep. s ∷ [];
  has = str_eq;
  has_prefix = str_eq;
  has_suffix = str_eq;
  runes = λ s. 3;
  bytes = λ s. 3;
}

abbrev call_at : String → ℕ → StopTime
call_at s t = record {
  stop_id = s;
  sequence = 0;
  arrival_sec = t;
  departure_sec = t;
  is_provisional = false;
}

abbrev served : Network ℕ
served = record town {
  trips =
      (
        "t2",
        record {
          id = "t2";
          route_id = "r";
          provider_id = "p";
          mode = "bus";
          stop_times = call_at "A" 900 ∷ call_at "B" 1500 ∷ [];
        },
      )
      ∷ [];
}

abbrev direct : SearchParams
direct = record anyhow { max_transfers = pos 0 }

abbrev one_ride : List (Leg ℕ)
one_ride = ride_leg (bus "t2" "A" "B" 900 1500) (stop "A" "Alpha") (stop "B" "Beta") ∷ []

ride_found : raptor 9 served "A" "B" 300 direct ≡ ok one_ride
unfolding roll midnight add_trip leaves_before group_trips route_trips transfer_minutes relax_hops
    relax_stop board_at board_time best_trip ride_one ride_trip scan_route scan_routes run_rounds
    transfers_limit raptor_labels raptor sort_by insert_by mode_allowed check_transfers init
    improves relabel reconstruct_rev reconstruct leg_point end_leg continues ride_leg walk_leg
    extend build_step build_loop build_legs lookup is_implausible_leg max_speed transfers_from
    haversine keep contains
ride_found = refl

raptor-within_limit_example : length one_ride ≤ 0 + 1
raptor-within_limit_example =
    raptor-within_limit served direct 9 "A" "B" 300 0 one_ride refl ride_found

abbrev in_time_for : SearchParams
in_time_for = record direct { arrival = some 3000 }

-- The same ride a day later.
abbrev next_day : Network ℕ
next_day = record served { connections = bus "t2" "A" "B" 87300 87900 ∷ [] }

abbrev later_ride : List (Leg ℕ)
later_ride = ride_leg (bus "t2" "A" "B" 87300 87900) (stop "A" "Alpha") (stop "B" "Beta") ∷ []

later_found : plan_arrival "csa" 9 next_day "A" "B" 90000 89400 in_time_for ≡ ok (later_ride, 87300)
unfolding roll midnight roll_back first_from window_start departures half_hours candidate_departures
    search in_time first_in_time plan_arrival sort_by insert_by csa finish graph mode_allowed
    scan_order first_after_last check_transfers init improves relabel relax_edge relax_edges visit
    relax_loop relax scan_one scan labels reconstruct_rev reconstruct leg_point end_leg continues
    ride_leg walk_leg extend build_step build_loop build_legs lookup is_implausible_connection
    is_implausible_leg max_speed transfers_from haversine keep contains
later_found = refl

plan_arrival_lem_example :
    IsLatest
      (λ d. search "csa" 9 next_day "A" "B" d in_time_for)
      89400
      (IsCandidate "A" 90000 89400 next_day.trips)
      (plan_arrival "csa" 9 next_day "A" "B" 90000 89400 in_time_for)
plan_arrival_lem_example =
    plan_arrival_lem "csa" 9 next_day "A" "B" 90000 89400 in_time_for (omega arith) (omega arith)

abbrev seeker : Planner
seeker = record { engine = "csa"; default_max_walk = pos 30 }

find_stop_by_place-IsReachable_example :
    Answer
      (IsReachable served.stops (coordinates (stop "A" "Alpha")) 30)
      (find_stop_by_place served.stops "Alpha" (coordinates (stop "A" "Alpha")) 30 none)
find_stop_by_place-IsReachable_example =
    find_stop_by_place-IsReachable served.stops "Alpha" (coordinates (stop "A" "Alpha")) 30 none

abbrev trip_of : {A : Type 0} → ℕ → ℕ → List A → Journey ℕ A
trip_of transfers ar alts = record {
  from = coordinates (stop "A" "Alpha");
  to = coordinates (stop "B" "Beta");
  departure = 300;
  arrival = ar;
  legs = one_ride;
  transfers = transfers;
  alternatives = alts;
}

abbrev with_choice : Journey ℕ (Journey ℕ Unit)
with_choice = trip_of 2 1500 (trip_of 1 1800 [] ∷ trip_of 3 1600 [] ∷ [])

transfers_wanted : by_transfers "" ≡ true
unfolding by_transfers
transfers_wanted = refl

prefer-fewest_example :
    ((prefer "" with_choice).transfers ≤ 2)
    × All
        (λ (a : Journey ℕ Unit). (prefer "" with_choice).transfers ≤ a.transfers)
        with_choice.alternatives
prefer-fewest_example = prefer-fewest "" with_choice transfers_wanted

plain_idempotent : (s : String) → normalize_currency (normalize_currency s) ≡ normalize_currency s
unfolding normalize_currency
plain_idempotent s = refl

rubles-IsValidDefault : IsValidDefault "RUB"
unfolding default_currency supported contains normalize_currency
rubles-IsValidDefault = refl

configure-IsValidDefault_example : IsValidDefault (configure "RUB" "GBP")
configure-IsValidDefault_example =
    configure-IsValidDefault "RUB" "GBP" plain_idempotent rubles-IsValidDefault
