-- ===== src/Tests/Search.antt =====
-- The search over the small town.
use mathlib.Core.Bool.{false≢true}
use travel_mcp.Geo.{haversine}
use travel_mcp.Planner.Speed.{is_implausible_connection, is_implausible_leg, max_speed}
use travel_mcp.Planner.Route.{reconstruct_rev, reconstruct}
use travel_mcp.Prelude.{
  ap, contains, ◌+◌, ℕ, ◌≤◌, ◌≡◌, ◌≢◌, refl, sym, subst, ◌∙◌, inl, inr, String, Bool, true, false,
  List, [], ◌∷◌, arith, In, In-keep, In-keep_passes, eq_iff, length, pos, lookup, str_eq, keep,
  some, if◌then◌else◌,
}
use travel_mcp.Model.{Connection, Transfer, Leg, SearchParams}
use travel_mcp.Planner.Result.{ok}
use travel_mcp.Planner.Scan.Total.{EndsIn, labels_total}
use travel_mcp.Planner.Scan.Earliest.{labels_earliest}
use travel_mcp.Planner.Scan.Closed.{By}
use travel_mcp.Planner.Scan.Sound.{start, walk, board}
use travel_mcp.Planner.Legs.{
  leg_point, end_leg, continues, ride_leg, walk_leg, extend, build_step, build_loop, build_legs,
}
use travel_mcp.Planner.Scan.{
  Graph, Labels, init, improves, relabel, relax_edge, relax_edges, visit, relax_loop, relax,
  scan_one, scan, labels,
}
use travel_mcp.Planner.Legs.Chain.{IsKnown}
use travel_mcp.Planner.Csa.{
  csa, finish, graph, mode_allowed, scan_order, first_after_last, check_transfers, transfers_from,
}
use travel_mcp.Planner.Csa.Search.{IsSearchable, Answers, csa_lem, csa-within_limit}
use travel_mcp.Tests.Plane.{plane, town, anyhow, bus, stop, footpath}

town_transfers :
    (s : String) (tr : Transfer)
    → In tr (keep (λ (x : Transfer). str_eq x.from_stop_id s) town.transfers)
    → IsKnown town.stops s × IsKnown town.stops tr.to_stop_id
unfolding lookup
town_transfers s tr m = elim (In-keep _ tr town.transfers m) [
  | inl e ↦
      let from_b : "B" ≡ s =
        sym (ap (λ (x : Transfer). x.from_stop_id) e)
        ∙ (eq_iff tr.from_stop_id s).0 (In-keep_passes _ tr town.transfers m) in
      (
        subst (IsKnown town.stops) from_b (stop "B" "Beta", refl, refl),
        subst (IsKnown town.stops) (sym (ap (λ (x : Transfer). x.to_stop_id) e))
            (stop "C" "Gamma", refl, refl),
      )
  | inr h ↦ absurd h
]

town-IsSearchable : IsSearchable town anyhow
unfolding lookup graph transfers_from
town-IsSearchable = record {
  ordered = inl (omega arith);
  takes_time = omega arith;
  known = (
    (
      ((stop "A" "Alpha", refl, refl), (stop "B" "Beta", refl, refl)),
      (
        ((stop "A" "Alpha", refl, refl), (stop "B" "Beta", refl, refl)),
        (((stop "C" "Gamma", refl, refl), (stop "D" "Delta", refl, refl)), tt),
      ),
    ),
    town_transfers,
  );
}

d_ne_a : ◌≢◌ {A = String} "D" "A"
d_ne_a e = false≢true ((eq_iff "D" "A").1 e)

csa_lem_example :
    (enough : ℕ) × ((more : ℕ)
      → enough ≤ more
      → Answers town anyhow "A" 300 "D" (csa more town "A" "D" 300 anyhow))
csa_lem_example = csa_lem town anyhow town-IsSearchable "A" "D" 300 d_ne_a

abbrev direct_only : SearchParams
direct_only = record anyhow { max_transfers = pos 0 }

abbrev single_ride : List (Leg ℕ)
single_ride = ride_leg (bus "t2" "A" "B" 900 1500) (stop "A" "Alpha") (stop "B" "Beta") ∷ []

single_ride_found : csa 9 town "A" "B" 300 direct_only ≡ ok single_ride
unfolding csa finish graph mode_allowed scan_order first_after_last check_transfers init improves
    relabel relax_edge relax_edges visit relax_loop relax scan_one scan labels reconstruct_rev
    reconstruct leg_point end_leg continues ride_leg walk_leg extend build_step build_loop
    build_legs lookup is_implausible_connection is_implausible_leg max_speed transfers_from
    haversine keep contains
single_ride_found = refl

csa-within_limit_example : length (single_ride) ≤ 0 + 1
csa-within_limit_example =
    csa-within_limit town direct_only 9 "A" "B" 300 0 single_ride refl single_ride_found

-- Two stops joined by a bus, and a footpath on to a third.
abbrev lane : Graph
lane = record {
  provisional = λ s. false;
  transfers_from = λ s. if str_eq s "B" then footpath "B" "C" 10 ∷ [] else [];
  boards = λ c. true;
}

abbrev lane_buses : List Connection
lane_buses = bus "t1" "A" "B" 600 1800 ∷ []

lane-EndsIn : EndsIn lane ("C" ∷ [])
lane-EndsIn s tr m = at_c (str_eq s "B") m
  where
    at_c :
        (b : Bool)
        → In tr (if b then footpath "B" "C" 10 ∷ [] else [])
        → In tr.to_stop_id ("C" ∷ [])
    at_c true (inl e) = inl (ap (λ (x : Transfer). x.to_stop_id) e)
    at_c true (inr h) = absurd h
    at_c false h = absurd h

labels_total_example :
    (fuel : ℕ) × (m : Labels) × ((more : ℕ)
      → fuel ≤ more
      → labels lane more lane_buses "A" 300 ≡ some m)
labels_total_example = labels_total lane ("C" ∷ []) lane_buses "A" 300 lane-EndsIn

labels_earliest_example : By labels_total_example.1 "C" 2400
labels_earliest_example =
    labels_earliest lane labels_total_example.0 lane_buses "A" 300 labels_total_example.1 (tt, tt)
      (omega arith, tt) (labels_total_example.2 labels_total_example.0 (omega arith)) "C" 2400
      (walk (footpath "B" "C" 10)
        (board (bus "t1" "A" "B" 600 1800) start (inl refl) refl refl (omega arith)) (inl refl) refl
        refl)
