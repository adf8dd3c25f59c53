-- ===== src/Planner/Raptor.antt =====
-- internal/planner/raptor.go. The labels `arr` and `pred` are those of the scan. A date's midnight is
-- the time less its remainder by a day. The routes are taken in the order of their first trips, in the
-- place of an order of iteration; the trips of a round's route are sorted by their first departure.
pub mod Limit
use mathlib.Core.Option.{get_or}
use travel_mcp.Prelude.{
  ℕ, zero, suc, ◌+◌, ◌-◌, ◌*◌, ◌/◌, ◌%◌, ◌≡◌, arith, String, Bool, true, false, not, ◌&&◌, ◌||◌,
  List, [], ◌∷◌, ◌++◌, map, Option, none, some, ltb, str_eq, if◌then◌else◌, lookup, contains, ℤ,
  pos, negsuc,
}
use travel_mcp.Prelude.Sort.{sort_by}
use travel_mcp.Model.{
  Transfer, Connection, StopTime, Trip, Network, SearchParams, Leg, Stop, minute, day,
}
use travel_mcp.Float.{Float}
use travel_mcp.Planner.Result.{Result, ok, err, nil_stop, out_of_fuel}
use travel_mcp.Planner.Scan.{Labels, by_conn, by_foot, init, improves, relabel}
use travel_mcp.Planner.Speed.{is_implausible_leg}
use travel_mcp.Planner.Route.{reconstruct}
use travel_mcp.Planner.Legs.{build_legs}
use travel_mcp.Planner.Csa.{csa, mode_allowed, transfers_from, check_transfers}
use travel_mcp.Planner.Choose.{text_before}

-- `for t.Before(bound) { t = t.Add(24 * time.Hour) }`, all its turns at once.
unfoldable pub roll : ℕ → ℕ → ℕ
roll t bound = t + day * ((bound - t + (day - 1)) / day)

-- `roll` does what the loop does.
pub roll_lem : (t bound : ℕ) → roll t bound ≡ (if ltb t bound then roll (t + day) bound else t)
unfolding roll
roll_lem t bound = ground arith

unfoldable pub midnight : ℕ → ℕ
midnight t = t - t % day

unfoldable pub add_trip : Trip → List (String × List Trip) → List (String × List Trip)
add_trip t [] = (t.route_id, t ∷ []) ∷ []
add_trip t ((r, ts) ∷ routes) =
    if str_eq r t.route_id then (r, ts ++ (t ∷ [])) ∷ routes else (r, ts) ∷ add_trip t routes

unfoldable pub leaves_before : Trip → Trip → Bool
leaves_before a b = elim a.stop_times [
  | [] ↦ text_before a.id b.id
  | s ∷ _ ↦ elim b.stop_times [
    | [] ↦ text_before a.id b.id
    | t ∷ _ ↦ ltb s.departure_sec t.departure_sec
  ]
]

unfoldable pub group_trips :
    List String → List (String × Trip) → List (String × List Trip) → List (String × List Trip)
group_trips modes [] routes = routes
group_trips modes ((k, t) ∷ trips) routes =
    group_trips modes trips (if mode_allowed modes t.mode then add_trip t routes else routes)

unfoldable pub route_trips : List String → List (String × Trip) → List (List Trip)
route_trips modes trips = map (λ r. sort_by leaves_before r.1) (group_trips modes trips [])

-- The minutes of a transfer: its minimal time if it has one, else its walking time.
unfoldable pub transfer_minutes : Transfer → ℕ
transfer_minutes tr = if ltb 0 tr.min_transfer_time then tr.min_transfer_time else tr.minutes

-- The loop of `relax`: it takes the transfers of one stop, and notes the stops that it improves. The
-- stops noted are not relaxed in their turn.
unfoldable pub relax_hops : String → ℕ → List Transfer → Labels × List String → Labels × List String
relax_hops cur cur_t [] st = st
relax_hops cur cur_t (tr ∷ trs) (l, queue) =
    let cand = cur_t + transfer_minutes tr * minute in
    let noted = if contains queue tr.to_stop_id then queue else queue ++ (tr.to_stop_id ∷ []) in
    relax_hops cur cur_t trs (
      if improves l.arr tr.to_stop_id cand
      then (relabel l tr.to_stop_id cand (by_foot cur), noted)
      else (l, queue))

unfoldable pub relax_stop : (String → List Transfer) → String → Labels → Labels × List String
relax_stop transfers stop l = relax_hops stop (get_or (l.arr stop) 0) (transfers stop) (l, [])

-- The stop times of a trip from the first marked stop on.
unfoldable pub board_at : List String → List StopTime → List StopTime
board_at marked [] = []
board_at marked (st ∷ rest) = if contains marked st.stop_id then st ∷ rest else board_at marked rest

unfoldable pub board_time : ℕ → Labels → StopTime → ℕ
board_time depart l st =
    roll (roll (midnight depart + st.departure_sec) depart) (get_or (l.arr st.stop_id) 0)

-- The trip that is boarded first, with its time and its stop times from there on.
unfoldable pub best_trip :
    ℕ
    → Labels
    → List String
    → List Trip
    → Option (ℕ × Trip × List StopTime)
    → Option (ℕ × Trip × List StopTime)
best_trip depart l marked [] best = best
best_trip depart l marked (t ∷ trips) best = elim (board_at marked t.stop_times) [
  | [] ↦ best_trip depart l marked trips best
  | st ∷ rest ↦
      let dt = board_time depart l st in
      let better : Bool = elim best [ none ↦ true | some b ↦ ltb dt b.0 ] in
      best_trip depart l marked trips (if better then some (dt, t, st ∷ rest) else best)
]

-- `maxTransfers`: a negative limit is a hundred.
unfoldable pub transfers_limit : ℤ → ℕ
transfers_limit (pos n) = n
transfers_limit (negsuc n) = 100

module _ {F : Type 0} ⦃fl : Float F⦄ where
  -- One turn of the loop along a trip, from one stop to the next, over the labels and the new marks.
  unfoldable pub ride_one :
      Network F → ℕ → Trip → StopTime → StopTime → Labels × List String → Labels × List String
  ride_one net depart trip from_st to_st (l, marks) =
      let dep0 = midnight depart + from_st.departure_sec in
      let arr0 = midnight depart + to_st.arrival_sec in
      let arr1 = if ltb arr0 dep0 then arr0 + day else arr0 in
      let dep = roll dep0 (get_or (l.arr from_st.stop_id) 0) in
      let ar = arr1 + (dep - dep0) in
      let c : Connection = record {
        trip_id = trip.id;
        provider_id = trip.provider_id;
        route_id = trip.route_id;
        mode = trip.mode;
        from = from_st.stop_id;
        to = to_st.stop_id;
        departure = dep;
        arrival = ar;
        distance_m = 0;
      } in
      let reached =
        relax_stop (transfers_from net.transfers_by_stop net.transfers) to_st.stop_id
          (relabel l to_st.stop_id ar (by_conn c)) in
      if not (improves l.arr to_st.stop_id ar)
      then (l, marks)
      else if ltb dep (get_or (l.arr from_st.stop_id) 0)
      then (l, marks)
      else if is_implausible_leg (lookup from_st.stop_id net.stops) (lookup to_st.stop_id net.stops)
          dep ar trip.mode
      then (l, marks)
      else (reached.0, to_st.stop_id ∷ (reached.1 ++ marks))

  unfoldable pub ride_trip :
      Network F → ℕ → Trip → List StopTime → Labels × List String → Labels × List String
  ride_trip net depart trip [] st = st
  ride_trip net depart trip (a ∷ []) st = st
  ride_trip net depart trip (a ∷ b ∷ rest) st =
      ride_trip net depart trip (b ∷ rest) (ride_one net depart trip a b st)

  -- One route in a round.
  unfoldable pub scan_route :
      Network F → ℕ → List String → List Trip → Labels × List String → Labels × List String
  scan_route net depart marked trips (l, marks) = elim (best_trip depart l marked trips none) [
    | none ↦ (l, marks)
    | some (_, trip, rest) ↦ ride_trip net depart trip rest (l, marks)
  ]

  unfoldable pub scan_routes :
      Network F → ℕ → List String → List (List Trip) → Labels × List String → Labels × List String
  scan_routes net depart marked [] st = st
  scan_routes net depart marked (trips ∷ routes) st =
      scan_routes net depart marked routes (scan_route net depart marked trips st)

  -- The rounds, until nothing is marked.
  unfoldable pub run_rounds : ℕ → Network F → ℕ → List (List Trip) → List String → Labels → Labels
  run_rounds zero net depart routes marked l = l
  run_rounds (suc n) net depart routes marked l =
      elim ((scan_routes net depart marked routes (l, [])).1) [
        | [] ↦ (scan_routes net depart marked routes (l, [])).0
        | s ∷ marks ↦
            run_rounds n net depart routes (s ∷ marks)
              (scan_routes net depart marked routes (l, [])).0
      ]

  unfoldable pub raptor_labels : Network F → String → ℕ → SearchParams → Labels
  raptor_labels net from_stop depart params =
      let start =
        relax_stop (transfers_from net.transfers_by_stop net.transfers) from_stop
          (init from_stop depart) in
      run_rounds (transfers_limit params.max_transfers + 2) net depart
        (route_trips params.allowed_modes net.trips) (from_stop ∷ []) start.0

  -- A target that no round reaches is left to `csa`.
  unfoldable pub raptor : ℕ → Network F → String → String → ℕ → SearchParams → Result (List (Leg F))
  raptor fuel net from_stop to_stop depart params =
      let l = raptor_labels net from_stop depart params in
      elim (l.pred to_stop) [
        | none ↦ csa fuel net from_stop to_stop depart params
        | some p ↦ elim (reconstruct fuel l.pred from_stop to_stop) [
          | none ↦ err out_of_fuel
          | some steps ↦ elim (build_legs net.stops l.arr steps) [
            | none ↦ err nil_stop
            | some legs ↦ check_transfers (pos (transfers_limit params.max_transfers)) legs
          ]
        ]
      ]
