-- ===== src/Model/Indexes.antt =====
-- internal/model/model.go, `BuildIndexes`: the maps that the searches read, made from the network.
pub mod Built
use travel_mcp.Prelude.{
  ℕ, String, Bool, true, List, [], ◌∷◌, ◌++◌, map, Option, none, some, ltb, str_eq, if◌then◌else◌,
}
use travel_mcp.Model.{Transfer, Connection, StopTime, Trip, Network}

-- `m[k] = v`
unfoldable pub put {ℓ} : {V : Type ℓ} → String → V → List (String × V) → List (String × V)
put k v [] = (k, v) ∷ []
put k v ((j, w) ∷ m) = let rest = put k v m in if str_eq j k then (j, v) ∷ m else (j, w) ∷ rest

-- `m[k] = append(m[k], vs...)`
unfoldable pub append_at {ℓ} :
    {V : Type ℓ} → String → List V → List (String × List V) → List (String × List V)
append_at k vs [] = (k, vs) ∷ []
append_at k vs ((j, ws) ∷ m) =
    let rest = append_at k vs m in if str_eq j k then (j, ws ++ vs) ∷ m else (j, ws) ∷ rest

unfoldable pub index_transfers :
    List (String × List Transfer) → List Transfer → List (String × List Transfer)
index_transfers m [] = m
index_transfers m (tr ∷ transfers) =
    index_transfers (append_at tr.from_stop_id (tr ∷ []) m) transfers

unfoldable pub note_provisional : List (String × Bool) → List StopTime → List (String × Bool)
note_provisional m [] = m
note_provisional m (st ∷ stop_times) =
    note_provisional (if st.is_provisional then put st.stop_id true m else m) stop_times

unfoldable pub index_provisional :
    List (String × Bool) → List (String × Trip) → List (String × Bool)
index_provisional m [] = m
index_provisional m ((_, trip) ∷ trips) =
    index_provisional (note_provisional m trip.stop_times) trips

abbrev pub stop_ids : Trip → List String
stop_ids trip = map (λ (st : StopTime). st.stop_id) trip.stop_times

unfoldable pub index_trip_stops :
    List (String × List String) → List (String × Trip) → List (String × List String)
index_trip_stops m [] = m
index_trip_stops m ((_, trip) ∷ trips) = index_trip_stops (put trip.id (stop_ids trip) m) trips

unfoldable pub index_route_stops :
    List (String × List String) → List (String × Trip) → List (String × List String)
index_route_stops m [] = m
index_route_stops m ((_, trip) ∷ trips) =
    index_route_stops (append_at trip.route_id (stop_ids trip) m) trips

-- The first departure and the last arrival.
unfoldable pub widen : ℕ → ℕ → List Connection → ℕ × ℕ
widen low high [] = (low, high)
widen low high (c ∷ cs) =
    widen (if ltb c.departure low then c.departure else low)
      (if ltb high c.arrival then c.arrival else high) cs

-- `none` leaves the times as they are.
unfoldable pub time_span : List Connection → Option (ℕ × ℕ)
time_span [] = none
time_span (c ∷ cs) = some (widen c.departure c.arrival cs)

pub record Indexes : Type 0 where
  pub trip_stops : List (String × List String)
  pub route_stops : List (String × List String)
  pub span : Option (ℕ × ℕ)

-- The indexes that the planner reads are fields of the network; the others stand apart.
unfoldable pub build_indexes : {F : Type 0} → Network F → Network F × Indexes
build_indexes net = (
  record net {
    transfers_by_stop = index_transfers [] net.transfers;
    provisional_stops = index_provisional [] net.trips;
  },
  record {
    trip_stops = index_trip_stops [] net.trips;
    route_stops = index_route_stops [] net.trips;
    span = time_span net.connections;
  },
)
