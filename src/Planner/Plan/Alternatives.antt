-- ===== src/Planner/Plan/Alternatives.antt =====
-- `paretoAlternatives`: later departures, each arrival with its number of transfers once, in the order
-- of the preference, three at most, less the journey itself, and two of these at most.
use travel_mcp.Prelude.{
  ℕ, ◌+◌, ◌-◌, ◌*◌, ◌==◌, String, Bool, false, not, ◌&&◌, ◌||◌, List, [], ◌∷◌, ◌++◌, Option, none,
  some, last?, ltb, str_eq, if◌then◌else◌, length, take, keep,
}
use travel_mcp.Prelude.Sort.{sort_by}
use travel_mcp.Model.{Coords, Stop, Network, SearchParams, Leg, Journey, coordinates, minute}
use travel_mcp.Float.{Float}
use travel_mcp.Geo.{haversine, walk_time_minutes}
use travel_mcp.Planner.Result.{Result, ok, err, aborts}
use travel_mcp.Planner.Plan.Arrival.{search, plan_arrival}

-- The empty preference is that of fewer transfers.
unfoldable pub by_transfers : String → Bool
by_transfers preference = str_eq preference "" || str_eq preference "transfers"

module _ {F A : Type 0} where
  -- A journey with no alternatives.
  pub bare : Journey F A → {B : Type 0} → Journey F B
  bare j = record {
    from = j.from;
    to = j.to;
    departure = j.departure;
    arrival = j.arrival;
    legs = j.legs;
    transfers = j.transfers;
    alternatives = [];
  }

  -- The keys of `uniq` are the arrival and the number of transfers.
  pub same_key : Journey F A → Journey F A → Bool
  same_key a b = a.arrival == b.arrival && a.transfers == b.transfers

  pub seen : List (Journey F A) → Journey F A → Bool
  seen [] j = false
  seen (k ∷ ks) j = same_key k j || seen ks j

  pub uniq : List (Journey F A) → List (Journey F A) → List (Journey F A)
  uniq kept [] = kept
  uniq kept (j ∷ js) = uniq (if seen kept j then kept else kept ++ (j ∷ [])) js

  pub fewer_transfers : Journey F A → Journey F A → Bool
  fewer_transfers a b =
      if not (a.transfers == b.transfers)
      then ltb a.transfers b.transfers
      else ltb a.arrival b.arrival

  pub earlier_arrival : Journey F A → Journey F A → Bool
  earlier_arrival a b =
      if a.arrival == b.arrival then ltb a.transfers b.transfers else ltb a.arrival b.arrival

  pub ordered : String → List (Journey F A) → List (Journey F A)
  ordered preference js =
      if by_transfers preference then sort_by fewer_transfers js else sort_by earlier_arrival js

  pub choose_alternatives : String → Journey F A → List (Journey F A) → List (Journey F A)
  choose_alternatives preference best candidates =
      take 2 (keep (λ j. not (same_key j best)) (take 3 (ordered preference (uniq [] candidates))))

-- The offsets of the later departures, in minutes.
pub offsets : List ℕ
offsets = 60 ∷ 120 ∷ 180 ∷ 240 ∷ 300 ∷ 360 ∷ []

pub moved : ℕ → SearchParams → SearchParams
moved offset params = elim params.arrival [
  | none ↦ record params { departure = params.departure + offset * minute }
  | some t ↦ record params { arrival = some (t + offset * minute) }
]

module _ {F : Type 0} ⦃fl : Float F⦄ where
  pub candidate_legs :
      String → ℕ → Network F → Stop F → Stop F → ℕ → ℕ → SearchParams → Result (List (Leg F))
  candidate_legs engine fuel net from_stop to_stop access egress params = elim params.arrival [
    | none ↦
        search engine fuel net from_stop.id to_stop.id (params.departure + access * minute) params
    | some t ↦
        elim (plan_arrival engine fuel net from_stop.id to_stop.id t (t - egress * minute) params) [
          | err e ↦ err e
          | ok found ↦ ok found.0
        ]
  ]

module _ {F A : Type 0} ⦃fl : Float F⦄ where
  -- The journey of the legs, from the first to the last.
  pub journey_of : Coords F → Coords F → ℕ → ℕ → List (Leg F) → Option (Journey F A)
  journey_of from to access egress [] = none
  journey_of from to access egress (leg ∷ legs) = elim (last? (leg ∷ legs)) [
    | none ↦ none
    | some end ↦ some (record {
      from = from;
      to = to;
      departure = leg.departure - access * minute;
      arrival = end.arrival + egress * minute;
      legs = leg ∷ legs;
      transfers = length legs;
      alternatives = [];
    })
  ]

  pub candidate :
      String
      → ℕ
      → Network F
      → Coords F
      → Coords F
      → Stop F
      → Stop F
      → SearchParams
      → Result (Option (Journey F A))
  candidate engine fuel net from to from_stop to_stop params =
      let access = walk_time_minutes (haversine from (coordinates from_stop)) in
      let egress = walk_time_minutes (haversine to (coordinates to_stop)) in
      elim (candidate_legs engine fuel net from_stop to_stop access egress params) [
        | err e ↦ if aborts e then err e else ok none
        | ok legs ↦ ok (journey_of from to access egress legs)
      ]

  pub candidates : (ℕ → Result (Option (Journey F A))) → List ℕ → Result (List (Journey F A))
  candidates at [] = ok []
  candidates at (o ∷ os) =
      let rest = candidates at os in
      elim (at o) [
        | err e ↦ err e
        | ok found ↦ elim found [
          | none ↦ rest
          | some j ↦ elim rest [ err e ↦ err e | ok js ↦ ok (j ∷ js) ]
        ]
      ]

  pub pareto_alternatives :
      String
      → ℕ
      → Network F
      → Coords F
      → Coords F
      → SearchParams
      → Stop F
      → Stop F
      → Journey F A
      → Result (List (Journey F A))
  pareto_alternatives engine fuel net from to params from_stop to_stop best =
      elim (candidates (λ o. candidate engine fuel net from to from_stop to_stop (moved o params))
        offsets) [
          | err e ↦ err e
          | ok later ↦ ok (choose_alternatives params.preference best (best ∷ later))
        ]
