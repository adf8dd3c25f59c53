-- ===== src/Planner/Plan/Arrival.antt =====
-- `planArrival`: the search for the latest departure that arrives in time.
pub mod First
pub mod Grid
pub mod Window
pub mod Latest
pub mod Ends
use travel_mcp.Prelude.{
  ℕ, zero, suc, ◌+◌, ◌-◌, ◌*◌, ◌/◌, String, Bool, true, false, ◌&&◌, List, [], ◌∷◌, Option, none,
  some, last?, ltb, leb, str_eq, ◌≡◌, ◌≤◌, refl, subst, inl, inr, arith, In, Bool-cases,
  Option-cases, if◌then◌else◌,
}
use travel_mcp.Prelude.Sort.{sort_by}
use travel_mcp.Model.{StopTime, Trip, Network, SearchParams, Leg, minute, day}
use travel_mcp.Float.{Float}
use travel_mcp.Planner.Result.{Result, ok, err, no_route, aborts}
use travel_mcp.Planner.Csa.{csa}
use travel_mcp.Planner.Raptor.{raptor, roll, midnight}

-- `for dep.After(bound) { dep = dep.Add(-24 * time.Hour) }`, all its turns at once.
unfoldable pub roll_back : ℕ → ℕ → ℕ
roll_back t bound = t - day * ((t - bound + (day - 1)) / day)

unfoldable pub first_from : String → List StopTime → Option ℕ
first_from stop [] = none
first_from stop (st ∷ sts) =
    if str_eq st.stop_id stop then some st.departure_sec else first_from stop sts

unfoldable pub window_start : ℕ → ℕ → ℕ
window_start ar latest = if ltb latest (ar - day) then latest else ar - day

-- The departures from `stop` in the window, one for each trip at most.
unfoldable pub departures : String → ℕ → ℕ → List (String × Trip) → List ℕ
departures stop start latest [] = []
departures stop start latest ((k, t) ∷ trips) =
    let rest = departures stop start latest trips in
    elim (first_from stop t.stop_times) [
      | none ↦ rest
      | some sec ↦
          let dep = roll (roll_back (midnight latest + sec) latest) start in
          if ltb start dep && leb dep latest then dep ∷ rest else rest
    ]

-- Every half an hour, back from `d`; a day has 48 of them.
unfoldable pub half_hours : ℕ → ℕ → ℕ → List ℕ
half_hours zero d start = []
half_hours (suc n) d start =
    let rest = half_hours n (d - 30 * minute) start in if leb start d then d ∷ rest else []

unfoldable pub candidate_departures : String → ℕ → ℕ → List (String × Trip) → List ℕ
candidate_departures stop start latest trips =
    elim (sort_by (λ a b. ltb b a) (departures stop start latest trips)) [
      | [] ↦ half_hours 49 latest start
      | d ∷ ds ↦ d ∷ ds
    ]

module _ {F : Type 0} where
  unfoldable pub in_time : ℕ → List (Leg F) → Bool
  in_time latest legs = elim (last? legs) [ none ↦ false | some leg ↦ leb leg.arrival latest ]

  -- The first departure whose search arrives in time; errors are passed over.
  unfoldable pub first_in_time :
      (ℕ → Result (List (Leg F))) → ℕ → List ℕ → Result (List (Leg F) × ℕ)
  first_in_time run latest [] = err no_route
  first_in_time run latest (d ∷ ds) =
      let rest = first_in_time run latest ds in
      elim (run d) [
        | err e ↦ if aborts e then err e else rest
        | ok legs ↦ if in_time latest legs then ok (legs, d) else rest
      ]

module _ {F : Type 0} ⦃fl : Float F⦄ where
  -- `p.engine` chooses the search.
  unfoldable pub search :
      String → ℕ → Network F → String → String → ℕ → SearchParams → Result (List (Leg F))
  search engine fuel net from_stop to_stop depart params =
      if str_eq engine "raptor"
      then raptor fuel net from_stop to_stop depart params
      else csa fuel net from_stop to_stop depart params

  unfoldable pub plan_arrival :
      String → ℕ → Network F → String → String → ℕ → ℕ → SearchParams → Result (List (Leg F) × ℕ)
  plan_arrival engine fuel net from_stop to_stop ar latest params =
      first_in_time (λ d. search engine fuel net from_stop to_stop d params) latest
        (candidate_departures from_stop (window_start ar latest) latest net.trips)
