-- ===== src/Planner/Plan/Arrival/Latest.antt =====
-- `planArrival` as a whole.
use Prim.Native.Nat.{min}
use travel_mcp.Prelude.{
  ℕ, ◌+◌, ◌-◌, ◌≤◌, refl, subst, ◌⊎◌, inl, inr, arith, String, Bool, List, [], ◌∷◌, ltb, In,
  Bool-cases,
}
use travel_mcp.Prelude.Sort.{sort_by, insert_by, In-sort_by, sort_by-In, All-insert_by}
use travel_mcp.Float.{Float}
use travel_mcp.Model.{Trip, Network, SearchParams, day}
use travel_mcp.Planner.Plan.Arrival.{
  window_start, departures, half_hours, candidate_departures, search, plan_arrival,
}
use travel_mcp.Planner.Plan.Arrival.First.{
  Descending, IsLatest, IsLatest-iff, first_in_time-IsLatest,
}
use travel_mcp.Planner.Plan.Arrival.Grid.{
  half_hours-Back, Back-half_hours, half_hours-Descending, All-weaken_below,
}
use travel_mcp.Planner.Plan.Arrival.Window.{
  IsCandidate, Departs, OnGrid, window_start_lem, departures-Departs, Departs-departures,
}

abbrev later : ℕ → ℕ → Bool
later a b = ltb b a

insert_by-Descending : (a : ℕ) (xs : List ℕ) → Descending xs → Descending (insert_by later a xs)
unfolding insert_by
insert_by-Descending a [] h = (tt, tt)
insert_by-Descending a (x ∷ xs) (h, hs) = elim (Bool-cases (later x a)) [
  | inl y ↦
      rw y (All-insert_by later (λ z. z ≤ x) a xs (ground arith) h, insert_by-Descending a xs hs)
  | inr n ↦ rw n ((ground arith, All-weaken_below x a xs (ground arith) h), (h, hs))
]

sort_by-Descending : (xs : List ℕ) → Descending (sort_by later xs)
unfolding sort_by
sort_by-Descending [] = tt
sort_by-Descending (x ∷ xs) = insert_by-Descending x (sort_by later xs) (sort_by-Descending xs)

module _ (stop : String) (start latest : ℕ) (trips : List (String × Trip)) where
  abbrev sorted : List ℕ
  sorted = sort_by later (departures stop start latest trips)

  candidate_departures-Descending : Descending (candidate_departures stop start latest trips)
  unfolding candidate_departures
  candidate_departures-Descending =
      by_sorted sorted (sort_by-Descending (departures stop start latest trips))
    where
      by_sorted :
          (l : List ℕ)
          → Descending l
          → Descending
              (elim l as (λ _. List ℕ) [ [] ↦ half_hours 49 latest start | d ∷ ds ↦ d ∷ ds ])
      by_sorted [] h = half_hours-Descending 49 latest start
      by_sorted (d ∷ ds) h = h

  module _ (h : day ≤ latest) (w : latest ≤ start + day) where
    candidate_departures-IsCandidate :
        (dep : ℕ)
        → In dep (candidate_departures stop start latest trips)
        → Departs stop start latest trips dep ⊎ OnGrid stop start latest trips dep
    unfolding candidate_departures
    candidate_departures-IsCandidate dep =
        by_sorted sorted
          (λ x m. departures-Departs stop start latest trips x h (In-sort_by later x _ m))
          (λ x d. sort_by-In later x _ (Departs-departures stop start latest trips x h w d))
      where
        by_sorted :
            (l : List ℕ)
            → ((x : ℕ) → In x l → Departs stop start latest trips x)
            → ((x : ℕ) → Departs stop start latest trips x → In x l)
            → In dep (elim l as (λ _. List ℕ) [ [] ↦ half_hours 49 latest start | d ∷ ds ↦ d ∷ ds ])
            → Departs stop start latest trips dep ⊎ OnGrid stop start latest trips dep
        by_sorted [] to from m =
            inr ((λ x d. from x d), half_hours-Back 49 latest start dep (omega arith) m)
        by_sorted (d ∷ ds) to from m = inl (to dep m)

    IsCandidate-candidate_departures :
        (dep : ℕ)
        → Departs stop start latest trips dep ⊎ OnGrid stop start latest trips dep
        → In dep (candidate_departures stop start latest trips)
    unfolding candidate_departures
    IsCandidate-candidate_departures dep =
        by_sorted sorted
          (λ x m. departures-Departs stop start latest trips x h (In-sort_by later x _ m))
          (λ x d. sort_by-In later x _ (Departs-departures stop start latest trips x h w d))
      where
        by_sorted :
            (l : List ℕ)
            → ((x : ℕ) → In x l → Departs stop start latest trips x)
            → ((x : ℕ) → Departs stop start latest trips x → In x l)
            → Departs stop start latest trips dep ⊎ OnGrid stop start latest trips dep
            → In dep (elim l as (λ _. List ℕ) [ [] ↦ half_hours 49 latest start | d ∷ ds ↦ d ∷ ds ])
        by_sorted [] to from (inl d) = absurd (from dep d)
        by_sorted [] to from (inr (free, (lo, k, e))) =
            Back-half_hours 49 k latest start dep (omega arith) lo e
        by_sorted (d ∷ ds) to from (inl at) = from dep at
        by_sorted (d ∷ ds) to from (inr (free, _)) = absurd (free d (to d (inl refl)))

module _ {F : Type 0} ⦃fl : Float F⦄ (engine : String) (fuel : ℕ) (net : Network F)
    (from_stop to_stop : String) (ar latest : ℕ) (params : SearchParams) where
  -- Of the candidates.
  pub plan_arrival-IsLatest :
      IsLatest
        (λ d. search engine fuel net from_stop to_stop d params)
        latest
        (λ d. In d (candidate_departures from_stop (window_start ar latest) latest net.trips))
        (plan_arrival engine fuel net from_stop to_stop ar latest params)
  unfolding plan_arrival
  plan_arrival-IsLatest =
      first_in_time-IsLatest _ latest _
        (candidate_departures-Descending from_stop (window_start ar latest) latest net.trips)

  -- Where the latest time is no later than the arrival asked for and no earlier than the first day,
  -- `planArrival` searches at the times in the window at which trips depart from the stop, by their
  -- time of the day, or at every half hour of the window if no trip departs in it. It gives the latest
  -- of these whose search arrives in time, with the legs of that search; or no search arrives in time,
  -- and there is no route; or a search aborts, and the run with it.
  pub plan_arrival_lem :
      day ≤ latest
      → latest ≤ ar
      → IsLatest
          (λ d. search engine fuel net from_stop to_stop d params)
          latest
          (IsCandidate from_stop ar latest net.trips)
          (plan_arrival engine fuel net from_stop to_stop ar latest params)
  plan_arrival_lem h le =
      let start = min latest (ar - day) in
      let w : latest ≤ start + day = omega arith in
      IsLatest-iff _ latest _ _ _
        (candidate_departures-IsCandidate from_stop start latest net.trips h w)
        (IsCandidate-candidate_departures from_stop start latest net.trips h w)
        (subst
          (λ (z : ℕ).
            IsLatest (λ d. search engine fuel net from_stop to_stop d params) latest
              (λ d. In d (candidate_departures from_stop z latest net.trips))
              (plan_arrival engine fuel net from_stop to_stop ar latest params))
          (window_start_lem ar latest) plan_arrival-IsLatest)
