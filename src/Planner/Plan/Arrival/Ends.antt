-- ===== src/Planner/Plan/Arrival/Ends.antt =====
-- `planArrival` with the search `csa` on enough fuel.
use travel_mcp.Prelude.{
  ℕ, zero, suc, ◌+◌, ◌≤◌, ◌≡◌, ◌≢◌, refl, sym, subst, inl, inr, arith, String, false, List, [], ◌∷◌,
  In, All, All-In, str_eq, pos, negsuc, ℤ,
}
use travel_mcp.Float.{Float}
use travel_mcp.Model.{Network, SearchParams, Leg}
use travel_mcp.Planner.Result.{Result, PlanError, err, no_route, aborts}
use travel_mcp.Planner.Csa.{csa, check_transfers}
use travel_mcp.Planner.Csa.Search.{IsSearchable, Answers, csa_lem}
use travel_mcp.Planner.Plan.Arrival.{search, plan_arrival, candidate_departures, window_start}
use travel_mcp.Planner.Plan.Arrival.First.{IsLatest}
use travel_mcp.Planner.Plan.Arrival.Latest.{plan_arrival-IsLatest}

abbrev GoesOn : {A : Type 0} → Result A → Type 0
GoesOn r = (e : PlanError) → r ≡ err e → aborts e ≡ false

no_route-GoesOn : {A : Type 0} → (r : Result A) → r ≡ err no_route → GoesOn r
unfolding aborts
no_route-GoesOn r same e bad =
    let eq : no_route ≡ e = ground arith in subst (λ z. aborts z ≡ false) eq refl

module _ {F : Type 0} where
  check_transfers-GoesOn : (limit : ℤ) (legs : List (Leg F)) → GoesOn (check_transfers limit legs)
  unfolding check_transfers aborts
  check_transfers-GoesOn (negsuc n) legs e bad = absurd (ground arith)
  check_transfers-GoesOn (pos zero) legs e bad = ground arith
  check_transfers-GoesOn (pos (suc n)) legs e bad = ground arith

module _ {F : Type 0} ⦃fl : Float F⦄ (net : Network F) (params : SearchParams)
    (searchable : IsSearchable net params) (from to : String) (ne : to ≢ from) where
  Answers-GoesOn :
      (depart : ℕ) (r : Result (List (Leg F))) → Answers net params from depart to r → GoesOn r
  Answers-GoesOn depart r (inl (same, _)) = no_route-GoesOn r same
  Answers-GoesOn depart r (inr (legs, _, same, _, _, _, _, _)) =
      subst GoesOn (sym same) (check_transfers-GoesOn params.max_transfers legs)

  -- Fuel that is enough for all of the departures.
  departures-GoesOn :
      (ds : List ℕ)
      → (enough : ℕ) × ((more : ℕ)
          → enough ≤ more
          → All (λ d. GoesOn (csa more net from to d params)) ds)
  departures-GoesOn [] = (0, λ more h. tt)
  departures-GoesOn (d ∷ ds) =
      let (f, one) = csa_lem net params searchable from to d ne in
      let (f', rest) = departures-GoesOn ds in
      (f + f', λ more h. (Answers-GoesOn d _ (one more (omega arith)), rest more (omega arith)))

  -- Over a searchable network and between two different stops, `planArrival` with `csa` and enough fuel
  -- ends without a panic.
  plan_arrival_ends :
      (engine : String) (ar latest : ℕ)
      → str_eq engine "raptor" ≡ false
      → (enough : ℕ) × ((more : ℕ)
          → enough ≤ more
          → GoesOn (plan_arrival engine more net from to ar latest params))
  unfolding search aborts
  plan_arrival_ends engine ar latest chosen =
      let ds = candidate_departures from (window_start ar latest) latest net.trips in
      let (enough, all) = departures-GoesOn ds in
      (
        enough,
        λ more h e bad. settle more ds (all more h) e (
            subst (IsLatest (λ d. search engine more net from to d params) latest (λ d. In d ds))
              bad (plan_arrival-IsLatest engine more net from to ar latest params)),
      )
    where
      settle :
          (more : ℕ) (ds : List ℕ)
          → All (λ d. GoesOn (csa more net from to d params)) ds
          → (e : PlanError)
          → IsLatest (λ d. search engine more net from to d params) latest (λ d. In d ds) (err e)
          → aborts e ≡ false
      settle more ds all e (inl (same, _)) = subst (λ z. aborts z ≡ false) (sym same) refl
      settle more ds all e (inr (_, d, m, found)) =
          All-In (λ x. GoesOn (csa more net from to x params)) d ds all m e
            (rw (chosen, search) at found)
