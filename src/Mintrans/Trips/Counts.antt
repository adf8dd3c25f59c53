-- ===== src/Mintrans/Trips/Counts.antt =====
-- The counts that go with the trips.
use travel_mcp.Prelude.{
  ℕ, zero, suc, ◌+◌, ◌≤◌, ◌≡◌, refl, inl, inr, String, Bool, true, false, str_eq, if◌then◌else◌,
  length, length-append, List, [], ◌∷◌, ◌++◌, Option, none, arith, Bool-cases, Option-cases,
}
use travel_mcp.Texts.{Texts}
use travel_mcp.Mintrans.Days.{norm_weekdays}
use travel_mcp.Mintrans.Register.{
  ReestrStop, ReestrSched, ReestrDataset, FlatTrip, pick_period, runs_count,
}
use travel_mcp.Mintrans.Routes.{base_trip, endpoints}
use travel_mcp.Mintrans.Trips.{
  no_stats, Gathered, start, Flattened, count_schedule, count_frequency, count_run, count_trip,
  count_dropped, count_parity, count_restricted, with_trip, end_run, visit_stops, flatten_runs,
  flatten_sched, flatten_scheds, flatten_trips,
}

-- The runs come to the trips and those dropped, the trips that come out to those with times and those
-- without, and no more trips are restricted or of a parity than there are.
pub Balances : {F : Type 0} → Flattened F → Type 0
Balances f =
    (f.stats.runs ≡ f.stats.trips + f.stats.dropped_empty_weekdays)
    × (length f.out ≡ f.stats.trips + f.stats.frequency_only)
    × (f.stats.restricted_trips ≤ f.stats.trips)
    × (f.stats.parity_trips ≤ f.stats.trips)

module _ {F : Type 0} where
  -- A run is counted, and ends as a trip or is dropped.
  end_run-Balances :
      (base : FlatTrip F) (g : Gathered F) (f : Flattened F)
      → Balances f
      → Balances (end_run base g (record f { stats = count_run f.stats }))
  unfolding Balances end_run with_trip count_run count_trip count_dropped count_parity
      count_restricted
  end_run-Balances base g f (b1, b2, b3, b4) = go g.untimed g.weekdays g.parity
    where
      one :
          (ft : FlatTrip F)
          → length (f.out ++ (ft ∷ [])) ≡ suc f.stats.trips + f.stats.frequency_only
      one ft = omega (arith, length-append f.out (ft ∷ []))

      go :
          (us : List String) (wd : List ℕ) (p : Bool)
          → Balances (
              end_run base
                (record g { untimed = us; weekdays = wd; parity = p })
                (record f { stats = count_run f.stats }))
      go [] [] p = (omega arith, b2, b3, b4)
      go [] (d ∷ ds) true = elim (Option-cases (norm_weekdays (d ∷ ds))) [
        | inl n ↦ rw n (omega arith, one _, omega arith, omega arith)
        | inr (out, e) ↦ rw e (omega arith, one _, omega arith, omega arith)
      ]
      go [] (d ∷ ds) false = elim (Option-cases (norm_weekdays (d ∷ ds))) [
        | inl n ↦ rw n (omega arith, one _, omega arith, omega arith)
        | inr (out, e) ↦ rw e (omega arith, one _, omega arith, omega arith)
      ]
      go (u ∷ us) wd p = (omega arith, one _, omega arith, omega arith)

  -- Runs leave the count of schedules and that of the trips without times.
  end_run-stats :
      (base : FlatTrip F) (g : Gathered F) (f : Flattened F)
      → let st = (end_run base g (record f { stats = count_run f.stats })).stats in
        (st.schedules ≡ f.stats.schedules)
        × (st.frequency_only ≡ f.stats.frequency_only)
        × (st.runs ≡ suc f.stats.runs)
  unfolding end_run with_trip count_run count_trip count_dropped count_parity count_restricted
  end_run-stats base g f = go g.untimed g.weekdays g.parity
    where
      go :
          (us : List String) (wd : List ℕ) (p : Bool)
          → let st =
              (end_run base
                (record g { untimed = us; weekdays = wd; parity = p })
                (record f { stats = count_run f.stats })).stats in
            (st.schedules ≡ f.stats.schedules)
            × (st.frequency_only ≡ f.stats.frequency_only)
            × (st.runs ≡ suc f.stats.runs)
      go [] [] p = (refl, refl, refl)
      go [] (d ∷ ds) true = elim (Option-cases (norm_weekdays (d ∷ ds))) [
        | inl n ↦ rw n (refl, refl, refl)
        | inr (out, e) ↦ rw e (refl, refl, refl)
      ]
      go [] (d ∷ ds) false = elim (Option-cases (norm_weekdays (d ∷ ds))) [
        | inl n ↦ rw n (refl, refl, refl)
        | inr (out, e) ↦ rw e (refl, refl, refl)
      ]
      go (u ∷ us) wd p = (refl, refl, refl)

-- The runs of a schedule, if it has times.
pub own_runs : ReestrSched → ℕ
own_runs sc = if str_eq (pick_period sc) "" then 0 else runs_count sc (pick_period sc)

-- 1 for a schedule without times.
pub own_frequency : ReestrSched → ℕ
own_frequency sc = if str_eq (pick_period sc) "" then 1 else 0

pub sum_of : (ReestrSched → ℕ) → List ReestrSched → ℕ
sum_of n [] = 0
sum_of n (sc ∷ scheds) = n sc + sum_of n scheds

module _ {F : Type 0} ⦃tx : Texts⦄ where
  -- What is counted from one state to a later one.
  Counted : Flattened F → Flattened F → ℕ → ℕ → ℕ → Type 0
  Counted f h scheds untimed runs =
      Balances h
      × (h.stats.schedules ≡ f.stats.schedules + scheds)
      × (h.stats.frequency_only ≡ f.stats.frequency_only + untimed)
      × (h.stats.runs ≡ f.stats.runs + runs)

  flatten_runs-Counted :
      (stops : List (ReestrStop F)) (sc : ReestrSched) (period : String) (base : FlatTrip F)
      (left run : ℕ) (f : Flattened F)
      → Balances f
      → Counted f (flatten_runs stops sc period base run left f) 0 0 left
  unfolding Counted flatten_runs
  flatten_runs-Counted stops sc period base zero run f b =
      (b, omega arith, omega arith, omega arith)
  flatten_runs-Counted stops sc period base (suc left) run f b =
      let g = visit_stops stops period run start sc.stops in
      let here : FlatTrip F = record base { run = run } in
      let (e1, e2, e3) = end_run-stats here g f in
      let (bal, f1, f2, f3) =
        flatten_runs-Counted stops sc period base left (suc run)
          (end_run here g (record f { stats = count_run f.stats })) (end_run-Balances here g f b) in
      (bal, omega arith, omega arith, omega arith)

  flatten_sched-Counted :
      (ds : ReestrDataset F) (ends : String → Option (String × String)) (sc : ReestrSched)
      (f : Flattened F)
      → Balances f
      → Counted f (flatten_sched ds ends f sc) 1 (own_frequency sc) (own_runs sc)
  unfolding Counted flatten_sched own_frequency own_runs count_schedule count_frequency Balances
  flatten_sched-Counted ds ends sc f (b1, b2, b3, b4) =
      elim (Bool-cases (str_eq (pick_period sc) "")) [
        | inl y ↦
            let more = length-append f.out (base_trip ds.routes ends sc (pick_period sc) ∷ []) in
            rw y ((omega arith, omega arith, b3, b4), omega arith, omega arith, omega arith)
        | inr n ↦
            let (bal, e1, e2, e3) =
              flatten_runs-Counted ds.stops sc (pick_period sc)
                (base_trip ds.routes ends sc (pick_period sc)) (runs_count sc (pick_period sc)) 0
                (record f { stats = count_schedule f.stats }) (b1, b2, b3, b4) in
            rw n (bal, omega arith, omega arith, omega arith)
      ]

  flatten_scheds-Counted :
      (ds : ReestrDataset F) (ends : String → Option (String × String)) (scheds : List ReestrSched)
      (f : Flattened F)
      → Balances f
      → Counted f
          (flatten_scheds ds ends f scheds)
          (length scheds)
          (sum_of own_frequency scheds)
          (sum_of own_runs scheds)
  unfolding Counted flatten_scheds sum_of
  flatten_scheds-Counted ds ends [] f b = (b, omega arith, omega arith, omega arith)
  flatten_scheds-Counted ds ends (sc ∷ scheds) f b =
      let (b1, e1, e2, e3) = flatten_sched-Counted ds ends sc f b in
      let (b2, f1, f2, f3) =
        flatten_scheds-Counted ds ends scheds (flatten_sched ds ends f sc) b1 in
      (b2, omega arith, omega arith, omega arith)

  -- The counts that go with the trips are right: each schedule is counted, those without times apart;
  -- the runs are those of the schedules with times; each run is a trip or is dropped, the trips are as
  -- many as the counts say, and no more are restricted or of a parity than there are trips with times.
  pub flatten_trips-Balances :
      (ds : ReestrDataset F)
      → Balances (flatten_trips ds)
        × ((flatten_trips ds).stats.schedules ≡ length ds.schedules)
        × ((flatten_trips ds).stats.frequency_only ≡ sum_of own_frequency ds.schedules)
        × ((flatten_trips ds).stats.runs ≡ sum_of own_runs ds.schedules)
  unfolding flatten_trips Balances Counted
  flatten_trips-Balances ds =
      let (b, e1, e2, e3) =
        flatten_scheds-Counted ds (endpoints (λ _. none) ds.schedules) ds.schedules
          (record { out = []; stats = no_stats }) (omega arith) in
      (b, omega arith, omega arith, omega arith)
