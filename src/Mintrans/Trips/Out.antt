-- ===== src/Mintrans/Trips/Out.antt =====
-- The trips that come out, one by one.
use travel_mcp.Prelude.{
  ℕ, zero, suc, refl, inl, inr, String, In, All, All-append, str_eq, List, [], ◌∷◌, Option, none,
  Bool-cases,
}
use travel_mcp.Texts.{Texts}
use travel_mcp.Mintrans.Register.{ReestrSched, ReestrDataset, FlatTrip, pick_period, runs_count}
use travel_mcp.Mintrans.Routes.{endpoints, base_trip}
use travel_mcp.Mintrans.Trips.{
  start, Flattened, count_schedule, count_run, end_run, visit_stops, flatten_runs, flatten_sched,
  flatten_scheds, flatten_trips,
}

module _ {F : Type 0} ⦃tx : Texts⦄ (ds : ReestrDataset F) (P : FlatTrip F → Type 0) where
  -- The end of a run keeps the predicate.
  abbrev pub KeptByRuns : Type 0
  KeptByRuns =
      (ends : String → Option (String × String)) (sc : ReestrSched) (run : ℕ) (f : Flattened F)
      → In sc ds.schedules
      → All P f.out
      → All P
          (end_run (record (base_trip ds.routes ends sc (pick_period sc)) { run = run })
            (visit_stops ds.stops (pick_period sc) run start sc.stops) f).out

  -- A trip without times satisfies it.
  abbrev pub TrueOfBase : Type 0
  TrueOfBase =
      (ends : String → Option (String × String)) (sc : ReestrSched)
      → In sc ds.schedules
      → P (base_trip ds.routes ends sc (pick_period sc))

  flatten_runs-All :
      (ends : String → Option (String × String)) (sc : ReestrSched)
      → KeptByRuns
      → In sc ds.schedules
      → (left run : ℕ) (f : Flattened F) → All P f.out
      → All P
          (flatten_runs ds.stops sc
            (pick_period sc)
            (base_trip ds.routes ends sc (pick_period sc))
            run
            left
            f).out
  unfolding flatten_runs
  flatten_runs-All ends sc kept m zero run f all = all
  flatten_runs-All ends sc kept m (suc left) run f all =
      flatten_runs-All ends sc kept m left (suc run) _
        (kept ends sc run (record f { stats = count_run f.stats }) m all)

  flatten_sched-All :
      (ends : String → Option (String × String)) (sc : ReestrSched)
      → KeptByRuns
      → TrueOfBase
      → In sc ds.schedules
      → (f : Flattened F) → All P f.out
      → All P (flatten_sched ds ends f sc).out
  unfolding flatten_sched
  flatten_sched-All ends sc kept base m f all = elim (Bool-cases (str_eq (pick_period sc) "")) [
    | inl y ↦ rw y (All-append P f.out _ all (base ends sc m, tt))
    | inr n ↦ rw n (
        flatten_runs-All ends sc kept m (runs_count sc (pick_period sc)) 0
          (record f { stats = count_schedule f.stats }) all)
  ]

  flatten_scheds-All :
      (ends : String → Option (String × String))
      → KeptByRuns
      → TrueOfBase
      → (scheds : List ReestrSched) → ((sc : ReestrSched) → In sc scheds → In sc ds.schedules)
      → (f : Flattened F) → All P f.out
      → All P (flatten_scheds ds ends f scheds).out
  unfolding flatten_scheds
  flatten_scheds-All ends kept base [] sub f all = all
  flatten_scheds-All ends kept base (sc ∷ scheds) sub f all =
      flatten_scheds-All ends kept base scheds (λ x m. sub x (inr m)) (flatten_sched ds ends f sc)
        (flatten_sched-All ends sc kept base (sub sc (inl refl)) f all)

  pub flatten_trips-All : KeptByRuns → TrueOfBase → All P (flatten_trips ds).out
  unfolding flatten_trips
  flatten_trips-All kept base =
      flatten_scheds-All (endpoints (λ _. none) ds.schedules) kept base ds.schedules (λ sc m. m) _
        tt
