-- ===== src/Mintrans/Contract/Known.antt =====
-- What a data set has whose schedules pass the checks.
use travel_mcp.Prelude.{
  ℕ, ◌≡◌, refl, ap, ◌∙◌, sym, inl, inr, String, Bool, true, false, not, List, [], ◌∷◌, Option, none,
  some, contains, All, All-In, ℤ, arith, Option-cases,
}
use mathlib.Core.Option.{none-ne-some}
use travel_mcp.Texts.{Texts}
use travel_mcp.Mintrans.Days.{BlockDays, parse_block_days}
use travel_mcp.Mintrans.Register.{
  ReestrBlock, ReestrSchedStop, ReestrSched, ReestrDataset, FlatStop, FlatTrip, block_days_of,
}
use travel_mcp.Mintrans.Contract.{
  ContractError, fail_if, and_then, check_block, check_sched_stops, check_schedules,
}
use travel_mcp.Mintrans.Trips.{flatten_trips}
use travel_mcp.Mintrans.Trips.Runs.{FromCells, IsTimetable, IsRunOf, flatten_trips-IsRunOf}

both_pass : (a b : Option ContractError) → and_then a b ≡ none → (a ≡ none) × (b ≡ none)
unfolding and_then
both_pass none b e = (refl, e)
both_pass (some x) b e = absurd (none-ne-some _ (sym e))

fail_if_passes : (b : Bool) (x : ContractError) → fail_if b x ≡ none → b ≡ false
unfolding fail_if
fail_if_passes false x e = refl
fail_if_passes true x e = absurd (none-ne-some _ (sym e))

not-false : (b : Bool) → not b ≡ false → b ≡ true
not-false b e = ground arith

module _ ⦃tx : Texts⦄ where
  -- The days of a block are readable.
  pub HasDays : Option ReestrBlock → Type 0
  HasDays none = Unit
  HasDays (some b) = (bd : BlockDays) × (parse_block_days (block_days_of (some b)) ≡ some bd)

  -- The stop is one of the register's, and the days of its blocks are readable.
  abbrev pub IsKnown : List String → ReestrSchedStop → Type 0
  IsKnown stop_set s = (contains stop_set s.stop ≡ true) × HasDays s.winter × HasDays s.summer

  pub IsGood : List String → List String → ReestrSched → Type 0
  IsGood route_set stop_set sc =
      (contains route_set sc.route ≡ true) × All (IsKnown stop_set) sc.stops

  check_block-HasDays : (o : Option ReestrBlock) → check_block o ≡ none → HasDays o
  unfolding check_block HasDays
  check_block-HasDays none e = tt
  check_block-HasDays (some b) e = elim (Option-cases (parse_block_days (block_days_of (some b)))) [
    | inl n ↦ absurd (none-ne-some _ (sym (both_pass _ _ (rw (n, check_block) at e)).0))
    | inr found ↦ found
  ]

  check_sched_stops-IsKnown :
      (stop_set : List String) (stops : List ReestrSchedStop)
      → check_sched_stops stop_set stops ≡ none
      → All (IsKnown stop_set) stops
  unfolding check_sched_stops
  check_sched_stops-IsKnown stop_set [] e = tt
  check_sched_stops-IsKnown stop_set (s ∷ stops) e =
      let (_, e1) = both_pass _ _ e in
      let (known, e2) = both_pass _ _ e1 in
      let (_, e3) = both_pass _ _ e2 in
      let (winter, e4) = both_pass _ _ e3 in
      let (summer, e5) = both_pass _ _ e4 in
      (
        (
          not-false (contains stop_set s.stop) (fail_if_passes _ _ known),
          check_block-HasDays s.winter winter,
          check_block-HasDays s.summer summer,
        ),
        check_sched_stops-IsKnown stop_set stops e5,
      )

  check_schedules-IsGood :
      (route_set stop_set : List String) (services : List ℤ) (scheds : List ReestrSched)
      (seen : List String)
      → check_schedules route_set stop_set services seen scheds ≡ none
      → All (IsGood route_set stop_set) scheds
  unfolding check_schedules IsGood
  check_schedules-IsGood route_set stop_set services [] seen e = tt
  check_schedules-IsGood route_set stop_set services (sc ∷ scheds) seen e =
      let (_, e1) = both_pass _ _ e in
      let (known, e2) = both_pass _ _ e1 in
      let (_, e3) = both_pass _ _ e2 in
      let (_, e4) = both_pass _ _ e3 in
      let (_, e5) = both_pass _ _ e4 in
      let (_, e6) = both_pass _ _ e5 in
      let (_, e7) = both_pass _ _ e6 in
      let (stops, e8) = both_pass _ _ e7 in
      (
        (
          not-false (contains route_set sc.route) (fail_if_passes _ _ known),
          check_sched_stops-IsKnown stop_set sc.stops stops,
        ),
        check_schedules-IsGood route_set stop_set services scheds _ e8,
      )

  known_cells :
      {F : Type 0} (stop_set : List String) (sc : ReestrSched) (period : String) (run : ℕ)
      (fss : List (FlatStop F))
      → All (IsKnown stop_set) sc.stops
      → All (FromCells sc period run) fss
      → All (λ (fs : FlatStop F). contains stop_set fs.stop_id ≡ true) fss
  unfolding FromCells
  known_cells stop_set sc period run [] stops h = tt
  known_cells stop_set sc period run (fs ∷ fss) stops
        ((s, b, t, a, d, m, id, _, _, _, _, _, _), hs) =
      let (known, _, _) = All-In (IsKnown stop_set) s sc.stops stops m in
      (ap (contains stop_set) id ∙ known, known_cells stop_set sc period run fss stops hs)

  module _ {F : Type 0} (ds : ReestrDataset F) (route_set stop_set : List String)
      (services : List ℤ) where
    -- The stops of the trip are the register's.
    abbrev pub KnownStops : FlatTrip F → Type 0
    KnownStops ft = All (λ (fs : FlatStop F). contains stop_set fs.stop_id ≡ true) ft.stops

    IsRunOf-KnownStops :
        All (IsGood route_set stop_set) ds.schedules
        → (fts : List (FlatTrip F)) → All (IsRunOf ds) fts
        → All KnownStops fts
    unfolding IsRunOf IsTimetable IsGood
    IsRunOf-KnownStops good [] h = tt
    IsRunOf-KnownStops good (ft ∷ fts) ((sc, m, (l, (timed, cells))), hs) =
        let (_, stops) = All-In (IsGood route_set stop_set) sc ds.schedules good m in
        (
          known_cells stop_set sc ft.period ft.run ft.stops stops cells,
          IsRunOf-KnownStops good fts hs,
        )

    -- If the schedules of a data set pass the checks, then every route and every stop of them is known,
    -- the days of every block are readable, so that none are dropped, and every stop of every trip that
    -- is made of them is known.
    pub check_schedules-known :
        check_schedules route_set stop_set services [] ds.schedules ≡ none
        → All (IsGood route_set stop_set) ds.schedules × All KnownStops (flatten_trips ds).out
    check_schedules-known e =
        let good = check_schedules-IsGood route_set stop_set services ds.schedules [] e in
        (good, IsRunOf-KnownStops good (flatten_trips ds).out (flatten_trips-IsRunOf ds))
