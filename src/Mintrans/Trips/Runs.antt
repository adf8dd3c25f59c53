-- ===== src/Mintrans/Trips/Runs.antt =====
-- The trips as runs of the schedules.
use travel_mcp.Prelude.{
  ℕ, ◌+◌, ◌*◌, ◌≡◌, refl, inl, inr, String, ◌||◌, List, [], ◌∷◌, Option, none, some, ◌%◌, In, All,
  All-append, arith, Bool-cases, Option-cases,
}
use travel_mcp.Texts.{Texts}
use travel_mcp.Mintrans.Days.{BlockDays}
use travel_mcp.Mintrans.Register.{
  ReestrStop, ReestrBlock, ReestrSchedStop, ReestrSched, ReestrDataset, FlatStop, FlatTrip,
  block_of, cell_at, pick_period,
}
use travel_mcp.Mintrans.Routes.{no_stop, stop_by_id, base_trip}
use travel_mcp.Mintrans.Trips.Out.{KeptByRuns, TrueOfBase, flatten_trips-All}
use travel_mcp.Mintrans.Trips.{
  day_offset, Gathered, start, untimed_stop, Times, both_times, flat_stop, timed_stop, with_trip,
  end_run, block_days, visit_block, visit_stops, flatten_trips,
}
use travel_mcp.Mintrans.Trips.Order.{
  Timed, Timed-append, day_offset_lem, cell_at-day, both_times-InDay,
}

module _ {F : Type 0} ⦃tx : Texts⦄ where
  -- The two times of a stop are what the cells of a stop of the schedule say, on some day.
  unfoldable pub FromCells : ReestrSched → String → ℕ → FlatStop F → Type 0
  FromCells sc period run fs =
      (s : ReestrSchedStop) × (b : ReestrBlock) × (t : Times) × (a : ℕ) × (d : ℕ) × In s sc.stops
      × (fs.stop_id ≡ s.stop)
      × (block_of s period ≡ some b)
      × (both_times (cell_at b.arr run) (cell_at b.dep run) ≡ some t)
      × (fs.arr_min ≡ some a)
      × (fs.dep_min ≡ some d)
      × (a % 1440 ≡ t.arr_min)
      × (d % 1440 ≡ t.dep_min)

  unfoldable pub IsTimetable : ReestrSched → String → ℕ → List (FlatStop F) → ℕ → Type 0
  IsTimetable sc period run stops l = Timed 0 stops l × All (FromCells sc period run) stops

  timed_stop-IsTimetable :
      (stops : List (ReestrStop F)) (sc : ReestrSched) (period : String) (run : ℕ) (g : Gathered F)
      (s : ReestrSchedStop) (b : ReestrBlock) (bd : BlockDays) (t : Times)
      → In s sc.stops
      → block_of s period ≡ some b
      → both_times (cell_at b.arr run) (cell_at b.dep run) ≡ some t
      → IsTimetable sc period run g.stops g.prev_eff
      → IsTimetable sc period run
          (timed_stop stops g s bd t).stops
          (timed_stop stops g s bd t).prev_eff
  unfolding IsTimetable FromCells timed_stop flat_stop
  timed_stop-IsTimetable stops sc period run g s b bd t m be te (timed, cells) =
      let (in_a, in_d) =
        both_times-InDay (cell_at b.arr run) (cell_at b.dep run) t
          (λ k days e. cell_at-day b.arr run k days e) (λ k days e. cell_at-day b.dep run k days e)
          te in
      let off = day_offset t.arr_min g.prev_eff 0 in
      let eff = t.arr_min + off * 1440 in
      let off' = day_offset t.dep_min eff off in
      let eff' = t.dep_min + off' * 1440 in
      let (_, a_after, a_soon) = day_offset_lem t.arr_min g.prev_eff 0 in
      let (off_le, d_after, d_soon) = day_offset_lem t.dep_min eff off in
      let st = stop_by_id no_stop stops s.stop in
      (
        Timed-append 0 g.stops g.prev_eff (flat_stop st s eff eff') eff eff' timed refl refl a_after
            (elim a_soon [ inl e ↦ omega arith | inr l ↦ l ]) d_after
            (elim d_soon [ inl e ↦ omega arith | inr l ↦ l ]),
        All-append (FromCells sc period run) g.stops (flat_stop st s eff eff' ∷ []) cells
            ((s, b, t, eff, eff', m, refl, be, te, refl, refl, omega arith, omega arith), tt),
      )

  visit_block-IsTimetable :
      (stops : List (ReestrStop F)) (sc : ReestrSched) (period : String) (run : ℕ) (g : Gathered F)
      (s : ReestrSchedStop)
      → In s sc.stops
      → IsTimetable sc period run g.stops g.prev_eff
      → let h = visit_block stops run g s (block_of s period) in
        IsTimetable sc period run h.stops h.prev_eff
  unfolding visit_block untimed_stop
  visit_block-IsTimetable stops sc period run g s m ok = go (block_of s period) refl
    where
      go :
          (o : Option ReestrBlock)
          → block_of s period ≡ o
          → let h = visit_block stops run g s o in IsTimetable sc period run h.stops h.prev_eff
      go none n = ok
      go (some b) y = elim (Bool-cases (block_days b).is_none) [
        | inl skipped ↦ rw skipped ok
        | inr served ↦ elim (Option-cases (both_times (cell_at b.arr run) (cell_at b.dep run))) [
          | inl n ↦ rw (served, n) ok
          | inr (t, e) ↦
              rw (served, e)
                (timed_stop-IsTimetable stops sc period run
                  (record g { parity = (block_days b).parity || g.parity }) s b (block_days b) t m y
                  e ok)
        ]
      ]

  visit_stops-IsTimetable :
      (stops : List (ReestrStop F)) (sc : ReestrSched) (period : String) (run : ℕ) (g : Gathered F)
      (rest : List ReestrSchedStop)
      → ((s : ReestrSchedStop) → In s rest → In s sc.stops)
      → IsTimetable sc period run g.stops g.prev_eff
      → let h = visit_stops stops period run g rest in IsTimetable sc period run h.stops h.prev_eff
  unfolding visit_stops
  visit_stops-IsTimetable stops sc period run g [] sub ok = ok
  visit_stops-IsTimetable stops sc period run g (s ∷ rest) sub ok =
      visit_stops-IsTimetable stops sc period run (visit_block stops run g s (block_of s period))
        rest (λ x m. sub x (inr m))
        (visit_block-IsTimetable stops sc period run g s (sub s (inl refl)) ok)

module _ {F : Type 0} ⦃tx : Texts⦄ (ds : ReestrDataset F) where
  -- The trip is a run of a schedule of the register: its stops are stops of it, with the times of the
  -- cells of that run.
  unfoldable pub IsRunOf : FlatTrip F → Type 0
  IsRunOf ft =
      (sc : ReestrSched) × In sc ds.schedules
      × ((l : ℕ) × IsTimetable sc ft.period ft.run ft.stops l)

  end_run-IsRunOf : KeptByRuns ds IsRunOf
  unfolding end_run with_trip base_trip IsRunOf IsTimetable
  end_run-IsRunOf ends sc run f m all = go g.untimed g.weekdays
    where
      g : Gathered F
      g = visit_stops ds.stops (pick_period sc) run start sc.stops

      base : FlatTrip F
      base = record (base_trip ds.routes ends sc (pick_period sc)) { run = run }

      here : IsTimetable sc (pick_period sc) run g.stops g.prev_eff
      here =
          visit_stops-IsTimetable ds.stops sc (pick_period sc) run start sc.stops (λ s i. i)
            (refl, tt)

      go :
          (us : List String) (wd : List ℕ)
          → All IsRunOf (end_run base (record g { untimed = us; weekdays = wd }) f).out
      go [] [] = all
      go [] (d ∷ days) = All-append IsRunOf f.out _ all ((sc, m, (g.prev_eff, here)), tt)
      go (u ∷ us) wd = All-append IsRunOf f.out _ all ((sc, m, (g.prev_eff, here)), tt)

  base_trip-IsRunOf : TrueOfBase ds IsRunOf
  unfolding IsRunOf IsTimetable base_trip
  base_trip-IsRunOf ends sc m = (sc, m, (0, (refl, tt)))

  -- Every trip of the register is a run of one of its schedules: its stops are stops of that schedule,
  -- their times are those of the cells of that run, on some day, each time is at or after the one
  -- before, and no wait and no drive takes a day or more.
  pub flatten_trips-IsRunOf : All IsRunOf (flatten_trips ds).out
  flatten_trips-IsRunOf = flatten_trips-All ds IsRunOf end_run-IsRunOf base_trip-IsRunOf
