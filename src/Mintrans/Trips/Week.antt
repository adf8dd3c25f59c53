-- ===== src/Mintrans/Trips/Week.antt =====
-- The days of the trips.
use travel_mcp.Prelude.{
  ℕ, ◌≤◌, ◌≡◌, refl, inl, inr, String, true, All, All-append, keep, List, [], ◌∷◌, Option, none,
  some, arith, Bool-cases, Option-cases,
}
use travel_mcp.Texts.{Texts}
use travel_mcp.Mintrans.Days.{
  has_day, intersect_days, norm_weekdays, all_week, block_days_set, norm_weekdays, format_weekdays,
  parse_weekdays,
}
use travel_mcp.Mintrans.Days.Sorted.{IsWeek, All-sort_days, norm_weekdays-IsWeek}
use travel_mcp.Mintrans.Days.Print.{parse_weekdays-format_weekdays}
use travel_mcp.Mintrans.Register.{
  ReestrStop, ReestrBlock, ReestrSchedStop, ReestrDataset, FlatTrip, block_of, cell_at, pick_period,
}
use travel_mcp.Mintrans.Routes.{base_trip}
use travel_mcp.Mintrans.Trips.{
  Gathered, start, untimed_stop, cut_days, both_times, timed_stop, with_trip, end_run, block_days,
  visit_block, visit_stops, flatten_trips,
}
use travel_mcp.Mintrans.Trips.Out.{KeptByRuns, TrueOfBase, flatten_trips-All}

abbrev AreDays : List ℕ → Type 0
AreDays = All λ n. n ≤ 6

has_day-All : (a : List ℕ) (n : ℕ) → AreDays a → has_day a n ≡ true → n ≤ 6
unfolding has_day
has_day-All [] n h e = ground arith
has_day-All (d ∷ a) n (l, h) e = elim (Bool-cases (has_day a n)) [
  | inl y ↦ has_day-All a n h y
  | inr n0 ↦ ground arith
]

keep-AreDays : (a b : List ℕ) → AreDays a → AreDays (keep (has_day a) b)
unfolding keep
keep-AreDays a [] h = tt
keep-AreDays a (n ∷ b) h = elim (Bool-cases (has_day a n)) [
  | inl y ↦ rw y (has_day-All a n h y, keep-AreDays a b h)
  | inr n0 ↦ rw n0 (keep-AreDays a b h)
]

intersect_days-AreDays : (a b : List ℕ) → AreDays a → AreDays (intersect_days a b)
unfolding intersect_days
intersect_days-AreDays a b h = All-sort_days (λ n. n ≤ 6) (keep (has_day a) b) (keep-AreDays a b h)

module _ {F : Type 0} ⦃tx : Texts⦄ where
  visit_block-AreDays :
      (stops : List (ReestrStop F)) (run : ℕ) (g : Gathered F) (s : ReestrSchedStop)
      (o : Option ReestrBlock)
      → AreDays g.weekdays
      → AreDays (visit_block stops run g s o).weekdays
  unfolding visit_block untimed_stop timed_stop
  visit_block-AreDays stops run g s none h = h
  visit_block-AreDays stops run g s (some b) h = elim (Bool-cases (block_days b).is_none) [
    | inl skipped ↦ rw skipped h
    | inr served ↦ elim (Option-cases (both_times (cell_at b.arr run) (cell_at b.dep run))) [
      | inl n ↦ rw (served, n) h
      | inr (t, e) ↦
          rw (served, e)
            (intersect_days-AreDays g.weekdays
              (cut_days (cut_days (block_days_set (block_days b)) t.arr_days) t.dep_days) h)
    ]
  ]

  visit_stops-AreDays :
      (stops : List (ReestrStop F)) (period : String) (run : ℕ) (g : Gathered F)
      (rest : List ReestrSchedStop)
      → AreDays g.weekdays
      → AreDays (visit_stops stops period run g rest).weekdays
  unfolding visit_stops
  visit_stops-AreDays stops period run g [] h = h
  visit_stops-AreDays stops period run g (s ∷ rest) h =
      visit_stops-AreDays stops period run (visit_block stops run g s (block_of s period)) rest
        (visit_block-AreDays stops run g s (block_of s period) h)

-- Days of a trip are some days of a week in order, not all of them, they are read back from their text,
-- and only a trip whose stops all have times has days.
abbrev pub WeekOf : Option (List ℕ) → List String → Type 0
WeekOf none untimed = Unit
WeekOf (some ds) untimed = IsWeek ds × (untimed ≡ []) × (parse_weekdays (format_weekdays ds) ≡ ds)

pub HasWeek : {F : Type 0} → FlatTrip F → Type 0
HasWeek ft = WeekOf ft.weekdays ft.untimed

week_of :
    (d : ℕ) (days : List ℕ) (o : Option (List ℕ))
    → d ≤ 6
    → norm_weekdays (d ∷ days) ≡ o
    → WeekOf o []
week_of d days none l e = tt
week_of d days (some out) l e =
    let (asc, small, some_day, not_all) = norm_weekdays-IsWeek d days out l e in
    ((asc, small, some_day, not_all), refl, parse_weekdays-format_weekdays out asc small)

module _ {F : Type 0} ⦃tx : Texts⦄ (ds : ReestrDataset F) where
  end_run-HasWeek : KeptByRuns ds HasWeek
  unfolding end_run with_trip base_trip HasWeek all_week
  end_run-HasWeek ends sc run f m all =
      go g.untimed g.weekdays
        (visit_stops-AreDays ds.stops (pick_period sc) run start sc.stops (omega arith))
    where
      g : Gathered F
      g = visit_stops ds.stops (pick_period sc) run start sc.stops

      base : FlatTrip F
      base = record (base_trip ds.routes ends sc (pick_period sc)) { run = run }

      go :
          (us : List String) (wd : List ℕ)
          → AreDays wd
          → All HasWeek (end_run base (record g { untimed = us; weekdays = wd }) f).out
      go [] [] h = all
      go [] (d ∷ days) (l, h) =
          All-append HasWeek f.out _ all (week_of d days (norm_weekdays (d ∷ days)) l refl, tt)
      go (u ∷ us) wd h = All-append HasWeek f.out _ all (tt, tt)

  base_trip-HasWeek : TrueOfBase ds HasWeek
  unfolding HasWeek base_trip
  base_trip-HasWeek ends sc m = tt

  -- The days of every trip of the register, if it has days, are some days of a week in order, not all
  -- seven, and are read back from their text; such a trip has a time for each of its stops.
  pub flatten_trips-HasWeek : All HasWeek (flatten_trips ds).out
  flatten_trips-HasWeek = flatten_trips-All ds HasWeek end_run-HasWeek base_trip-HasWeek
