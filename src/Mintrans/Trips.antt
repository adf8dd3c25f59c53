-- ===== src/Mintrans/Trips.antt =====
-- internal/adapters/mintrans/trips.go, `FlattenTrips`: the register's schedules as trips, a trip for
-- each run of a schedule. Times are minutes, and past midnight they go on from 1440.
pub mod Out
pub mod Order
pub mod Runs
pub mod Counts
pub mod Week
use travel_mcp.Prelude.{
  ℕ, zero, suc, ◌+◌, ◌*◌, ◌/◌, String, Bool, true, false, ◌&&◌, ◌||◌, List, [], ◌∷◌, ◌++◌, Option,
  none, some, ltb, str_eq, if◌then◌else◌, update, last?,
}
use travel_mcp.Texts.{Texts}
use travel_mcp.Mintrans.Routes.{no_stop, stop_by_id, base_trip, endpoints}
use travel_mcp.Mintrans.Days.{
  BlockDays, no_days, parse_block_days, intersect_days, block_days_set, all_week, norm_weekdays,
}
use travel_mcp.Mintrans.Register.{
  ReestrRoute, ReestrStop, ReestrBlock, ReestrSchedStop, ReestrSched, ReestrDataset, FlatStop,
  FlatTrip, block_of, pick_period, runs_count, cell_at, block_days_of,
}

pub record FlattenStats : Type 0 where
  pub schedules : ℕ
  pub runs : ℕ
  pub trips : ℕ
  pub frequency_only : ℕ
  pub dropped_empty_weekdays : ℕ
  pub restricted_trips : ℕ
  pub parity_trips : ℕ

abbrev pub no_stats : FlattenStats
no_stats = record {
  schedules = 0;
  runs = 0;
  trips = 0;
  frequency_only = 0;
  dropped_empty_weekdays = 0;
  restricted_trips = 0;
  parity_trips = 0;
}

-- `for t+off*1440 < bound { off++ }`, on fuel.
unfoldable pub days_up : ℕ → ℕ → ℕ → ℕ → ℕ
days_up zero t bound off = off
days_up (suc fuel) t bound off =
    let rest = days_up fuel t bound (suc off) in if ltb (t + off * 1440) bound then rest else off

-- The bound's own days are enough fuel.
unfoldable pub day_offset : ℕ → ℕ → ℕ → ℕ
day_offset t bound off = days_up (suc (bound / 1440)) t bound off

-- What the loop over the stops of a run has so far. `prev_eff` starts at 0 in place of -1: no time is
-- less than either.
pub record Gathered (F : Type 0) : Type 0 where
  pub stops : List (FlatStop F)
  pub untimed : List String
  pub weekdays : List ℕ
  pub parity : Bool
  pub prev_eff : ℕ

abbrev pub start : {F : Type 0} → Gathered F
start = record { stops = []; untimed = []; weekdays = all_week; parity = false; prev_eff = 0 }

pub record Flattened (F : Type 0) : Type 0 where
  pub out : List (FlatTrip F)
  pub stats : FlattenStats

unfoldable pub untimed_stop : {F : Type 0} → Gathered F → ReestrSchedStop → Gathered F
untimed_stop g s = record g { untimed = g.untimed ++ (s.stop ∷ []) }

unfoldable pub cut_days : List ℕ → Option (List ℕ) → List ℕ
cut_days days none = days
cut_days days (some cell_days) = intersect_days days cell_days

-- The two times of a stop and the days of their cells.
pub record Times : Type 0 where
  pub arr_min : ℕ
  pub arr_days : Option (List ℕ)
  pub dep_min : ℕ
  pub dep_days : Option (List ℕ)

-- A cell that has no time takes that of the other one.
unfoldable pub both_times :
    Option (ℕ × Option (List ℕ)) → Option (ℕ × Option (List ℕ)) → Option Times
both_times none none = none
both_times (some (a, days)) none =
    some (record { arr_min = a; arr_days = days; dep_min = a; dep_days = none })
both_times none (some (d, days)) =
    some (record { arr_min = d; arr_days = none; dep_min = d; dep_days = days })
both_times (some (a, arr_days)) (some (d, dep_days)) =
    some (record { arr_min = a; arr_days = arr_days; dep_min = d; dep_days = dep_days })

unfoldable pub flat_stop : {F : Type 0} → ReestrStop F → ReestrSchedStop → ℕ → ℕ → FlatStop F
flat_stop st s arr dep = record {
  stop_id = s.stop;
  name = st.name;
  region = s.region;
  op_code = st.op_reg;
  lat = st.lat;
  lon = st.lon;
  arr_min = some arr;
  dep_min = some dep;
}

-- The stop with its times put after those of the stop before, on a later day where they have to be.
unfoldable pub timed_stop :
    {F : Type 0}
    → List (ReestrStop F)
    → Gathered F
    → ReestrSchedStop
    → BlockDays
    → Times
    → Gathered F
timed_stop stops g s bd t =
    let arr_off = day_offset t.arr_min g.prev_eff 0 in
    let eff = t.arr_min + arr_off * 1440 in
    let dep_off = day_offset t.dep_min eff arr_off in
    let eff_dep = t.dep_min + dep_off * 1440 in
    record g {
      stops = g.stops ++ (flat_stop (stop_by_id no_stop stops s.stop) s eff eff_dep ∷ []);
      weekdays =
          intersect_days g.weekdays (cut_days (cut_days (block_days_set bd) t.arr_days) t.dep_days);
      prev_eff = eff_dep;
    }

unfoldable pub count_schedule : FlattenStats → FlattenStats
count_schedule st = record st { schedules = suc st.schedules }

unfoldable pub count_frequency : FlattenStats → FlattenStats
count_frequency st = record st { frequency_only = suc st.frequency_only }

unfoldable pub count_run : FlattenStats → FlattenStats
count_run st = record st { runs = suc st.runs }

unfoldable pub count_trip : FlattenStats → FlattenStats
count_trip st = record st { trips = suc st.trips }

unfoldable pub count_dropped : FlattenStats → FlattenStats
count_dropped st = record st { dropped_empty_weekdays = suc st.dropped_empty_weekdays }

unfoldable pub count_parity : Bool → FlattenStats → FlattenStats
count_parity parity st = if parity then record st { parity_trips = suc st.parity_trips } else st

unfoldable pub count_restricted : Option (List ℕ) → FlattenStats → FlattenStats
count_restricted none st = st
count_restricted (some days) st = record st { restricted_trips = suc st.restricted_trips }

unfoldable pub with_trip :
    {F : Type 0} → FlatTrip F → List (FlatTrip F) → FlattenStats → Flattened F
with_trip ft out st = record { out = out ++ (ft ∷ []); stats = count_trip st }

-- The end of a run: days are only for a trip whose stops all have times, and it needs a day at all.
unfoldable pub end_run : {F : Type 0} → FlatTrip F → Gathered F → Flattened F → Flattened F
end_run base g f =
    let ft = record base { stops = g.stops; untimed = g.untimed } in
    elim g.untimed [
      | [] ↦ elim g.weekdays [
        | [] ↦ record f { stats = count_dropped f.stats }
        | d ∷ ds ↦
            let weekdays = norm_weekdays (d ∷ ds) in
            with_trip (record ft { weekdays = weekdays }) f.out
              (count_restricted weekdays (count_parity g.parity f.stats))
      ]
      | u ∷ us ↦ with_trip ft f.out f.stats
    ]

module _ ⦃tx : Texts⦄ where
  -- An error is dropped, and leaves no days.
  unfoldable pub block_days : ReestrBlock → BlockDays
  block_days b = elim (parse_block_days (block_days_of (some b))) [ none ↦ no_days | some bd ↦ bd ]

module _ {F : Type 0} ⦃tx : Texts⦄ where
  unfoldable pub visit_block :
      List (ReestrStop F) → ℕ → Gathered F → ReestrSchedStop → Option ReestrBlock → Gathered F
  visit_block stops run g s none = untimed_stop g s
  visit_block stops run g s (some b) =
      let bd = block_days b in
      if bd.is_none
      then untimed_stop g s
      else let h = record g { parity = bd.parity || g.parity } in
        elim (both_times (cell_at b.arr run) (cell_at b.dep run)) [
          | none ↦ untimed_stop h s
          | some t ↦ timed_stop stops h s bd t
        ]

  unfoldable pub visit_stops :
      List (ReestrStop F) → String → ℕ → Gathered F → List ReestrSchedStop → Gathered F
  visit_stops stops period run g [] = g
  visit_stops stops period run g (s ∷ rest) =
      visit_stops stops period run (visit_block stops run g s (block_of s period)) rest

  -- The runs that are left, from the given one.
  unfoldable pub flatten_runs :
      List (ReestrStop F) → ReestrSched → String → FlatTrip F → ℕ → ℕ → Flattened F → Flattened F
  flatten_runs stops sc period base run zero f = f
  flatten_runs stops sc period base run (suc left) f =
      let g = visit_stops stops period run start sc.stops in
      flatten_runs stops sc period base (suc run) left
        (end_run (record base { run = run }) g (record f { stats = count_run f.stats }))

  unfoldable pub flatten_sched :
      ReestrDataset F
      → (String → Option (String × String))
      → Flattened F
      → ReestrSched
      → Flattened F
  flatten_sched ds ends f sc =
      let period = pick_period sc in
      let base = base_trip ds.routes ends sc period in
      let counted = count_schedule f.stats in
      if str_eq period ""
      then record { out = f.out ++ (base ∷ []); stats = count_frequency counted }
      else flatten_runs ds.stops sc period base 0 (runs_count sc period)
          (record f { stats = counted })

  unfoldable pub flatten_scheds :
      ReestrDataset F
      → (String → Option (String × String))
      → Flattened F
      → List ReestrSched
      → Flattened F
  flatten_scheds ds ends f [] = f
  flatten_scheds ds ends f (sc ∷ scheds) =
      flatten_scheds ds ends (flatten_sched ds ends f sc) scheds

  unfoldable pub flatten_trips : ReestrDataset F → Flattened F
  flatten_trips ds =
      flatten_scheds ds (endpoints (λ _. none) ds.schedules) (record { out = []; stats = no_stats })
        ds.schedules
