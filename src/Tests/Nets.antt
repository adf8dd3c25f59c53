-- ===== src/Tests/Nets.antt =====
-- Indexes, walks and modes at the small town, and jobs that a worker gets through.
use mathlib.Core.Option.{some-injective, none-ne-some}
use travel_mcp.Prelude.{
  ◌≡◌, ◌≢◌, ◌≤◌, refl, String, false, List, [], ◌∷◌, Option, none, some, All, contains, lookup,
  arith, eq_iff, ap, ◌∙◌,
}
use travel_mcp.Model.{Connection}
use travel_mcp.Geo.{haversine}
use travel_mcp.Model.Indexes.{build_indexes, time_span, widen}
use travel_mcp.Model.Indexes.Built.{marked, at_stop_of, build_indexes-provisional_stops}
use travel_mcp.Model.Walks.{key, walk_cell, dist_m, build_walk_transfers}
use travel_mcp.Model.Walks.Touching.{Touching}
use travel_mcp.Model.Walks.Complete.{Near}
use travel_mcp.Model.Walks.Ways.{Leads, HasPlainIds, build_walk_transfers-Both}
use travel_mcp.Strings.Splitting.{Lacks}
use travel_mcp.Strings.{◌<>◌, is_space, trim_left, trim_right, trim_space, add_char, split_on}
use travel_mcp.Model.Modes.{parse_transit_mode, mode_of, add_modes, parse_transit_modes}
use travel_mcp.Model.Modes.Named.{names, NoneTwice, parse_transit_modes_lem}
use travel_mcp.Planner.Csa.{csa}
use travel_mcp.Planner.Csa.Indexed.{unindexed, csa-build_indexes}
use travel_mcp.Jobs.Store.{JobRow, Store, claimable, get_row}
use travel_mcp.Jobs.Store.Table.{IsTable, total}
use travel_mcp.Jobs.Worker.{Handler, providers_for_job}
use travel_mcp.Jobs.Worker.Drain.{IsPlain, left_of, runs, runs_lem}
use travel_mcp.Tests.Plane.{plane, town, anyhow, bus, stop}
use travel_mcp.Tests.Work.{job, office, noon}

csa-build_indexes_example :
    csa 9 (build_indexes town).0 "A" "D" 300 anyhow ≡ csa 9 (unindexed town) "A" "D" 300 anyhow
csa-build_indexes_example = csa-build_indexes 9 town "A" "D" 300 anyhow

build_indexes-provisional_stops_example :
    marked "B" (build_indexes town).0.provisional_stops ≡ at_stop_of "B" town.trips
build_indexes-provisional_stops_example = build_indexes-provisional_stops town "B"

abbrev two_buses : List Connection
two_buses = bus "t2" "A" "B" 900 1500 ∷ []

two_buses_span : time_span (bus "t1" "A" "B" 600 1800 ∷ two_buses) ≡ some (600, 1800)
unfolding time_span widen
two_buses_span = refl

town-HasPlainIds : HasPlainIds town
unfolding Lacks
town-HasPlainIds = record {
  of_stops = ((refl, tt), ((refl, tt), ((refl, tt), ((refl, tt), tt))));
  of_transfers = (((refl, tt), (refl, tt)), tt);
}

-- With a bar in an id, two pairs of stops have one key.
one_key : key "a|b" "c" ≡ key "a" "b|c"
unfolding key ◌<>◌
one_key = refl

near : Near town "A" (stop "A" "Alpha") "B" (stop "B" "Beta")
unfolding Near lookup dist_m haversine
near = (refl, refl, refl, refl, refl, refl)

two_stops : ◌≢◌ {A = String} "A" "B"
two_stops = ground (arith, eq_iff "A" "B")

one_cell : Touching (walk_cell (stop "A" "Alpha")) (walk_cell (stop "B" "Beta"))
unfolding walk_cell
one_cell = omega arith

build_walk_transfers-Both_example :
    Leads (build_walk_transfers town).transfers "A" "B"
    × Leads (build_walk_transfers town).transfers "B" "A"
build_walk_transfers-Both_example =
    build_walk_transfers-Both town town-HasPlainIds "A" (stop "A" "Alpha") "B" (stop "B" "Beta")
      near two_stops one_cell

abbrev depot : Store
depot = record office {
  jobs =
      (1, record (job 1 "pending" 20) { job_type = "tidy" })
      ∷ (2, record (job 2 "retry" 10) { job_type = "tidy" })
      ∷ [];
}

abbrev tidy : String → Option Handler
tidy t = some λ p j. none

depot-IsTable : IsTable depot.jobs
unfolding get_row
depot-IsTable = (refl, refl, (refl, refl, tt))

tidy-IsPlain : (j : JobRow) → j.job_type ≡ "tidy" → IsPlain noon (λ s. none) tidy j
unfolding providers_for_job
tidy-IsPlain j kind = (
  rw (kind, providers_for_job) refl,
  λ h p k e same fails.
      absurd (none-ne-some e (ap (λ (f : Handler). f p k) (some-injective _ _ same) ∙ fails)),
)

depot_work : total left_of depot.jobs ≤ 12
unfolding left_of claimable
depot_work = omega arith

runs_lem_example : All (λ r. claimable r.1 ≡ false) (runs noon (λ s. none) tidy 12 depot).jobs
runs_lem_example =
    runs_lem noon (λ s. none) tidy 12 depot depot-IsTable
      (
        tidy-IsPlain (record (job 1 "pending" 20) { job_type = "tidy" }) refl,
        (tidy-IsPlain (record (job 2 "retry" 10) { job_type = "tidy" }) refl, tt),
      )
      depot_work

parse_transit_modes_lem_example :
    (contains (parse_transit_modes "bus,RAIL, coach") "rail"
      ≡ names "rail" (split_on 44 "bus,RAIL, coach"))
    × NoneTwice (parse_transit_modes "bus,RAIL, coach")
parse_transit_modes_lem_example = parse_transit_modes_lem "bus,RAIL, coach" "rail" refl

three_modes : parse_transit_modes "bus,RAIL, coach" ≡ "bus" ∷ "rail" ∷ []
unfolding parse_transit_modes add_modes mode_of parse_transit_mode split_on add_char trim_space
    trim_left trim_right is_space contains
three_modes = refl
