-- ===== src/Mintrans/Register.antt =====
-- The register's data set (internal/adapters/mintrans/importer.go), the trips that are made of it
-- (internal/model/flat_trip.go), and what a cell of a timetable says.
use travel_mcp.Prelude.{
  ℕ, zero, suc, ◌+◌, ◌*◌, String, Bool, true, false, ◌||◌, List, [], ◌∷◌, Option, none, some, ltb,
  str_eq, if◌then◌else◌, length, ℤ,
}
use travel_mcp.Texts.{Texts}
use travel_mcp.Strings.{trim_space}
use travel_mcp.Mintrans.Days.{is_no_service_cell, match_time, parse_cell_time}

-- A value of any JSON type, as far as it is asked for.
pub data AnyValue : Type 0 where
  null : AnyValue
  number : AnyValue
  other : AnyValue

pub record ReestrRoute : Type 0 where
  pub reg : String
  pub name : String
  pub order : AnyValue
  pub carrier : String
  pub carrier_inn : String

pub record ReestrStop (F : Type 0) : Type 0 where
  pub id : String
  pub name : String
  pub region : String
  pub op_reg : String
  pub lat : Option F
  pub lon : Option F

pub record ReestrBlock : Type 0 where
  pub days : String
  pub dep : List String
  pub dwell : List String
  pub arr : List String

pub record ReestrSchedStop : Type 0 where
  pub stop : String
  pub region : String
  pub winter : Option ReestrBlock
  pub summer : Option ReestrBlock

pub record ReestrSched : Type 0 where
  pub route : String
  pub direction : String
  pub service_id : ℤ
  pub stops : List ReestrSchedStop

pub record ReestrDataset (F : Type 0) : Type 0 where
  pub source : String
  pub snapshot : String
  pub routes : List ReestrRoute
  pub stops : List (ReestrStop F)
  pub schedules : List ReestrSched

pub record FlatStop (F : Type 0) : Type 0 where
  pub stop_id : String
  pub name : String
  pub region : String
  pub op_code : String
  pub lat : Option F
  pub lon : Option F
  pub arr_min : Option ℕ
  pub dep_min : Option ℕ

-- `weekdays` is `none` for `nil`.
pub record FlatTrip (F : Type 0) : Type 0 where
  pub route_reg : String
  pub direction : String
  pub service_id : ℤ
  pub run : ℕ
  pub period : String
  pub carrier : String
  pub carrier_inn : String
  pub route_from : String
  pub route_to : String
  pub stops : List (FlatStop F)
  pub untimed : List String
  pub frequency_only : Bool
  pub weekdays : Option (List ℕ)

unfoldable pub parse_time_minutes : String → Option ℕ
parse_time_minutes s = elim (match_time (trim_space s)) [
  | none ↦ none
  | some (h, m, _) ↦ some (h * 60 + m)
]

unfoldable pub block_of : ReestrSchedStop → String → Option ReestrBlock
block_of st period = if str_eq period "winter" then st.winter else st.summer

unfoldable pub any_time : List String → Bool
any_time [] = false
any_time (t ∷ ts) =
    let rest = any_time ts in elim (parse_time_minutes t) [ none ↦ rest | some _ ↦ true ]

unfoldable pub block_has_times : ReestrBlock → Bool
block_has_times b = any_time b.dep || any_time b.arr

unfoldable pub has_times : Option ReestrBlock → Bool
has_times none = false
has_times (some b) = block_has_times b

-- Whether a stop has times in the period.
unfoldable pub any_stop_timed : (ReestrSchedStop → Option ReestrBlock) → List ReestrSchedStop → Bool
any_stop_timed block [] = false
any_stop_timed block (st ∷ stops) = has_times (block st) || any_stop_timed block stops

unfoldable pub pick_period : ReestrSched → String
pick_period sched =
    if any_stop_timed (λ st. st.winter) sched.stops
    then "winter"
    else if any_stop_timed (λ st. st.summer) sched.stops
    then "summer"
    else ""

unfoldable pub larger : ℕ → ℕ → ℕ
larger l n = if ltb n l then l else n

unfoldable pub more_runs : ℕ → Option ReestrBlock → ℕ
more_runs n none = n
more_runs n (some b) = larger (length b.arr) (larger (length b.dep) n)

unfoldable pub runs_from : ℕ → String → List ReestrSchedStop → ℕ
runs_from n period [] = n
runs_from n period (st ∷ stops) = runs_from (more_runs n (block_of st period)) period stops

unfoldable pub runs_count : ReestrSched → String → ℕ
runs_count sched period = runs_from 1 period sched.stops

-- The text at a place of a list, if the list is that long.
unfoldable pub text_at : List String → ℕ → Option String
text_at [] run = none
text_at (s ∷ list) zero = some s
text_at (s ∷ list) (suc run) = text_at list run

unfoldable pub time_at : List String → ℕ → Option ℕ
time_at list run = elim (text_at list run) [ none ↦ none | some s ↦ parse_time_minutes s ]

module _ ⦃tx : Texts⦄ where
  -- A cell without service is like an error; the days are there if the cell has some.
  unfoldable pub cell_at : List String → ℕ → Option (ℕ × Option (List ℕ))
  cell_at list run = elim (text_at list run) [
    | none ↦ none
    | some cell ↦
        let raw = trim_space cell in
        if str_eq raw "" || is_no_service_cell raw then none else parse_cell_time raw
  ]

unfoldable pub block_days_of : Option ReestrBlock → String
block_days_of none = ""
block_days_of (some b) = b.days
