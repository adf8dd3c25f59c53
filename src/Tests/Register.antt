-- ===== src/Tests/Register.antt =====
-- A register with one schedule.
use travel_mcp.Prelude.{ℕ, ◌≡◌, refl, String, [], ◌∷◌, none, some, length, All, pos, arith}
use travel_mcp.Prelude.{lookup, contains}
use travel_mcp.Prelude.Sort.{insert_by, sort_by}
use travel_mcp.Strings.{
  ◌<>◌, is_space, is_digit, trim_left, trim_right, trim_space, add_char, split_on, non_empty,
  words_of, fields, has_prefix, has,
}
use travel_mcp.Mintrans.Days.{
  weekday_num, has_day, add_day, add_days, sort_days, after_hours, match_time, days_part,
  match_cell, parse_day_token, day_tokens, tokens_of, parse_day_list, is_no_service_cell, cell_time,
  parse_cell_time, block_parts, parse_block_days, format_weekdays, parse_weekdays,
}
use travel_mcp.Mintrans.Contract.{
  fail_if, and_then, is_code, positive, unknown_service, is_empty, time_error, check_cells,
  check_dwells, check_block, check_sched_stops, check_schedules,
}
use travel_mcp.Mintrans.Contract.Known.{IsGood, KnownStops, check_schedules-known}
use travel_mcp.Mintrans.Days.Print.{parse_weekdays-format_weekdays}
use travel_mcp.Mintrans.Register.{block_days_of, ReestrSchedStop, ReestrSched, ReestrDataset}
use travel_mcp.Mintrans.Trips.{flatten_trips}
use travel_mcp.Mintrans.Trips.Runs.{IsRunOf, flatten_trips-IsRunOf}
use travel_mcp.Mintrans.Trips.Week.{HasWeek, flatten_trips-HasWeek}
use travel_mcp.Mintrans.Trips.Counts.{
  Balances, own_frequency, own_runs, sum_of, flatten_trips-Balances,
}
use travel_mcp.Tests.Plans.{plain}

abbrev served : String → String → String → ReestrSchedStop
served id arr dep = record {
  stop = id;
  region = "54";
  winter = some (record { days = "пн, ср; сб"; dep = dep ∷ []; dwell = []; arr = arr ∷ [] });
  summer = none;
}

abbrev night_bus : ReestrSched
night_bus = record {
  route = "54-1";
  direction = "forward";
  service_id = pos 7;
  stops = served "a" "" "23:50" ∷ served "b" "0:40" "0:50" ∷ [];
}

abbrev register : ReestrDataset ℕ
register = record {
  source = "s";
  snapshot = "v";
  routes = [];
  stops = [];
  schedules = night_bus ∷ [];
}

parse_weekdays-format_weekdays_example :
    parse_weekdays (format_weekdays (1 ∷ 3 ∷ 6 ∷ [])) ≡ 1 ∷ 3 ∷ 6 ∷ []
parse_weekdays-format_weekdays_example =
    parse_weekdays-format_weekdays (1 ∷ 3 ∷ 6 ∷ []) (omega arith) (omega arith)

flatten_trips-IsRunOf_example : All (IsRunOf register) (flatten_trips register).out
flatten_trips-IsRunOf_example = flatten_trips-IsRunOf register

flatten_trips-HasWeek_example : All HasWeek (flatten_trips register).out
flatten_trips-HasWeek_example = flatten_trips-HasWeek register

flatten_trips-Balances_example :
    Balances (flatten_trips register)
    × ((flatten_trips register).stats.schedules ≡ length register.schedules)
    × ((flatten_trips register).stats.frequency_only ≡ sum_of own_frequency register.schedules)
    × ((flatten_trips register).stats.runs ≡ sum_of own_runs register.schedules)
flatten_trips-Balances_example = flatten_trips-Balances register

register_checks : check_schedules ("54-1" ∷ []) ("a" ∷ "b" ∷ []) [] [] register.schedules ≡ none
unfolding check_schedules check_sched_stops check_block check_dwells check_cells time_error and_then
    fail_if contains is_code is_digit is_empty positive unknown_service parse_block_days block_parts
    parse_day_list day_tokens tokens_of parse_day_token fields non_empty words_of split_on add_char
    trim_space trim_left trim_right is_space has has_prefix is_no_service_cell parse_cell_time
    match_cell match_time after_hours days_part cell_time lookup weekday_num add_day add_days
    has_day sort_days sort_by insert_by block_days_of ◌<>◌
register_checks = refl

check_schedules-known_example :
    All (IsGood ("54-1" ∷ []) ("a" ∷ "b" ∷ [])) register.schedules
    × All (KnownStops register ("54-1" ∷ []) ("a" ∷ "b" ∷ []) []) (flatten_trips register).out
check_schedules-known_example =
    check_schedules-known register ("54-1" ∷ []) ("a" ∷ "b" ∷ []) [] register_checks
