-- ===== src/Mintrans/Contract.antt =====
-- internal/adapters/mintrans/contract.go: the checks of a data set's routes, stops and schedules. `none`
-- is `nil`; an error stands for the place that returns it, without its text.
pub mod Known
use Prim.Native.Char.{Char, code}
use travel_mcp.Prelude.{
  ℕ, zero, suc, String, Bool, true, false, not, ◌&&◌, ◌||◌, List, [], ◌∷◌, Option, none, some, ◌==◌,
  str_eq, if◌then◌else◌, contains, ℤ, pos, negsuc,
}
use travel_mcp.Strings.{◌<>◌, is_digit}
use travel_mcp.Float.{Float}
use travel_mcp.Texts.{Texts}
use travel_mcp.Mintrans.Days.{is_no_service_cell, parse_cell_time, parse_block_days}
use travel_mcp.Mintrans.Register.{
  AnyValue, null, number, other, ReestrRoute, ReestrStop, ReestrBlock, ReestrSchedStop, ReestrSched,
  block_days_of,
}

pub data ContractError : Type 0 where
  route_reg : ContractError
  route_twice : ContractError
  route_name : ContractError
  route_order : ContractError
  stop_id : ContractError
  stop_twice : ContractError
  stop_name : ContractError
  stop_region : ContractError
  stop_op_reg : ContractError
  stop_lat : ContractError
  stop_lon : ContractError
  sched_route : ContractError
  sched_route_unknown : ContractError
  sched_direction : ContractError
  sched_twice : ContractError
  sched_service : ContractError
  sched_service_unknown : ContractError
  sched_stops : ContractError
  sched_stop : ContractError
  sched_stop_unknown : ContractError
  sched_region : ContractError
  block_days : ContractError
  block_time : ContractError

unfoldable pub fail_if : Bool → ContractError → Option ContractError
fail_if b e = if b then some e else none

-- The first error of two checks.
unfoldable pub and_then : Option ContractError → Option ContractError → Option ContractError
and_then none next = next
and_then (some e) next = some e

unfoldable pub all_digits : String → Bool
all_digits String.[] = true
all_digits (String.◌∷◌ c s) = is_digit c && all_digits s

-- `\d+$`
unfoldable pub some_digits : String → Bool
some_digits s = not (str_eq s "") && all_digits s

-- `\d*(?:/\d+)?$`
unfoldable pub reg_end : String → Bool
reg_end String.[] = true
reg_end (String.◌∷◌ c s) =
    let rest = reg_end s in if code c == 47 then some_digits s else is_digit c && rest

-- `\d+(?:/\d+)?$`
unfoldable pub reg_number : String → Bool
reg_number String.[] = false
reg_number (String.◌∷◌ c s) = is_digit c && reg_end s

-- `\d{2}\.` and the rest.
unfoldable pub two_digits_dot : (String → Bool) → String → Bool
two_digits_dot rest (String.◌∷◌ c (String.◌∷◌ d (String.◌∷◌ e s))) =
    is_digit c && (is_digit d && (code e == 46 && rest s))
two_digits_dot rest _ = false

-- `reestrRegRe`
unfoldable pub is_reg : String → Bool
is_reg s = two_digits_dot (two_digits_dot reg_number) s

-- `reestrCodeRe`
unfoldable pub is_code : String → Bool
is_code (String.◌∷◌ c (String.◌∷◌ d String.[])) = is_digit c && is_digit d
is_code _ = false

-- `:\d{2}$`, or the end.
unfoldable pub dwell_end : String → Bool
dwell_end String.[] = true
dwell_end (String.◌∷◌ c (String.◌∷◌ d (String.◌∷◌ e String.[]))) =
    code c == 58 && (is_digit d && is_digit e)
dwell_end _ = false

-- Up to so many more digits, then the end of a dwell.
unfoldable pub dwell_digits : ℕ → String → Bool
dwell_digits zero s = dwell_end s
dwell_digits (suc n) String.[] = true
dwell_digits (suc n) (String.◌∷◌ c s) =
    let rest = dwell_digits n s in if is_digit c then rest else dwell_end (String.◌∷◌ c s)

-- `reestrDwellRe`
unfoldable pub is_dwell : String → Bool
is_dwell String.[] = false
is_dwell (String.◌∷◌ c s) = is_digit c && dwell_digits 2 s

unfoldable pub bad_order : AnyValue → Bool
bad_order null = false
bad_order number = false
bad_order other = true

unfoldable pub check_routes : List String → List ReestrRoute → Option ContractError
check_routes seen [] = none
check_routes seen (r ∷ routes) = and_then (fail_if (not (is_reg r.reg)) route_reg) (
    and_then (fail_if (contains seen r.reg) route_twice) (
      and_then (fail_if (str_eq r.name "") route_name)
        (and_then (fail_if (bad_order r.order) route_order) (check_routes (r.reg ∷ seen) routes))))

unfoldable pub int_eq : ℤ → ℤ → Bool
int_eq (pos a) (pos b) = a == b
int_eq (negsuc a) (negsuc b) = a == b
int_eq a b = false

unfoldable pub positive : ℤ → Bool
positive (pos (suc n)) = true
positive z = false

unfoldable pub has_service : List ℤ → ℤ → Bool
has_service [] z = false
has_service (s ∷ services) z = int_eq s z || has_service services z

-- With no services at all, every one is taken.
unfoldable pub unknown_service : List ℤ → ℤ → Bool
unknown_service [] z = false
unknown_service (s ∷ services) z = not (has_service (s ∷ services) z)

unfoldable pub is_empty : List ReestrSchedStop → Bool
is_empty [] = true
is_empty (s ∷ stops) = false

module _ {F : Type 0} ⦃fl : Float F⦄ where
  open fl use {of_ℕ, sub, lt}

  -- Outside of the numbers from `-n` to `n`.
  unfoldable pub beyond : ℕ → Option F → Bool
  beyond n none = false
  beyond n (some x) = lt x (sub (of_ℕ 0) (of_ℕ n)) || lt (of_ℕ n) x

  unfoldable pub check_stops : List String → List (ReestrStop F) → Option ContractError
  check_stops seen [] = none
  check_stops seen (st ∷ stops) = and_then (fail_if (str_eq st.id "") stop_id) (
      and_then (fail_if (contains seen st.id) stop_twice) (
        and_then (fail_if (str_eq st.name "") stop_name) (
          and_then (fail_if (not (is_code st.region)) stop_region) (
            and_then (fail_if (str_eq st.op_reg "") stop_op_reg) (
              and_then (fail_if (beyond 90 st.lat) stop_lat) (
                and_then (fail_if (beyond 180 st.lon) stop_lon)
                  (check_stops (st.id ∷ seen) stops)))))))

module _ ⦃tx : Texts⦄ where
  unfoldable pub time_error : String → Option ContractError
  time_error t = elim (parse_cell_time t) [ none ↦ some block_time | some m ↦ none ]

  unfoldable pub check_cells : List String → Option ContractError
  check_cells [] = none
  check_cells (t ∷ ts) =
      and_then (if str_eq t "" || is_no_service_cell t then none else time_error t) (check_cells ts)

  unfoldable pub check_dwells : List String → Option ContractError
  check_dwells [] = none
  check_dwells (t ∷ ts) =
      and_then (if str_eq t "" || is_dwell t then none else time_error t) (check_dwells ts)

  unfoldable pub check_block : Option ReestrBlock → Option ContractError
  check_block none = none
  check_block (some b) =
      and_then
        (elim (parse_block_days (block_days_of (some b))) [
          | none ↦ some block_days
          | some bd ↦ none
        ])
        (and_then (check_cells b.dep) (and_then (check_cells b.arr) (check_dwells b.dwell)))

  unfoldable pub check_sched_stops : List String → List ReestrSchedStop → Option ContractError
  check_sched_stops stop_set [] = none
  check_sched_stops stop_set (s ∷ stops) = and_then (fail_if (str_eq s.stop "") sched_stop) (
      and_then (fail_if (not (contains stop_set s.stop)) sched_stop_unknown) (
        and_then (fail_if (not (is_code s.region)) sched_region) (
          and_then (check_block s.winter)
            (and_then (check_block s.summer) (check_sched_stops stop_set stops)))))

  unfoldable pub check_schedules :
      List String → List String → List ℤ → List String → List ReestrSched → Option ContractError
  check_schedules route_set stop_set services seen [] = none
  check_schedules route_set stop_set services seen (sc ∷ scheds) =
      let k = sc.route <> ("|" <> sc.direction) in
      and_then (fail_if (str_eq sc.route "") sched_route) (
        and_then (fail_if (not (contains route_set sc.route)) sched_route_unknown) (
          and_then
            (fail_if (not (str_eq sc.direction "forward") && not (str_eq sc.direction "backward"))
              sched_direction)
            (and_then (fail_if (contains seen k) sched_twice) (
              and_then (fail_if (not (positive sc.service_id)) sched_service) (
                and_then (fail_if (unknown_service services sc.service_id) sched_service_unknown) (
                  and_then (fail_if (is_empty sc.stops) sched_stops) (
                    and_then (check_sched_stops stop_set sc.stops)
                      (check_schedules route_set stop_set services (k ∷ seen) scheds))))))))
