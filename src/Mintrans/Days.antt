-- ===== src/Mintrans/Days.antt =====
-- internal/adapters/mintrans/days.go: cells of a timetable and days of the week, 0 for Sunday.
pub mod Sorted
pub mod Print
use Prim.Native.Char.{Char, code}
use travel_mcp.Prelude.{
  ℕ, zero, suc, ◌+◌, ◌-◌, ◌*◌, String, Bool, true, false, not, ◌&&◌, ◌||◌, List, [], ◌∷◌, ◌++◌, map,
  Option, none, some, ltb, leb, ◌==◌, str_eq, if◌then◌else◌, length, lookup, keep, ℤ, pos, negsuc,
}
use travel_mcp.Prelude.Sort.{sort_by}
use travel_mcp.Texts.{Texts}
use travel_mcp.Strings.{
  is_digit, trim_space, split_on, join_comma, itoa, fields, has_prefix, has, atoi,
}

unfoldable pub weekday_num : List (String × ℕ)
weekday_num = ("вс", 0) ∷ ("пн", 1) ∷ ("вт", 2) ∷ ("ср", 3) ∷ ("чт", 4) ∷ ("пт", 5) ∷ ("сб", 6) ∷ []

unfoldable pub has_day : List ℕ → ℕ → Bool
has_day [] n = false
has_day (d ∷ ds) n = d == n || has_day ds n

-- `if !seen[n] { seen[n] = true; out = append(out, n) }`
unfoldable pub add_day : List ℕ → ℕ → List ℕ
add_day out n = if has_day out n then out else out ++ (n ∷ [])

unfoldable pub add_days : List ℕ → List ℕ → List ℕ
add_days out [] = out
add_days out (n ∷ ns) = add_days (add_day out n) ns

unfoldable pub sort_days : List ℕ → List ℕ
sort_days = sort_by ltb

unfoldable pub intersect_days : List ℕ → List ℕ → List ℕ
intersect_days a b = sort_days (keep (has_day a) b)

unfoldable pub all_week : List ℕ
all_week = 0 ∷ 1 ∷ 2 ∷ 3 ∷ 4 ∷ 5 ∷ 6 ∷ []

-- The days of a week among the input, in order; `none` is `nil`, for no day and for all seven.
unfoldable pub norm_weekdays : List ℕ → Option (List ℕ)
norm_weekdays [] = none
norm_weekdays (d ∷ ds) =
    let out = sort_days (add_days [] (keep (λ n. leb n 6) (d ∷ ds))) in
    if length out == 7 then none else some out

unfoldable pub format_weekdays : List ℕ → String
format_weekdays days = join_comma (map itoa days)

-- The days among the parts; what is no number or no day of a week is passed over.
unfoldable pub days_among : List String → List ℕ
days_among [] = []
days_among (p ∷ parts) =
    let rest = days_among parts in
    elim (atoi (trim_space p)) [
      | none ↦ rest
      | some (negsuc n) ↦ rest
      | some (pos n) ↦ if leb n 6 then n ∷ rest else rest
    ]

unfoldable pub parse_weekdays : String → List ℕ
parse_weekdays s = sort_days (days_among (split_on 44 s))

-- The text up to a bracket that closes and ends the text.
unfoldable pub until_close : String → Option String
until_close String.[] = none
until_close (String.◌∷◌ c s) =
    let rest = until_close s in
    if code c == 41
    then (if str_eq s "" then some "" else none)
    else (elim rest [ none ↦ none | some t ↦ some (String.◌∷◌ c t) ])

-- `\s`
unfoldable pub is_ascii_space : Char → Bool
is_ascii_space c = code c == 9 || code c == 10 || code c == 12 || code c == 13 || code c == 32

unfoldable pub bracketed : String → Option String
bracketed String.[] = none
bracketed (String.◌∷◌ c s) =
    let rest = bracketed s in
    if is_ascii_space c then rest else if code c == 40 then until_close s else none

-- The hours, the minutes and the text after them, once one or two digits are read.
unfoldable pub after_hours : ℕ → String → Option (ℕ × ℕ × String)
after_hours h (String.◌∷◌ c (String.◌∷◌ d (String.◌∷◌ e s))) =
    if code c == 58 && is_digit d && is_digit e
    then some (h, (code d - 48) * 10 + (code e - 48), s)
    else none
after_hours h _ = none

-- `^(\d{1,2}):(\d{2})`
unfoldable pub match_time : String → Option (ℕ × ℕ × String)
match_time (String.◌∷◌ c (String.◌∷◌ d s)) =
    if is_digit c && is_digit d
    then after_hours ((code c - 48) * 10 + (code d - 48)) s
    else if is_digit c
    then after_hours (code c - 48) (String.◌∷◌ d s)
    else none
match_time _ = none

-- The rest of `cellTimeRe`: nothing, or the days in brackets.
unfoldable pub days_part : String → Option String
days_part String.[] = some ""
days_part (String.◌∷◌ c s) = bracketed (String.◌∷◌ c s)

-- The parts that `cellTimeRe` finds.
unfoldable pub match_cell : String → Option (ℕ × ℕ × String)
match_cell s = elim (match_time s) [
  | none ↦ none
  | some (h, m, rest) ↦ elim (days_part rest) [ none ↦ none | some days ↦ some (h, m, days) ]
]

pub record BlockDays : Type 0 where
  pub all : Bool
  pub is_none : Bool
  pub parity : Bool
  pub days : List ℕ

abbrev pub no_days : BlockDays
no_days = record { all = false; is_none = false; parity = false; days = [] }

unfoldable pub block_days_set : BlockDays → List ℕ
block_days_set bd = elim bd.days [ [] ↦ all_week | d ∷ ds ↦ d ∷ ds ]

module _ ⦃tx : Texts⦄ where
  open tx use {lower}

  unfoldable pub parse_day_token : String → Option ℕ
  parse_day_token tok = lookup (lower (trim_space tok)) weekday_num

  -- The tokens of the parts, with the days so far; `none` is the answer `false`.
  unfoldable pub day_tokens : List ℕ → List String → Option (List ℕ)
  day_tokens out [] = some out
  day_tokens out (tok ∷ toks) = elim (parse_day_token tok) [
    | none ↦ none
    | some n ↦ day_tokens (add_day out n) toks
  ]

  unfoldable pub tokens_of : List String → List String
  tokens_of [] = []
  tokens_of (part ∷ parts) = fields part ++ tokens_of parts

  unfoldable pub parse_day_list : String → Option (List ℕ)
  parse_day_list s = elim (day_tokens [] (tokens_of (split_on 44 s))) [
    | none ↦ none
    | some [] ↦ none
    | some (d ∷ ds) ↦ some (sort_days (d ∷ ds))
  ]

  unfoldable pub is_no_service_cell : String → Bool
  is_no_service_cell s = has_prefix (lower (trim_space s)) "нет"

  -- The minutes of a day, and the days if the cell has some; `none` is an error.
  unfoldable pub cell_time : ℕ → ℕ → String → Option (ℕ × Option (List ℕ))
  cell_time h m days =
      if ltb 23 h || ltb 59 m
      then none
      else if str_eq (trim_space days) ""
      then some (h * 60 + m, none)
      else (elim (parse_day_list days) [ none ↦ none | some ds ↦ some (h * 60 + m, some ds) ])

  unfoldable pub parse_cell_time : String → Option (ℕ × Option (List ℕ))
  parse_cell_time s = elim (match_cell (trim_space s)) [
    | none ↦ none
    | some (h, m, days) ↦ cell_time h m days
  ]

  -- The parts between semicolons, with the days so far.
  unfoldable pub block_parts : List ℕ → List String → Option BlockDays
  block_parts union [] = elim union [
    | [] ↦ none
    | d ∷ ds ↦
        some (record { all = false; is_none = false; parity = false; days = sort_days (d ∷ ds) })
  ]
  block_parts union (part ∷ parts) =
      let p = trim_space part in
      let rest = λ (u : List ℕ). block_parts u parts in
      if str_eq p ""
      then rest union
      else if str_eq p "ежедневно"
      then some (record no_days { all = true })
      else (elim (parse_day_list p) [ none ↦ none | some ds ↦ rest (add_days union ds) ])

  -- `none` is an error.
  unfoldable pub parse_block_days : String → Option BlockDays
  parse_block_days raw =
      let s = trim_space raw in
      let low = lower s in
      if str_eq s ""
      then some (record no_days { all = true })
      else if has_prefix low "нет"
      then some (record no_days { is_none = true })
      else if has low "через"
      then some (record no_days { parity = true })
      else block_parts [] (split_on 59 low)
