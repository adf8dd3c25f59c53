-- ===== src/Planner/Choose.antt =====
-- internal/planner/planner.go and internal/geo/geo.go: the choice of the stops where a journey starts
-- and ends, among those within walking distance. `origin` is the set of stops where trips depart;
-- `none` is the nil map. Logging is left out.
pub mod Reach
use Prim.Native.String.{◌++◌ as ◌<>◌, compare as compare_text}
use Prim.Native.Nat.{Ordering}
use travel_mcp.Prelude.{
  ℕ, String, Bool, true, false, not, ◌&&◌, ◌||◌, List, [], ◌∷◌, map, Option, none, some, leb, ltb,
  str_eq, if◌then◌else◌, keep, contains, length, take, ◌+◌, ℤ, pos, negsuc,
}
use travel_mcp.Prelude.Sort.{sort_by}
use travel_mcp.Model.{Coords, Stop, Trip, coordinates}
use travel_mcp.Float.{Float}
use travel_mcp.Texts.{Texts}
use travel_mcp.Geo.{haversine, walk_radius_km}

-- The upper number under which the cell with these numbers is found.
pub looked_up : ℤ → ℤ → ℤ
looked_up (pos y) x = x
looked_up (negsuc y) (pos x) = negsuc x
looked_up (negsuc y) (negsuc x) = pos x

-- The first element that passes, as the loops that return it find it.
pub first_where : {A : Type 0} → (A → Bool) → List A → Option A
first_where p [] = none
first_where p (a ∷ xs) = if p a then some a else first_where p xs

-- The first answer that there is.
pub or_else : {A : Type 0} → Option A → Option A → Option A
or_else (some a) o = some a
or_else none o = o

abbrev pub text_before : String → String → Bool
text_before a b = elim (compare_text a b) [ Ordering.lt ↦ true | _ ↦ false ]

-- `if origin != nil` around two searches.
pub if_origin : {A : Type 0} → Option (List String) → Option A → Option A
if_origin none o = none
if_origin (some origin) o = o

-- `a - r <= b <= a + r`
pub apart_at_most : ℕ → ℤ → ℤ → Bool
apart_at_most r (pos a) (pos b) = leb a (b + r) && leb b (a + r)
apart_at_most r (negsuc a) (negsuc b) = leb a (b + r) && leb b (a + r)
apart_at_most r (pos a) (negsuc b) = leb (a + b + 1) r
apart_at_most r (negsuc a) (pos b) = leb (a + b + 1) r

module _ ⦃tx : Texts⦄ where
  open tx use {lower, trim_cut, fields, has, has_prefix, has_suffix, runes}

  pub is_village_word : String → Bool
  is_village_word tok =
      let clean = trim_cut tok " \t\"'«».,;:!*" in
      str_eq clean "оп"
      || str_eq clean "оп."
      || str_eq clean "о.п."
      || str_eq clean "о.п"
      || (has_prefix clean "оп"
          && leb (runes clean) 5
          && (str_eq clean "оп" || has_prefix clean "оп«" || has_prefix clean "оп\""))

  pub any : (String → Bool) → List String → Bool
  any p [] = false
  any p (w ∷ ws) = p w || any p ws

  pub is_village_name : String → Bool
  is_village_name name =
      let low = lower name in
      has low "остановочный пункт"
      || has low "ост. пункт"
      || has low "остановочный"
      || has low "поворот"
      || has low "пов."
      || any is_village_word (fields low)
      || has_prefix low "оп "
      || has low " оп "
      || has low " оп«"
      || has low "оп «"
      || has low " пов "
      || has_prefix low "пов "
      || has low "пов."

  pub token_match : String → String → Bool
  token_match low tok =
      str_eq low tok
      || has_suffix low (" " <> tok)
      || has_prefix low (tok <> " ")
      || has low (" " <> tok <> " ")

module _ {F : Type 0} ⦃fl : Float F⦄ ⦃tx : Texts⦄ where
  open fl use {of_ℕ, lt, le, eq, div, ceil, floor}
  open tx use {lower, fields, has}

  pub is_village_stop : Stop F → Bool
  is_village_stop s = is_village_name s.name

  pub is_hub : Stop F → Bool
  is_hub s = str_eq s.stop_type "hub"

  pub is_origin : Option (List String) → Stop F → Bool
  is_origin none s = false
  is_origin (some origin) s = contains origin s.id

  pub choose_best_stop : List (Stop F) → Option (List String) → Option (Stop F)
  choose_best_stop candidates origin =
      or_else (first_where (λ s. is_origin origin s && not (is_village_stop s)) candidates) (
        or_else (first_where (is_origin origin) candidates) (
          or_else (first_where (λ s. not (is_village_stop s)) candidates)
            (first_where (λ s. true) candidates)))

  pub choose_best_to_stop : List (Stop F) → Option (Stop F)
  choose_best_to_stop candidates =
      or_else (first_where (λ s. not (is_village_stop s)) candidates)
        (first_where (λ s. true) candidates)

  pub nearer : Coords F → Stop F → Stop F → Bool
  nearer p a b =
      let d1 = haversine p (coordinates a) in
      let d2 = haversine p (coordinates b) in if eq d1 d2 then text_before a.id b.id else lt d1 d2

  pub within : Coords F → ℕ → Stop F → Bool
  within p max_walk_minutes s = le (haversine p (coordinates s)) (walk_radius_km max_walk_minutes)

  -- A limit of 0 is none.
  pub nearest_stops : List (String × Stop F) → Coords F → ℕ → ℕ → List (Stop F)
  nearest_stops stops p max_walk_minutes limit =
      let res = sort_by (nearer p) (keep (within p max_walk_minutes) (map (λ e. e.1) stops)) in
      if ltb 0 limit && ltb limit (length res) then take limit res else res

  -- `SpatialIndex.Nearest`: the stops of the cells around the one of `p`, less those at (0, 0). The
  -- cells are of a hundredth of a degree. A stop's key has its cell's two numbers, of 32 bits each. The
  -- key that is looked up extends the sign of the lower one: where that is negative, the upper one has
  -- all its bits inverted, and stands for the cell mirrored from east to west.
  pub cell : F → ℤ
  cell x = floor (div x (div (of_ℕ 1) (of_ℕ 100)))

  pub radius_of : ℕ → F
  radius_of max_walk_minutes =
      if le (walk_radius_km max_walk_minutes) (of_ℕ 0)
      then walk_radius_km 30
      else walk_radius_km max_walk_minutes

  pub in_cells : Coords F → F → Stop F → Bool
  in_cells p max_km s =
      let r = ceil (div max_km (div (of_ℕ 111) (of_ℕ 100))) + 1 in
      apart_at_most r (cell p.lon) (looked_up (cell s.lat) (cell s.lon))
      && apart_at_most r (cell p.lat) (cell s.lat)

  pub index_nearest : List (String × Stop F) → Coords F → ℕ → List (Stop F)
  index_nearest stops p max_walk_minutes =
      let max_km = radius_of max_walk_minutes in
      let indexed =
        keep
          (λ s.
            not (eq s.lat (of_ℕ 0) && eq s.lon (of_ℕ 0))
            && in_cells p max_km s
            && le (haversine p (coordinates s)) max_km)
          (map (λ e. e.1) stops) in
      sort_by (nearer p) indexed

  -- The loop of `nearestWhere`, with the best distance and the best stop so far.
  pub nearest_loop :
      Coords F → (Stop F → Bool) → F → Option (Stop F) → List (Stop F) → Option (Stop F)
  nearest_loop p pred best_dist best [] = best
  nearest_loop p pred best_dist best (s ∷ stops) =
      let d = haversine p (coordinates s) in
      let closer = pred s && lt d best_dist in
      nearest_loop p pred (if closer then d else best_dist) (if closer then some s else best) stops

  pub nearest_where : List (Stop F) → Coords F → (Stop F → Bool) → Option (Stop F)
  nearest_where candidates p pred = nearest_loop p pred (of_ℕ 1000000000) none candidates

  pub nearest_of : List (Stop F) → Coords F → Option (Stop F)
  nearest_of candidates p = nearest_where candidates p λ s. true

  pub instead : List (Stop F) → Option (List String) → Option (Stop F)
  instead near origin = or_else (first_where (λ s. is_hub s && not (is_village_stop s)) near) (
      or_else (first_where is_hub near) (
        or_else
          (if_origin origin (first_where (λ s. is_origin origin s && not (is_village_stop s)) near))
          (or_else (if_origin origin (first_where (is_origin origin) near))
            (first_where (λ s. not (is_village_stop s)) near))))

  pub pick_best :
      List (Stop F) → Option (List String) → Coords F → ℕ → List (String × Stop F) → Option (Stop F)
  pick_best candidates origin p max_walk_minutes stops = elim (nearest_of candidates p) [
    | none ↦ none
    | some name_match ↦
        or_else (nearest_where candidates p λ s. is_hub s && not (is_village_stop s)) (
          or_else
            (if_origin origin
              (nearest_where candidates p λ s. is_origin origin s && not (is_village_stop s)))
            (or_else (if_origin origin (nearest_where candidates p (is_origin origin))) (
              or_else (nearest_where candidates p is_hub) (
                or_else
                  (if is_village_stop name_match || not (is_hub name_match)
                    then instead (nearest_stops stops p max_walk_minutes 0) origin
                    else none)
                  (some name_match)))))
  ]

  pub find_stop_by_place :
      List (String × Stop F) → String → Coords F → ℕ → Option (List String) → Option (Stop F)
  find_stop_by_place stops place p max_walk_minutes origin =
      let low = lower place in
      let tokens = fields low in
      let near = keep (within p max_walk_minutes) (map (λ e. e.1) stops) in
      let by_token = λ (s : Stop F). any (token_match (lower s.name)) tokens in
      let by_substring = λ (s : Stop F). not (by_token s) && has (lower s.name) low in
      or_else (pick_best (keep by_token near) origin p max_walk_minutes stops)
        (pick_best (keep by_substring near) origin p max_walk_minutes stops)
