-- ===== src/Geo.antt =====
-- internal/geo/geo.go: distances and walking times.
use travel_mcp.Prelude.{ℕ, ◌-◌, ◌^◌, ◌||◌, if◌then◌else◌}
use travel_mcp.Model.{Coords}
use travel_mcp.Float.{Float}

-- The greatest `int` of a 64-bit build.
abbrev pub max_int : ℕ
max_int = 2 ^ 63 - 1

module _ {F : Type 0} ⦃fl : Float F⦄ where
  open fl use {of_ℕ, sub, mul, div, lt, le, sin, cos, asin, sqrt, pi, is_inf, is_nan, ceil}
  open fl use {add as add_f}

  abbrev radians : F → F
  radians x = div (mul x pi) (of_ℕ 180)

  unfoldable pub haversine : Coords F → Coords F → F
  haversine a b =
      let lat1 = radians a.lat in
      let lat2 = radians b.lat in
      let d_lat = radians (sub b.lat a.lat) in
      let d_lon = radians (sub b.lon a.lon) in
      let s_lat = sin (div d_lat (of_ℕ 2)) in
      let s_lon = sin (div d_lon (of_ℕ 2)) in
      let h = add_f (mul s_lat s_lat) (mul (mul (mul (cos lat1) (cos lat2)) s_lon) s_lon) in
      mul (mul (of_ℕ 2) (of_ℕ 6371)) (asin (sqrt h))

  -- `distKm <= 0` is false of NaN, and the later test finds it.
  unfoldable pub walk_time_minutes : F → ℕ
  walk_time_minutes dist_km =
      let minutes = mul (div dist_km (of_ℕ 5)) (of_ℕ 60) in
      if le dist_km (of_ℕ 0)
      then 0
      else if lt (of_ℕ max_int) minutes || is_inf minutes || is_nan minutes
      then max_int
      else ceil minutes

  unfoldable pub walk_radius_km : ℕ → F
  walk_radius_km max_walk_minutes = div (mul (of_ℕ 5) (of_ℕ max_walk_minutes)) (of_ℕ 60)
