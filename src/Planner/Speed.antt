-- ===== src/Planner/Speed.antt =====
-- internal/planner/planner.go and internal/model/model.go: the filter on implausible speeds.
use travel_mcp.Prelude.{
  ◌-◌, String, Bool, false, ◌&&◌, ◌||◌, Option, some, ℕ, leb, str_eq, if◌then◌else◌, lookup,
}
use travel_mcp.Model.{Stop, Connection, Network, coordinates}
use travel_mcp.Float.{Float}
use travel_mcp.Geo.{haversine}

module _ {F : Type 0} ⦃fl : Float F⦄ where
  open fl use {of_ℕ, div, lt, eq}

  -- `MaxSpeed`, in km/h.
  unfoldable pub max_speed : String → F
  max_speed mode =
      if str_eq mode "flight" then of_ℕ 1000 else if str_eq mode "rail" then of_ℕ 250 else of_ℕ 120

  abbrev pub at_origin : Stop F → Bool
  at_origin s = eq s.lat (of_ℕ 0) && eq s.lon (of_ℕ 0)

  -- `dist / (dur / 60)` over the limit of the mode, between two times in seconds.
  unfoldable pub is_implausible_leg : Option (Stop F) → Option (Stop F) → ℕ → ℕ → String → Bool
  is_implausible_leg (some from_s) (some to_s) dep arr mode =
      let dist = haversine (coordinates from_s) (coordinates to_s) in
      let dur = div (of_ℕ (arr - dep)) (of_ℕ 60) in
      if at_origin from_s || at_origin to_s
      then false
      else if leb arr dep || lt dist (of_ℕ 5)
      then false
      else lt (max_speed mode) (div dist (div dur (of_ℕ 60)))
  is_implausible_leg _ _ dep arr mode = false

  unfoldable pub is_implausible_connection : Connection → Network F → Bool
  is_implausible_connection c net =
      is_implausible_leg (lookup c.from net.stops) (lookup c.to net.stops) c.departure c.arrival
        c.mode
