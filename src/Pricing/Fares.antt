-- ===== src/Pricing/Fares.antt =====
-- internal/pricing/pricing.go, `pricePerKm`, `estimatePrice` and `CostForLeg`. Where a stop is
-- missing, the leg's own coordinates stand in. A pointer to the network is not nil.
use travel_mcp.Prelude.{
  String, Bool, true, false, ◌&&◌, ◌||◌, List, [], ◌∷◌, Option, none, some, str_eq, if◌then◌else◌,
  lookup,
}
use travel_mcp.Model.{Coords, Stop, Network, FareAttribute, FareRule, Leg, Cost, coordinates}
use travel_mcp.Float.{Float}
use travel_mcp.Texts.{Texts}
use travel_mcp.Geo.{haversine}
use travel_mcp.Pricing.Currency.{currency_or_default}

-- `zone != nil && *zone != ""` asks that the stop lies in the zone.
pub in_zone : List (String × String) → Option String → String → Bool
in_zone zones none stop_id = true
in_zone zones (some zone) stop_id =
    if str_eq zone ""
    then true
    else elim (lookup stop_id zones) [ none ↦ false | some z ↦ str_eq z zone ]

module _ {F : Type 0} where
  -- The tests that pass a rule over.
  pub rule_applies : Network F → Leg F → FareRule → Bool
  rule_applies net leg r =
      (str_eq r.route_id "" || str_eq r.route_id leg.route_id)
      && in_zone net.stop_zones r.origin_zone leg.from.stop_id
      && in_zone net.stop_zones r.destination_zone leg.to.stop_id

  -- The fare of the first rule that applies and that has one.
  pub fare_of : Network F → Leg F → List FareRule → Option (FareAttribute F)
  fare_of net leg [] = none
  fare_of net leg (r ∷ rules) =
      let rest = fare_of net leg rules in
      if rule_applies net leg r
      then elim (lookup r.fare_id net.fare_attributes) [ none ↦ rest | some fare ↦ some fare ]
      else rest

  -- `len(net.FareAttributes) > 0` guards the search.
  pub fare_hit : Network F → Leg F → Option (FareAttribute F)
  fare_hit net leg = elim net.fare_attributes [ [] ↦ none | _ ∷ _ ↦ fare_of net leg net.fare_rules ]

  pub both : Option (Stop F) → Option (Stop F) → Leg F → Coords F × Coords F
  both (some a) (some b) leg = (coordinates a, coordinates b)
  both _ _ leg = (
    record { lat = leg.from.lat; lon = leg.from.lon },
    record { lat = leg.to.lat; lon = leg.to.lon },
  )

module _ {F : Type 0} ⦃fl : Float F⦄ where
  open fl use {of_ℕ, mul, div, lt, trunc}
  open fl use {add as add_f}

  -- 8.0, 3.5, 2.0 and 2.5
  pub price_per_km : String → F
  price_per_km mode =
      if str_eq mode "flight"
      then of_ℕ 8
      else if str_eq mode "rail"
      then div (of_ℕ 7) (of_ℕ 2)
      else if str_eq mode "tram" || str_eq mode "metro"
      then of_ℕ 2
      else div (of_ℕ 5) (of_ℕ 2)

  -- Rounded by adding a half and cutting off.
  pub estimate_price : Coords F → Coords F → String → F
  estimate_price from to mode =
      let d = haversine from to in
      let far = if lt d (of_ℕ 1) then of_ℕ 1 else d in
      let price = mul far (price_per_km mode) in
      let least = if lt price (of_ℕ 50) then of_ℕ 50 else price in
      of_ℕ (trunc (add_f least (div (of_ℕ 1) (of_ℕ 2))))

  module _ ⦃tx : Texts⦄ where
    pub cost_for_leg : String → Network F → Leg F → Cost F
    cost_for_leg default_var net leg =
        if str_eq leg.mode "walk"
        then record { has = false; amount = of_ℕ 0; currency = ""; basis = ""; method = "" }
        else elim (fare_hit net leg) [
          | some fare ↦ record {
            has = true;
            amount = fare.price;
            currency = currency_or_default default_var fare.currency;
            basis = "fare";
            method = "fare";
          }
          | none ↦
              let ends =
                both (lookup leg.from.stop_id net.stops) (lookup leg.to.stop_id net.stops) leg in
              record {
                has = true;
                amount = estimate_price ends.0 ends.1 leg.mode;
                currency = currency_or_default default_var "";
                basis = "estimate";
                method = "estimate";
              }
        ]
