-- ===== src/Pricing/Totals.antt =====
-- internal/pricing/pricing.go, `EnrichJourney`, `TotalPriceByCurrency` and `TotalPrice`. The map of
-- totals is the list of its entries, in some order of iteration.
pub mod Sums
use travel_mcp.Prelude.{
  ℕ, String, Bool, true, false, List, [], ◌∷◌, map, Option, none, some, last?, str_eq,
  if◌then◌else◌,
}
use travel_mcp.Model.{Network, Leg, Cost, Journey}
use travel_mcp.Float.{Float}
use travel_mcp.Texts.{Texts}
use travel_mcp.Pricing.Currency.{currency_or_default}
use travel_mcp.Pricing.Fares.{cost_for_leg}

module _ {F : Type 0} ⦃fl : Float F⦄ where
  open fl use {of_ℕ}
  open fl use {add as add_f}

  -- `totals[cur] += amount`, where a missing total reads as 0.
  pub add_total : String → F → List (String × F) → List (String × F)
  add_total cur x [] = (cur, add_f (of_ℕ 0) x) ∷ []
  add_total cur x ((c, t) ∷ totals) =
      if str_eq c cur then (c, add_f t x) ∷ totals else (c, t) ∷ add_total cur x totals

  module _ ⦃tx : Texts⦄ where
    pub priced_leg : String → Network F → Leg F → Leg F
    priced_leg default_var net leg =
        let c = cost_for_leg default_var net leg in
        record leg {
          cost =
              if c.has
              then record c { currency = currency_or_default default_var c.currency }
              else c;
        }

    -- The journeys among the alternatives are priced too, but not theirs.
    pub enrich_journey :
        {A : Type 0} → String → Network F → Journey F (Journey F A) → Journey F (Journey F A)
    enrich_journey default_var net j = record j {
      legs = map (priced_leg default_var net) j.legs;
      alternatives =
          map
            (λ (alt : Journey F _). record alt { legs = map (priced_leg default_var net) alt.legs })
            j.alternatives;
    }

    pub totals_loop : String → List (Leg F) → List (String × F) → List (String × F)
    totals_loop default_var [] totals = totals
    totals_loop default_var (l ∷ legs) totals = totals_loop default_var legs (
        if l.cost.has
        then add_total (currency_or_default default_var l.cost.currency) l.cost.amount totals
        else totals)

    pub total_price_by_currency : {A : Type 0} → String → Journey F A → List (String × F)
    total_price_by_currency default_var j = totals_loop default_var j.legs []

    -- The last entry, of one or of several; `none` is the answer `false`.
    pub total_price : {A : Type 0} → String → Journey F A → Option (String × F)
    total_price default_var j = last? (total_price_by_currency default_var j)
