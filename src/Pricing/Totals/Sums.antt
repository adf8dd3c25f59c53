-- ===== src/Pricing/Totals/Sums.antt =====
-- The totals by currency.
use mathlib.Core.Option.{get_or}
use travel_mcp.Prelude.{String, ◌&&◌, List, [], ◌∷◌, Option, some, str_eq, if◌then◌else◌}
use travel_mcp.Model.{Leg}
use travel_mcp.Float.{Float}
use travel_mcp.Texts.{Texts}
use travel_mcp.Pricing.Currency.{currency_or_default}

module _ {F : Type 0} ⦃fl : Float F⦄ where
  module _ ⦃tx : Texts⦄ where
    -- The sum of the prices in one currency, in the order of the legs, from `acc` on; `none` if no leg
    -- has such a price.
    abbrev pub sum_in : String → String → Option F → List (Leg F) → Option F
    sum_in default_var k acc [] = acc
    sum_in default_var k acc (l ∷ legs) =
        sum_in default_var k
          (if l.cost.has && str_eq (currency_or_default default_var l.cost.currency) k
            then some (fl.add (get_or acc (fl.of_ℕ 0)) l.cost.amount)
            else acc)
          legs
