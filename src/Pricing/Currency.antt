-- ===== src/Pricing/Currency.antt =====
-- internal/pricing/currency.go. The variable `DefaultCurrencyVar` is an argument, `default_var`.
pub mod Valid
use travel_mcp.Prelude.{
  String, Bool, true, false, not, List, [], ◌∷◌, Option, none, some, ◌==◌, str_eq, if◌then◌else◌,
  contains,
}
use travel_mcp.Texts.{Texts}

unfoldable pub supported : List String
supported = "RUB" ∷ "USD" ∷ "EUR" ∷ "KZT" ∷ "BYN" ∷ "CNY" ∷ []

pub data CurrencyError : Type 0 where
  currency_empty : CurrencyError
  not_three_letters : CurrencyError
  unsupported : CurrencyError

module _ ⦃tx : Texts⦄ where
  open tx use {upper, trim_space, bytes}

  unfoldable pub normalize_currency : String → String
  normalize_currency s = upper (trim_space s)

  -- `none` is the nil error.
  pub validate_currency : String → Option CurrencyError
  validate_currency s =
      let c = normalize_currency s in
      if str_eq c ""
      then some currency_empty
      else if not (bytes c == 3)
      then some not_three_letters
      else if not (contains supported c)
      then some unsupported
      else none

  pub is_supported : String → Bool
  is_supported c = contains supported (normalize_currency c)

  unfoldable pub default_currency : String → String
  default_currency default_var =
      if not (str_eq default_var "") then normalize_currency default_var else "RUB"

  pub currency_or_default : String → String → String
  currency_or_default default_var c =
      if str_eq c ""
      then default_currency default_var
      else if not (is_supported (normalize_currency c))
      then default_currency default_var
      else normalize_currency c

  -- The value of `DefaultCurrencyVar` after the call.
  pub configure : String → String → String
  configure default_var requested =
      if str_eq requested "" then default_var else elim (validate_currency requested) [
        | none ↦ normalize_currency requested
        | some e ↦ default_var
      ]
