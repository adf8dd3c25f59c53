-- ===== src/Pricing/Currency/Valid.antt =====
-- Which currencies leave the package.
use travel_mcp.Prelude.{
  String, true, ◌≡◌, refl, subst, inl, inr, arith, none, str_eq, contains, Bool-cases, Option-cases,
}
use travel_mcp.Texts.{Texts}
use travel_mcp.Pricing.Currency.{
  supported, normalize_currency, validate_currency, is_supported, default_currency,
  currency_or_default, configure,
}

module _ ⦃tx : Texts⦄ where
  -- The default, as the package reads it, is supported.
  abbrev pub IsValidDefault : String → Type 0
  IsValidDefault default_var = contains supported (default_currency default_var) ≡ true

  -- A price's currency is a supported one, whatever a fare says, if the default is.
  pub currency_or_default-supported :
      (default_var c : String)
      → ((s : String) → normalize_currency (normalize_currency s) ≡ normalize_currency s)
      → IsValidDefault default_var
      → contains supported (currency_or_default default_var c) ≡ true
  unfolding currency_or_default is_supported
  currency_or_default-supported default_var c idem valid = elim (Bool-cases (str_eq c "")) [
    | inl y ↦ rw y valid
    | inr n ↦ elim (Bool-cases (contains supported (normalize_currency (normalize_currency c)))) [
      | inl ok ↦ rw (n, ok) (subst (λ x. contains supported x ≡ true) (idem c) ok)
      | inr bad ↦ rw (n, bad) valid
    ]
  ]

  validate_currency-supported :
      (s : String) → validate_currency s ≡ none → contains supported (normalize_currency s) ≡ true
  unfolding validate_currency
  validate_currency-supported s e = ground arith

  normalized_default :
      (s : String)
      → normalize_currency (normalize_currency s) ≡ normalize_currency s
      → contains supported (normalize_currency s) ≡ true
      → IsValidDefault (normalize_currency s)
  unfolding default_currency contains supported
  normalized_default s idem ok = elim (Bool-cases (str_eq (normalize_currency s) "")) [
    | inl y ↦ rw y refl
    | inr n ↦ rw (n, idem) ok
  ]

  -- A configured default stays supported: what is no supported currency is refused.
  pub configure-IsValidDefault :
      (default_var requested : String)
      → ((s : String) → normalize_currency (normalize_currency s) ≡ normalize_currency s)
      → IsValidDefault default_var
      → IsValidDefault (configure default_var requested)
  unfolding configure
  configure-IsValidDefault default_var requested idem valid =
      elim (Bool-cases (str_eq requested "")) [
        | inl y ↦ rw y valid
        | inr n ↦ elim (Option-cases (validate_currency requested)) [
          | inl ok ↦
              rw (n, ok, configure)
                (normalized_default requested (idem requested)
                  (validate_currency-supported requested ok))
          | inr (e, bad) ↦ rw (n, bad, configure) valid
        ]
      ]
