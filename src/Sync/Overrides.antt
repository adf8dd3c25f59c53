-- ===== src/Sync/Overrides.antt =====
-- internal/sync/overrides.go: values that a person sets, as a file. Package encoding/json is an interface.
pub mod Print
use Prim.Native.String.{compare}
use Prim.Native.Nat.{Ordering}
use travel_mcp.Prelude.{
  ℕ, ◌≡◌, String, Bool, true, false, ◌||◌, List, [], ◌∷◌, Option, none, some, ◌⊎◌, inl, inr, str_eq,
  if◌then◌else◌, contains, ℤ, pos, negsuc, zero, suc,
}
use travel_mcp.Prelude.Sort.{sort_by}
use travel_mcp.Strings.{◌<>◌}

-- `Value` is of any type.
pub record Override (A : Type 0) : Type 0 where
  pub entity_type : String
  pub system : String
  pub code : String
  pub field : String
  pub value : A
  pub actor_id : ℤ

pub data OverrideError : Type 0 where
  no_names : OverrideError
  no_actor : OverrideError
  bad_json : OverrideError
  key_twice : String → OverrideError

-- Lists of overrides as bytes, and read back.
pub record Json (A : Type 0) : Type 0 where
  pub marshal : List (Override A) → Option (List ℕ)
  pub unmarshal : List ℕ → Option (List (Override A))

unfoldable pub is_zero : ℤ → Bool
is_zero (pos zero) = true
is_zero (pos (suc n)) = false
is_zero (negsuc n) = false

-- `<` of texts.
unfoldable pub text_less : String → String → Bool
text_less a b = elim (compare a b) [ Ordering.lt ↦ true | _ ↦ false ]

module _ {A : Type 0} where
  unfoldable pub override_key : Override A → String
  override_key o = o.entity_type <> ("|" <> (o.system <> ("|" <> (o.code <> ("|" <> o.field)))))

  unfoldable pub validate : Override A → Option OverrideError
  validate o =
      if str_eq o.entity_type "" || str_eq o.system "" || str_eq o.code "" || str_eq o.field ""
      then some no_names
      else if is_zero o.actor_id
      then some no_actor
      else none

  unfoldable pub by_key : Override A → Override A → Bool
  by_key a b = text_less (override_key a) (override_key b)

  unfoldable pub validate_all : List (Override A) → Option OverrideError
  validate_all [] = none
  validate_all (o ∷ list) = elim (validate o) [ none ↦ validate_all list | some e ↦ some e ]

  unfoldable pub check_keys : List String → List (Override A) → Option OverrideError
  check_keys seen [] = none
  check_keys seen (o ∷ list) = elim (validate o) [
    | some e ↦ some e
    | none ↦
        if contains seen (override_key o)
        then some (key_twice (override_key o))
        else check_keys (override_key o ∷ seen) list
  ]

  module _ (json : Json A) where
    unfoldable pub marshal_overrides : List (Override A) → OverrideError ⊎ List ℕ
    marshal_overrides list = elim (validate_all (sort_by by_key list)) [
      | some e ↦ inl e
      | none ↦ elim (json.marshal (sort_by by_key list)) [
        | none ↦ inl bad_json
        | some bytes ↦ inr bytes
      ]
    ]

    unfoldable pub unmarshal_overrides : List ℕ → OverrideError ⊎ List (Override A)
    unmarshal_overrides bytes = elim (json.unmarshal bytes) [
      | none ↦ inl bad_json
      | some list ↦ elim (check_keys [] list) [ some e ↦ inl e | none ↦ inr list ]
    ]
