-- ===== src/Sync/Overrides/Print.antt =====
-- Overrides that are written and read back.
use mathlib.Core.Option.{none-ne-some}
use travel_mcp.Prelude.{
  ℕ, ◌≡◌, refl, sym, ap, ◌∙◌, String, false, List, [], ◌∷◌, Option, none, some, ◌⊎◌, inl, inr,
  str_eq, contains, All, arith, eq_iff, Bool-cases, Option-cases,
}
use travel_mcp.Prelude.Sort.{insert_by, sort_by, All-insert_by, All-sort_by}
use travel_mcp.Sync.Overrides.{
  Override, OverrideError, Json, override_key, validate, by_key, validate_all, check_keys,
  marshal_overrides, unmarshal_overrides,
}

-- The bytes of an answer, if it has them.
abbrev bytes_of : OverrideError ⊎ List ℕ → Option (List ℕ)
bytes_of (inl e) = none
bytes_of (inr bytes) = some bytes

module _ {A : Type 0} where
  -- No two of the overrides have one key.
  unfoldable pub KeysApart : List (Override A) → Type 0
  KeysApart [] = Unit
  KeysApart (o ∷ list) =
      All (λ p. str_eq (override_key o) (override_key p) ≡ false) list × KeysApart list

  apart_swap :
      (o p : Override A)
      → str_eq (override_key o) (override_key p) ≡ false
      → str_eq (override_key p) (override_key o) ≡ false
  apart_swap o p n =
      ground
        (arith, eq_iff (override_key o) (override_key p), eq_iff (override_key p) (override_key o))

  insert_by-KeysApart :
      (o : Override A) (list : List (Override A))
      → All (λ p. str_eq (override_key o) (override_key p) ≡ false) list
      → KeysApart list
      → KeysApart (insert_by by_key o list)
  unfolding insert_by KeysApart
  insert_by-KeysApart o [] h a = (tt, tt)
  insert_by-KeysApart o (p ∷ list) (n, h) (f, a) = elim (Bool-cases (by_key p o)) [
    | inl y ↦ rw y (
      All-insert_by by_key (λ q. str_eq (override_key p) (override_key q) ≡ false) o list
          (apart_swap o p n) f,
      insert_by-KeysApart o list h a,
    )
    | inr z ↦ rw z ((n, h), (f, a))
  ]

  sort_by-KeysApart : (list : List (Override A)) → KeysApart list → KeysApart (sort_by by_key list)
  unfolding sort_by KeysApart
  sort_by-KeysApart [] h = tt
  sort_by-KeysApart (o ∷ list) (f, h) =
      insert_by-KeysApart o (sort_by by_key list)
        (All-sort_by by_key (λ p. str_eq (override_key o) (override_key p) ≡ false) list f)
        (sort_by-KeysApart list h)

  check_keys-passes :
      (list : List (Override A)) (seen : List String)
      → validate_all list ≡ none
      → KeysApart list
      → All (λ o. contains seen (override_key o) ≡ false) list
      → check_keys seen list ≡ none
  unfolding validate_all check_keys KeysApart contains
  check_keys-passes [] seen v a f = refl
  check_keys-passes (o ∷ list) seen v (n, a) (fresh, f) = elim (Option-cases (validate o)) [
    | inr (e, bad) ↦ absurd (none-ne-some _ (sym (rw (bad, validate_all) at v)))
    | inl ok ↦
        rw (ok, fresh, check_keys)
          (check_keys-passes list (override_key o ∷ seen) (rw (ok, validate_all) at v) a
            (still list n f))
  ]
    where
      still :
          (ps : List (Override A))
          → All (λ p. str_eq (override_key o) (override_key p) ≡ false) ps
          → All (λ p. contains seen (override_key p) ≡ false) ps
          → All (λ p. contains (override_key o ∷ seen) (override_key p) ≡ false) ps
      still [] h k = tt
      still (p ∷ ps) (h, hs) (k, ks) = (rw h k, still ps hs ks)

  marshal_overrides_lem :
      (json : Json A) (list : List (Override A)) (bytes : List ℕ)
      → marshal_overrides json list ≡ inr bytes
      → (validate_all (sort_by by_key list) ≡ none)
        × (json.marshal (sort_by by_key list) ≡ some bytes)
  unfolding marshal_overrides
  marshal_overrides_lem json list bytes e =
      elim (Option-cases (validate_all (sort_by by_key list))) [
        | inr (x, bad) ↦ absurd (none-ne-some _ (ap bytes_of (rw (bad, marshal_overrides) at e)))
        | inl ok ↦ elim (Option-cases (json.marshal (sort_by by_key list))) [
          | inl n ↦ absurd (none-ne-some _ (ap bytes_of (rw (ok, n, marshal_overrides) at e)))
          | inr (b, m) ↦ (ok, m ∙ ap bytes_of (rw (ok, m, marshal_overrides) at e))
        ]
      ]

  -- Overrides with keys of their own, once they are written, are read back in the order of their keys,
  -- if the JSON package reads back what it writes of them.
  pub unmarshal_overrides-marshal_overrides :
      (json : Json A) (list : List (Override A)) (bytes : List ℕ)
      → (json.marshal (sort_by by_key list) ≡ some bytes
          → json.unmarshal bytes ≡ some (sort_by by_key list))
      → marshal_overrides json list ≡ inr bytes
      → KeysApart list
      → unmarshal_overrides json bytes ≡ inr (sort_by by_key list)
  unfolding unmarshal_overrides contains
  unmarshal_overrides-marshal_overrides json list bytes reads e apart =
      let (valid, written) = marshal_overrides_lem json list bytes e in
      let sorted = sort_by by_key list in
      let passes =
        check_keys-passes sorted [] valid (sort_by-KeysApart list apart) (unseen sorted) in
      rw (reads written, passes, unmarshal_overrides) refl
    where
      unseen : (l : List (Override A)) → All (λ o. contains [] (override_key o) ≡ false) l
      unseen [] = tt
      unseen (o ∷ l) = (refl, unseen l)
