-- ===== src/Prelude/Lists.antt =====
-- Lists over the native numbers.
use Prim.Native.Nat.{ℕ, zero, suc, ◌+◌}
use mathlib.Core.Path.{◌≡◌, refl, sym, ap, ◌∙◌, subst}
use mathlib.Core.Logic.{◌⊎◌, inl, inr}
use mathlib.Core.Bool.{Bool, true, false}
use mathlib.Core.Option.{Option, none, some}
use mathlib.Core.List.{List, [], ◌∷◌, ◌++◌}
use native.Mathlib.Omega.{arith}
use travel_mcp.Prelude.Tests.{if◌then◌else◌, Bool-cases}

module _ {ℓ} {A : Type ℓ} where
  abbrev pub length : List A → ℕ
  length [] = 0
  length (x ∷ xs) = suc (length xs)

  pub length-append : (xs ys : List A) → length (xs ++ ys) ≡ length xs + length ys
  length-append [] ys = omega arith
  length-append (x ∷ xs) ys = omega (arith, length-append xs ys)

  abbrev pub take : ℕ → List A → List A
  take zero xs = []
  take (suc n) [] = []
  take (suc n) (x ∷ xs) = x ∷ take n xs

  -- Universal quantification by recursion on the list.
  abbrev pub All {κ} : (A → Type κ) → List A → Type κ
  All P [] = Unit
  All P (x ∷ xs) = P x × All P xs

  pub All-append {κ} : (P : A → Type κ) (xs ys : List A) → All P xs → All P ys → All P (xs ++ ys)
  All-append P [] ys _ q = q
  All-append P (x ∷ xs) ys (p, ps) q = (p, All-append P xs ys ps q)

  -- The items that pass a test, in their order.
  unfoldable pub keep : (A → Bool) → List A → List A
  keep p [] = []
  keep p (x ∷ xs) = if p x then x ∷ keep p xs else keep p xs

module _ {A : Type 0} where
  -- Membership by recursion on the list.
  abbrev pub In : A → List A → Type 0
  In a [] = ⊥
  In a (x ∷ xs) = (a ≡ x) ⊎ In a xs

  pub All-In {κ} : (P : A → Type κ) (a : A) (xs : List A) → All P xs → In a xs → P a
  All-In P a [] h m = absurd m
  All-In P a (x ∷ xs) (p, ps) (inl e) = subst P e' p
    where
      e' : x ≡ a
      e' = sym e
  All-In P a (x ∷ xs) (p, ps) (inr m) = All-In P a xs ps m

  -- The last item, if there is one.
  abbrev pub last? : List A → Option A
  last? [] = none
  last? (x ∷ []) = some x
  last? (x ∷ y ∷ r) = last? (y ∷ r)

  pub All-of_In {κ} :
      (P : A → Type κ) (xs ys : List A) → ((a : A) → In a ys → In a xs) → All P xs → All P ys
  All-of_In P xs [] sub h = tt
  All-of_In P xs (y ∷ ys) sub h =
      (All-In P y xs h (sub y (inl refl)), All-of_In P xs ys (λ a m. sub a (inr m)) h)

  pub In-append_left : (a : A) (xs ys : List A) → In a xs → In a (xs ++ ys)
  In-append_left a [] ys h = absurd h
  In-append_left a (x ∷ xs) ys (inl e) = inl e
  In-append_left a (x ∷ xs) ys (inr h) = inr (In-append_left a xs ys h)

  pub In-append_right : (a : A) (xs ys : List A) → In a ys → In a (xs ++ ys)
  In-append_right a [] ys h = h
  In-append_right a (x ∷ xs) ys h = inr (In-append_right a xs ys h)

  pub In-keep : (p : A → Bool) (a : A) (xs : List A) → In a (keep p xs) → In a xs
  unfolding keep
  In-keep p a [] h = h
  In-keep p a (x ∷ xs) h = kept (p x) (In-keep p a xs) h
    where
      kept :
          (b : Bool)
          → (In a (keep p xs) → In a xs)
          → In a (if b then x ∷ keep p xs else keep p xs)
          → In a (x ∷ xs)
      kept true ih (inl e) = inl e
      kept true ih (inr m) = inr (ih m)
      kept false ih m = inr (ih m)

  pub In-keep_passes : (p : A → Bool) (a : A) (xs : List A) → In a (keep p xs) → p a ≡ true
  unfolding keep
  In-keep_passes p a [] h = absurd h
  In-keep_passes p a (x ∷ xs) h = elim (Bool-cases (p x)) [
    | inl y ↦ first (In-keep_passes p a xs) y (rw y at h)
    | inr n ↦ In-keep_passes p a xs (rw n at h)
  ]
    where
      first : (In a (keep p xs) → p a ≡ true) → p x ≡ true → In a (x ∷ keep p xs) → p a ≡ true
      first ih y (inl e) = ap p e ∙ y
      first ih y (inr m) = ih m
