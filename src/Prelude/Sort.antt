-- ===== src/Prelude/Sort.antt =====
-- `sort.Slice` with an order on the elements, as an insertion sort.
use mathlib.Core.Logic.{inl, inr}
use mathlib.Core.Bool.{Bool}
use mathlib.Core.List.{List, [], ◌∷◌}
use travel_mcp.Prelude.Tests.{if◌then◌else◌, Bool-cases}
use travel_mcp.Prelude.Lists.{In, All}

module _ {A : Type 0} where
  unfoldable pub insert_by : (A → A → Bool) → A → List A → List A
  insert_by before a [] = a ∷ []
  insert_by before a (b ∷ bs) = if before b a then b ∷ insert_by before a bs else a ∷ b ∷ bs

  unfoldable pub sort_by : (A → A → Bool) → List A → List A
  sort_by before [] = []
  sort_by before (a ∷ xs) = insert_by before a (sort_by before xs)

  In-insert_by :
      (before : A → A → Bool) (x a : A) (bs : List A) → In x (insert_by before a bs) → In x (a ∷ bs)
  unfolding insert_by
  In-insert_by before x a [] m = m
  In-insert_by before x a (b ∷ bs) m = elim (Bool-cases (before b a)) [
    | inl y ↦ later (In-insert_by before x a bs) (rw y at m)
    | inr n ↦ rw n at m
  ]
    where
      swap : In x (a ∷ bs) → In x (a ∷ b ∷ bs)
      swap (inl e) = inl e
      swap (inr h) = inr (inr h)

      later :
          (In x (insert_by before a bs) → In x (a ∷ bs))
          → In x (b ∷ insert_by before a bs)
          → In x (a ∷ b ∷ bs)
      later ih (inl e) = inr (inl e)
      later ih (inr h) = swap (ih h)

  -- What a sorted list holds was in the list.
  pub In-sort_by :
      (before : A → A → Bool) (x : A) (xs : List A) → In x (sort_by before xs) → In x xs
  unfolding sort_by
  In-sort_by before x [] m = m
  In-sort_by before x (a ∷ xs) m =
      keep_going (In-sort_by before x xs) (In-insert_by before x a (sort_by before xs) m)
    where
      keep_going :
          (In x (sort_by before xs) → In x xs) → In x (a ∷ sort_by before xs) → In x (a ∷ xs)
      keep_going ih (inl e) = inl e
      keep_going ih (inr h) = inr (ih h)

  pub All-insert_by :
      (before : A → A → Bool) (P : A → Type 0) (a : A) (bs : List A)
      → P a
      → All P bs
      → All P (insert_by before a bs)
  unfolding insert_by
  All-insert_by before P a [] p h = (p, tt)
  All-insert_by before P a (b ∷ bs) p (q, h) = elim (Bool-cases (before b a)) [
    | inl y ↦ rw y (q, All-insert_by before P a bs p h)
    | inr n ↦ rw n (p, (q, h))
  ]

  pub All-sort_by :
      (before : A → A → Bool) (P : A → Type 0) (xs : List A) → All P xs → All P (sort_by before xs)
  unfolding sort_by
  All-sort_by before P [] h = tt
  All-sort_by before P (a ∷ xs) (p, h) =
      All-insert_by before P a (sort_by before xs) p (All-sort_by before P xs h)

  insert_by-In :
      (before : A → A → Bool) (x a : A) (bs : List A) → In x (a ∷ bs) → In x (insert_by before a bs)
  unfolding insert_by
  insert_by-In before x a [] m = m
  insert_by-In before x a (b ∷ bs) m = elim (Bool-cases (before b a)) [
    | inl y ↦ rw y (later (insert_by-In before x a bs) m)
    | inr n ↦ rw n m
  ]
    where
      later :
          (In x (a ∷ bs) → In x (insert_by before a bs))
          → In x (a ∷ b ∷ bs)
          → In x (b ∷ insert_by before a bs)
      later ih (inl e) = inr (ih (inl e))
      later ih (inr (inl e)) = inl e
      later ih (inr (inr h)) = inr (ih (inr h))

  -- Sorting loses nothing.
  pub sort_by-In :
      (before : A → A → Bool) (x : A) (xs : List A) → In x xs → In x (sort_by before xs)
  unfolding sort_by
  sort_by-In before x [] m = m
  sort_by-In before x (a ∷ xs) (inl e) = insert_by-In before x a (sort_by before xs) (inl e)
  sort_by-In before x (a ∷ xs) (inr m) =
      insert_by-In before x a (sort_by before xs) (inr (sort_by-In before x xs m))
