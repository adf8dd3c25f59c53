-- ===== src/Planner/Plan/Arrival/First.antt =====
-- The first of a falling list of departures that arrives in time is the latest.
use travel_mcp.Prelude.{
  ℕ, ◌≤◌, ◌<◌, ◌≡◌, refl, sym, subst, ◌∙◌, ◌⊎◌, inl, inr, arith, true, false, List, [], ◌∷◌, some,
  last?, In, All, All-In, Bool-cases, Option-cases, if◌then◌else◌,
}
use travel_mcp.Model.{Leg}
use travel_mcp.Planner.Result.{Result, PlanError, ok, err, no_route, aborts}
use travel_mcp.Planner.Plan.Arrival.{in_time, first_in_time}

-- No number is less than one after it.
abbrev pub Descending : List ℕ → Type 0
Descending [] = Unit
Descending (x ∷ xs) = All (λ y. y ≤ x) xs × Descending xs

module _ {F : Type 0} where
  -- The last of the legs arrives by `latest`.
  abbrev pub ArrivesBy : ℕ → List (Leg F) → Type 0
  ArrivesBy latest legs = (leg : Leg F) × (last? legs ≡ some leg) × (leg.arrival ≤ latest)

  -- What the search gives does not arrive in time, or it gives nothing.
  abbrev pub Misses : ℕ → Result (List (Leg F)) → Type 0
  Misses latest r = (legs : List (Leg F)) → r ≡ ok legs → ¬ ArrivesBy latest legs

  -- Of the departures `At`, the answer is at the latest whose search arrives in time, with what that
  -- search gives; or no search does, and there is no route; or a search aborts, and its error is passed
  -- on.
  abbrev pub IsLatest :
      (ℕ → Result (List (Leg F))) → ℕ → (ℕ → Type 0) → Result (List (Leg F) × ℕ) → Type 0
  IsLatest run latest At (ok (legs, dep)) =
      At dep
      × (run dep ≡ ok legs)
      × ArrivesBy latest legs
      × ((d : ℕ) → At d → dep < d → Misses latest (run d))
  IsLatest run latest At (err e) =
      ((e ≡ no_route) × ((d : ℕ) → At d → Misses latest (run d)))
      ⊎ ((aborts e ≡ true) × (d : ℕ) × At d × (run d ≡ err e))

  pub IsLatest-iff :
      (run : ℕ → Result (List (Leg F))) (latest : ℕ) (A B : ℕ → Type 0)
      (r : Result (List (Leg F) × ℕ))
      → ((d : ℕ) → A d → B d)
      → ((d : ℕ) → B d → A d)
      → IsLatest run latest A r
      → IsLatest run latest B r
  IsLatest-iff run latest A B (ok (legs, dep)) to from (at, found, by, missed) =
      (to dep at, found, by, λ d b. missed d (from d b))
  IsLatest-iff run latest A B (err e) to from (inl (same, missed)) =
      inl (same, λ d b. missed d (from d b))
  IsLatest-iff run latest A B (err e) to from (inr (stop, d, at, found)) =
      inr (stop, d, to d at, found)

  in_time-ArrivesBy :
      (latest : ℕ) (legs : List (Leg F)) → in_time latest legs ≡ true → ArrivesBy latest legs
  unfolding in_time
  in_time-ArrivesBy latest legs h = elim (Option-cases (last? legs)) [
    | inl e ↦ absurd (ground arith)
    | inr (leg, e) ↦ (leg, e, ground arith)
  ]

  ArrivesBy-in_time :
      (latest : ℕ) (legs : List (Leg F)) → ArrivesBy latest legs → in_time latest legs ≡ true
  unfolding in_time
  ArrivesBy-in_time latest legs (leg, e, le) = rw (e, in_time) (ground arith)

  module _ (run : ℕ → Result (List (Leg F))) (latest : ℕ) where
    ok_ne_err : (legs : List (Leg F)) (e : PlanError) → ¬ (ok legs ≡ err e)
    ok_ne_err legs e bad = ground arith

    late :
        (legs other : List (Leg F))
        → in_time latest legs ≡ false
        → ok legs ≡ ok other
        → ¬ ArrivesBy latest other
    late legs other n same by =
        let same_legs : other ≡ legs = ground arith in
        let early = ArrivesBy-in_time latest legs (subst (ArrivesBy latest) same_legs by) in
        ground arith

    -- A departure that misses, before the others.
    after_miss :
        (d : ℕ) (ds : List ℕ) (r : Result (List (Leg F) × ℕ))
        → Misses latest (run d)
        → IsLatest run latest (λ x. In x ds) r
        → IsLatest run latest (λ x. In x (d ∷ ds)) r
    after_miss d ds (ok (legs, dep)) miss (at, found, by, missed) = (inr at, found, by, still)
      where
        still : (x : ℕ) → In x (d ∷ ds) → dep < x → Misses latest (run x)
        still x (inl e) lt = subst (λ z. Misses latest (run z)) (sym e) miss
        still x (inr m) lt = missed x m lt
    after_miss d ds (err e) miss (inl (same, missed)) = inl (same, still)
      where
        still : (x : ℕ) → In x (d ∷ ds) → Misses latest (run x)
        still x (inl eq) = subst (λ z. Misses latest (run z)) (sym eq) miss
        still x (inr m) = missed x m
    after_miss d ds (err e) miss (inr (stop, x, at, found)) = inr (stop, x, inr at, found)

    none_later :
        (d : ℕ) (ds : List ℕ)
        → All (λ y. y ≤ d) ds
        → (x : ℕ) → In x (d ∷ ds)
        → d < x
        → Misses latest (run x)
    none_later d ds h x (inl e) lt = absurd (omega arith)
    none_later d ds h x (inr m) lt = let le = All-In (λ y. y ≤ d) x ds h m in absurd (omega arith)

    pub first_in_time-IsLatest :
        (ds : List ℕ)
        → Descending ds
        → IsLatest run latest (λ x. In x ds) (first_in_time run latest ds)
    unfolding first_in_time
    first_in_time-IsLatest [] h = inl (refl, λ d m. absurd m)
    first_in_time-IsLatest (d ∷ ds) (h, hs) = by_run (run d) refl (first_in_time-IsLatest ds hs)
      where
        by_run :
            (r : Result (List (Leg F)))
            → run d ≡ r
            → IsLatest run latest (λ x. In x ds) (first_in_time run latest ds)
            → IsLatest run latest
                (λ x. In x (d ∷ ds))
                (elim r as (λ _. Result (List (Leg F) × ℕ)) [
                  | err e ↦ if aborts e then err e else first_in_time run latest ds
                  | ok legs ↦
                      if in_time latest legs then ok (legs, d) else first_in_time run latest ds
                ])
        by_run (err e) same ih = elim (Bool-cases (aborts e)) [
          | inl y ↦ rw y (inr (y, d, inl refl, same))
          | inr n ↦ rw n (
              after_miss d ds (first_in_time run latest ds)
                (λ legs bad. absurd (ok_ne_err legs e (sym bad ∙ same))) ih)
        ]
        by_run (ok legs) same ih = elim (Bool-cases (in_time latest legs)) [
          | inl y ↦ rw y (inl refl, same, in_time-ArrivesBy latest legs y, none_later d ds h)
          | inr n ↦ rw n (
              after_miss d ds (first_in_time run latest ds)
                (λ other bad by. late legs other n (sym same ∙ bad) by) ih)
        ]
