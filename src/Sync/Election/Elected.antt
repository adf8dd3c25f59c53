-- ===== src/Sync/Election/Elected.antt =====
-- Which candidate is elected.
use travel_mcp.Prelude.{
  ℕ, ◌≡◌, refl, sym, ap, subst, ◌⊎◌, inl, inr, true, List, [], ◌∷◌, Option, none, some, keep, In,
  All, In-keep, In-keep_passes, Bool-cases, Option-cases,
}
use travel_mcp.Float.{Float}
use travel_mcp.Sync.Election.{
  AttributeCandidate, first_by_hand, is_live, pool, beats, best_of, elect_field,
}

module _ {F : Type 0} where
  -- A candidate of the list, set by hand.
  abbrev pub ByHand : List (AttributeCandidate F) → AttributeCandidate F → Type 0
  ByHand cands c = In c cands × ((actor : ℕ) × (c.actor_id ≡ some actor))

  -- A candidate of the list where none is set by hand; it is no seed, unless all are.
  abbrev pub Scored : List (AttributeCandidate F) → AttributeCandidate F → Type 0
  Scored cands c =
      In c cands
      × All (λ (x : AttributeCandidate F). x.actor_id ≡ none) cands
      × ((is_live c ≡ true) ⊎ (keep is_live cands ≡ []))

  -- What `first_by_hand` returns.
  abbrev First : List (AttributeCandidate F) → Option (AttributeCandidate F) → Type 0
  First cands none = All (λ (x : AttributeCandidate F). x.actor_id ≡ none) cands
  First cands (some c) = ByHand cands c

  First-skip :
      (c : AttributeCandidate F) (cands : List (AttributeCandidate F))
      (r : Option (AttributeCandidate F))
      → c.actor_id ≡ none
      → First cands r
      → First (c ∷ cands) r
  First-skip c cands none e all = (e, all)
  First-skip c cands (some x) e (m, by) = (inr m, by)

  first_by_hand-skip :
      (c : AttributeCandidate F) (cands : List (AttributeCandidate F))
      → c.actor_id ≡ none
      → first_by_hand (c ∷ cands) ≡ first_by_hand cands
  unfolding first_by_hand
  first_by_hand-skip c cands e = rw (e, first_by_hand)

  first_by_hand-take :
      (c : AttributeCandidate F) (cands : List (AttributeCandidate F)) (actor : ℕ)
      → c.actor_id ≡ some actor
      → first_by_hand (c ∷ cands) ≡ some c
  unfolding first_by_hand
  first_by_hand-take c cands actor e =
      ap
        (λ (o : Option ℕ). elim o as (λ _. Option (AttributeCandidate F)) [
          | none ↦ first_by_hand cands
          | some actor ↦ some c
        ])
        e

  first_by_hand-First : (cands : List (AttributeCandidate F)) → First cands (first_by_hand cands)
  unfolding first_by_hand
  first_by_hand-First [] = tt
  first_by_hand-First (c ∷ cands) = elim (Option-cases c.actor_id) [
    | inl e ↦
        subst (First (c ∷ cands)) (sym (first_by_hand-skip c cands e))
          (First-skip c cands _ e (first_by_hand-First cands))
    | inr (actor, e) ↦
        subst (First (c ∷ cands)) (sym (first_by_hand-take c cands actor e)) (inl refl, (actor, e))
  ]

module _ {F : Type 0} ⦃fl : Float F⦄ where
  In-skip :
      (x a c : AttributeCandidate F) (cands : List (AttributeCandidate F))
      → In x (a ∷ cands)
      → In x (a ∷ c ∷ cands)
  In-skip x a c cands (inl e) = inl e
  In-skip x a c cands (inr m) = inr (inr m)

  best_of-In :
      (cands : List (AttributeCandidate F)) (best : AttributeCandidate F)
      → In (best_of best cands) (best ∷ cands)
  unfolding best_of
  best_of-In [] best = inl refl
  best_of-In (c ∷ cands) best = elim (Bool-cases (beats c best)) [
    | inl y ↦
        let step : best_of best (c ∷ cands) ≡ best_of c cands = rw (y, best_of) in
        subst (λ x. In x (best ∷ c ∷ cands)) (sym step) (inr (best_of-In cands c))
    | inr n ↦
        let step : best_of best (c ∷ cands) ≡ best_of best cands = rw (n, best_of) in
        subst (λ x. In x (best ∷ c ∷ cands)) (sym step)
          (In-skip _ best c cands (best_of-In cands best))
  ]

  -- A value set by hand is elected if there is one; else one that is no seed, unless all are seeds.
  -- Without candidates none is elected.
  pub elect_field_lem :
      (cands : List (AttributeCandidate F))
      → ((cands ≡ []) × (elect_field cands ≡ none))
        ⊎ ((c : AttributeCandidate F) × (elect_field cands ≡ some c)
            × (ByHand cands c ⊎ Scored cands c))
  unfolding elect_field pool
  elect_field_lem cands = settle (first_by_hand cands) refl (first_by_hand-First cands)
    where
      Result : Type 0
      Result =
          ((cands ≡ []) × (elect_field cands ≡ none))
          ⊎ ((c : AttributeCandidate F) × (elect_field cands ≡ some c)
              × (ByHand cands c ⊎ Scored cands c))

      by_score :
          first_by_hand cands ≡ none
          → All (λ (x : AttributeCandidate F). x.actor_id ≡ none) cands
          → (live : List (AttributeCandidate F)) → keep is_live cands ≡ live
          → Result
      by_score e all (c ∷ live) k =
          let pooled : pool cands ≡ c ∷ live = rw (k, pool) in
          let m = best_of-In live c in
          let kept : In (best_of c live) (keep is_live cands) =
            subst (In (best_of c live)) (sym k) m in
          inr (
            best_of c live,
            rw (e, pooled, elect_field),
            inr (In-keep is_live _ cands kept, all, inl (In-keep_passes is_live _ cands kept)),
          )
      by_score e all [] k = by_all cands refl
        where
          by_all : (xs : List (AttributeCandidate F)) → cands ≡ xs → Result
          by_all [] same =
              let pooled : pool cands ≡ [] = rw (k, pool) same in
              inl (same, rw (e, pooled, elect_field))
          by_all (c ∷ xs) same =
              let pooled : pool cands ≡ c ∷ xs = rw (k, pool) same in
              inr (
                best_of c xs,
                rw (e, pooled, elect_field),
                inr (subst (In (best_of c xs)) (sym same) (best_of-In xs c), all, inr k),
              )

      settle :
          (r : Option (AttributeCandidate F)) → first_by_hand cands ≡ r → First cands r → Result
      settle none e all = by_score e all (keep is_live cands) refl
      settle (some c) e by = inr (c, rw (e, elect_field), inl by)
