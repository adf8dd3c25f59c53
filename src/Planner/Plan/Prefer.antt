-- ===== src/Planner/Plan/Prefer.antt =====
-- The end of `planWithStops`: with a preference for fewer transfers, a better alternative changes places
-- with the journey.
use travel_mcp.Prelude.{
  ℕ, zero, suc, ◌≤◌, ◌==◌, ◌≡◌, refl, sym, subst, inl, inr, arith, String, true, ◌&&◌, ◌||◌, List,
  [], ◌∷◌, map, Option, none, some, ltb, if◌then◌else◌, take, All, Bool-cases,
}
use travel_mcp.Model.{Journey}
use travel_mcp.Planner.Plan.Alternatives.{bare, by_transfers}

-- The list without the element at an index.
pub without : {B : Type 0} → ℕ → List B → List B
without i [] = []
without zero (x ∷ xs) = xs
without (suc i) (x ∷ xs) = x ∷ without i xs

module _ {F A : Type 0} where
  -- The loop over the alternatives: the best number of transfers and the alternative that has it, with
  -- its index.
  pub best_loop :
      ℕ → ℕ → ℕ → Option (ℕ × Journey F A) → List (Journey F A) → Option (ℕ × Journey F A)
  best_loop ar i fewest best [] = best
  best_loop ar i fewest best (alt ∷ alts) =
      let better = ltb alt.transfers fewest || (alt.transfers == fewest && ltb alt.arrival ar) in
      best_loop ar (suc i) (if better then alt.transfers else fewest)
        (if better then some (i, alt) else best) alts

  pub prefer : String → Journey F (Journey F A) → Journey F (Journey F (Journey F A))
  prefer preference j =
      let unchanged : Journey F (Journey F (Journey F A)) = record {
        from = j.from;
        to = j.to;
        departure = j.departure;
        arrival = j.arrival;
        legs = j.legs;
        transfers = j.transfers;
        alternatives = map (λ (a : Journey F A). bare a) j.alternatives;
      } in
      if by_transfers preference
      then elim (best_loop j.arrival 0 j.transfers none j.alternatives) [
        | none ↦ unchanged
        | some (i, best) ↦ record {
          from = best.from;
          to = best.to;
          departure = best.departure;
          arrival = best.arrival;
          legs = best.legs;
          transfers = best.transfers;
          alternatives = take 2 (j ∷ map (λ (a : Journey F A). bare a) (without i j.alternatives));
        }
      ]
      else unchanged

  -- The number of transfers of the best so far, or `n`.
  abbrev transfers_of : ℕ → Option (ℕ × Journey F A) → ℕ
  transfers_of n none = n
  transfers_of n (some best) = best.1.transfers

  -- `m` is no more than `fewest`, and no more than the transfers of any of the journeys.
  abbrev Fewest : ℕ → List (Journey F A) → ℕ → Type 0
  Fewest fewest alts m = (m ≤ fewest) × All (λ (a : Journey F A). m ≤ a.transfers) alts

  best_loop-Fewest :
      (alts : List (Journey F A)) (ar i fewest n : ℕ) (best : Option (ℕ × Journey F A))
      → transfers_of n best ≡ fewest
      → Fewest fewest alts (transfers_of n (best_loop ar i fewest best alts))
  unfolding best_loop
  best_loop-Fewest [] ar i fewest n best e = (omega arith, tt)
  best_loop-Fewest (alt ∷ alts) ar i fewest n best e =
      elim (Bool-cases
        (ltb alt.transfers fewest || (alt.transfers == fewest && ltb alt.arrival ar))) [
          | inl y ↦
              let (least, all) =
                best_loop-Fewest alts ar (suc i) alt.transfers n (some (i, alt)) refl in
              let no_more : alt.transfers ≤ fewest = ground arith in
              let step : best_loop ar i fewest best (alt ∷ alts)
                  ≡ best_loop ar (suc i) alt.transfers (some (i, alt)) alts =
                rw (y, best_loop) in
              subst (λ r. Fewest fewest (alt ∷ alts) (transfers_of n r)) (sym step)
                (omega arith, (least, all))
          | inr w ↦
              let (least, all) = best_loop-Fewest alts ar (suc i) fewest n best e in
              let no_fewer : fewest ≤ alt.transfers = ground arith in
              let step : best_loop ar i fewest best (alt ∷ alts)
                  ≡ best_loop ar (suc i) fewest best alts =
                rw (w, best_loop) in
              subst (λ r. Fewest fewest (alt ∷ alts) (transfers_of n r)) (sym step)
                (least, (omega arith, all))
        ]

  -- Under the preference for fewer transfers, the journey that is answered with has no more transfers
  -- than the one that the search found, and than any of its alternatives.
  pub prefer-fewest :
      (preference : String) (j : Journey F (Journey F A))
      → by_transfers preference ≡ true
      → ((prefer preference j).transfers ≤ j.transfers)
        × All (λ (a : Journey F A). (prefer preference j).transfers ≤ a.transfers) j.alternatives
  unfolding prefer
  prefer-fewest preference j on =
      settle (best_loop j.arrival 0 j.transfers none j.alternatives) refl
        (best_loop-Fewest j.alternatives j.arrival 0 j.transfers j.transfers none refl)
    where
      settle :
          (r : Option (ℕ × Journey F A))
          → best_loop j.arrival 0 j.transfers none j.alternatives ≡ r
          → Fewest j.transfers j.alternatives
              (transfers_of j.transfers (best_loop j.arrival 0 j.transfers none j.alternatives))
          → Fewest j.transfers j.alternatives (prefer preference j).transfers
      settle none e h = rw (on, e, prefer) (rw e at h)
      settle (some b) e h = rw (on, e, prefer) (rw e at h)
