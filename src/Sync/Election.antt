-- ===== src/Sync/Election.antt =====
-- internal/sync/elect.go: the candidate that a field takes its value from, and the match of an old
-- record. An actor is the id of a user who set the value by hand.
pub mod Elected
use travel_mcp.Prelude.{
  ℕ, String, Bool, true, false, not, ◌&&◌, ◌||◌, List, [], ◌∷◌, Option, none, some, ltb, str_eq,
  if◌then◌else◌, keep,
}
use travel_mcp.Float.{Float}

pub record AttributeCandidate (F : Type 0) : Type 0 where
  pub field : String
  pub value : String
  pub source : String
  pub confidence : F
  pub observed_at : ℕ
  pub actor_id : Option ℕ
  pub origin : String

unfoldable pub is_skeleton_source : String → Bool
is_skeleton_source source = str_eq source "osm" || str_eq source "motis"

module _ {F : Type 0} where
  unfoldable pub first_by_hand : List (AttributeCandidate F) → Option (AttributeCandidate F)
  first_by_hand [] = none
  first_by_hand (c ∷ cands) = elim c.actor_id [ none ↦ first_by_hand cands | some actor ↦ some c ]

  unfoldable pub is_live : AttributeCandidate F → Bool
  is_live c = not (str_eq c.origin "seed")

  -- The live candidates, or all of them if none is.
  unfoldable pub pool : List (AttributeCandidate F) → List (AttributeCandidate F)
  pool cands = elim (keep is_live cands) [ [] ↦ cands | c ∷ live ↦ c ∷ live ]

module _ {F : Type 0} ⦃fl : Float F⦄ where
  open fl use {of_ℕ, div, lt, eq}
  open fl use {add as add_f}

  -- 0.15 more for a position from the map, and 1 at most.
  pub score_of : AttributeCandidate F → F
  score_of c =
      let s = add_f c.confidence (div (of_ℕ 15) (of_ℕ 100)) in
      if str_eq c.field "geom" && is_skeleton_source c.source
      then if lt (of_ℕ 1) s then of_ℕ 1 else s
      else c.confidence

  pub beats : AttributeCandidate F → AttributeCandidate F → Bool
  beats c best =
      lt (score_of best) (score_of c)
      || (eq (score_of c) (score_of best) && ltb best.observed_at c.observed_at)

  pub best_of : AttributeCandidate F → List (AttributeCandidate F) → AttributeCandidate F
  best_of best [] = best
  best_of best (c ∷ cands) = best_of (if beats c best then c else best) cands

  -- `none` is the answer `false`.
  pub elect_field : List (AttributeCandidate F) → Option (AttributeCandidate F)
  elect_field cands = elim (first_by_hand cands) [
    | some c ↦ some c
    | none ↦ elim (pool cands) [ [] ↦ none | c ∷ rest ↦ some (best_of c rest) ]
  ]

pub record LegacyMatchResult (F : Type 0) : Type 0 where
  pub matched : Bool
  pub score : F
  pub review_reason : String

module _ {F : Type 0} ⦃fl : Float F⦄ where
  pub match_legacy : F → F → LegacyMatchResult F
  match_legacy score threshold =
      if fl.le threshold score
      then record { matched = true; score = score; review_reason = "" }
      else record { matched = false; score = score; review_reason = "legacy_unmatched" }
