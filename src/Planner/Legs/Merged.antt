-- ===== src/Planner/Legs/Merged.antt =====
-- The connections of one trip that follow each other make one leg.
use travel_mcp.Prelude.{
  ℕ, ◌≡◌, refl, sym, ◌∙◌, String, false, List, [], ◌∷◌, ◌++◌, Option, some, none, arith, eq_iff,
}
use travel_mcp.Model.{Stop, Connection, Leg, LegPoint}
use travel_mcp.Float.{Float}
use travel_mcp.Planner.Legs.{end_leg, continues, ride_leg, walk_leg}

-- No two legs after each other, from one of the trip `t` on, are of one trip that has an id.
abbrev pub Merged : {F : Type 0} → String → List (Leg F) → Type 0
Merged t [] = Unit
Merged t (leg ∷ legs) = (t ≡ leg.trip_id → t ≡ "") × Merged leg.trip_id legs

abbrev last_trip : {F : Type 0} → String → List (Leg F) → String
last_trip t [] = t
last_trip t (leg ∷ legs) = last_trip leg.trip_id legs

module _ {F : Type 0} where
  last_trip-snoc :
      (t : String) (legs : List (Leg F)) (leg : Leg F)
      → last_trip t (legs ++ (leg ∷ [])) ≡ leg.trip_id
  last_trip-snoc t [] leg = refl
  last_trip-snoc t (l ∷ legs) leg = last_trip-snoc l.trip_id legs leg

  Merged-snoc :
      (t : String) (legs : List (Leg F)) (leg : Leg F)
      → Merged t legs
      → (last_trip t legs ≡ leg.trip_id → last_trip t legs ≡ "")
      → Merged t (legs ++ (leg ∷ []))
  Merged-snoc t [] leg h apart = (apart, tt)
  Merged-snoc t (l ∷ legs) leg (p, h) apart = (p, Merged-snoc l.trip_id legs leg h apart)

  Merged-change_last :
      (t : String) (legs : List (Leg F)) (leg : Leg F) (to : LegPoint F) (ar : ℕ)
      → Merged t (legs ++ (leg ∷ []))
      → Merged t (legs ++ (record leg { to = to; arrival = ar } ∷ []))
  Merged-change_last t [] leg to ar (p, _) = (p, tt)
  Merged-change_last t (l ∷ legs) leg to ar (p, h) =
      (p, Merged-change_last l.trip_id legs leg to ar h)

  -- So far; what comes after the finished legs alone is no part of a trip.
  abbrev pub Apart : List (Leg F) → Option (Leg F) → Type 0
  Apart legs cur = Merged "" (end_leg legs cur) × (cur ≡ none → last_trip "" legs ≡ "")

  pub Apart-start : Apart [] none
  unfolding end_leg
  Apart-start = (tt, λ _. refl)

  pub extend-Apart :
      (legs : List (Leg F)) (leg : Leg F) (to : LegPoint F) (ar : ℕ)
      → Apart legs (some leg)
      → Apart legs (some (record leg { to = to; arrival = ar }))
  unfolding end_leg
  extend-Apart legs leg to ar (h, _) =
      (Merged-change_last "" legs leg to ar h, λ e. absurd (ground arith))

module _ {F : Type 0} ⦃fl : Float F⦄ where
  no_trip_at_end :
      (legs : List (Leg F)) (cur : Option (Leg F)) (c : Connection)
      → continues cur c ≡ false
      → Apart legs cur
      → last_trip "" (end_leg legs cur) ≡ c.trip_id
      → last_trip "" (end_leg legs cur) ≡ ""
  unfolding continues end_leg
  no_trip_at_end legs none c n (_, free) e = free refl
  no_trip_at_end legs (some leg) c n h e =
      let own = last_trip-snoc "" legs leg in
      let same = (eq_iff leg.trip_id c.trip_id).1 (sym own ∙ e) in
      own ∙ (eq_iff leg.trip_id "").0 (ground arith)

  pub fresh-Apart :
      (legs : List (Leg F)) (cur : Option (Leg F)) (c : Connection) (from to : Stop F)
      → continues cur c ≡ false
      → Apart legs cur
      → Apart (end_leg legs cur) (some (ride_leg c from to))
  unfolding end_leg ride_leg
  fresh-Apart legs cur c from to n h = (
    Merged-snoc "" (end_leg legs cur) (ride_leg c from to) h.0 (no_trip_at_end legs cur c n h),
    λ e. absurd (ground arith),
  )

  pub walk-Apart :
      (legs : List (Leg F)) (cur : Option (Leg F)) (from to : Stop F) (dep ar : ℕ)
      → Apart legs cur
      → Apart (end_leg legs cur ++ (walk_leg from to dep ar ∷ [])) none
  unfolding end_leg walk_leg
  walk-Apart legs cur from to dep ar h = (
    Merged-snoc "" (end_leg legs cur) (walk_leg from to dep ar) h.0 (λ e. e),
    λ _. last_trip-snoc "" (end_leg legs cur) (walk_leg from to dep ar),
  )
