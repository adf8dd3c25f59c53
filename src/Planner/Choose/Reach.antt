-- ===== src/Planner/Choose/Reach.antt =====
-- Where the stops that are chosen lie.
use travel_mcp.Prelude.{
  ℕ, ◌≡◌, refl, inl, inr, String, Bool, true, false, not, ◌&&◌, ◌||◌, List, [], ◌∷◌, map, Option,
  none, some, if◌then◌else◌, keep, In, In-keep, In-keep_passes, Bool-cases,
}
use travel_mcp.Prelude.Sort.{In-sort_by}
use travel_mcp.Model.{Coords, Stop, coordinates}
use travel_mcp.Float.{Float}
use travel_mcp.Texts.{Texts}
use travel_mcp.Geo.{haversine}
use travel_mcp.Planner.Choose.{
  first_where, or_else, is_village_stop, is_hub, is_origin, within, nearer, nearest_stops,
  nearest_loop, nearest_where, nearest_of, if_origin, instead, pick_best, find_stop_by_place,
}

-- An answer, if there is one, is such that `P`.
abbrev pub Answer {ℓ} : {A : Type 0} → (A → Type ℓ) → Option A → Type ℓ
Answer P none = Unit
Answer P (some a) = P a

or_else-Answer :
    {A : Type 0} (P : A → Type 0) (o p : Option A)
    → Answer P o
    → Answer P p
    → Answer P (or_else o p)
unfolding or_else
or_else-Answer P none p h k = k
or_else-Answer P (some a) p h k = h

first_where-Answer :
    {A : Type 0} (P : A → Type 0) (p : A → Bool) (xs : List A)
    → ((a : A) → In a xs → P a)
    → Answer P (first_where p xs)
unfolding first_where
first_where-Answer P p [] h = tt
first_where-Answer P p (a ∷ xs) h = elim (Bool-cases (p a)) [
  | inl y ↦ rw y (h a (inl refl))
  | inr n ↦ rw n (first_where-Answer P p xs λ b m. h b (inr m))
]

if_origin-Answer :
    {A : Type 0} (P : A → Type 0) (origin : Option (List String)) (o : Option A)
    → Answer P o
    → Answer P (if_origin origin o)
unfolding if_origin
if_origin-Answer P none o h = tt
if_origin-Answer P (some s) o h = h

module _ {F : Type 0} ⦃fl : Float F⦄ ⦃tx : Texts⦄ where
  pick-Answer :
      (P : Stop F → Type 0) (s : Stop F) (best : Option (Stop F)) (c : Bool)
      → P s
      → Answer P best
      → Answer P (if c then some s else best)
  pick-Answer P s best true h b = h
  pick-Answer P s best false h b = b

  nearest_loop-Answer :
      (P : Stop F → Type 0) (p : Coords F) (pred : Stop F → Bool) (xs : List (Stop F)) (d : F)
      (best : Option (Stop F))
      → Answer P best
      → ((s : Stop F) → In s xs → P s)
      → Answer P (nearest_loop p pred d best xs)
  unfolding nearest_loop
  nearest_loop-Answer P p pred [] d best b h = b
  nearest_loop-Answer P p pred (s ∷ xs) d best b h =
      nearest_loop-Answer P p pred xs _ _
        (pick-Answer P s best (pred s && fl.lt (haversine p (coordinates s)) d) (h s (inl refl)) b)
        λ a m. h a (inr m)

  nearest_where-Answer :
      (P : Stop F → Type 0) (xs : List (Stop F)) (p : Coords F) (pred : Stop F → Bool)
      → ((s : Stop F) → In s xs → P s)
      → Answer P (nearest_where xs p pred)
  unfolding nearest_where
  nearest_where-Answer P xs p pred h = nearest_loop-Answer P p pred xs _ none tt h

  instead-Answer :
      (P : Stop F → Type 0) (near : List (Stop F)) (origin : Option (List String))
      → ((s : Stop F) → In s near → P s)
      → Answer P (instead near origin)
  unfolding instead
  instead-Answer P near origin h = or_else-Answer P _ _ (first_where-Answer P _ near h) (
      or_else-Answer P _ _ (first_where-Answer P _ near h) (
        or_else-Answer P _ _ (if_origin-Answer P origin _ (first_where-Answer P _ near h)) (
          or_else-Answer P _ _ (if_origin-Answer P origin _ (first_where-Answer P _ near h))
            (first_where-Answer P _ near h))))

  -- A stop of the network within the walking radius around `p`.
  abbrev pub IsReachable : List (String × Stop F) → Coords F → ℕ → Stop F → Type 0
  IsReachable stops p max_walk s =
      In s (map (λ (e : String × Stop F). e.1) stops) × (within p max_walk s ≡ true)

  near-IsReachable :
      (stops : List (String × Stop F)) (p : Coords F) (max_walk : ℕ) (s : Stop F)
      → In s (keep (within p max_walk) (map (λ (e : String × Stop F). e.1) stops))
      → IsReachable stops p max_walk s
  near-IsReachable stops p max_walk s m =
      (In-keep _ s _ m, In-keep_passes _ s (map (λ (e : String × Stop F). e.1) stops) m)

  nearest_stops-IsReachable :
      (stops : List (String × Stop F)) (p : Coords F) (max_walk : ℕ) (s : Stop F)
      → In s (nearest_stops stops p max_walk 0)
      → IsReachable stops p max_walk s
  unfolding nearest_stops
  nearest_stops-IsReachable stops p max_walk s m =
      near-IsReachable stops p max_walk s (In-sort_by (nearer p) s _ m)

  pick_best-IsReachable :
      (cands : List (Stop F)) (origin : Option (List String)) (p : Coords F) (max_walk : ℕ)
      (stops : List (String × Stop F))
      → ((s : Stop F) → In s cands → IsReachable stops p max_walk s)
      → Answer (IsReachable stops p max_walk) (pick_best cands origin p max_walk stops)
  unfolding pick_best nearest_of
  pick_best-IsReachable cands origin p max_walk stops h =
      settle (nearest_of cands p) (nearest_where-Answer _ cands p _ h)
    where
      P : Stop F → Type 0
      P = IsReachable stops p max_walk

      near : (pred : Stop F → Bool) → Answer P (nearest_where cands p pred)
      near pred = nearest_where-Answer P cands p pred h

      settle :
          (o : Option (Stop F))
          → Answer P o
          → Answer P (elim o as (λ _. Option (Stop F)) [
            | none ↦ none
            | some name_match ↦
                or_else (nearest_where cands p λ s. is_hub s && not (is_village_stop s)) (
                  or_else
                    (if_origin origin
                      (nearest_where cands p λ s. is_origin origin s && not (is_village_stop s)))
                    (or_else (if_origin origin (nearest_where cands p (is_origin origin))) (
                      or_else (nearest_where cands p is_hub) (
                        or_else
                          (if is_village_stop name_match || not (is_hub name_match)
                            then instead (nearest_stops stops p max_walk 0) origin
                            else none)
                          (some name_match)))))
          ])
      settle none a = tt
      settle (some m) a = or_else-Answer P _ _ (near _) (
          or_else-Answer P _ _ (if_origin-Answer P origin _ (near _)) (
            or_else-Answer P _ _ (if_origin-Answer P origin _ (near _)) (
              or_else-Answer P _ _ (near _)
                (or_else-Answer P _ _ (replaced (is_village_stop m || not (is_hub m))) a))))
        where
          replaced :
              (b : Bool)
              → Answer P (if b then instead (nearest_stops stops p max_walk 0) origin else none)
          replaced true =
              instead-Answer P _ origin λ s k. nearest_stops-IsReachable stops p max_walk s k
          replaced false = tt

  -- A stop that is found by the place's name is a stop of the network within walking distance of the
  -- place.
  pub find_stop_by_place-IsReachable :
      (stops : List (String × Stop F)) (place : String) (p : Coords F) (max_walk : ℕ)
      (origin : Option (List String))
      → Answer (IsReachable stops p max_walk) (find_stop_by_place stops place p max_walk origin)
  unfolding find_stop_by_place
  find_stop_by_place-IsReachable stops place p max_walk origin =
      or_else-Answer _ _ _ (by_name _) (by_name _)
    where
      by_name :
          (pred : Stop F → Bool)
          → Answer (IsReachable stops p max_walk) (
              pick_best
                (keep pred (keep (within p max_walk) (map (λ (e : String × Stop F). e.1) stops)))
                origin
                p
                max_walk
                stops)
      by_name pred =
          pick_best-IsReachable _ origin p max_walk stops
            λ s m. near-IsReachable stops p max_walk s (In-keep pred s _ m)
