-- ===== src/Model/Walks/Cells.antt =====
-- The cells that stops are put in.
use mathlib.Core.Option.{some-injective, none-ne-some}
use travel_mcp.Prelude.{
  ◌≡◌, refl, sym, subst, ap, ◌∙◌, ◌⊎◌, inl, inr, String, Bool, true, false, List, [], ◌∷◌, ◌++◌,
  some, lookup, str_eq, eq_iff, if◌then◌else◌, In, In-append_left, In-append_right, arith,
  Bool-cases,
}
use travel_mcp.Float.{Float}
use travel_mcp.Model.{Stop}
use travel_mcp.Model.Walks.{Cell, same_cell, into_cell, ids_in, walk_cell, by_cell}

pub clash : {b : Bool} → b ≡ true → b ≡ false → ⊥
clash y n = ground arith

same_cell_eq : (c d : Cell) → same_cell c d ≡ true → c ≡ d
unfolding same_cell
same_cell_eq (i, j) (k, l) h = ground arith

same_cell_refl : (c : Cell) → same_cell c c ≡ true
unfolding same_cell
same_cell_refl (i, j) = ground arith

-- A stop stays in its cell, and a new one gets there.
In-into_cell :
    (x : String) (c d : Cell) (id : String) (cells : List (Cell × List String))
    → (In x (ids_in cells c) ⊎ ((x ≡ id) × (c ≡ d)))
    → In x (ids_in (into_cell d id cells) c)
unfolding into_cell ids_in
In-into_cell x c d id [] (inl m) = absurd m
In-into_cell x c d id [] (inr (e, f)) =
    let same : same_cell d c ≡ true =
      subst (λ k. same_cell d k ≡ true) (sym f) (same_cell_refl d) in
    rw same (inl e)
In-into_cell x c d id ((k, ids) ∷ cells) h = elim (Bool-cases (same_cell k d)) [
  | inl y ↦ elim (Bool-cases (same_cell k c)) [
    | inl z ↦ rw (y, z) (added z h)
    | inr n ↦ rw (y, n) (other y n h)
  ]
  | inr n ↦ elim (Bool-cases (same_cell k c)) [
    | inl z ↦ rw (n, z) (kept n z h)
    | inr m ↦ rw (n, m) (In-into_cell x c d id cells (rw m at h))
  ]
]
  where
    added :
        same_cell k c ≡ true
        → In x (if same_cell k c then ids else ids_in cells c) ⊎ ((x ≡ id) × (c ≡ d))
        → In x (ids ++ (id ∷ []))
    added z (inl m) = In-append_left x ids (id ∷ []) (rw z at m)
    added z (inr (e, f)) = In-append_right x ids (id ∷ []) (inl e)

    other :
        same_cell k d ≡ true
        → same_cell k c ≡ false
        → In x (if same_cell k c then ids else ids_in cells c) ⊎ ((x ≡ id) × (c ≡ d))
        → In x (ids_in cells c)
    other y n (inl m) = rw n at m
    other y n (inr (e, f)) = absurd (clash (subst (λ z. same_cell k z ≡ true) (sym f) y) n)

    kept :
        same_cell k d ≡ false
        → same_cell k c ≡ true
        → In x (if same_cell k c then ids else ids_in cells c) ⊎ ((x ≡ id) × (c ≡ d))
        → In x ids
    kept n z (inl m) = rw z at m
    kept n z (inr (e, f)) = absurd (clash (subst (λ y. same_cell k y ≡ true) f z) n)

-- The cell that a stop's id is in is a cell of the list.
pub ids_in-In :
    (x : String) (c : Cell) (cells : List (Cell × List String))
    → In x (ids_in cells c)
    → In (c, ids_in cells c) cells
unfolding ids_in
ids_in-In x c [] m = absurd m
ids_in-In x c ((k, ids) ∷ cells) m = elim (Bool-cases (same_cell k c)) [
  | inl y ↦ rw y (inl (ap (λ z. (z, ids)) (sym (same_cell_eq k c y))))
  | inr n ↦
      let later : ids_in ((k, ids) ∷ cells) c ≡ ids_in cells c = rw n refl in
      inr (subst (λ l. In (c, l) cells) (sym later) (ids_in-In x c cells (rw n at m)))
]

pub lookup-In :
    {A : Type 0} (k : String) (v : A) (m : List (String × A)) → lookup k m ≡ some v → In (k, v) m
unfolding lookup
lookup-In {A = A} k v [] e = absurd (none-ne-some _ e)
lookup-In {A = A} k v ((j, w) ∷ m) e = elim (Bool-cases (str_eq j k)) [
  | inl y ↦ inl (ap2 (sym ((eq_iff j k).0 y)) (sym (some-injective _ _ (rw y at e))))
  | inr n ↦ inr (lookup-In k v m (rw n at e))
]
  where
    ap2 : k ≡ j → v ≡ w → ◌≡◌ {A = String × A} (k, v) (j, w)
    ap2 p q i = (p i, q i)

module _ {F : Type 0} ⦃fl : Float F⦄ where
  by_cell-keeps :
      (provisional : String → Bool) (x : String) (c : Cell) (cells : List (Cell × List String))
      (stops : List (String × Stop F))
      → In x (ids_in cells c)
      → In x (ids_in (by_cell provisional cells stops) c)
  unfolding by_cell
  by_cell-keeps provisional x c cells [] m = m
  by_cell-keeps provisional x c cells ((id, s) ∷ stops) m = elim (Bool-cases (provisional id)) [
    | inl y ↦ rw y (by_cell-keeps provisional x c cells stops m)
    | inr n ↦ rw n (
        by_cell-keeps provisional x c (into_cell (walk_cell s) id cells) stops
          (In-into_cell x c (walk_cell s) id cells (inl m)))
  ]

  pub In-by_cell :
      (provisional : String → Bool) (x : String) (t : Stop F) (cells : List (Cell × List String))
      (stops : List (String × Stop F))
      → provisional x ≡ false
      → In (x, t) stops
      → In x (ids_in (by_cell provisional cells stops) (walk_cell t))
  unfolding by_cell
  In-by_cell provisional x t cells [] p m = absurd m
  In-by_cell provisional x t cells ((id, s) ∷ stops) p m = elim (Bool-cases (provisional id)) [
    | inl y ↦ rw y (hidden y (In-by_cell provisional x t cells stops p) m)
    | inr n ↦ rw n (shown (In-by_cell provisional x t (into_cell (walk_cell s) id cells) stops p) m)
  ]
    where
      hidden :
          provisional id ≡ true
          → (In (x, t) stops → In x (ids_in (by_cell provisional cells stops) (walk_cell t)))
          → In (x, t) ((id, s) ∷ stops)
          → In x (ids_in (by_cell provisional cells stops) (walk_cell t))
      hidden y ih (inl e) = absurd (clash (ap (λ (z : String × Stop F). provisional z.0) e ∙ y) p)
      hidden y ih (inr i) = ih i

      shown :
          (In (x, t) stops
            → In x (
                ids_in
                  (by_cell provisional (into_cell (walk_cell s) id cells) stops)
                  (walk_cell t)))
          → In (x, t) ((id, s) ∷ stops)
          → In x
              (ids_in (by_cell provisional (into_cell (walk_cell s) id cells) stops) (walk_cell t))
      shown ih (inl e) =
          by_cell-keeps provisional x (walk_cell t) (into_cell (walk_cell s) id cells) stops (
            In-into_cell x (walk_cell t) (walk_cell s) id cells (
              inr (
                ap (λ (z : String × Stop F). z.0) e,
                ap (λ (z : String × Stop F). walk_cell z.1) e,
              )))
      shown ih (inr i) = ih i
