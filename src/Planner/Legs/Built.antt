-- ===== src/Planner/Legs/Built.antt =====
-- The legs that are built from a route.
use mathlib.Core.Bool.{false≢true}
use mathlib.Core.Option
use mathlib.Core.Option.{get_or, some-injective}
use travel_mcp.Prelude.{
  ℕ, ◌≤◌, ◌≡◌, refl, sym, ap, ◌∙◌, subst, inl, inr, String, true, false, List, [], ◌∷◌, ◌++◌,
  Option, none, some, arith, In, All, All-In, All-append, Bool-cases, lookup,
}
use travel_mcp.Model.{Stop, Connection, Leg}
use travel_mcp.Float.{Float}
use travel_mcp.Planner.Scan.{Labels, Graph}
use travel_mcp.Planner.Scan.Trail.{NeverBack}
use travel_mcp.Planner.Route.{Step, on_conn, on_foot}
use travel_mcp.Planner.Route.Trails.{Made, Follows}
use travel_mcp.Planner.Legs.{
  leg_point, end_leg, continues, ride_leg, walk_leg, extend, build_step, build_loop, build_legs,
}
use travel_mcp.Planner.Legs.Ridden.{
  IsLeg, All-last, All-change_last, extend-IsLeg, ride_leg-IsLeg, walk_leg-IsLeg,
}
use travel_mcp.Planner.Legs.Merged.{
  Merged, Apart, Apart-start, extend-Apart, fresh-Apart, walk-Apart,
}
use travel_mcp.Planner.Legs.Chain.{
  Chain, AllKnown, Chain-snoc, Chain-extend, Chain-last, build_ride, build_extend, build_walk,
}

module _ {F : Type 0} ⦃fl : Float F⦄ (g : Graph) (cs : List Connection) (l : Labels)
    (stops : List (String × Stop F)) where
  -- The legs so far, with the one under construction, lead to the stop `x` at its label; they are rides
  -- and walks, and no two that follow each other are of one trip that has an id.
  abbrev Arrived : String → ℕ → List (Leg F) × Option (Leg F) → String → Type 0
  Arrived a t st x =
      (u : ℕ) × (l.arr x ≡ some u)
      × Chain a t (end_leg st.0 st.1) x u
      × All (IsLeg g cs) (end_leg st.0 st.1)
      × Apart st.0 st.1

  fresh-Arrived :
      (a x y : String) (t : ℕ) (c : Connection) (legs : List (Leg F)) (cur : Option (Leg F))
      → (from to : Stop F) → NeverBack g cs
      → Made g cs l x (on_conn c) y
      → from.id ≡ c.from
      → to.id ≡ c.to
      → continues cur c ≡ false
      → Arrived a t (legs, cur) x
      → Arrived a t (end_leg legs cur, some (ride_leg c from to)) y
  unfolding end_leg ride_leg leg_point
  fresh-Arrived a x y t c legs cur from to nb (mem, b, fx, ty, (w, we, wle), ye) fid tid n
        (u, ue, ch, are, apart) =
      let uw : u ≡ w = some-injective _ _ (sym ue ∙ we) in
      (
        c.arrival,
        ye,
        Chain-snoc a x y t u (end_leg legs cur) (ride_leg c from to) ch (fid ∙ fx) (omega arith)
            (All-In _ c cs nb mem) (tid ∙ ty),
        All-append (IsLeg g cs) (end_leg legs cur) (ride_leg c from to ∷ []) are
            (ride_leg-IsLeg g cs c from to mem b fid tid, tt),
        fresh-Apart legs cur c from to n apart,
      )

  extend-Arrived :
      (a x y : String) (t : ℕ) (c : Connection) (legs : List (Leg F)) (cur : Option (Leg F))
      → (to : Stop F) → NeverBack g cs
      → continues cur c ≡ true
      → Made g cs l x (on_conn c) y
      → to.id ≡ c.to
      → Arrived a t (legs, cur) x
      → Arrived a t (legs, extend cur to c.arrival) y
  unfolding end_leg extend continues
  extend-Arrived a x y t c legs none to nb k made tid arrived = absurd (false≢true k)
  extend-Arrived a x y t c legs (some leg) to nb k (mem, b, fx, ty, (w, we, wle), ye) tid
        (u, ue, ch, are, apart) =
      let uw : u ≡ w = some-injective _ _ (sym ue ∙ we) in
      let (at, when) = Chain-last a x t u legs leg ch in
      let le : u ≤ c.arrival = omega (arith, All-In _ c cs nb mem) in
      (
        c.arrival,
        ye,
        subst
            (λ z.
              Chain a t (legs ++ (record leg { to = leg_point to; arrival = c.arrival } ∷ [])) z
                c.arrival)
            (tid ∙ ty) (Chain-extend a x t u c.arrival legs leg to ch le),
        All-change_last g (IsLeg g cs) legs leg
            (record leg { to = leg_point to; arrival = c.arrival })
            (extend-IsLeg g cs leg c to k mem b (at ∙ sym fx) (omega arith) tid
              (All-last g (IsLeg g cs) legs leg are))
            are,
        extend-Apart legs leg (leg_point to) c.arrival apart,
      )

  ride-Arrived :
      (a x y : String) (t : ℕ) (c : Connection) (legs : List (Leg F)) (cur : Option (Leg F))
      → AllKnown g cs stops
      → NeverBack g cs
      → Made g cs l x (on_conn c) y
      → Arrived a t (legs, cur) x
      → (st : List (Leg F) × Option (Leg F)) × (build_step stops l.arr (on_conn c) (legs, cur)
          ≡ some st)
        × Arrived a t st y
  ride-Arrived a x y t c legs cur known nb made arrived =
      let ((from, fe, fid), (to, te, tid)) = All-In _ c cs known.0 made.0 in
      elim (Bool-cases (continues cur c)) [
        | inr n ↦ (
          (end_leg legs cur, some (ride_leg c from to)),
          build_ride stops l.arr legs cur from to c fe te n,
          fresh-Arrived a x y t c legs cur from to nb made fid tid n arrived,
        )
        | inl k ↦ (
          (legs, extend cur to c.arrival),
          build_extend stops l.arr legs cur to to c te k,
          extend-Arrived a x y t c legs cur to nb k made tid arrived,
        )
      ]

  walk-Arrived :
      (a x y v w : String) (t : ℕ) (legs : List (Leg F)) (cur : Option (Leg F))
      → AllKnown g cs stops
      → Made g cs l x (on_foot v w) y
      → Arrived a t (legs, cur) x
      → (st : List (Leg F) × Option (Leg F)) × (build_step stops l.arr (on_foot v w) (legs, cur)
          ≡ some st)
        × Arrived a t st y
  unfolding end_leg walk_leg leg_point
  walk-Arrived a x y v w t legs cur known (vx, wy, tr, mem, to, u', t', xe, ye, le)
        (u, ue, ch, are, apart) =
      let ((from, fe, fid), (end, ee, eid)) = known.1 x tr mem in
      let uu' : u' ≡ u = some-injective _ _ (sym xe ∙ ue) in
      let fe' : lookup v stops ≡ some from = ap (λ z. lookup z stops) vx ∙ fe in
      let ee' : lookup w stops ≡ some end = ap (λ z. lookup z stops) (wy ∙ sym to) ∙ ee in
      let ve : l.arr v ≡ some u = ap l.arr vx ∙ ue in
      let we : l.arr w ≡ some t' = ap l.arr wy ∙ ye in
      (
        (end_leg legs cur ++ (walk_leg from end u t' ∷ []), none),
        build_walk stops l.arr legs cur from end v w u t' fe' ee' ve we,
        (
          t',
          ye,
          Chain-snoc a x y t u (end_leg legs cur) (walk_leg from end u t') ch fid (omega arith)
              (omega arith) (eid ∙ to),
          All-append (IsLeg g cs) (end_leg legs cur) (walk_leg from end u t' ∷ []) are (
            walk_leg-IsLeg g cs tr from end u t'
                (subst (λ z. In tr (g.transfers_from z)) (sym fid) mem) eid (omega arith),
            tt,
          ),
          walk-Apart legs cur from end u t' apart,
        ),
      )

  build_loop-Arrived :
      (a x b : String) (t : ℕ) (steps : List Step) (st : List (Leg F) × Option (Leg F))
      → AllKnown g cs stops
      → NeverBack g cs
      → Follows g cs l x steps b
      → Arrived a t st x
      → (out : List (Leg F) × Option (Leg F)) × (build_loop stops l.arr steps st ≡ some out)
        × Arrived a t out b
  unfolding build_loop Option.bind
  build_loop-Arrived a x b t [] st known nb xb arrived =
      (st, refl, subst (Arrived a t st) xb arrived)
  build_loop-Arrived a x b t (on_conn c ∷ steps) st known nb (m, made, rest) arrived =
      let (st', e, arrived') = ride-Arrived a x m t c st.0 st.1 known nb made arrived in
      let (out, f, done) = build_loop-Arrived a m b t steps st' known nb rest arrived' in
      (out, rw e f, done)
  build_loop-Arrived a x b t (on_foot v w ∷ steps) st known nb (m, made, rest) arrived =
      let (st', e, arrived') = walk-Arrived a x m v w t st.0 st.1 known made arrived in
      let (out, f, done) = build_loop-Arrived a m b t steps st' known nb rest arrived' in
      (out, rw e f, done)

  -- The steps of a route over known stops become legs, with no missing stop on the way, and the legs
  -- lead from its first stop at its label to its last stop at its label; they are rides and walks, and
  -- no two that follow each other are of one trip that has an id.
  pub build_legs-Chain :
      (a b : String) (t : ℕ) (steps : List Step)
      → AllKnown g cs stops
      → NeverBack g cs
      → l.arr a ≡ some t
      → Follows g cs l a steps b
      → (legs : List (Leg F)) × (build_legs stops l.arr steps ≡ some legs)
        × (u : ℕ) × (l.arr b ≡ some u)
        × Chain a t legs b u
        × All (IsLeg g cs) legs
        × Merged "" legs
  unfolding build_legs end_leg
  build_legs-Chain a b t steps known nb ae fol =
      let (out, e, (u, ue, ch, are, apart)) =
        build_loop-Arrived a a b t steps ([], none) known nb fol
          (t, ae, (refl, refl), tt, Apart-start) in
      (end_leg out.0 out.1, rw e, u, ue, ch, are, apart.0)
