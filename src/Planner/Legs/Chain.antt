-- ===== src/Planner/Legs/Chain.antt =====
-- Legs that follow one another in place and time, and the turns of the loop that makes them.
use travel_mcp.Prelude.{
  ℕ, ◌≤◌, ◌≡◌, refl, sym, ◌∙◌, String, true, false, List, [], ◌∷◌, ◌++◌, Option, none, some, arith,
  In, All, lookup,
}
use travel_mcp.Model.{Stop, Transfer, Connection, Leg}
use travel_mcp.Float.{Float}
use travel_mcp.Planner.Scan.{Graph}
use travel_mcp.Planner.Route.{on_conn, on_foot}
use travel_mcp.Planner.Legs.{leg_point, end_leg, continues, ride_leg, walk_leg, extend, build_step}

-- The legs lead from the stop `a` at the time `t` to the stop `b` at the time `u`: each begins where
-- the one before it ends and no earlier, none ends before it begins, and the last ends at `u`.
abbrev pub Chain : {F : Type 0} → String → ℕ → List (Leg F) → String → ℕ → Type 0
Chain a t [] b u = (a ≡ b) × (t ≡ u)
Chain a t (leg ∷ legs) b u =
    (leg.from.stop_id ≡ a)
    × (t ≤ leg.departure)
    × (leg.departure ≤ leg.arrival)
    × Chain leg.to.stop_id leg.arrival legs b u

-- A stop that the network has, under its own id.
abbrev pub IsKnown : {F : Type 0} → List (String × Stop F) → String → Type 0
IsKnown {F} stops s = (st : Stop F) × (lookup s stops ≡ some st) × (st.id ≡ s)

-- The stops of the connections and of the transfers are in the network.
abbrev pub AllKnown : {F : Type 0} → Graph → List Connection → List (String × Stop F) → Type 0
AllKnown g cs stops =
    All (λ c. IsKnown stops c.from × IsKnown stops c.to) cs
    × ((s : String) (tr : Transfer)
        → In tr (g.transfers_from s)
        → IsKnown stops s × IsKnown stops tr.to_stop_id)

module _ {F : Type 0} where
  pub Chain-snoc :
      (a x b : String) (t u : ℕ) (legs : List (Leg F)) (leg : Leg F)
      → Chain a t legs x u
      → leg.from.stop_id ≡ x
      → u ≤ leg.departure
      → leg.departure ≤ leg.arrival
      → leg.to.stop_id ≡ b
      → Chain a t (legs ++ (leg ∷ [])) b leg.arrival
  Chain-snoc a x b t u [] leg (ax, tu) lx ud da lb = (lx ∙ sym ax, omega arith, da, (lb, refl))
  Chain-snoc a x b t u (l ∷ legs) leg (p, q, r, c) lx ud da lb =
      (p, q, r, Chain-snoc l.to.stop_id x b l.arrival u legs leg c lx ud da lb)

  pub Chain-extend :
      (a x : String) (t u v : ℕ) (legs : List (Leg F)) (leg : Leg F) (to : Stop F)
      → Chain a t (legs ++ (leg ∷ [])) x u
      → u ≤ v
      → Chain a t (legs ++ (record leg { to = leg_point to; arrival = v } ∷ [])) to.id v
  unfolding leg_point
  Chain-extend a x t u v [] leg to (p, q, r, (_, e)) le = (p, q, omega arith, (refl, refl))
  Chain-extend a x t u v (l ∷ legs) leg to (p, q, r, c) le =
      (p, q, r, Chain-extend l.to.stop_id x l.arrival u v legs leg to c le)

  pub Chain-last :
      (a x : String) (t u : ℕ) (legs : List (Leg F)) (leg : Leg F)
      → Chain a t (legs ++ (leg ∷ [])) x u
      → (leg.to.stop_id ≡ x) × (leg.arrival ≡ u)
  Chain-last a x t u [] leg (p, q, r, end) = end
  Chain-last a x t u (l ∷ legs) leg (p, q, r, c) = Chain-last l.to.stop_id x l.arrival u legs leg c

module _ {F : Type 0} ⦃fl : Float F⦄ (stops : List (String × Stop F)) (arr : String → Option ℕ)
    (legs : List (Leg F)) (cur : Option (Leg F)) (from to : Stop F) where
  pub build_ride :
      (c : Connection)
      → lookup c.from stops ≡ some from
      → lookup c.to stops ≡ some to
      → continues cur c ≡ false
      → build_step stops arr (on_conn c) (legs, cur)
        ≡ some (end_leg legs cur, some (ride_leg c from to))
  unfolding build_step
  build_ride c fe te n = rw (te, build_step) (rw n (rw (fe, build_step)))

  pub build_extend :
      (c : Connection)
      → lookup c.to stops ≡ some to
      → continues cur c ≡ true
      → build_step stops arr (on_conn c) (legs, cur) ≡ some (legs, extend cur to c.arrival)
  unfolding build_step
  build_extend c te k = rw (te, build_step) (rw k)

  pub build_walk :
      (v w : String) (t u : ℕ)
      → lookup v stops ≡ some from
      → lookup w stops ≡ some to
      → arr v ≡ some t
      → arr w ≡ some u
      → build_step stops arr (on_foot v w) (legs, cur)
        ≡ some (end_leg legs cur ++ (walk_leg from to t u ∷ []), none)
  unfolding build_step
  build_walk v w t u fe te ve we = rw (fe, build_step) (rw (te, build_step) (rw (ve, we)))
