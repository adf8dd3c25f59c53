-- ===== src/Planner/Route/Trails.antt =====
-- `reconstruct` ends, and what it returns is a route.
use mathlib.Core.Option
use mathlib.Core.Option.{none-ne-some}
use mathlib.Core.List.{reverse-cons}
use travel_mcp.Prelude.{
  ℕ, zero, suc, ◌+◌, ◌*◌, ◌≤◌, ◌≡◌, ◌≢◌, refl, sym, ap, ◌∙◌, subst, String, true, List, [], ◌∷◌,
  ◌++◌, some, none, arith, In, eq_iff, eq_refl, reverse,
}
use travel_mcp.Model.{Transfer, Connection, minute}
use travel_mcp.Planner.Scan.{Prev, by_foot, by_conn, Labels, Graph}
use travel_mcp.Planner.Scan.Closed.{By}
use travel_mcp.Planner.Scan.Trail.{Trail, home, back, Leads, origin}
use travel_mcp.Planner.Route.{Step, on_conn, on_foot, reconstruct_rev, reconstruct}

module _ (g : Graph) (cs : List Connection) (l : Labels) where
  -- A step that can be made from the stop `a` to the stop `b` at the times of the labels.
  abbrev pub Made : String → Step → String → Type 0
  Made a (on_conn c) b =
      In c cs
      × (g.boards c ≡ true)
      × (c.from ≡ a)
      × (c.to ≡ b)
      × By l a c.departure
      × (l.arr b ≡ some c.arrival)
  Made a (on_foot x y) b =
      (x ≡ a)
      × (y ≡ b)
      × (tr : Transfer) × In tr (g.transfers_from a)
      × (tr.to_stop_id ≡ b)
      × (u : ℕ) × (t : ℕ) × (l.arr a ≡ some u)
      × (l.arr b ≡ some t)
      × (u + tr.minutes * minute ≤ t)

  abbrev pub Follows : String → List Step → String → Type 0
  Follows a [] b = a ≡ b
  Follows a (st ∷ steps) b = (m : String) × Made a st m × Follows m steps b

  Follows-snoc :
      (a m b : String) (steps : List Step) (st : Step)
      → Follows a steps m
      → Made m st b
      → Follows a (steps ++ (st ∷ [])) b
  Follows-snoc a m b [] st am made = (b, subst (λ x. Made x st b) (sym am) made, refl)
  Follows-snoc a m b (s ∷ steps) st (n, first, rest) made =
      (n, first, Follows-snoc n m b steps st rest made)

  -- The steps that the loop returns, read backwards.
  abbrev Rebuilds : String → String → Type 0
  Rebuilds from s =
      (fuel : ℕ) × (steps : List Step) × ((more : ℕ)
        → fuel ≤ more
        → reconstruct_rev more l.pred from s ≡ some steps)
      × Follows from (reverse steps) s

  Rebuilds-home : (from : String) → Rebuilds from from
  unfolding reconstruct_rev
  Rebuilds-home from = (1, [], ended, refl)
    where
      ended : (more : ℕ) → 1 ≤ more → reconstruct_rev more l.pred from from ≡ some []
      ended zero h = absurd (omega arith)
      ended (suc more) h = rw (eq_refl from)

  Rebuilds-back :
      (from s : String) (p : Prev) (t : ℕ)
      → s ≢ from
      → l.pred s ≡ some p
      → l.arr s ≡ some t
      → Leads g cs l p s t
      → Rebuilds from (origin p)
      → Rebuilds from s
  unfolding reconstruct_rev
  Rebuilds-back from s (by_conn c) t ne pe ae (mem, b, to, at, by) (f, steps, run, fol) = (
    suc f,
    on_conn c ∷ steps,
    ended,
    subst (λ r. Follows from r s) (sym (reverse-cons (on_conn c) steps))
        (Follows-snoc from c.from s (reverse steps) (on_conn c) fol
          (mem, b, refl, to, by, ae ∙ ap some (sym at))),
  )
    where
      ended :
          (more : ℕ) → suc f ≤ more → reconstruct_rev more l.pred from s ≡ some (on_conn c ∷ steps)
      ended zero h = absurd (omega arith)
      ended (suc more) h = ground (arith, eq_iff s from, run more (omega arith))
  Rebuilds-back from s (by_foot x) t ne pe ae (tr, mem, oc, ot, to, u, ue, le)
        (f, steps, run, fol) =
      (
        suc f,
        on_foot x s ∷ steps,
        ended,
        subst (λ r. Follows from r s) (sym (reverse-cons (on_foot x s) steps))
            (Follows-snoc from x s (reverse steps) (on_foot x s) fol
              (refl, refl, tr, mem, to, u, t, ue, ae, le)),
      )
    where
      ended :
          (more : ℕ)
          → suc f ≤ more
          → reconstruct_rev more l.pred from s ≡ some (on_foot x s ∷ steps)
      ended zero h = absurd (omega arith)
      ended (suc more) h = ground (arith, eq_iff s from, run more (omega arith))

  Trail-Rebuilds : (from s : String) → l.pred from ≡ none → Trail g cs l from s → Rebuilds from s
  Trail-Rebuilds from s un home = Rebuilds-home from
  Trail-Rebuilds from s un (back p t pe ae leads rest) =
      Rebuilds-back from s p t (λ sf. none-ne-some p (sym un ∙ ap l.pred (sym sf) ∙ pe)) pe ae leads
        (Trail-Rebuilds from (origin p) un rest)

  -- From a stop with a trail `reconstruct` gets back to the first stop, whatever fuel it has beyond
  -- some amount, and its steps lead from there to the stop.
  pub reconstruct_total :
      (from s : String)
      → l.pred from ≡ none
      → Trail g cs l from s
      → (fuel : ℕ) × (steps : List Step) × ((more : ℕ)
          → fuel ≤ more
          → reconstruct more l.pred from s ≡ some steps)
        × Follows from steps s
  unfolding reconstruct
  reconstruct_total from s un tr =
      let (f, rev, run, fol) = Trail-Rebuilds from s un tr in
      (f, reverse rev, (λ more h. ap (Option.map reverse) (run more h)), fol)
