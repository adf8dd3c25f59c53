-- ===== src/Planner/Csa/Search.antt =====
-- The search as a whole: `csa` ends, answers with the earliest arrival, and misses no itinerary.
use mathlib.Core.Option.{none-ne-some, some-injective}
use travel_mcp.Prelude.{
  zero, suc, ℕ, ◌+◌, ◌≤◌, ◌<◌, ◌≡◌, ◌≢◌, sym, ◌∙◌, subst, ◌⊎◌, inl, inr, String, List, none, some,
  [], ◌∷◌, arith, In, All, All-of_In, Option-cases, length, pos,
}
use travel_mcp.Model.{Connection, Network, SearchParams, Leg}
use travel_mcp.Float.{Float}
use travel_mcp.Planner.Result.{Result, ok, err, no_route}
use travel_mcp.Planner.Scan.{Prev, Labels, Graph, labels}
use travel_mcp.Planner.Scan.Moves.{labels-Moves}
use travel_mcp.Planner.Scan.Sound.{Reach, start, walk, board, Moves-IsSound}
use travel_mcp.Planner.Scan.Closed.{By}
use travel_mcp.Planner.Scan.Earliest.{TakesTime, labels_earliest}
use travel_mcp.Planner.Scan.Total.{labels_total, EndsIn}
use travel_mcp.Planner.Scan.Trail.{NeverBack, HasTrails, labels-HasTrails, Trail-pred}
use travel_mcp.Planner.Route.{Step, reconstruct}
use travel_mcp.Planner.Route.Trails.{reconstruct_total}
use travel_mcp.Planner.Legs.{build_legs}
use travel_mcp.Planner.Legs.Chain.{Chain, AllKnown}
use travel_mcp.Planner.Legs.Ridden.{IsLeg, IsLeg-of_In}
use travel_mcp.Planner.Legs.Merged.{Merged}
use travel_mcp.Planner.Legs.Built.{build_legs-Chain}
use travel_mcp.Planner.Csa.{csa, finish, graph, scan_order, check_transfers}
use travel_mcp.Planner.Csa.Order.{
  IsOrdered, scan_order-IsSorted, scan_order-In, all_ends, transfers_from-ends,
}

-- Itineraries depend on the connections, and not on their order.
Reach-of_In :
    (g : Graph) (cs ds : List Connection) (from : String) (depart : ℕ) (s : String) (t : ℕ)
    → ((c : Connection) → In c cs → In c ds)
    → Reach g cs from depart s t
    → Reach g ds from depart s t
Reach-of_In g cs ds from depart s t sub start = start
Reach-of_In g cs ds from depart _ _ sub (walk {s} {t} tr r mem os ot) =
    walk tr (Reach-of_In g cs ds from depart s t sub r) mem os ot
Reach-of_In g cs ds from depart _ _ sub (board {s} {t} c r mem b cf le) =
    board c (Reach-of_In g cs ds from depart s t sub r) (sub c mem) b cf le

All-weaken :
    (cs : List Connection)
    → All (λ c. c.departure < c.arrival) cs
    → All (λ c. c.departure ≤ c.arrival) cs
All-weaken [] h = tt
All-weaken (c ∷ cs) (p, h) = (omega arith, All-weaken cs h)

module _ {F : Type 0} ⦃fl : Float F⦄ (net : Network F) (params : SearchParams) where
  graph_ends : EndsIn (graph net params) (all_ends net.transfers_by_stop net.transfers)
  unfolding graph
  graph_ends s tr m = transfers_from-ends net.transfers_by_stop net.transfers s tr m

  abbrev pub Itinerary : String → ℕ → String → ℕ → Type 0
  Itinerary = Reach (graph net params) net.connections

  -- What `csa` needs of the network: an order that it can scan, connections that take some time, and
  -- no connection or transfer at a stop that the network does not have.
  pub record IsSearchable : Type 0 where
    pub ordered : IsOrdered net.connections
    pub takes_time : TakesTime net.connections
    pub known : AllKnown (graph net params) net.connections net.stops

  -- The answer to a search: there is no itinerary, or the legs, one after another, of an earliest one,
  -- each a ride on one trip or a walk along a transfer, to which the limit on transfers is applied.
  abbrev pub Answers : String → ℕ → String → Result (List (Leg F)) → Type 0
  Answers from depart to r =
      ((r ≡ err no_route) × ((t : ℕ) → ¬ Itinerary from depart to t))
      ⊎ ((legs : List (Leg F)) × (t : ℕ) × (r ≡ check_transfers params.max_transfers legs)
          × Chain from depart legs to t
          × All (IsLeg (graph net params) net.connections) legs
          × Merged "" legs
          × Itinerary from depart to t
          × ((u : ℕ) → Itinerary from depart to u → t ≤ u))

  order_All : (P : Connection → Type 0) → All P net.connections → All P (scan_order net.connections)
  order_All P h =
      All-of_In P net.connections (scan_order net.connections)
        (λ c m. (scan_order-In net.connections c).0 m) h

  never_back : (cs : List Connection) → TakesTime cs → NeverBack (graph net params) cs
  never_back cs h = All-weaken cs h

  module _ (searchable : IsSearchable) (from to : String) (depart : ℕ) (ne : to ≢ from) where
    finish-none :
        (fuel : ℕ) (l : Labels) → l.pred to ≡ none → finish fuel net from to params l ≡ err no_route
    unfolding finish
    finish-none fuel l e = rw (e, finish)

    finish-some :
        (fuel : ℕ) (l : Labels) (p : Prev) (steps : List Step) (legs : List (Leg F))
        → l.pred to ≡ some p
        → reconstruct fuel l.pred from to ≡ some steps
        → build_legs net.stops l.arr steps ≡ some legs
        → finish fuel net from to params l ≡ check_transfers params.max_transfers legs
    unfolding finish
    finish-some fuel l p steps legs pe re be = rw (pe, finish) (rw (re, finish) (rw (be, finish)))

    -- What the labels say of the target.
    finish-Answers :
        (fuel : ℕ) (l : Labels)
        → labels (graph net params) fuel (scan_order net.connections) from depart ≡ some l
        → (enough : ℕ) × ((more : ℕ)
            → enough ≤ more
            → Answers from depart to (finish more net from to params l))
    finish-Answers fuel l run = elim (Option-cases (l.arr to)) [
      | inl unlabelled ↦
          let unled : l.pred to ≡ none = elim (Option-cases (l.pred to)) [
            | inl n ↦ n
            | inr (p, pe) ↦
                let (t, te) = trails.led to p pe in absurd (none-ne-some t (sym unlabelled ∙ te))
          ] in
          let unreached : (t : ℕ) → ¬ Itinerary from depart to t =
            λ t r. let (u, ue, le) = earliest t r in none-ne-some u (sym unlabelled ∙ ue) in
          (0, λ more h. inl (finish-none more l unled, unreached))
      | inr (t, te) ↦
          let tr = trails.trail to t te in
          let (p, pe) = Trail-pred (graph net params) cs l from to tr ne in
          let (enough, steps, rebuilt, fol) =
            reconstruct_total (graph net params) cs l from to trails.unled tr in
          let (legs, built, u, ue, chain, are, merged) =
            build_legs-Chain (graph net params) cs l net.stops from to depart steps
              (order_All _ searchable.known.0, searchable.known.1)
              (never_back cs (order_All _ searchable.takes_time)) trails.root fol in
          (
            enough,
            λ more h. inr (
              legs,
              u,
              finish-some more l p steps legs pe (rebuilt more h) built,
              chain,
              IsLeg-of_In (graph net params) cs net.connections legs
                  (λ c m. (scan_order-In net.connections c).0 m) are,
              merged,
              reached u ue,
              λ v r. least u ue v (earliest v r),
            ),
          )
    ]
      where
        cs : List Connection
        cs = scan_order net.connections

        trails : HasTrails (graph net params) cs from depart l
        trails =
            labels-HasTrails (graph net params) cs fuel from depart l
              (never_back cs (order_All _ searchable.takes_time)) run

        earliest : (u : ℕ) → Itinerary from depart to u → By l to u
        earliest u r =
            labels_earliest (graph net params) fuel cs from depart l
              (scan_order-IsSorted net.connections searchable.ordered)
              (order_All _ searchable.takes_time) run to u
              (Reach-of_In (graph net params) net.connections cs from depart to u
                (λ c m. (scan_order-In net.connections c).1 m) r)

        reached : (t : ℕ) → l.arr to ≡ some t → Itinerary from depart to t
        reached t e =
            Reach-of_In (graph net params) cs net.connections from depart to t
              (λ c m. (scan_order-In net.connections c).0 m)
              (Moves-IsSound (graph net params) cs from depart l
                (labels-Moves (graph net params) cs fuel from depart l run) to t e)

        least : (u : ℕ) → l.arr to ≡ some u → (v : ℕ) → By l to v → u ≤ v
        least u ue v (w, we, le) = let uw : u ≡ w = some-injective _ _ (sym ue ∙ we) in omega arith

    -- Over a network whose connections are in an order that can be scanned and take some time, and which
    -- has the stops of its connections and transfers, and for two different stops, `csa` with any fuel
    -- beyond some amount finds no route, where there is no itinerary, or else gives what the limit on
    -- transfers makes of the legs of an itinerary that no other arrives before. These lead from the one
    -- stop to the other, one after another in place and time, and each is a ride along connections of
    -- one trip that may be boarded, with the mode and the ids of the first, or a walk along a transfer.
    -- No two that follow each other are of one trip that has an id.
    pub csa_lem :
        (enough : ℕ) × ((more : ℕ)
          → enough ≤ more
          → Answers from depart to (csa more net from to depart params))
    unfolding csa
    csa_lem =
        let cs = scan_order net.connections in
        let (f, l, run) =
          labels_total (graph net params) (all_ends net.transfers_by_stop net.transfers) cs from
            depart graph_ends in
        let (f', answers) = finish-Answers f l (run f (omega arith)) in
        (f + f', λ more h. rw (run more (omega arith), csa) (answers more (omega arith)))

  finish-ok :
      (fuel : ℕ) (from to : String) (l : Labels) (legs : List (Leg F))
      → finish fuel net from to params l ≡ ok legs
      → (found : List (Leg F)) × (check_transfers params.max_transfers found ≡ ok legs)
  unfolding finish
  finish-ok fuel from to l legs e = elim (Option-cases (l.pred to)) [
    | inl n ↦ absurd (ground arith)
    | inr (p, pe) ↦ elim (Option-cases (reconstruct fuel l.pred from to)) [
      | inl n ↦ absurd (ground arith)
      | inr (steps, se) ↦ elim (Option-cases (build_legs net.stops l.arr steps)) [
        | inl n ↦ absurd (ground arith)
        | inr (found, fe) ↦ (found, ground arith)
      ]
    ]
  ]

  check-within :
      (n : ℕ) (found legs : List (Leg F))
      → check_transfers (pos n) found ≡ ok legs
      → length legs ≤ n + 1
  unfolding check_transfers
  check-within zero found legs e = ground arith
  check-within (suc n) found legs e = ground arith

  -- What `csa` returns keeps to a limit on transfers that is not negative.
  pub csa-within_limit :
      (fuel : ℕ) (from to : String) (depart n : ℕ) (legs : List (Leg F))
      → params.max_transfers ≡ pos n
      → csa fuel net from to depart params ≡ ok legs
      → length legs ≤ n + 1
  unfolding csa
  csa-within_limit fuel from to depart n legs limit run =
      elim (Option-cases
        (labels (graph net params) fuel (scan_order net.connections) from depart)) [
          | inl e ↦ absurd (ground arith)
          | inr (l, e) ↦
              let (found, checked) = finish-ok fuel from to l legs (ground arith) in
              check-within n found legs
                (subst (λ z. check_transfers z found ≡ ok legs) limit checked)
        ]
