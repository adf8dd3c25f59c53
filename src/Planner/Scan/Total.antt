-- ===== src/Planner/Scan/Total.antt =====
-- The loops of `csa` end: every turn of `relax` takes a stop off the work list, and a stop is put on
-- it only when its label falls.
use travel_mcp.Prelude.{
  ℕ, zero, suc, ◌+◌, ◌≤◌, ◌<◌, ◌≡◌, refl, ◌⊎◌, inl, inr, String, true, List, [], ◌∷◌, some, none,
  arith, In, Bool-cases, length, length-append, eq_iff,
}
use travel_mcp.Model.{Transfer, Connection}
use travel_mcp.Planner.Scan.{
  Prev, by_foot, by_conn, Labels, Graph, init, improves, relabel, relax_edge, relax_edges, visit,
  relax_loop, relax, scan_one, scan, labels,
}
use travel_mcp.Planner.Scan.Moves.{relax_edge_cases, bind-eq-some}

-- How many of the stops have no label yet, and the sum of the labels of the others.
unset : Labels → List String → ℕ
unset l [] = 0
unset l (s ∷ stops) = elim (l.arr s) [ none ↦ suc (unset l stops) | some t ↦ unset l stops ]

total : Labels → List String → ℕ
total l [] = 0
total l (s ∷ stops) = elim (l.arr s) [ none ↦ total l stops | some t ↦ t + total l stops ]

-- The state of `relax` gets smaller: more stops have labels, or the labels and the work list shrink.
abbrev Down : List String → Labels × List String → Labels × List String → Type 0
Down stops a b =
    (unset b.0 stops < unset a.0 stops)
    ⊎ ((unset b.0 stops ≡ unset a.0 stops)
        × (total b.0 stops + length b.1 ≤ total a.0 stops + length a.1))

Down-trans : (stops : List String) (a b c : _) → Down stops a b → Down stops b c → Down stops a c
Down-trans stops a b c h k = omega arith

relabel_le :
    (l : Labels) (k : String) (t : ℕ) (p : Prev) (stops : List String)
    → improves l.arr k t ≡ true
    → (unset (relabel l k t p) stops < unset l stops)
      ⊎ ((unset (relabel l k t p) stops ≡ unset l stops)
          × (total (relabel l k t p) stops ≤ total l stops))
unfolding relabel improves unset total
relabel_le l k t p [] imp = omega arith
relabel_le l k t p (s ∷ stops) imp = ground (arith, eq_iff k s, relabel_le l k t p stops imp)

relabel_down :
    (l : Labels) (k : String) (t : ℕ) (p : Prev) (stops : List String)
    → improves l.arr k t ≡ true
    → In k stops
    → (unset (relabel l k t p) stops < unset l stops)
      ⊎ ((unset (relabel l k t p) stops ≡ unset l stops)
          × (total (relabel l k t p) stops < total l stops))
unfolding relabel improves unset total
relabel_down l k t p [] imp h = absurd h
relabel_down l k t p (s ∷ stops) imp (inl e) =
    ground (arith, eq_iff k s, relabel_le l k t p stops imp)
relabel_down l k t p (s ∷ stops) imp (inr h) =
    ground (arith, eq_iff k s, relabel_down l k t p stops imp h)

module _ (g : Graph) (stops : List String) where
  -- Every transfer ends at one of the stops.
  abbrev pub EndsIn : Type 0
  EndsIn = (s : String) (tr : Transfer) → In tr (g.transfers_from s) → In tr.to_stop_id stops

  relax_edge-Down :
      (cur : String) (t : ℕ) (tr : Transfer) (l : Labels) (q : List String)
      → In tr.to_stop_id stops
      → Down stops (l, q) (relax_edge g cur t tr (l, q))
  relax_edge-Down cur t tr l q mem =
      relax_edge_cases (Down stops (l, q)) g cur t tr l q (λ _. omega arith)
        λ n y. omega (
          arith,
          relabel_down l _ _ (by_foot cur) stops y mem,
          length-append q (tr.to_stop_id ∷ []),
        )

  relax_edges-Down :
      (cur : String) (t : ℕ) (trs : List Transfer) (st : Labels × List String)
      → ((tr : Transfer) → In tr trs → In tr.to_stop_id stops)
      → Down stops st (relax_edges g cur t trs st)
  unfolding relax_edges
  relax_edges-Down cur t [] st sub = omega arith
  relax_edges-Down cur t (tr ∷ trs) (l, q) sub =
      let st = relax_edge g cur t tr (l, q) in
      Down-trans stops (l, q) st _ (relax_edge-Down cur t tr l q (sub tr (inl refl)))
        (relax_edges-Down cur t trs st (λ x m. sub x (inr m)))

  visit-Down :
      (cur : String) (l : Labels) (q : List String)
      → EndsIn
      → Down stops (l, q) (visit g cur (l, q))
  unfolding visit
  visit-Down cur l q ends = elim (Bool-cases (g.provisional cur)) [
    | inl y ↦ rw y (omega arith)
    | inr n ↦ rw n (relax_edges-Down cur _ (g.transfers_from cur) (l, q) (ends cur))
  ]

  abbrev Ends : Labels × List String → Type 0
  Ends st = (fuel : ℕ) × (m : Labels) × (relax_loop g fuel st ≡ some m)

  relax_loop-Ends :
      (u n : ℕ) (l : Labels) (q : List String)
      → EndsIn
      → unset l stops ≤ u
      → total l stops + length q ≤ n
      → Ends (l, q)
  unfolding relax_loop
  relax_loop-Ends u n l [] ends hu hn = (0, l, refl)
  relax_loop-Ends u zero l (cur ∷ q) ends hu hn = absurd (omega arith)
  relax_loop-Ends zero (suc n) l (cur ∷ q) ends hu hn =
      let d = visit-Down cur l q ends in
      let (f, m, e) =
        relax_loop-Ends zero n (visit g cur (l, q)).0 (visit g cur (l, q)).1 ends (omega arith)
          (omega arith) in
      (suc f, m, e)
  relax_loop-Ends (suc u) (suc n) l (cur ∷ q) ends hu hn = elim (visit-Down cur l q ends) [
    | inl less ↦
        let (f, m, e) =
          relax_loop-Ends u (total (visit g cur (l, q)).0 stops + length (visit g cur (l, q)).1)
            (visit g cur (l, q)).0 (visit g cur (l, q)).1 ends (omega arith) (omega arith) in
        (suc f, m, e)
    | inr (same, le) ↦
        let (f, m, e) =
          relax_loop-Ends (suc u) n (visit g cur (l, q)).0 (visit g cur (l, q)).1 ends (omega arith)
            (omega arith) in
        (suc f, m, e)
  ]

  -- More fuel changes no result.
  relax_loop_more :
      (f f' : ℕ) (l m : Labels) (q : List String)
      → f ≤ f'
      → relax_loop g f (l, q) ≡ some m
      → relax_loop g f' (l, q) ≡ some m
  unfolding relax_loop
  relax_loop_more f f' l m [] h e = e
  relax_loop_more zero f' l m (cur ∷ q) h e = cc
  relax_loop_more (suc f) zero l m (cur ∷ q) h e = absurd (omega arith)
  relax_loop_more (suc f) (suc f') l m (cur ∷ q) h e =
      relax_loop_more f f' (visit g cur (l, q)).0 m (visit g cur (l, q)).1 (omega arith) e

  scan_one_more :
      (f f' : ℕ) (c : Connection) (l m : Labels)
      → f ≤ f'
      → scan_one g f c l ≡ some m
      → scan_one g f' c l ≡ some m
  unfolding scan_one relax
  scan_one_more f f' c l m h e =
      ground (arith, relax_loop_more f f' (relabel l c.to c.arrival (by_conn c)) m (c.to ∷ []) h)

  scan_more :
      (f f' : ℕ) (todo : List Connection) (l m : Labels)
      → f ≤ f'
      → scan g f todo l ≡ some m
      → scan g f' todo l ≡ some m
  unfolding scan
  scan_more f f' [] l m h e = e
  scan_more f f' (c ∷ todo) l m h e =
      let (k, one, rest) = bind-eq-some (scan_one g f c l) (scan g f todo) e in
      rw (scan_one_more f f' c l k h one) (scan_more f f' todo k m h rest)

  scan_one-Ends :
      (c : Connection) (l : Labels)
      → EndsIn
      → (fuel : ℕ) × (m : Labels) × (scan_one g fuel c l ≡ some m)
  unfolding scan_one relax
  scan_one-Ends c l ends =
      let after : Labels = relabel l c.to c.arrival (by_conn c) in
      let (f, m, e) =
        relax_loop-Ends (unset after stops) (total after stops + 1) after (c.to ∷ []) ends
          (omega arith) (omega arith) in
      let result : (scan_one g f c l ≡ some l) ⊎ (scan_one g f c l ≡ some m) = ground arith in
      elim result [ inl x ↦ (f, l, x) | inr x ↦ (f, m, x) ]

  scan-Ends :
      (todo : List Connection) (l : Labels)
      → EndsIn
      → (fuel : ℕ) × (m : Labels) × (scan g fuel todo l ≡ some m)
  unfolding scan
  scan-Ends [] l ends = (0, l, refl)
  scan-Ends (c ∷ todo) l ends =
      let (f, k, one) = scan_one-Ends c l ends in
      let (f', m, rest) = scan-Ends todo k ends in
      (
        f + f',
        m,
        rw (scan_one_more f (f + f') c l k (omega arith) one)
            (scan_more f' (f + f') todo k m (omega arith) rest),
      )

  -- If the transfers end at finitely many stops, some fuel lets the scan end, and any more gives the
  -- same labels.
  pub labels_total :
      (cs : List Connection) (from : String) (depart : ℕ)
      → EndsIn
      → (fuel : ℕ) × (m : Labels) × ((more : ℕ)
          → fuel ≤ more
          → labels g more cs from depart ≡ some m)
  unfolding labels relax
  labels_total cs from depart ends =
      let l = init from depart in
      let (f, k, one) =
        relax_loop-Ends (unset l stops) (total l stops + 1) l (from ∷ []) ends (omega arith)
          (omega arith) in
      let (f', m, rest) = scan-Ends cs k ends in
      (
        f + f',
        m,
        λ more h.
            rw (relax_loop_more f more l k (from ∷ []) (omega arith) one)
              (scan_more f' more cs k m (omega arith) rest),
      )
