-- ===== src/Planner/Scan/Closed.antt =====
-- After `relax` no foot transfer would improve a label.
use mathlib.Core.Option.{some-injective}
use mathlib.Core.Path.{subst₂}
use travel_mcp.Prelude.{
  ℕ, zero, suc, ◌+◌, ◌*◌, ◌≤◌, ◌≡◌, refl, sym, ap, ◌∙◌, subst, ◌⊎◌, inl, inr, String, true, false,
  List, [], ◌∷◌, ◌++◌, some, arith, In, In-append_left, Option-cases, Bool-cases,
}
use mathlib.Core.Bool.{true≢false}
use travel_mcp.Model.{Transfer, Connection, minute}
use travel_mcp.Planner.Scan.{
  Prev, by_foot, Labels, Graph, improves, relabel, relax_edge, relax_edges, visit, relax_loop,
}
use travel_mcp.Planner.Scan.Moves.{
  relabel_arr, relabel_falls, relabel_hit, relax_edge_cases, relax_edge-Walking, here, Queued,
  visit-Moves,
}

-- A stop has a label that is no later than `t`.
abbrev pub By : Labels → String → ℕ → Type 0
By l s t = (u : ℕ) × (l.arr s ≡ some u) × (u ≤ t)

-- The transfers from labelled stops have been made, but for those that `E` excepts.
abbrev pub ClosedBut : Graph → Labels → (String → Transfer → Type 0) → Type 0
ClosedBut g l E =
    (s : String) (t : ℕ) (tr : Transfer)
    → l.arr s ≡ some t
    → In tr (g.transfers_from s)
    → g.provisional s ≡ false
    → g.provisional tr.to_stop_id ≡ false
    → By l tr.to_stop_id (t + tr.minutes * minute) ⊎ E s tr

abbrev pub IsClosed : Graph → Labels → Type 0
IsClosed g l = ClosedBut g l (λ s tr. ⊥)

In-append_last : {A : Type 0} (a : A) (xs : List A) → In a (xs ++ (a ∷ []))
In-append_last a [] = inl refl
In-append_last a (x ∷ xs) = inr (In-append_last a xs)

-- A time improves on the label of a stop exactly if the stop has no label up to that time.
pub improves-By : (l : Labels) (k : String) (t : ℕ) → improves l.arr k t ≡ true → ¬ By l k t
unfolding improves
improves-By l k t h (u, e, le) = ground arith

pub not-improves-By : (l : Labels) (k : String) (t : ℕ) → improves l.arr k t ≡ false → By l k t
unfolding improves
not-improves-By l k t h = elim (Option-cases (l.arr k)) [
  | inl n ↦ absurd (ground arith)
  | inr (u, e) ↦ let le : u ≤ t = ground arith in (u, e, le)
]

pub relabel-By :
    (l : Labels) (k : String) (v : ℕ) (p : Prev) (s : String) (t : ℕ)
    → improves l.arr k v ≡ true
    → By l s t
    → By (relabel l k v p) s t
relabel-By l k v p s t imp (u, e, le) =
    let (w, f, lf) = relabel_falls l k v p s u imp e in (w, f, omega arith)

module _ (g : Graph) (cur : String) (t : ℕ) where
  -- The exceptions inside the inner loop: the work list, and the transfers still to be looked at.
  abbrev pub Pending : List String → List Transfer → String → Transfer → Type 0
  Pending q trs s tr = In s q ⊎ ((s ≡ cur) × In tr trs)

  same_label :
      (l : Labels) (s : String) (u : ℕ) → s ≡ cur → l.arr cur ≡ some t → l.arr s ≡ some u → t ≡ u
  same_label l s u sc e f = some-injective _ _ (cc)

  relax_edge-ClosedBut :
      (l : Labels) (q : List String) (tr : Transfer) (trs : List Transfer)
      → l.arr cur ≡ some t
      → ClosedBut g l (Pending q (tr ∷ trs))
      → let st = relax_edge g cur t tr (l, q) in ClosedBut g st.0 (Pending st.1 trs)
  relax_edge-ClosedBut l q tr trs lab h =
      relax_edge_cases (λ st. ClosedBut g st.0 (Pending st.1 trs)) g cur t tr l q
        (λ why s u x e mem os ox. elim (h s u x e mem os ox) [
          | inl b ↦ inl b
          | inr (inl m) ↦ inr (inl m)
          | inr (inr (sc, inr m)) ↦ inr (inr (sc, m))
          | inr (inr (sc, inl xt)) ↦ inl (
              subst₂ (λ y v. By l y.to_stop_id (v + y.minutes * minute)) (sym xt)
                (same_label l s u sc lab e)
                (made (subst (λ y. g.provisional y.to_stop_id ≡ false) xt ox) why))
        ])
        λ n y s u x e mem os ox. elim (relabel_arr l _ _ _ s u e) [
          | inl (ks, tu) ↦
              inr (inl (subst (λ z. In z (q ++ (tr.to_stop_id ∷ []))) ks (In-append_last _ q)))
          | inr (_, old) ↦ elim (h s u x old mem os ox) [
            | inl b ↦ inl (relabel-By l _ _ _ _ _ y b)
            | inr (inl m) ↦ inr (inl (In-append_left s q _ m))
            | inr (inr (sc, inr m)) ↦ inr (inr (sc, m))
            | inr (inr (sc, inl xt)) ↦ inl (
                subst₂
                  (λ z v.
                    By (relabel l tr.to_stop_id (t + tr.minutes * minute) (by_foot cur))
                      z.to_stop_id (v + z.minutes * minute))
                  (sym xt) (same_label l s u sc lab old) (_, relabel_hit l _ _ _, omega arith))
          ]
        ]
    where
      made :
          g.provisional tr.to_stop_id ≡ false
          → ((g.provisional tr.to_stop_id ≡ true)
              ⊎ (improves l.arr tr.to_stop_id (t + tr.minutes * minute) ≡ false))
          → By l tr.to_stop_id (t + tr.minutes * minute)
      made n (inl y) = absurd (ground arith)
      made n (inr m) = not-improves-By l _ _ m

  relax_edges-ClosedBut :
      (cs : List Connection) (trs : List Transfer) (l : Labels) (q : List String)
      → ((tr : Transfer) → In tr trs → In tr (g.transfers_from cur))
      → g.provisional cur ≡ false
      → Queued l q
      → l.arr cur ≡ some t
      → ClosedBut g l (Pending q trs)
      → let st = relax_edges g cur t trs (l, q) in ClosedBut g st.0 (λ s tr. In s st.1)
  unfolding relax_edges
  relax_edges-ClosedBut cs [] l q sub oc lab e h = λ s u x a mem os ox. elim (h s u x a mem os ox) [
    | inl b ↦ inl b
    | inr (inl m) ↦ inr m
    | inr (inr (sc, m)) ↦ absurd m
  ]
  relax_edges-ClosedBut cs (tr ∷ trs) l q sub oc lab e h =
      let w = relax_edge-Walking g cs cur t l l q tr (sub tr (inl refl)) oc (here, lab, e) in
      relax_edges-ClosedBut cs trs _ _ (λ x m. sub x (inr m)) oc w.1 w.2
        (relax_edge-ClosedBut l q tr trs e h)

module _ (g : Graph) (cs : List Connection) where
  visit-ClosedBut :
      (cur : String) (l : Labels) (q : List String)
      → Queued l (cur ∷ q)
      → ClosedBut g l (λ s tr. In s (cur ∷ q))
      → let st = visit g cur (l, q) in ClosedBut g st.0 (λ s tr. In s st.1)
  unfolding visit
  visit-ClosedBut cur l q ((t, e), lab) h = elim (Bool-cases (g.provisional cur)) [
    | inl y ↦ rw y (λ s u x a mem os ox. elim (h s u x a mem os ox) [
      | inl b ↦ inl b
      | inr (inl sc) ↦ absurd (true≢false (sym y ∙ ap g.provisional (sym sc) ∙ os))
      | inr (inr m) ↦ inr m
    ])
    | inr n ↦
        rw (n, e)
          (relax_edges-ClosedBut g cur t cs (g.transfers_from cur) l q (λ tr m. m) n lab e
            (λ s u x a mem os ox. elim (h s u x a mem os ox) [
              | inl b ↦ inl b
              | inr (inl sc) ↦ inr (inr (sc, subst (λ z. In x (g.transfers_from z)) sc mem))
              | inr (inr m) ↦ inr (inl m)
            ]))
  ]

  pub relax_loop-IsClosed :
      (fuel : ℕ) (l m : Labels) (q : List String)
      → Queued l q
      → ClosedBut g l (λ s tr. In s q)
      → relax_loop g fuel (l, q) ≡ some m
      → IsClosed g m
  unfolding relax_loop
  relax_loop-IsClosed fuel l m [] lab h e = subst (IsClosed g) (some-injective _ _ e) h
  relax_loop-IsClosed zero l m (cur ∷ q) lab h e = absurd (ground arith)
  relax_loop-IsClosed (suc fuel) l m (cur ∷ q) lab h e =
      relax_loop-IsClosed fuel _ m _ (visit-Moves g cs cur l l q here lab).1
        (visit-ClosedBut cur l q lab h) e
