-- ===== src/Planner/Scan/Trail.antt =====
-- The predecessors that the scan leaves, and the loop of `reconstruct` that follows them back.
use mathlib.Core.Bool.{true≢false}
use mathlib.Core.Option.{some-injective, none-ne-some}
use native.Mathlib.Nat.{le_trans, le_of_eq}
use travel_mcp.Prelude.{
  All, All-In, update_same, update_other, ℕ, ◌+◌, ◌*◌, ◌≤◌, ◌≡◌, ◌≢◌, refl, sym, ap, ◌∙◌, subst,
  inl, inr, String, true, false, List, some, none, arith, In, Bool-cases, str_eq, eq_iff,
}
use travel_mcp.Model.{Transfer, Connection, minute}
use travel_mcp.Planner.Scan.{Prev, by_foot, by_conn, Labels, Graph, init, improves, relabel, labels}
use travel_mcp.Planner.Scan.Moves.{
  Move, foot, ride, Moves_ind, relabel_arr, relabel_hit, relabel_falls, IsLabelled,
  relabel-IsLabelled, labels-Moves,
}
use travel_mcp.Planner.Scan.Sound.{init_arr, init_from}
use travel_mcp.Planner.Scan.Closed.{By, relabel-By, improves-By}

-- The stop that a predecessor leads back to.
abbrev pub origin : Prev → String
origin (by_conn c) = c.from
origin (by_foot s) = s

module _ (l : Labels) (k : String) (v : ℕ) (p : Prev) where
  relabel_pred_hit : (relabel l k v p).pred k ≡ some p
  unfolding relabel
  relabel_pred_hit = update_same l.pred k k p refl

  relabel_pred_other :
      (s : String) (q : Prev) → k ≢ s → l.pred s ≡ some q → (relabel l k v p).pred s ≡ some q
  unfolding relabel
  relabel_pred_other s q ne e = update_other l.pred k s p ne ∙ e

  relabel_pred_old :
      (s : String) (q : Prev) → k ≢ s → (relabel l k v p).pred s ≡ some q → l.pred s ≡ some q
  unfolding relabel
  relabel_pred_old s q ne e = sym (update_other l.pred k s p ne) ∙ e

  relabel_pred_none : (s : String) → k ≢ s → l.pred s ≡ none → (relabel l k v p).pred s ≡ none
  unfolding relabel
  relabel_pred_none s ne e = update_other l.pred k s p ne ∙ e

  relabel_arr_other :
      (s : String) (t : ℕ) → k ≢ s → l.arr s ≡ some t → (relabel l k v p).arr s ≡ some t
  unfolding relabel
  relabel_arr_other s t ne e = update_other l.arr k s v ne ∙ e

init_preds : (from : String) (depart : ℕ) (s : String) → (init from depart).pred s ≡ none
unfolding init
init_preds from depart s = refl

init_unled : (from : String) (depart : ℕ) → (init from depart).pred from ≡ none
unfolding init
init_unled from depart = refl

module _ (g : Graph) (cs : List Connection) where
  -- What a predecessor of the stop `s` with the label `t` says: a boarded connection that ends there
  -- at that time and leaves after the label of its first stop, or a foot transfer that takes no
  -- longer than the labels allow.
  abbrev pub Leads : Labels → Prev → String → ℕ → Type 0
  Leads l (by_conn c) s t =
      In c cs × (g.boards c ≡ true) × (c.to ≡ s) × (c.arrival ≡ t) × By l c.from c.departure
  Leads l (by_foot cur) s t =
      (tr : Transfer) × In tr (g.transfers_from cur)
      × (g.provisional cur ≡ false)
      × (g.provisional tr.to_stop_id ≡ false)
      × (tr.to_stop_id ≡ s)
      × (u : ℕ) × (l.arr cur ≡ some u)
      × (u + tr.minutes * minute ≤ t)

  -- The stops whose predecessors lead back to `from`.
  pub data Trail (l : Labels) (from : String) : String → Type 0 where
    home : Trail l from from
    back :
        {s : String} (p : Prev) (t : ℕ)
        → l.pred s ≡ some p
        → l.arr s ≡ some t
        → Leads l p s t
        → Trail l from (origin p)
        → Trail l from s

  -- A stop with a trail is the first one or has a predecessor.
  pub Trail-pred :
      (l : Labels) (from s : String) → Trail l from s → s ≢ from → (p : Prev) × (l.pred s ≡ some p)
  Trail-pred l from s home ne = absurd (ne refl)
  Trail-pred l from s (back p t pe ae leads rest) ne = (p, pe)

  -- No connection arrives before it leaves.
  abbrev pub NeverBack : Type 0
  NeverBack = All (λ c. c.departure ≤ c.arrival) cs

  Leads-By :
      (l : Labels) (p : Prev) (s : String) (t : ℕ) → NeverBack → Leads l p s t → By l (origin p) t
  Leads-By l (by_conn c) s t nb (mem, b, to, at, (u, e, le)) =
      (u, e, omega (arith, All-In _ c cs nb mem))
  Leads-By l (by_foot cur) s t nb (tr, mem, oc, ot, to, u, e, le) = (u, e, omega arith)

  module _ (l : Labels) (k : String) (v : ℕ) (p : Prev) (imp : improves l.arr k v ≡ true) where
    relabel-Leads : (q : Prev) (s : String) (t : ℕ) → Leads l q s t → Leads (relabel l k v p) q s t
    relabel-Leads (by_conn c) s t (mem, b, to, at, by) =
        (mem, b, to, at, relabel-By l k v p c.from c.departure imp by)
    relabel-Leads (by_foot cur) s t (tr, mem, oc, ot, to, u, e, le) =
        let (w, f, lf) = relabel_falls l k v p cur u imp e in
        (tr, mem, oc, ot, to, w, f, omega arith)

    -- A trail from a stop with an earlier label does not pass the relabelled one.
    Trail-before :
        (from s : String) (t : ℕ)
        → NeverBack
        → l.arr s ≡ some t
        → t ≤ v
        → Trail l from s
        → Trail (relabel l k v p) from s
    Trail-before from s t nb e le home = home
    Trail-before from s t nb e le (back q t' pe ae leads rest) =
        let tt' : t ≡ t' = some-injective _ _ (sym e ∙ ae) in
        let ne : k ≢ s = λ ks. improves-By l k v imp (t, ap l.arr ks ∙ e, le) in
        let (u, oe, ole) = Leads-By l q s t' nb leads in
        back q t' (relabel_pred_other l k v p s q ne pe) (relabel_arr_other l k v p s t' ne ae)
          (relabel-Leads q s t' leads) (Trail-before from (origin q) u nb oe (omega arith) rest)

    -- All other trails are kept, with the new trail of the relabelled stop put in.
    Trail-after :
        (from s : String)
        → Trail (relabel l k v p) from k
        → Trail l from s
        → Trail (relabel l k v p) from s
    Trail-after from s new home = home
    Trail-after from s new (back q t pe ae leads rest) = elim (Bool-cases (str_eq k s)) [
      | inl y ↦ subst (Trail (relabel l k v p) from) ((eq_iff k s).0 y) new
      | inr n ↦
          let ne : k ≢ s = λ ks. true≢false (sym ((eq_iff k s).1 ks) ∙ n) in
          back q t (relabel_pred_other l k v p s q ne pe) (relabel_arr_other l k v p s t ne ae)
            (relabel-Leads q s t leads) (Trail-after from (origin q) new rest)
    ]

  -- Every labelled stop has a trail, no label is before the departure, and the first stop keeps its
  -- label and has no predecessor.
  pub record HasTrails (from : String) (depart : ℕ) (l : Labels) : Type 0 where
    pub trail : (s : String) (t : ℕ) → l.arr s ≡ some t → Trail l from s
    pub floor : (s : String) (t : ℕ) → l.arr s ≡ some t → depart ≤ t
    pub root : l.arr from ≡ some depart
    pub unled : l.pred from ≡ none
    pub led : (s : String) (p : Prev) → l.pred s ≡ some p → IsLabelled l s

  relabel-HasTrails :
      (from : String) (depart : ℕ) (l : Labels) (k : String) (v : ℕ) (p : Prev)
      → NeverBack
      → improves l.arr k v ≡ true
      → Leads l p k v
      → HasTrails from depart l
      → HasTrails from depart (relabel l k v p)
  relabel-HasTrails from depart l k v p nb imp leads h =
      let (u, oe, ole) = Leads-By l p k v nb leads in
      let low : depart ≤ v = le_trans (h.floor (origin p) u oe) ole in
      let ne : k ≢ from = λ kf. improves-By l k v imp (depart, ap l.arr kf ∙ h.root, low) in
      let new : Trail (relabel l k v p) from k =
        back p v (relabel_pred_hit l k v p) (relabel_hit l k v p)
          (relabel-Leads l k v p imp p k v leads)
          (Trail-before l k v p imp from (origin p) u nb oe ole (h.trail (origin p) u oe)) in
      record {
        trail = λ s t e. elim (relabel_arr l k v p s t e) [
          | inl (ks, _) ↦ subst (Trail (relabel l k v p) from) ks new
          | inr (_, old) ↦ Trail-after l k v p imp from s new (h.trail s t old)
        ];
        floor = λ s t e. elim (relabel_arr l k v p s t e) [
          | inl (_, vt) ↦ subst (λ x. depart ≤ x) vt low
          | inr (_, old) ↦ h.floor s t old
        ];
        root = relabel_arr_other l k v p from depart ne h.root;
        unled = relabel_pred_none l k v p from ne h.unled;
        led = λ s q e. elim (Bool-cases (str_eq k s)) [
          | inl y ↦ (
            v,
            subst (λ z. (relabel l k v p).arr z ≡ some v) ((eq_iff k s).0 y) (relabel_hit l k v p),
          )
          | inr n ↦ relabel-IsLabelled l k v p s (
              h.led s q
                (relabel_pred_old l k v p s q (λ ks. true≢false (sym ((eq_iff k s).1 ks) ∙ n)) e))
        ];
      }

  Move-HasTrails :
      (from : String) (depart : ℕ)
      → NeverBack
      → (l m : Labels) → Move g cs l m
      → HasTrails from depart l
      → HasTrails from depart m
  Move-HasTrails from depart nb l m (foot cur t tr e mem oc ot imp) h =
      relabel-HasTrails from depart l _ _ _ nb imp (tr, mem, oc, ot, refl, t, e, omega arith) h
  Move-HasTrails from depart nb l m (ride c at mem b e le imp) h =
      relabel-HasTrails from depart l _ _ _ nb imp (mem, b, refl, refl, (at, e, le)) h

  init-HasTrails : (from : String) (depart : ℕ) → HasTrails from depart (init from depart)
  init-HasTrails from depart = record {
    trail = λ s t e. subst (Trail (init from depart) from) (init_arr from depart s t e).0 home;
    floor = λ s t e. le_of_eq (init_arr from depart s t e).1;
    root = init_from from depart;
    unled = init_unled from depart;
    led = λ s p e. absurd (none-ne-some p (sym (init_preds from depart s) ∙ e));
  }

  pub labels-HasTrails :
      (fuel : ℕ) (from : String) (depart : ℕ) (m : Labels)
      → NeverBack
      → labels g fuel cs from depart ≡ some m
      → HasTrails from depart m
  labels-HasTrails fuel from depart m nb e =
      Moves_ind (HasTrails from depart) (Move-HasTrails from depart nb) (init-HasTrails from depart)
        (labels-Moves g cs fuel from depart m e)
