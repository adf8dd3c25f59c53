-- ===== src/Planner/Scan/Moves.antt =====
-- Every change that `csa` makes to its labels is one of two moves: a walk from a labelled stop, or a
-- ride on a connection that is boarded in time.
use mathlib.Core.Option
use mathlib.Core.Option.{get_or, some-injective}
use travel_mcp.Prelude.{
  ℕ, zero, suc, ◌+◌, ◌*◌, ◌≤◌, ◌<◌, ◌≡◌, refl, subst, ◌≢◌, ◌⊎◌, inl, inr, String, true, false, List,
  [], ◌∷◌, ◌++◌, Option, none, some, arith, In, All, All-append, Bool-cases, Option-cases, str_eq,
  eq_iff, update_same, ltb, ltb→lt,
}
use travel_mcp.Model.{Transfer, Connection, minute}
use travel_mcp.Planner.Scan.{
  Prev, by_conn, by_foot, Labels, Graph, improves, relabel, relax_edge, relax_edges, visit,
  relax_loop, relax, scan_one, scan, init, labels,
}

pub data Move (g : Graph) (cs : List Connection) (l : Labels) : Labels → Type 0 where
  foot :
      (cur : String) (t : ℕ) (tr : Transfer)
      → l.arr cur ≡ some t
      → In tr (g.transfers_from cur)
      → g.provisional cur ≡ false
      → g.provisional tr.to_stop_id ≡ false
      → improves l.arr tr.to_stop_id (t + tr.minutes * minute) ≡ true
      → Move g cs l (relabel l tr.to_stop_id (t + tr.minutes * minute) (by_foot cur))
  ride :
      (c : Connection) (at : ℕ)
      → In c cs
      → g.boards c ≡ true
      → l.arr c.from ≡ some at
      → at ≤ c.departure
      → improves l.arr c.to c.arrival ≡ true
      → Move g cs l (relabel l c.to c.arrival (by_conn c))

pub data Moves (g : Graph) (cs : List Connection) (l : Labels) : Labels → Type 0 where
  here : Moves g cs l l
  next : {m n : Labels} → Moves g cs l m → Move g cs m n → Moves g cs l n

-- The rule of induction: what every move keeps, the scan keeps.
pub Moves_ind :
    {g : Graph} {cs : List Connection} {l m : Labels} (P : Labels → Type 0)
    → ((a b : Labels) → Move g cs a b → P a → P b)
    → P l
    → Moves g cs l m
    → P m
Moves_ind P keep p here = p
Moves_ind P keep p (next ms mv) = keep _ _ mv (Moves_ind P keep p ms)

pub trans :
    {g : Graph} {cs : List Connection} {l m n : Labels}
    → Moves g cs l m
    → Moves g cs m n
    → Moves g cs l n
trans ms here = ms
trans ms (next ns mv) = next (trans ms ns) mv

abbrev pub IsLabelled : Labels → String → Type 0
IsLabelled l s = (t : ℕ) × (l.arr s ≡ some t)

abbrev pub Queued : Labels → List String → Type 0
Queued l q = All (IsLabelled l) q

pub relabel-IsLabelled :
    (l : Labels) (k : String) (t : ℕ) (p : Prev) (s : String)
    → IsLabelled l s
    → IsLabelled (relabel l k t p) s
unfolding relabel
relabel-IsLabelled l k t p s (u, e) = elim (Bool-cases (str_eq k s)) [
  | inl y ↦ (t, rw y)
  | inr n ↦ (u, rw n e)
]

pub relabel-Queued :
    (l : Labels) (k : String) (t : ℕ) (p : Prev) (q : List String)
    → Queued l q
    → Queued (relabel l k t p) q
relabel-Queued l k t p [] h = tt
relabel-Queued l k t p (s ∷ q) (h, hs) =
    (relabel-IsLabelled l k t p s h, relabel-Queued l k t p q hs)

pub relabel_hit : (l : Labels) (k : String) (t : ℕ) (p : Prev) → (relabel l k t p).arr k ≡ some t
unfolding relabel
relabel_hit l k t p = update_same l.arr k k t refl

-- The label of a stop after a relabelling: the new one, or the old one of another stop.
pub relabel_arr :
    (l : Labels) (k : String) (t : ℕ) (p : Prev) (s : String) (u : ℕ)
    → (relabel l k t p).arr s ≡ some u
    → ((k ≡ s) × (t ≡ u)) ⊎ ((k ≢ s) × (l.arr s ≡ some u))
unfolding relabel
relabel_arr l k t p s u e = elim (Bool-cases (str_eq k s)) [
  | inl y ↦ inl ((eq_iff k s).0 y, ground arith)
  | inr n ↦ inr (λ h. ground (arith, eq_iff k s), ground arith)
]

-- A label only ever falls.
pub relabel_falls :
    (l : Labels) (k : String) (t : ℕ) (p : Prev) (s : String) (u : ℕ)
    → improves l.arr k t ≡ true
    → l.arr s ≡ some u
    → (v : ℕ) × ((relabel l k t p).arr s ≡ some v) × (v ≤ u)
unfolding relabel improves
relabel_falls l k t p s u imp e = elim (Bool-cases (str_eq k s)) [
  | inl y ↦ (t, rw y, ground (arith, eq_iff k s))
  | inr n ↦ (u, rw n e, omega arith)
]

-- A stop's label is not improved by a time that is no earlier.
pub relabel_later :
    (l : Labels) (k : String) (t u : ℕ) (p : Prev) (s : String)
    → l.arr s ≡ some u
    → u ≤ t
    → improves l.arr k t ≡ true
    → (relabel l k t p).arr s ≡ some u
unfolding relabel improves
relabel_later l k t u p s e le imp = ground (arith, eq_iff k s)

-- The cases of one turn of the inner loop.
pub relax_edge_cases {ℓ} :
    (P : Labels × List String → Type ℓ) (g : Graph) (cur : String) (t : ℕ) (tr : Transfer)
    (l : Labels) (q : List String)
    → (((g.provisional tr.to_stop_id ≡ true)
          ⊎ (improves l.arr tr.to_stop_id (t + tr.minutes * minute) ≡ false))
        → P (l, q))
    → (g.provisional tr.to_stop_id ≡ false
        → improves l.arr tr.to_stop_id (t + tr.minutes * minute) ≡ true
        → P (
          relabel l tr.to_stop_id (t + tr.minutes * minute) (by_foot cur),
          q ++ (tr.to_stop_id ∷ []),
        ))
    → P (relax_edge g cur t tr (l, q))
unfolding relax_edge
relax_edge_cases P g cur t tr l q same moved = elim (Bool-cases (g.provisional tr.to_stop_id)) [
  | inl y ↦ rw y (same (inl y))
  | inr n ↦ rw n (elim (Bool-cases (improves l.arr tr.to_stop_id (t + tr.minutes * minute))) [
    | inl y ↦ rw y (moved n y)
    | inr m ↦ rw m (same (inr m))
  ])
]

-- A chain of two fallible steps that succeeds.
pub bind-eq-some {ℓ κ} :
    {A : Type ℓ} {B : Type κ} (o : Option A) (f : A → Option B) {b : B}
    → Option.bind o f ≡ some b
    → (a : A) × (o ≡ some a) × (f a ≡ some b)
unfolding Option.bind
bind-eq-some none f e = cc
bind-eq-some (some a) f e = (a, refl, e)

-- Why the scan passes a connection over.
abbrev pub Passed : Graph → Connection → Labels → Type 0
Passed g c l =
    (g.boards c ≡ false)
    ⊎ (l.arr c.from ≡ none)
    ⊎ ((at : ℕ) × (l.arr c.from ≡ some at) × (c.departure < at))
    ⊎ (improves l.arr c.to c.arrival ≡ false)

-- The cases of one turn of the scan: the connection is passed over, or it is boarded and the foot
-- transfers from its end are relaxed.
pub scan_one_cases {ℓ} :
    (P : Labels → Type ℓ) (g : Graph) (fuel : ℕ) (c : Connection) (l m : Labels)
    → scan_one g fuel c l ≡ some m
    → (Passed g c l → P l)
    → ((at : ℕ)
        → g.boards c ≡ true
        → l.arr c.from ≡ some at
        → at ≤ c.departure
        → improves l.arr c.to c.arrival ≡ true
        → relax g fuel c.to (relabel l c.to c.arrival (by_conn c)) ≡ some m
        → P m)
    → P m
unfolding scan_one
scan_one_cases P g fuel c l m e same moved = elim (Bool-cases (g.boards c)) [
  | inr n ↦ passed (ground arith) (inl n)
  | inl b ↦ elim (Option-cases (l.arr c.from)) [
    | inl n ↦ passed (ground arith) (inr (inl n))
    | inr (at, a) ↦ elim (Bool-cases (ltb c.departure at)) [
      | inl late ↦ passed (ground arith) (inr (inr (inl (at, a, ltb→lt _ _ late))))
      | inr t ↦ elim (Bool-cases (improves l.arr c.to c.arrival)) [
        | inr n ↦ passed (ground arith) (inr (inr (inr n)))
        | inl y ↦ moved at b a (ground arith) y (ground arith)
      ]
    ]
  ]
]
  where
    passed : l ≡ m → Passed g c l → P m
    passed p why = subst P p (same why)

module _ (g : Graph) (cs : List Connection) (cur : String) (t : ℕ) where
  -- What holds of the labels and the work list all through the inner loop for the stop `cur`.
  abbrev pub Walking : Labels → Labels × List String → Type 0
  Walking l₀ st = Moves g cs l₀ st.0 × Queued st.0 st.1 × (st.0.arr cur ≡ some t)

  pub relax_edge-Walking :
      (l₀ l : Labels) (q : List String) (tr : Transfer)
      → In tr (g.transfers_from cur)
      → g.provisional cur ≡ false
      → Walking l₀ (l, q)
      → Walking l₀ (relax_edge g cur t tr (l, q))
  relax_edge-Walking l₀ l q tr mem open_cur (ms, lab, e) =
      relax_edge_cases (Walking l₀) g cur t tr l q (λ _. (ms, lab, e))
        λ n y. (
          next ms (foot cur t tr e mem open_cur n y),
          All-append _ q _ (relabel-Queued l _ _ _ q lab) ((_, relabel_hit l _ _ _), tt),
          relabel_later l _ _ t _ cur e (omega arith) y,
        )

  pub relax_edges-Walking :
      (trs : List Transfer) (l₀ l : Labels) (q : List String)
      → ((tr : Transfer) → In tr trs → In tr (g.transfers_from cur))
      → g.provisional cur ≡ false
      → Walking l₀ (l, q)
      → Walking l₀ (relax_edges g cur t trs (l, q))
  unfolding relax_edges
  relax_edges-Walking [] l₀ l q sub open_cur w = w
  relax_edges-Walking (tr ∷ trs) l₀ l q sub open_cur w =
      let st = relax_edge g cur t tr (l, q) in
      relax_edges-Walking trs l₀ st.0 st.1 (λ x m. sub x (inr m)) open_cur
        (relax_edge-Walking l₀ l q tr (sub tr (inl refl)) open_cur w)

module _ (g : Graph) (cs : List Connection) where
  pub visit-Moves :
      (cur : String) (l₀ l : Labels) (q : List String)
      → Moves g cs l₀ l
      → Queued l (cur ∷ q)
      → Moves g cs l₀ (visit g cur (l, q)).0 × Queued (visit g cur (l, q)).0 (visit g cur (l, q)).1
  unfolding visit
  visit-Moves cur l₀ l q ms ((t, e), lab) = elim (Bool-cases (g.provisional cur)) [
    | inl y ↦ rw y (ms, lab)
    | inr n ↦
        let w =
          relax_edges-Walking g cs cur t (g.transfers_from cur) l₀ l q (λ tr m. m) n (ms, lab, e) in
        rw (n, e) (w.0, w.1)
  ]

  pub relax_loop-Moves :
      (fuel : ℕ) (l₀ l m : Labels) (q : List String)
      → Moves g cs l₀ l
      → Queued l q
      → relax_loop g fuel (l, q) ≡ some m
      → Moves g cs l₀ m
  unfolding relax_loop
  relax_loop-Moves fuel l₀ l m [] ms lab e = subst (Moves g cs l₀) (some-injective _ _ e) ms
  relax_loop-Moves zero l₀ l m (cur ∷ q) ms lab e = cc
  relax_loop-Moves (suc fuel) l₀ l m (cur ∷ q) ms lab e =
      let (ms', lab') = visit-Moves cur l₀ l q ms lab in
      relax_loop-Moves fuel l₀ (visit g cur (l, q)).0 m (visit g cur (l, q)).1 ms' lab' e

  pub scan_one-Moves :
      (fuel : ℕ) (c : Connection) (l₀ l m : Labels)
      → In c cs
      → Moves g cs l₀ l
      → scan_one g fuel c l ≡ some m
      → Moves g cs l₀ m
  unfolding relax
  scan_one-Moves fuel c l₀ l m mem ms e =
      scan_one_cases (Moves g cs l₀) g fuel c l m e (λ _. ms)
        λ at b a le y run.
          relax_loop-Moves fuel l₀ _ m (c.to ∷ []) (next ms (ride c at mem b a le y))
            ((_, relabel_hit l _ _ _), tt) run

  pub scan-Moves :
      (fuel : ℕ) (todo : List Connection) (l₀ l m : Labels)
      → ((c : Connection) → In c todo → In c cs)
      → Moves g cs l₀ l
      → scan g fuel todo l ≡ some m
      → Moves g cs l₀ m
  unfolding scan
  scan-Moves fuel [] l₀ l m sub ms e = subst (Moves g cs l₀) (some-injective _ _ e) ms
  scan-Moves fuel (c ∷ todo) l₀ l m sub ms e =
      let (k, one, rest) = bind-eq-some (scan_one g fuel c l) (scan g fuel todo) e in
      scan-Moves fuel todo l₀ k m (λ x h. sub x (inr h))
        (scan_one-Moves fuel c l₀ l k (sub c (inl refl)) ms one) rest

  -- Whatever the fuel, the labels that the scan ends with come about by moves.
  pub labels-Moves :
      (fuel : ℕ) (from : String) (depart : ℕ) (m : Labels)
      → labels g fuel cs from depart ≡ some m
      → Moves g cs (init from depart) m
  unfolding labels relax init
  labels-Moves fuel from depart m e =
      let (k, walk, rest) =
        bind-eq-some (relax g fuel from (init from depart)) (scan g fuel cs) e in
      scan-Moves fuel cs _ k m (λ c h. h)
        (relax_loop-Moves fuel _ _ k (from ∷ []) here
          ((depart, update_same (λ _. none) from from _ refl), tt) walk)
        rest
