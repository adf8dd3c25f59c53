-- ===== src/Planner/Scan/Earliest.antt =====
-- The labels that the scan ends with are the earliest arrivals, if the connections are scanned by
-- departure and each takes some time.
use mathlib.Core.Option.{some-injective}
use travel_mcp.Prelude.{
  ℕ, ◌≤◌, ◌<◌, ◌≡◌, sym, ap, ◌∙◌, subst, ◌⊎◌, inl, inr, String, true, List, [], ◌∷◌, some, arith,
  In, All, All-In,
}
use travel_mcp.Model.{Connection}
use travel_mcp.Planner.Scan.{
  by_conn, Labels, Graph, init, improves, relabel, relax, scan_one, scan, labels,
}
use travel_mcp.Planner.Scan.Moves.{
  foot, ride, Moves, here, next, relabel_arr, relabel_hit, scan_one_cases, Passed, bind-eq-some,
  scan-Moves, labels-Moves, relax_loop-Moves,
}
use travel_mcp.Planner.Scan.Sound.{Reach, start, walk, board, Moves-falls, init_arr, init_from}
use travel_mcp.Planner.Scan.Closed.{
  By, ClosedBut, IsClosed, relabel-By, relax_loop-IsClosed, improves-By, not-improves-By,
}

-- The connections stand by departure.
abbrev pub IsSorted : List Connection → Type 0
IsSorted [] = Unit
IsSorted (c ∷ cs) = All (λ d. c.departure ≤ d.departure) cs × IsSorted cs

-- Each connection takes some time.
abbrev pub TakesTime : List Connection → Type 0
TakesTime cs = All (λ c. c.departure < c.arrival) cs

-- The connections from `c.departure` on that the labels do not yet use.
abbrev Used : Labels → Connection → Type 0
Used l c = (t : ℕ) → l.arr c.from ≡ some t → t ≤ c.departure → By l c.to c.arrival

module _ (g : Graph) where
  no_exception : {A : Type 0} → A ⊎ ⊥ → A
  no_exception (inl a) = a
  no_exception (inr h) = absurd h

  falls_By :
      (cs : List Connection) (l m : Labels) (s : String) (t : ℕ)
      → Moves g cs l m
      → By l s t
      → By m s t
  falls_By cs l m s t ms (u, e, le) =
      let (v, f, lv) = Moves-falls g cs s u l m ms e in (v, f, omega arith)

  -- Moves on foot and on connections that leave no earlier than `d` and take some time leave the
  -- labels up to `d` as they were.
  late-Moves :
      (cs : List Connection) (d : ℕ) (l m : Labels)
      → All (λ c. d ≤ c.departure) cs
      → TakesTime cs
      → IsClosed g l
      → Moves g cs l m
      → (s : String) (u : ℕ) → m.arr s ≡ some u
      → u ≤ d
      → l.arr s ≡ some u
  late-Moves cs d l m after pos cl here s u e le = e
  late-Moves cs d l m after pos cl (next {m = k} ms (foot cur t tr lab mem oc ot imp)) s u e le =
      elim (relabel_arr k _ _ _ s u e) [
        | inr (_, old) ↦ late-Moves cs d l k after pos cl ms s u old le
        | inl (ks, tu) ↦
            let before = late-Moves cs d l k after pos cl ms cur t lab (omega arith) in
            absurd (
              improves-By k _ _ imp
                (falls_By cs l k _ _ ms (no_exception (cl cur t tr before mem oc ot))))
      ]
  late-Moves cs d l m after pos cl (next {m = k} ms (ride c at mem b lab ok imp)) s u e le =
      elim (relabel_arr k _ _ _ s u e) [
        | inr (_, old) ↦ late-Moves cs d l k after pos cl ms s u old le
        | inl (ks, tu) ↦ absurd (omega (arith, All-In _ c cs after mem, All-In _ c cs pos mem))
      ]

  scan_one-IsClosed :
      (fuel : ℕ) (c : Connection) (l m : Labels)
      → IsClosed g l
      → scan_one g fuel c l ≡ some m
      → IsClosed g m
  unfolding relax
  scan_one-IsClosed fuel c l m cl e =
      scan_one_cases (IsClosed g) g fuel c l m e (λ _. cl)
        λ at b a le y run.
          relax_loop-IsClosed g (c ∷ []) fuel _ m (c.to ∷ []) ((_, relabel_hit l _ _ _), tt)
            (boarded y) run
    where
      boarded :
          improves l.arr c.to c.arrival ≡ true
          → ClosedBut g (relabel l c.to c.arrival (by_conn c)) (λ s tr. In s (c.to ∷ []))
      boarded y s u x a mem os ox = elim (relabel_arr l _ _ _ s u a) [
        | inl (ks, tu) ↦ inr (inl (sym ks))
        | inr (_, old) ↦ inl (relabel-By l _ _ _ _ _ y (no_exception (cl s u x old mem os ox)))
      ]

  scan_one-Used :
      (fuel : ℕ) (c : Connection) (l m : Labels) (t : ℕ)
      → g.boards c ≡ true
      → l.arr c.from ≡ some t
      → t ≤ c.departure
      → scan_one g fuel c l ≡ some m
      → By m c.to c.arrival
  unfolding relax
  scan_one-Used fuel c l m t b lab le e =
      scan_one_cases (λ n. By n c.to c.arrival) g fuel c l m e passed
        λ at _ a _ y run.
          falls_By (c ∷ []) (relabel l c.to c.arrival (by_conn c)) m c.to c.arrival
            (relax_loop-Moves g (c ∷ []) fuel _ _ m (c.to ∷ []) here ((_, relabel_hit l _ _ _), tt)
              run)
            (c.arrival, relabel_hit l _ _ _, omega arith)
    where
      passed : Passed g c l → By l c.to c.arrival
      passed (inl n) = absurd (ground arith)
      passed (inr (inl n)) = absurd (ground arith)
      passed (inr (inr (inl (at, a, lt)))) = absurd (ground arith)
      passed (inr (inr (inr n))) = not-improves-By l _ _ n

  scan_settles :
      (fuel : ℕ) (todo : List Connection) (l m : Labels)
      → IsClosed g l
      → IsSorted todo
      → TakesTime todo
      → scan g fuel todo l ≡ some m
      → IsClosed g m × All (λ c. g.boards c ≡ true → Used m c) todo
  unfolding scan
  scan_settles fuel [] l m cl sorted pos e = (subst (IsClosed g) (some-injective _ _ e) cl, tt)
  scan_settles fuel (c ∷ todo) l m cl (first, sorted) (p, pos) e =
      let (k, one, rest) = bind-eq-some (scan_one g fuel c l) (scan g fuel todo) e in
      let cs : List Connection = c ∷ todo in
      let all_moves = scan-Moves g cs fuel cs l l m (λ x h. h) here e in
      let rest_moves = scan-Moves g todo fuel todo k k m (λ x h. h) here rest in
      let (cl', used) =
        scan_settles fuel todo k m (scan_one-IsClosed fuel c l k cl one) sorted pos rest in
      let use_c : g.boards c ≡ true → Used m c = λ b t lab le.
        let before =
          late-Moves cs c.departure l m (omega arith, first) (p, pos) cl all_moves c.from t lab
            le in
        falls_By todo k m c.to c.arrival rest_moves (scan_one-Used fuel c l k t b before le one) in
      (cl', (use_c, used))

  labels_settle :
      (fuel : ℕ) (cs : List Connection) (from : String) (depart : ℕ) (m : Labels)
      → IsSorted cs
      → TakesTime cs
      → labels g fuel cs from depart ≡ some m
      → IsClosed g m × All (λ c. g.boards c ≡ true → Used m c) cs
  unfolding labels relax
  labels_settle fuel cs from depart m sorted pos e =
      let (k, first, rest) =
        bind-eq-some (relax g fuel from (init from depart)) (scan g fuel cs) e in
      scan_settles fuel cs k m
        (relax_loop-IsClosed g cs fuel (init from depart) k (from ∷ [])
          ((depart, init_from from depart), tt)
          (λ s t tr lab mem os ot. inr (inl (sym (init_arr from depart s t lab).0))) first)
        sorted pos rest

  -- If the connections stand by departure and each takes some time, the labels that the scan ends
  -- with are no later than any itinerary.
  pub labels_earliest :
      (fuel : ℕ) (cs : List Connection) (from : String) (depart : ℕ) (m : Labels)
      → IsSorted cs
      → TakesTime cs
      → labels g fuel cs from depart ≡ some m
      → (s : String) (t : ℕ) → Reach g cs from depart s t
      → By m s t
  labels_earliest fuel cs from depart m sorted pos e s t r = go s t r
    where
      done : IsClosed g m × All (λ c. g.boards c ≡ true → Used m c) cs
      done = labels_settle fuel cs from depart m sorted pos e

      go : (s : String) (t : ℕ) → Reach g cs from depart s t → By m s t
      go s t start =
          falls_By cs _ m s t (labels-Moves g cs fuel from depart m e)
            (t, init_from s t, omega arith)
      go _ _ (walk {s} {t} tr r mem os ot) =
          let (u, lab, le) = go s t r in
          let (v, f, lv) = no_exception (done.0 s u tr lab mem os ot) in (v, f, omega arith)
      go _ _ (board {s} {t} c r mem b cf le) =
          let (u, lab, lu) = go s t r in
          All-In _ c cs done.1 mem b u (ap m.arr cf ∙ lab) (omega arith)
