-- ===== src/Planner/Scan/Sound.antt =====
-- Itineraries over the network, described apart from the algorithm, and the labels that stand for
-- them.
use mathlib.Core.Path.{subst₂}
use travel_mcp.Prelude.{
  ℕ, ◌+◌, ◌*◌, ◌≤◌, ◌≡◌, refl, subst, inl, inr, String, true, false, List, some, arith, In, none,
  update_same, Bool-cases, str_eq, eq_iff,
}
use travel_mcp.Model.{Transfer, Connection, minute}
use travel_mcp.Planner.Scan.{Labels, Graph, init, relabel}
use travel_mcp.Planner.Scan.Moves.{
  Move, foot, ride, Moves, Moves_ind, here, next, relabel_arr, relabel_falls,
}

-- `Reach g cs from depart s t`: a traveller who is at `from` at the time `depart` can be at `s` at
-- the time `t`, on foot transfers between stops that are not provisional and on connections that may
-- be boarded and that leave no earlier than the traveller stands at their stop.
pub data Reach (g : Graph) (cs : List Connection) (from : String) (depart : ℕ)
    : String → ℕ → Type 0 where
  start : Reach g cs from depart from depart
  walk :
      {s : String} {t : ℕ} (tr : Transfer)
      → Reach g cs from depart s t
      → In tr (g.transfers_from s)
      → g.provisional s ≡ false
      → g.provisional tr.to_stop_id ≡ false
      → Reach g cs from depart tr.to_stop_id (t + tr.minutes * minute)
  board :
      {s : String} {t : ℕ} (c : Connection)
      → Reach g cs from depart s t
      → In c cs
      → g.boards c ≡ true
      → c.from ≡ s
      → t ≤ c.departure
      → Reach g cs from depart c.to c.arrival

pub init_from : (from : String) (depart : ℕ) → (init from depart).arr from ≡ some depart
unfolding init
init_from from depart = update_same (λ _. none) from from depart refl

pub init_arr :
    (from : String) (depart : ℕ) (s : String) (t : ℕ)
    → (init from depart).arr s ≡ some t
    → (from ≡ s) × (depart ≡ t)
unfolding init
init_arr from depart s t e = elim (Bool-cases (str_eq from s)) [
  | inl y ↦ ((eq_iff from s).0 y, ground arith)
  | inr n ↦ absurd (ground arith)
]

module _ (g : Graph) (cs : List Connection) where
  -- Every label stands for an itinerary.
  abbrev pub IsSound : String → ℕ → Labels → Type 0
  IsSound from depart l = (s : String) (t : ℕ) → l.arr s ≡ some t → Reach g cs from depart s t

  relabel-IsSound :
      (from : String) (depart : ℕ) (l : Labels) (k : String) (t : ℕ) (p : _)
      → Reach g cs from depart k t
      → IsSound from depart l
      → IsSound from depart (relabel l k t p)
  relabel-IsSound from depart l k t p r h s u e = elim (relabel_arr l k t p s u e) [
    | inl (ks, tu) ↦
        subst (Reach g cs from depart s) tu (subst (λ x. Reach g cs from depart x t) ks r)
    | inr (_, old) ↦ h s u old
  ]

  Move-IsSound :
      (from : String) (depart : ℕ) (l m : Labels)
      → Move g cs l m
      → IsSound from depart l
      → IsSound from depart m
  Move-IsSound from depart l m (foot cur t tr e mem oc ot imp) h =
      relabel-IsSound from depart l _ _ _ (walk tr (h cur t e) mem oc ot) h
  Move-IsSound from depart l m (ride c at mem b e le imp) h =
      relabel-IsSound from depart l _ _ _ (board c (h c.from at e) mem b refl le) h

  init-IsSound : (from : String) (depart : ℕ) → IsSound from depart (init from depart)
  init-IsSound from depart s t e =
      let (fs, dt) = init_arr from depart s t e in subst₂ (Reach g cs from depart) fs dt start

  pub Moves-IsSound :
      (from : String) (depart : ℕ) (m : Labels)
      → Moves g cs (init from depart) m
      → IsSound from depart m
  Moves-IsSound from depart m =
      Moves_ind (IsSound from depart) (Move-IsSound from depart) (init-IsSound from depart)

  Move-falls :
      (s : String) (u : ℕ) (l m : Labels)
      → Move g cs l m
      → l.arr s ≡ some u
      → (v : ℕ) × (m.arr s ≡ some v) × (v ≤ u)
  Move-falls s u l m (foot cur t tr e mem oc ot imp) h = relabel_falls l _ _ _ s u imp h
  Move-falls s u l m (ride c at mem b e le imp) h = relabel_falls l _ _ _ s u imp h

  -- No move raises or removes a label.
  pub Moves-falls :
      (s : String) (u : ℕ) (l m : Labels)
      → Moves g cs l m
      → l.arr s ≡ some u
      → (v : ℕ) × (m.arr s ≡ some v) × (v ≤ u)
  Moves-falls s u l m here h = (u, h, omega arith)
  Moves-falls s u l m (next {m = k} ms mv) h =
      let (v, e, le) = Moves-falls s u l k ms h in
      let (w, f, lf) = Move-falls s v k m mv e in (w, f, omega arith)
