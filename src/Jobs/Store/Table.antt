-- ===== src/Jobs/Store/Table.antt =====
-- The table of jobs as a map by id, and sums over its rows.
use travel_mcp.Prelude.{
  ℕ, ◌+◌, ◌≡◌, refl, subst, inl, inr, List, [], ◌∷◌, none, some, arith, ◌==◌, ==_iff, All, In,
  Bool-cases,
}
use travel_mcp.Jobs.Store.{JobRow, get_row, put_row}
use travel_mcp.Jobs.Store.Claims.{get_row-put_row}

-- Each row stands under its own id, and no id twice.
abbrev pub IsTable : List (ℕ × JobRow) → Type 0
IsTable [] = Unit {0}
IsTable ((k, j) ∷ rows) = (j.id ≡ k) × (get_row k rows ≡ none) × IsTable rows

pub put_row-IsTable :
    (k : ℕ) (v : JobRow) (rows : List (ℕ × JobRow))
    → v.id ≡ k
    → IsTable rows
    → IsTable (put_row k v rows)
unfolding put_row get_row
put_row-IsTable k v [] e w = (e, refl, tt)
put_row-IsTable k v ((i, j) ∷ rows) e (own, once, w) = elim (Bool-cases (i == k)) [
  | inl y ↦
      let same : i ≡ k = (==_iff i k).0 y in
      rw y (e, subst (λ x. get_row x rows ≡ none) same once, w)
  | inr n ↦ rw n (own, ground (arith, get_row-put_row i k v rows), put_row-IsTable k v rows e w)
]

pub In-get_row :
    (k : ℕ) (j : JobRow) (rows : List (ℕ × JobRow))
    → IsTable rows
    → In (k, j) rows
    → (j.id ≡ k) × (get_row k rows ≡ some j)
unfolding get_row
In-get_row k j [] t m = absurd m
In-get_row k j ((i, w) ∷ rows) (own, once, t) (inl e) = ground arith
In-get_row k j ((i, w) ∷ rows) (own, once, t) (inr m) =
    let (mine, found) = In-get_row k j rows t m in ground arith

-- The sum of a measure over the rows.
abbrev pub total : (JobRow → ℕ) → List (ℕ × JobRow) → ℕ
total w [] = 0
total w ((k, j) ∷ rows) = w j + total w rows

-- Writing a row takes the old row's measure off and puts the new one's in its place.
pub total-put_row :
    (w : JobRow → ℕ) (k : ℕ) (old new : JobRow) (rows : List (ℕ × JobRow))
    → get_row k rows ≡ some old
    → total w (put_row k new rows) + w old ≡ total w rows + w new
unfolding put_row get_row
total-put_row w k old new [] e = absurd (ground arith)
total-put_row w k old new ((i, j) ∷ rows) e = elim (Bool-cases (i == k)) [
  | inl y ↦
      let same : j ≡ old = ground arith in
      rw y (subst (λ x. w new + total w rows + w x ≡ w j + total w rows + w new) same (omega arith))
  | inr n ↦ let ih = total-put_row w k old new rows (ground arith) in rw n (omega arith)
]

pub All-put_row :
    (P : JobRow → Type 0) (k : ℕ) (v : JobRow) (rows : List (ℕ × JobRow))
    → P v
    → All (λ (r : ℕ × JobRow). P r.1) rows
    → All (λ (r : ℕ × JobRow). P r.1) (put_row k v rows)
unfolding put_row
All-put_row P k v [] p all = (p, tt)
All-put_row P k v ((i, j) ∷ rows) p (first, all) = elim (Bool-cases (i == k)) [
  | inl y ↦ rw y (p, all)
  | inr n ↦ rw n (first, All-put_row P k v rows p all)
]
