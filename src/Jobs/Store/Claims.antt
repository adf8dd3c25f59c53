-- ===== src/Jobs/Store/Claims.antt =====
-- What `ClaimNextJob` hands out, and the laws of the rows.
use travel_mcp.Prelude.{
  ℕ, ◌≤◌, ◌≡◌, ◌≢◌, refl, sym, ap, subst, ◌⊎◌, inl, inr, true, false, List, [], ◌∷◌, Option, none,
  some, arith, ◌==◌, leb, String, if◌then◌else◌, In, All, Bool-cases, Option-cases,
}
use travel_mcp.Jobs.Store.{
  JobRow, Store, get_row, put_row, claimable, older, pick, claimed, claim_next_job, change_job,
  try_consume_quota, record_api_call, limit_of, quota_row,
}

-- A row that is written is read back, and the other rows stay.
pub get_row-put_row :
    {V : Type 0} (k j : ℕ) (v : V) (rows : List (ℕ × V))
    → get_row k (put_row j v rows) ≡ (if j == k then some v else get_row k rows)
unfolding get_row put_row
get_row-put_row k j v [] = refl
get_row-put_row k j v ((i, w) ∷ rows) = ground (arith, get_row-put_row k j v rows)

-- `best` is no earlier than the job `j`.
abbrev NoEarlier : JobRow → Option JobRow → Type 0
NoEarlier j none = Unit {0}
NoEarlier j (some best) = j.created_at ≤ best.created_at

-- What the loop of `ClaimNextJob` returns from `best` on.
abbrev Picks : Option JobRow → List (ℕ × JobRow) → Option JobRow → Type 0
Picks best rows none = (best ≡ none) × All (λ r. claimable r.1 ≡ false) rows
Picks best rows (some j) =
    NoEarlier j best
    × All (λ r. claimable r.1 ≡ true → j.created_at ≤ r.1.created_at) rows
    × ((best ≡ some j) ⊎ ((claimable j ≡ true) × (k : ℕ) × In (k, j) rows))

older-NoEarlier :
    (j k : JobRow) (best : Option JobRow)
    → NoEarlier j (older best k)
    → (j.created_at ≤ k.created_at) × NoEarlier j best
unfolding older
older-NoEarlier j k none h = (h, tt)
older-NoEarlier j k (some b) h = ground arith

older_cases : (k : JobRow) (best : Option JobRow) → (older best k ≡ some k) ⊎ (older best k ≡ best)
unfolding older
older_cases k none = inl refl
older_cases k (some b) = ground arith

older-ne-none : (k : JobRow) (best : Option JobRow) → older best k ≢ none
unfolding older
older-ne-none k none e = ground arith
older-ne-none k (some b) e = ground arith

Picks-older :
    (i : ℕ) (k : JobRow) (best : Option JobRow) (rows : List (ℕ × JobRow)) (r : Option JobRow)
    → claimable k ≡ true
    → Picks (older best k) rows r
    → Picks best ((i, k) ∷ rows) r
Picks-older i k best rows none ok (e, all) = absurd (older-ne-none k best e)
Picks-older i k best rows (some j) ok (ne, all, origin) =
    let (jk, jb) = older-NoEarlier j k best ne in
    (jb, ((λ c. jk), all), from origin (older_cases k best))
  where
    from :
        ((older best k ≡ some j) ⊎ ((claimable j ≡ true) × (n : ℕ) × In (n, j) rows))
        → ((older best k ≡ some k) ⊎ (older best k ≡ best))
        → (best ≡ some j) ⊎ ((claimable j ≡ true) × (n : ℕ) × In (n, j) ((i, k) ∷ rows))
    from (inr (c, n, m)) how = inr (c, n, inr m)
    from (inl e) (inr same) = inl (ground arith)
    from (inl e) (inl new) =
        let kj : k ≡ j = ground arith in
        inr (subst (λ x. claimable x ≡ true) kj ok, i, inl (ap (λ x. (i, x)) (sym kj)))

Picks-skip :
    (i : ℕ) (k : JobRow) (best : Option JobRow) (rows : List (ℕ × JobRow)) (r : Option JobRow)
    → claimable k ≡ false
    → Picks best rows r
    → Picks best ((i, k) ∷ rows) r
Picks-skip i k best rows none ok (e, all) = (e, (ok, all))
Picks-skip i k best rows (some j) ok (ne, all, origin) =
    (ne, ((λ c. absurd (ground arith)), all), from origin)
  where
    from :
        ((best ≡ some j) ⊎ ((claimable j ≡ true) × (n : ℕ) × In (n, j) rows))
        → (best ≡ some j) ⊎ ((claimable j ≡ true) × (n : ℕ) × In (n, j) ((i, k) ∷ rows))
    from (inl e) = inl e
    from (inr (c, n, m)) = inr (c, n, inr m)

pick-Picks : (best : Option JobRow) (rows : List (ℕ × JobRow)) → Picks best rows (pick best rows)
unfolding pick
pick-Picks none [] = (refl, tt)
pick-Picks (some j) [] = (omega arith, tt, inl refl)
pick-Picks best ((i, k) ∷ rows) = elim (Bool-cases (claimable k)) [
  | inl y ↦ rw y (Picks-older i k best rows _ y (pick-Picks (older best k) rows))
  | inr n ↦ rw n (Picks-skip i k best rows _ n (pick-Picks best rows))
]

-- The claimed job is pending or due for a retry, and none such is older; it becomes running, with
-- one attempt more, in its row. If there is no such job, the store is left as it is.
pub claim_next_job_lem :
    (s : Store)
    → ((claim_next_job s ≡ (s, none)) × All (λ r. claimable r.1 ≡ false) s.jobs)
      ⊎ ((j : JobRow) × (claimable j ≡ true)
          × ((k : ℕ) × In (k, j) s.jobs)
          × All (λ r. claimable r.1 ≡ true → j.created_at ≤ r.1.created_at) s.jobs
          × (claim_next_job s
              ≡ (record s { jobs = put_row j.id (claimed j) s.jobs }, some (claimed j))))
unfolding claim_next_job
claim_next_job_lem s = read (pick none s.jobs) refl (pick-Picks none s.jobs)
  where
    read :
        (r : Option JobRow)
        → pick none s.jobs ≡ r
        → Picks none s.jobs r
        → ((claim_next_job s ≡ (s, none)) × All (λ x. claimable x.1 ≡ false) s.jobs)
          ⊎ ((j : JobRow) × (claimable j ≡ true)
              × ((k : ℕ) × In (k, j) s.jobs)
              × All (λ x. claimable x.1 ≡ true → j.created_at ≤ x.1.created_at) s.jobs
              × (claim_next_job s
                  ≡ (record s { jobs = put_row j.id (claimed j) s.jobs }, some (claimed j))))
    read none e (_, all) = inl (rw (e, claim_next_job), all)
    read (some j) e (_, all, inl absent) = absurd (ground arith)
    read (some j) e (_, all, inr (c, k, m)) = inr (j, c, (k, m), all, rw (e, claim_next_job))

-- A mark changes the one row that it names, and leaves the others.
pub change_job_row :
    (f : JobRow → JobRow) (id : ℕ) (s : Store) (row : JobRow)
    → get_row id s.jobs ≡ some row
    → get_row id (change_job f id s).0.jobs ≡ some (f row)
unfolding change_job
change_job_row f id s row e =
    rw (e, change_job) (ground (arith, get_row-put_row id id (f row) s.jobs))

pub change_job_other :
    (f : JobRow → JobRow) (id k : ℕ) (s : Store)
    → k ≢ id
    → get_row k (change_job f id s).0.jobs ≡ get_row k s.jobs
unfolding change_job
change_job_other f id k s ne = elim (Option-cases (get_row id s.jobs)) [
  | inl n ↦ rw (n, change_job)
  | inr (row, e) ↦ rw (e, change_job) (ground (arith, get_row-put_row k id (f row) s.jobs))
]

-- The quotas and the recorded calls are apart from the jobs.
pub try_consume_quota-jobs :
    (now : ℕ) (day provider : String) (limit : ℕ) (s : Store)
    → (try_consume_quota now day provider limit s).0.jobs ≡ s.jobs
unfolding try_consume_quota
try_consume_quota-jobs now day provider limit s =
    elim (Bool-cases (
      leb (limit_of (quota_row day provider limit s) limit)
        (quota_row day provider limit s).used)) [ inl y ↦ rw y | inr n ↦ rw n ]

pub record_api_call-jobs :
    (now : ℕ) (provider endpoint : String) (cost : ℕ) (s : Store)
    → (record_api_call now provider endpoint cost s).jobs ≡ s.jobs
unfolding record_api_call
record_api_call-jobs now provider endpoint cost s = refl

-- A claimed job has its row.
pub claimed_at :
    (j : JobRow) (rows : List (ℕ × JobRow))
    → get_row (claimed j).id (put_row j.id (claimed j) rows) ≡ some (claimed j)
unfolding claimed
claimed_at j rows = ground (arith, get_row-put_row j.id j.id (claimed j) rows)

pub claimed_other :
    (j : JobRow) (k : ℕ) (rows : List (ℕ × JobRow))
    → k ≢ (claimed j).id
    → get_row k (put_row j.id (claimed j) rows) ≡ get_row k rows
unfolding claimed
claimed_other j k rows ne = ground (arith, get_row-put_row k j.id (claimed j) rows)

-- A row that is read stands in the table.
pub get_row-In :
    {V : Type 0} (k : ℕ) (v : V) (rows : List (ℕ × V))
    → get_row k rows ≡ some v
    → (j : ℕ) × In (j, v) rows
unfolding get_row
get_row-In k v [] e = absurd (ground arith)
get_row-In k v ((j, w) ∷ rows) e = elim (Bool-cases (j == k)) [
  | inl y ↦
      let h : some w ≡ some v = rw y at e in
      let same : w ≡ v = ground arith in (j, inl (ap (λ x. (j, x)) (sym same)))
  | inr n ↦ let (i, m) = get_row-In k v rows (rw n at e) in (i, inr m)
]

pub get_row_put :
    {V : Type 0} (k : ℕ) (v : V) (rows : List (ℕ × V)) → get_row k (put_row k v rows) ≡ some v
get_row_put k v rows = ground (arith, get_row-put_row k k v rows)

pub get_row-other :
    {V : Type 0} (k j : ℕ) (v : V) (rows : List (ℕ × V))
    → k ≢ j
    → get_row k (put_row j v rows) ≡ get_row k rows
get_row-other k j v rows ne = ground (arith, get_row-put_row k j v rows)

pub change_job-jobs :
    (f : JobRow → JobRow) (id : ℕ) (s : Store) (row : JobRow)
    → get_row id s.jobs ≡ some row
    → (change_job f id s).0.jobs ≡ put_row id (f row) s.jobs
unfolding change_job
change_job-jobs f id s row e = rw (e, change_job)
