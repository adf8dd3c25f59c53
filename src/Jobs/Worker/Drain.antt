-- ===== src/Jobs/Worker/Drain.antt =====
-- Runs of the worker, one after another.
use travel_mcp.Prelude.{
  ℕ, zero, suc, ◌+◌, ◌-◌, ◌≤◌, ◌<◌, ◌≡◌, refl, sym, ap, ◌∙◌, subst, ◌⊎◌, inl, inr, String, true,
  false, All, All-In, if◌then◌else◌, List, [], ◌∷◌, Option, none, some, arith, leb, Bool-cases,
  Option-cases,
}
use travel_mcp.Jobs.Store.{JobRow, Store, claimable, claimed, retried, get_row, put_row}
use travel_mcp.Jobs.Message.{is_rate_limited}
use travel_mcp.Jobs.Worker.{Clock, Handler, with_quota, providers_for_job, Outcome, run_once}
use travel_mcp.Jobs.Worker.Rows.{settled_row, row_after, run_job-jobs}
use travel_mcp.Jobs.Worker.Runs.{run_once_claimed}
use travel_mcp.Jobs.Store.Claims.{claim_next_job_lem, get_row_put}
use travel_mcp.Jobs.Store.Table.{
  IsTable, put_row-IsTable, All-put_row, In-get_row, total, total-put_row,
}

-- What the attempts of a job still allow; a job that is not claimable is done with.
unfoldable pub left_of : JobRow → ℕ
left_of j = if claimable j then 1 + (5 - j.attempts) else 0

total_idle :
    (rows : List (ℕ × JobRow))
    → total left_of rows ≤ 0
    → All (λ (r : ℕ × JobRow). claimable r.1 ≡ false) rows
unfolding left_of
total_idle [] h = tt
total_idle ((k, j) ∷ rows) h = (ground arith, total_idle rows (omega arith))

idle_total :
    (rows : List (ℕ × JobRow))
    → All (λ (r : ℕ × JobRow). claimable r.1 ≡ false) rows
    → total left_of rows ≡ 0
unfolding left_of
idle_total [] h = refl
idle_total ((k, j) ∷ rows) (first, all) = rw (first, idle_total rows all) refl

module _ (t : Clock) (pp : String → Option String) (handlers : String → Option Handler) where
  pub runs : ℕ → Store → Store
  runs zero s = s
  runs (suc n) s = runs n (run_once t pp handlers s).0

  -- The job takes no provider's quota, and no error of its handler is a rate limit.
  abbrev pub IsPlain : JobRow → Type 0
  IsPlain j =
      (providers_for_job pp j ≡ [])
      × ((h : Handler) (p : String) (k : JobRow) (e : String)
          → handlers j.job_type ≡ some h
          → h p k ≡ some e
          → is_rate_limited e ≡ false)

  settled_row-left :
      (j : JobRow) (r : Option String)
      → claimable j ≡ true
      → ((e : String) → r ≡ some e → is_rate_limited e ≡ false)
      → left_of (settled_row t (claimed j) r) < left_of j
  unfolding left_of settled_row claimed retried claimable
  settled_row-left j none c plain = rw c (omega arith)
  settled_row-left j (some e) c plain = elim (Bool-cases (leb 5 (j.attempts + 1))) [
    | inl old ↦ rw (c, plain e refl, old) (omega arith)
    | inr young ↦ rw (c, plain e refl, young) (ground arith)
  ]

  -- The errors of a plain job are those of its handler.
  with_quota-plain :
      (h : Handler) (j : JobRow) (s : Store) (e : String)
      → IsPlain j
      → handlers j.job_type ≡ some h
      → (with_quota t pp h j s).1 ≡ some e
      → is_rate_limited e ≡ false
  unfolding with_quota
  with_quota-plain h j s e (none_taken, plain) at bad =
      plain h "" j e at (rw (none_taken, with_quota) at bad)

  dead_left :
      (j : JobRow)
      → claimable j ≡ true
      → left_of (record (claimed j) { state = "dead"; last_error = "no handler" }) < left_of j
  unfolding left_of claimable
  dead_left j c = rw c (omega arith)

  row_after-left :
      (j : JobRow) (s : Store)
      → claimable j ≡ true
      → IsPlain (claimed j)
      → left_of (row_after t pp handlers (claimed j) s) < left_of j
  unfolding row_after
  row_after-left j s c plain = elim (Option-cases (handlers (claimed j).job_type)) [
    | inl n ↦ rw (n, row_after) (dead_left j c)
    | inr (h, e) ↦
        rw (e, row_after)
          (settled_row-left j (with_quota t pp h (claimed j) s).1 c
            λ msg bad. with_quota-plain h (claimed j) s msg plain e bad)
  ]

  -- Marks leave the type and the payload of a job.
  settled_row-IsPlain : (j : JobRow) (r : Option String) → IsPlain j → IsPlain (settled_row t j r)
  unfolding settled_row retried providers_for_job
  settled_row-IsPlain j none p = p
  settled_row-IsPlain j (some e) p = elim (Bool-cases (is_rate_limited e)) [
    | inl y ↦ rw y p
    | inr n ↦ elim (Bool-cases (leb 5 j.attempts)) [
      | inl old ↦ rw (n, old) p
      | inr young ↦ rw (n, young) p
    ]
  ]

  row_after-IsPlain : (j : JobRow) (s : Store) → IsPlain j → IsPlain (row_after t pp handlers j s)
  unfolding row_after providers_for_job
  row_after-IsPlain j s p = elim (Option-cases (handlers j.job_type)) [
    | inl n ↦ rw (n, row_after) p
    | inr (h, e) ↦ rw (e, row_after) (settled_row-IsPlain j (with_quota t pp h j s).1 p)
  ]

  settled_row-id : (j : JobRow) (r : Option String) → (settled_row t j r).id ≡ j.id
  unfolding settled_row retried
  settled_row-id j none = refl
  settled_row-id j (some e) = ground arith

  row_after-id : (j : JobRow) (s : Store) → (row_after t pp handlers j s).id ≡ j.id
  unfolding row_after
  row_after-id j s = elim (Option-cases (handlers j.job_type)) [
    | inl n ↦ rw (n, row_after)
    | inr (h, e) ↦ rw (e, row_after) (settled_row-id j (with_quota t pp h j s).1)
  ]

  -- What a run does to the rows of a table of plain jobs: nothing if no job is claimable, or one job's
  -- attempts come to less.
  Progress : Store → Store → Type 0
  Progress s after =
      (All (λ r. claimable r.1 ≡ false) s.jobs × (after ≡ s))
      ⊎ ((total left_of after.jobs < total left_of s.jobs)
          × IsTable after.jobs
          × All (λ r. IsPlain r.1) after.jobs)

  run_once-Progress :
      (s : Store)
      → IsTable s.jobs
      → All (λ r. IsPlain r.1) s.jobs
      → Progress s (run_once t pp handlers s).0
  unfolding Progress run_once providers_for_job claimed
  run_once-Progress s table plain = elim (claim_next_job_lem s) [
    | inl (e, all) ↦ inl (all, rw (e, run_once))
    | inr (j, c, (k, m), _, e) ↦
        let (own, at) = In-get_row k j s.jobs table m in
        let here : get_row j.id s.jobs ≡ some j =
          subst (λ x. get_row x s.jobs ≡ some j) (sym own) at in
        let u : Store = record s { jobs = put_row j.id (claimed j) s.jobs } in
        let row = row_after t pp handlers (claimed j) u in
        let jobs : (run_once t pp handlers s).0.jobs ≡ put_row j.id row u.jobs =
          ap (λ (r : Store × Outcome). r.0.jobs) (run_once_claimed t pp handlers (claimed j) s u e)
          ∙ run_job-jobs t pp handlers (claimed j) u (get_row_put j.id (claimed j) s.jobs) in
        let plain_j : IsPlain (claimed j) =
          All-In (λ (r : ℕ × JobRow). IsPlain r.1) (k, j) s.jobs plain m in
        let less = row_after-left j u c plain_j in
        let sum1 = total-put_row left_of j.id j (claimed j) s.jobs here in
        let sum2 =
          total-put_row left_of j.id (claimed j) row u.jobs (get_row_put j.id (claimed j) s.jobs) in
        let fewer : total left_of (put_row j.id row u.jobs) < total left_of s.jobs = omega arith in
        let row_id : row.id ≡ j.id = row_after-id (claimed j) u in
        inr (
          subst (λ rows. total left_of rows < total left_of s.jobs) (sym jobs) fewer,
          subst IsTable (sym jobs) (
              put_row-IsTable j.id row u.jobs row_id
                (put_row-IsTable j.id (claimed j) s.jobs refl table)),
          subst (All λ (r : ℕ × JobRow). IsPlain r.1) (sym jobs) (
              All-put_row IsPlain j.id row u.jobs (row_after-IsPlain (claimed j) u plain_j)
                (All-put_row IsPlain j.id (claimed j) s.jobs plain_j plain)),
        )
  ]

  -- The worker gets through its jobs: if none takes a provider's quota and no handler ends with a rate
  -- limit, then after as many runs as the attempts of the jobs still allow, or more, no job is pending
  -- or due for a retry.
  pub runs_lem :
      (n : ℕ) (s : Store)
      → IsTable s.jobs
      → All (λ r. IsPlain r.1) s.jobs
      → total left_of s.jobs ≤ n
      → All (λ r. claimable r.1 ≡ false) (runs n s).jobs
  unfolding runs Progress
  runs_lem zero s table plain enough = total_idle s.jobs enough
  runs_lem (suc n) s table plain enough = elim (run_once-Progress s table plain) [
    | inl (idle_rows, same) ↦
        let none_left : total left_of s.jobs ≡ 0 = idle_total s.jobs idle_rows in
        subst (λ (u : Store). All (λ r. claimable r.1 ≡ false) (runs n u).jobs) (sym same)
          (runs_lem n s table plain (omega arith))
    | inr (less, table', plain') ↦
        runs_lem n (run_once t pp handlers s).0 table' plain' (omega arith)
  ]
