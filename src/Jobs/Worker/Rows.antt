-- ===== src/Jobs/Worker/Rows.antt =====
-- The row that a run of the worker leaves behind, as a function of the outcome.
use Prim.Native.String.{◌++◌ as ◌<>◌}
use travel_mcp.Prelude.{
  ℕ, ◌≡◌, refl, ap, ◌∙◌, inl, inr, String, if◌then◌else◌, List, [], ◌∷◌, Option, none, some, leb,
  Bool-cases, Option-cases,
}
use travel_mcp.Jobs.Store.{
  JobRow, Store, get_row, put_row, change_job, retried, mark_job_done, mark_job_retry,
  mark_job_dead, try_consume_quota, record_api_call,
}
use travel_mcp.Jobs.Message.{is_rate_limited}
use travel_mcp.Jobs.Worker.{
  Clock, Handler, with_quota_loop, with_quota, providers_for_job, fail_job, run_job,
}
use travel_mcp.Jobs.Store.Claims.{change_job-jobs, try_consume_quota-jobs, record_api_call-jobs}

-- The quotas and the recorded calls are apart from the jobs.
with_quota_loop-jobs :
    (t : Clock) (h : Handler) (job : JobRow) (ps : List String) (last : Option String) (s : Store)
    → (with_quota_loop t h job ps last s).0.jobs ≡ s.jobs
unfolding with_quota_loop
with_quota_loop-jobs t h job [] none s = refl
with_quota_loop-jobs t h job [] (some e) s = refl
with_quota_loop-jobs t h job (p ∷ ps) last s =
    let taken = try_consume_quota t.now t.day p 1000 s in
    let noted = record_api_call t.now p job.job_type 1 taken.0 in
    let keep_taken : taken.0.jobs ≡ s.jobs = try_consume_quota-jobs t.now t.day p 1000 s in
    let keep_noted : noted.jobs ≡ s.jobs =
      record_api_call-jobs t.now p job.job_type 1 taken.0 ∙ keep_taken in
    elim (Bool-cases taken.1) [
      | inr n ↦
          rw (n, with_quota_loop)
            (with_quota_loop-jobs t h job ps (some ("429 quota exhausted for " <> p)) taken.0
              ∙ keep_taken)
      | inl y ↦ elim (Option-cases (h p job)) [
        | inl done ↦ rw (y, done, with_quota_loop) keep_noted
        | inr (e, bad) ↦ elim (Bool-cases (is_rate_limited e)) [
          | inl r ↦
              rw (y, bad, r, with_quota_loop)
                (with_quota_loop-jobs t h job ps (some e) noted ∙ keep_noted)
          | inr r ↦ rw (y, bad, r, with_quota_loop) keep_noted
        ]
      ]
    ]

with_quota-jobs :
    (t : Clock) (pp : String → Option String) (h : Handler) (job : JobRow) (s : Store)
    → (with_quota t pp h job s).0.jobs ≡ s.jobs
unfolding with_quota
with_quota-jobs t pp h job s = by_providers (providers_for_job pp job) refl
  where
    by_providers :
        (ps : List String)
        → providers_for_job pp job ≡ ps
        → (with_quota t pp h job s).0.jobs ≡ s.jobs
    by_providers [] e = rw (e, with_quota)
    by_providers (p ∷ ps) e = rw (e, with_quota) (with_quota_loop-jobs t h job (p ∷ ps) none s)

-- The row of a job whose handler ended so.
unfoldable pub settled_row : Clock → JobRow → Option String → JobRow
settled_row t job none = record job { state = "done" }
settled_row t job (some e) =
    if is_rate_limited e
    then retried t.now e job
    else if leb 5 job.attempts
    then record job { state = "dead"; last_error = e }
    else retried t.now e job

-- The row of a job that is run.
unfoldable pub row_after :
    Clock → (String → Option String) → (String → Option Handler) → JobRow → Store → JobRow
row_after t pp handlers job s = elim (handlers job.job_type) [
  | none ↦ record job { state = "dead"; last_error = "no handler" }
  | some h ↦ settled_row t job (with_quota t pp h job s).1
]

-- The same after the quotas have been at work on the store.
change_later :
    (f : JobRow → JobRow) (id : ℕ) (s u : Store) (row : JobRow)
    → u.jobs ≡ s.jobs
    → get_row id s.jobs ≡ some row
    → (change_job f id u).0.jobs ≡ put_row id (f row) s.jobs
change_later f id s u row same e =
    change_job-jobs f id u row (ap (get_row id) same ∙ e) ∙ ap (put_row id (f row)) same

fail_job-jobs :
    (t : Clock) (job : JobRow) (e : String) (s u : Store)
    → u.jobs ≡ s.jobs
    → get_row job.id s.jobs ≡ some job
    → (fail_job t job e u).jobs ≡ put_row job.id (settled_row t job (some e)) s.jobs
unfolding fail_job mark_job_dead mark_job_retry settled_row
fail_job-jobs t job e s u same at = elim (Bool-cases (is_rate_limited e)) [
  | inl y ↦ rw y (change_later (retried t.now e) job.id s u job same at)
  | inr n ↦ elim (Bool-cases (leb 5 job.attempts)) [
    | inl old ↦ rw (n, old) (change_later _ job.id s u job same at)
    | inr young ↦ rw (n, young) (change_later (retried t.now e) job.id s u job same at)
  ]
]

pub run_job-jobs :
    (t : Clock) (pp : String → Option String) (handlers : String → Option Handler) (job : JobRow)
    (s : Store)
    → get_row job.id s.jobs ≡ some job
    → (run_job t pp handlers job s).0.jobs ≡ put_row job.id (row_after t pp handlers job s) s.jobs
unfolding run_job mark_job_dead mark_job_done row_after settled_row with_quota
run_job-jobs t pp handlers job s at = elim (Option-cases (handlers job.job_type)) [
  | inl n ↦ rw (n, run_job, row_after) (change_later _ job.id s s job refl at)
  | inr (h, e) ↦
      let same = with_quota-jobs t pp h job s in
      elim (Option-cases (with_quota t pp h job s).1) [
        | inl ok ↦ rw (e, ok, run_job, row_after) (change_later _ job.id s _ job same at)
        | inr (msg, bad) ↦ rw (e, bad, run_job, row_after) (fail_job-jobs t job msg s _ same at)
      ]
]
