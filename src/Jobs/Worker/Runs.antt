-- ===== src/Jobs/Worker/Runs.antt =====
-- What becomes of a job that the worker runs.
use travel_mcp.Prelude.{ℕ, ◌≤◌, ◌<◌, ◌≡◌, ◌≢◌, ap, ◌⊎◌, String, true, false, Option, none, some}
use travel_mcp.Jobs.Store.{JobRow, Store, claim_next_job, get_row, retried}
use travel_mcp.Jobs.Message.{is_rate_limited}
use travel_mcp.Jobs.Worker.{Clock, Handler, with_quota, Outcome, idle, run_job, run_once}

-- How the work on a job ends: `none` without a handler for it, else what the quotas and the handler
-- answer.
unfoldable pub ending :
    Clock
    → (String → Option String)
    → (String → Option Handler)
    → JobRow
    → Store
    → Option (Option String)
ending t pp handlers job s = elim (handlers job.job_type) [
  | none ↦ none
  | some h ↦ some (with_quota t pp h job s).1
]

-- What a run leaves in the row of its job, by how the work on it ended.
pub data Settled (t : Clock) (job : JobRow) (end : Option (Option String)) : JobRow → Type 0 where
  settled_unhandled :
      end ≡ none → Settled t job end (record job { state = "dead"; last_error = "no handler" })
  settled_done : end ≡ some none → Settled t job end (record job { state = "done" })
  settled_dead :
      (e : String)
      → end ≡ some (some e)
      → is_rate_limited e ≡ false
      → 5 ≤ job.attempts
      → Settled t job end (record job { state = "dead"; last_error = e })
  settled_retry :
      (e : String)
      → end ≡ some (some e)
      → (is_rate_limited e ≡ true) ⊎ (job.attempts < 5)
      → Settled t job end (retried t.now e job)

-- The job has its row in `s`; in `after` that row is settled and the others are as they were.
abbrev pub Settles : Clock → JobRow → Option (Option String) → Store → Store → Type 0
Settles t job end s after =
    ((left : JobRow) × (get_row job.id after.jobs ≡ some left) × Settled t job end left)
    × ((k : ℕ) → k ≢ job.id → get_row k after.jobs ≡ get_row k s.jobs)

pub run_once_claimed :
    (t : Clock) (pp : String → Option String) (handlers : String → Option Handler) (job : JobRow)
    (s u : Store)
    → claim_next_job s ≡ (u, some job)
    → run_once t pp handlers s ≡ run_job t pp handlers job u
unfolding run_once
run_once_claimed t pp handlers job s u e =
    ap
      (λ (c : Store × Option JobRow). elim c.1 as (λ _. Store × Outcome) [
        | none ↦ (s, idle)
        | some j ↦ run_job t pp handlers j c.0
      ])
      e
