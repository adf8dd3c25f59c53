-- ===== src/Jobs/Worker.antt =====
-- internal/jobs/worker.go: `RunOnce`, `withQuota` and `providersForJob`. A handler has its
-- effects outside. It is called for one provider after another whose quota is free, as long as it
-- answers with a rate limit: what such a call answers is a function of that provider ("" for a job
-- without any) and of the job with its attempts; `none` is success and `some` an error's message.
-- `payload_provider` is the provider that the decoded payload names, as encoding/json finds it.
pub mod Rows
pub mod Runs
pub mod Drain
use Prim.Native.String.{◌++◌ as ◌<>◌}
use travel_mcp.Prelude.{
  ℕ, ◌≤◌, String, Bool, true, false, List, [], ◌∷◌, Option, none, some, leb, str_eq, if◌then◌else◌,
}
use travel_mcp.Jobs.Store.{
  JobRow, Store, claim_next_job, mark_job_done, mark_job_retry, mark_job_dead, try_consume_quota,
  record_api_call,
}
use travel_mcp.Jobs.Message.{is_rate_limited}

pub record Clock : Type 0 where
  pub now : ℕ
  pub day : String

abbrev pub Handler : Type 0
Handler = String → JobRow → Option String

unfoldable pub providers_for_job : (String → Option String) → JobRow → List String
providers_for_job payload_provider job =
    if str_eq job.job_type "sync_mintrans"
    then "mintrans" ∷ "yandex" ∷ "nominatim" ∷ []
    else if str_eq job.job_type "sync_rail"
    then "yandex" ∷ "nominatim" ∷ "motis" ∷ []
    else if str_eq job.job_type "import_gtfs"
    then "gtfs" ∷ []
    else elim (payload_provider job.payload) [
      | none ↦ []
      | some p ↦ if str_eq p "" then [] else p ∷ []
    ]

-- The loop over the providers, with the last error so far.
pub with_quota_loop :
    Clock → Handler → JobRow → List String → Option String → Store → Store × Option String
with_quota_loop t h job [] none s = (s, some "429 all quotas exhausted")
with_quota_loop t h job [] (some e) s = (s, some e)
with_quota_loop t h job (p ∷ ps) last s = elim ((try_consume_quota t.now t.day p 1000 s).1) [
  | false ↦
      with_quota_loop t h job ps (some ("429 quota exhausted for " <> p))
        (try_consume_quota t.now t.day p 1000 s).0
  | true ↦ elim (h p job) [
    | none ↦
        (record_api_call t.now p job.job_type 1 (try_consume_quota t.now t.day p 1000 s).0, none)
    | some e ↦ elim (is_rate_limited e) [
      | true ↦
          with_quota_loop t h job ps (some e)
            (record_api_call t.now p job.job_type 1 (try_consume_quota t.now t.day p 1000 s).0)
      | false ↦ (
        record_api_call t.now p job.job_type 1 (try_consume_quota t.now t.day p 1000 s).0,
        some e,
      )
    ]
  ]
]

pub with_quota : Clock → (String → Option String) → Handler → JobRow → Store → Store × Option String
with_quota t payload_provider h job s = elim (providers_for_job payload_provider job) [
  | [] ↦ (s, h "" job)
  | p ∷ ps ↦ with_quota_loop t h job (p ∷ ps) none s
]

-- What becomes of a job whose handler failed.
pub fail_job : Clock → JobRow → String → Store → Store
fail_job t job e s =
    if is_rate_limited e
    then (mark_job_retry t.now job.id e s).0
    else if leb 5 job.attempts
    then (mark_job_dead job.id e s).0
    else (mark_job_retry t.now job.id e s).0

pub data Outcome : Type 0 where
  idle : Outcome
  finished : JobRow → Outcome
  failed : JobRow → String → Outcome

-- `w.handlers[job.Type]` is the argument `handlers`.
pub run_job :
    Clock → (String → Option String) → (String → Option Handler) → JobRow → Store → Store × Outcome
run_job t payload_provider handlers job s = elim (handlers job.job_type) [
  | none ↦ ((mark_job_dead job.id "no handler" s).0, failed job ("no handler for " <> job.job_type))
  | some h ↦ elim ((with_quota t payload_provider h job s).1) [
    | none ↦ ((mark_job_done job.id (with_quota t payload_provider h job s).0).0, finished job)
    | some e ↦ (fail_job t job e (with_quota t payload_provider h job s).0, failed job e)
  ]
]

pub run_once :
    Clock → (String → Option String) → (String → Option Handler) → Store → Store × Outcome
run_once t payload_provider handlers s = elim ((claim_next_job s).1) [
  | none ↦ (s, idle)
  | some job ↦ run_job t payload_provider handlers job (claim_next_job s).0
]
