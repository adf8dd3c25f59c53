-- ===== src/Jobs/Store.antt =====
-- internal/store/memory/store.go: the tables of jobs, of daily quotas and of recorded calls. The time
-- is an argument, `now` in seconds and `day` as the text of the date. The map of jobs is a list by
-- id, in some order of iteration.
pub mod Claims
pub mod Table
pub mod Quotas
use travel_mcp.Prelude.{
  ℕ, ◌+◌, ◌*◌, String, Bool, true, false, not, ◌&&◌, ◌||◌, List, [], ◌∷◌, ◌++◌, Option, none, some,
  ltb, leb, ◌==◌, str_eq, if◌then◌else◌,
}
use Prim.Native.String.{◌++◌ as ◌<>◌}
use travel_mcp.Model.{minute}

pub record JobRow : Type 0 where
  pub id : ℕ
  pub job_type : String
  pub payload : String
  pub region : String
  pub state : String
  pub attempts : ℕ
  pub next_run : ℕ
  pub last_error : String
  pub created_at : ℕ

pub record QuotaRow : Type 0 where
  pub provider : String
  pub day : String
  pub used : ℕ
  pub limit : ℕ

pub record ApiCallRow : Type 0 where
  pub provider : String
  pub endpoint : String
  pub at : ℕ
  pub cost : ℕ

pub record Store : Type 0 where
  pub jobs : List (ℕ × JobRow)
  pub quotas : List (String × QuotaRow)
  pub api_calls : List ApiCallRow
  pub next_id : ℕ

module _ {V : Type 0} where
  unfoldable pub get_row : ℕ → List (ℕ × V) → Option V
  get_row k [] = none
  get_row k ((j, v) ∷ rows) = if j == k then some v else get_row k rows

  pub put_row : ℕ → V → List (ℕ × V) → List (ℕ × V)
  put_row k v [] = (k, v) ∷ []
  put_row k v ((j, w) ∷ rows) = if j == k then (k, v) ∷ rows else (j, w) ∷ put_row k v rows

  unfoldable pub get_text : String → List (String × V) → Option V
  get_text k [] = none
  get_text k ((j, v) ∷ rows) = if str_eq j k then some v else get_text k rows

  pub put_text : String → V → List (String × V) → List (String × V)
  put_text k v [] = (k, v) ∷ []
  put_text k v ((j, w) ∷ rows) = if str_eq j k then (k, v) ∷ rows else (j, w) ∷ put_text k v rows

pub enqueue_job : ℕ → Store → JobRow → Store × ℕ
enqueue_job now s j =
    let state = if str_eq j.state "" then "pending" else j.state in
    let row = record j { id = s.next_id; state = state; created_at = now; next_run = now } in
    (record s { jobs = put_row s.next_id row s.jobs; next_id = s.next_id + 1 }, s.next_id)

unfoldable pub claimable : JobRow → Bool
claimable j = str_eq j.state "pending" || str_eq j.state "retry"

-- `best == nil || j.CreatedAt < best.CreatedAt`
pub older : Option JobRow → JobRow → Option JobRow
older none j = some j
older (some best) j = if ltb j.created_at best.created_at then some j else some best

pub pick : Option JobRow → List (ℕ × JobRow) → Option JobRow
pick best [] = best
pick best ((k, j) ∷ rows) = pick (if claimable j then older best j else best) rows

unfoldable pub claimed : JobRow → JobRow
claimed j = record j { state = "running"; attempts = j.attempts + 1 }

-- `none` is the error "no jobs".
pub claim_next_job : Store → Store × Option JobRow
claim_next_job s = elim (pick none s.jobs) [
  | none ↦ (s, none)
  | some j ↦ (record s { jobs = put_row j.id (claimed j) s.jobs }, some (claimed j))
]

-- The three marks share their shape: the row is read, changed and written back, or the store is left
-- as it was, with the error "not found".
pub change_job : (JobRow → JobRow) → ℕ → Store → Store × Bool
change_job f id s = elim (get_row id s.jobs) [
  | none ↦ (s, false)
  | some j ↦ (record s { jobs = put_row id (f j) s.jobs }, true)
]

unfoldable pub mark_job_done : ℕ → Store → Store × Bool
mark_job_done id s = change_job (λ j. record j { state = "done" }) id s

-- Two minutes for each attempt, half an hour at most.
pub backoff : ℕ → ℕ
backoff attempts =
    let wait = attempts * 2 * minute in if ltb (30 * minute) wait then 30 * minute else wait

unfoldable pub retried : ℕ → String → JobRow → JobRow
retried now msg j = record j {
  state = "retry";
  last_error = msg;
  attempts = j.attempts + 1;
  next_run = now + backoff (j.attempts + 1);
}

unfoldable pub mark_job_retry : ℕ → ℕ → String → Store → Store × Bool
mark_job_retry now id msg s = change_job (retried now msg) id s

unfoldable pub mark_job_dead : ℕ → String → Store → Store × Bool
mark_job_dead id msg s = change_job (λ j. record j { state = "dead"; last_error = msg }) id s

-- The row of the day, or a new one with the limit of the caller.
unfoldable pub quota_row : String → String → ℕ → Store → QuotaRow
quota_row day provider limit s = elim (get_text (provider <> ":" <> day) s.quotas) [
  | none ↦ record { provider = provider; day = day; used = 0; limit = limit }
  | some q ↦ q
]

-- `q.Limit != limit && q.Limit != 0` puts the stored limit in the place of the caller's.
pub limit_of : QuotaRow → ℕ → ℕ
limit_of q limit = if not (q.limit == limit) && not (q.limit == 0) then q.limit else limit

-- The result is `ok` and `used`.
pub try_consume_quota : ℕ → String → String → ℕ → Store → Store × Bool × ℕ
try_consume_quota now day provider limit s =
    let q = quota_row day provider limit s in
    let top = limit_of q limit in
    let row = record q { used = q.used + 1; limit = top } in
    if leb top q.used then (s, false, q.used) else (
      record s {
        quotas = put_text (provider <> ":" <> day) row s.quotas;
        api_calls =
            s.api_calls
            ++ (record { provider = provider; endpoint = "quota_consume"; at = now; cost = 1 }
                ∷ []);
      },
      true,
      q.used + 1,
    )

pub record_api_call : ℕ → String → String → ℕ → Store → Store
record_api_call now provider endpoint cost s = record s {
  api_calls =
      s.api_calls
      ++ (record { provider = provider; endpoint = endpoint; at = now; cost = cost } ∷ []);
}

pub set_quota_limit : String → String → ℕ → Store → Store
set_quota_limit day provider limit s =
    let key = provider <> ":" <> day in
    let old : QuotaRow = elim (get_text key s.quotas) [
      | none ↦ record { provider = ""; day = ""; used = 0; limit = 0 }
      | some q ↦ q
    ] in
    record s {
      quotas = put_text key (record old { provider = provider; day = day; limit = limit }) s.quotas;
    }
