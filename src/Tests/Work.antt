-- ===== src/Tests/Work.antt =====
-- A store with two jobs, and its worker.
use Prim.Native.Nat.{min}
use travel_mcp.Prelude.{
  ℕ, ◌-◌, ◌≡◌, ◌↔◌, refl, arith, String, true, List, [], ◌∷◌, ◌++◌, Option, some,
}
use travel_mcp.Jobs.Store.{JobRow, Store, quota_row, try_consume_quota, get_text}
use travel_mcp.Jobs.Message.{contains_bytes, contains_bytes_lem}
use travel_mcp.Jobs.Store.Quotas.{
  WithinLimits, try_consume_quota-WithinLimits, granted, granted_lem,
}
use travel_mcp.Jobs.Worker.{Clock, Handler}

abbrev pub job : ℕ → String → ℕ → JobRow
job id state at = record {
  id = id;
  job_type = "sync_rail";
  payload = "";
  region = "";
  state = state;
  attempts = 0;
  next_run = 0;
  last_error = "";
  created_at = at;
}

abbrev pub office : Store
office = record {
  jobs = (1, job 1 "pending" 20) ∷ (2, job 2 "retry" 10) ∷ [];
  quotas = ("yandex:d", record { provider = "yandex"; day = "d"; used = 3; limit = 5 }) ∷ [];
  api_calls = [];
  next_id = 3;
}

abbrev pub noon : Clock
noon = record { now = 50; day = "d" }

abbrev handlers : String → Option Handler
handlers t = some λ p j. some "429"

try_consume_quota-WithinLimits_example :
    WithinLimits (try_consume_quota 50 "d" "yandex" 9 office).0.quotas
try_consume_quota-WithinLimits_example =
    try_consume_quota-WithinLimits 50 "d" "yandex" 9 office (omega arith, tt)

office_row :
    quota_row "d" "yandex" 5 office ≡ record { provider = "yandex"; day = "d"; used = 3; limit = 5 }
unfolding quota_row get_text
office_row = refl

granted_lem_example :
    granted 4 50 "d" "yandex" 5 office ≡ min 4 (5 - (quota_row "d" "yandex" 5 office).used)
granted_lem_example =
    granted_lem 4 50 "d" "yandex" 5 office (rw office_row refl) (rw office_row (omega arith))

contains_bytes_lem_example :
    (contains_bytes (1 ∷ 2 ∷ 3 ∷ []) (2 ∷ 3 ∷ []) ≡ true)
    ↔ ((pre : List ℕ) × (post : List ℕ) × ((1 ∷ 2 ∷ 3 ∷ []) ≡ pre ++ ((2 ∷ 3 ∷ []) ++ post)))
contains_bytes_lem_example = contains_bytes_lem (1 ∷ 2 ∷ 3 ∷ []) (2 ∷ 3 ∷ [])
