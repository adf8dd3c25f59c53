-- ===== src/Tests/Limits.antt =====
-- Requests to a small limiter, jobs for a small queue, and users of a store from its beginning.
use Prim.Native.Nat.{min}
use travel_mcp.Prelude.{
  ℕ, ◌-◌, ◌≡◌, ◌≢◌, refl, String, [], ◌∷◌, ◌++◌, none, some, length, take, lookup, arith, eq_iff,
}
use travel_mcp.Strings.{◌<>◌}
use travel_mcp.Limiter.{RateLimiter, limiter_key, limits_of, middleware}
use travel_mcp.Limiter.Apart.{middleware-apart}
use travel_mcp.Limiter.Burst.{Exact, served, middleware-burst}
use travel_mcp.Queue.{Job, MemoryQueue}
use travel_mcp.Queue.Bounded.{enqueue_all, enqueue_all_lem}
use travel_mcp.Jobs.Store.{get_row, get_text}
use travel_mcp.Accounts.{
  UserRow, Accounts, no_accounts, create_user, update_user, update_user_status, update_user_role,
  update_user_config, delete_user, delete_api_key,
}
use travel_mcp.Accounts.Users.{Consistent}
use travel_mcp.Accounts.Reachable.{
  creates_user, deletes_user, Reachable, empty, next, Reachable-Consistent,
}
use travel_mcp.Accounts.Book.{view, added, replaced, new_user, view-refines}
use travel_mcp.Accounts.Errors.{Guarded, Entered, own_key, errors_leave}
use travel_mcp.Tests.Plane.{plane}

abbrev gate : RateLimiter ℕ
gate = record { limiters = []; def_rps = 2; def_burst = 3; overrides = [] }

abbrev same_seconds : ℕ → ℕ
same_seconds t = t

exact : Exact plane same_seconds 2 3
exact = record {
  in_order = λ n le. ground arith;
  under_one = λ n le. refl;
  one_less = λ n lt. omega arith;
  at_once = λ n le. omega arith;
}

gate_limits : limits_of gate "/plan" ≡ (2, 3)
unfolding limits_of lookup
gate_limits = refl

no_bucket : lookup (limiter_key "ip" "/plan") gate.limiters ≡ none
unfolding lookup
no_bucket = refl

middleware-burst_example : served same_seconds 9 "ip" "/plan" 5 gate ≡ min 5 3
middleware-burst_example =
    middleware-burst same_seconds 9 "ip" "/plan" 2 3 exact refl 5 gate no_bucket gate_limits

two_keys : ◌≢◌ {A = String} (limiter_key "ip" "/plan") (limiter_key "other" "/plan")
unfolding limiter_key ◌<>◌
two_keys = ground (arith, eq_iff "ip|/plan" "other|/plan")

middleware-apart_example :
    (middleware same_seconds 10 "other" "/plan" (middleware same_seconds 9 "ip" "/plan" gate).0).1
    ≡ (middleware same_seconds 10 "other" "/plan" gate).1
middleware-apart_example =
    middleware-apart same_seconds 9 10 "ip" "/plan" "other" "/plan" gate two_keys

abbrev job : String → Job
job topic = record { topic = topic; payload = [] }

abbrev narrow : MemoryQueue
narrow = record { buffer = 2; waiting = job "a" ∷ [] }

enqueue_all_lem_example :
    (enqueue_all (job "b" ∷ job "c" ∷ []) narrow).waiting
    ≡ narrow.waiting ++ take (narrow.buffer - length narrow.waiting) (job "b" ∷ job "c" ∷ [])
enqueue_all_lem_example = enqueue_all_lem (job "b" ∷ job "c" ∷ []) narrow (omega arith)

abbrev first_store : Accounts
first_store = (create_user 9 "a@x" "h" "admin" no_accounts).0

reached : Reachable first_store
reached = next empty (creates_user 9 "a@x" "h" "admin")

Reachable-Consistent_example : Consistent (delete_user 1 first_store).0
Reachable-Consistent_example = Reachable-Consistent (next reached (deletes_user 1))

first_consistent : Consistent first_store
first_consistent = Reachable-Consistent reached

view-refines_example :
    ((now : ℕ) (email pass_hash role e : String)
      → (view (create_user now email pass_hash role first_store).0 e
          ≡ added
              (new_user first_store first_consistent now email pass_hash role)
              (view first_store)
              e)
        × ((create_user now email pass_hash role first_store).1
            ≡ (elim (view first_store email) [ none ↦ some first_store.next_id | some v ↦ none ])))
    × ((f : UserRow → UserRow) (id : ℕ) (e : String)
        → view (update_user f id first_store).0 e
          ≡ replaced (get_row id first_store.users) (λ u. some (f u)) (view first_store) e)
    × ((id : ℕ) (e : String)
        → view (delete_user id first_store).0 e
          ≡ replaced (get_row id first_store.users) (λ u. none) (view first_store) e)
view-refines_example = view-refines first_store first_consistent

errors_leave_example :
    Guarded (get_row 7 first_store.users) first_store (update_user_status 7 "a@x" first_store)
    × Guarded (get_row 7 first_store.users) first_store (update_user_role 7 "a@x" first_store)
    × Guarded (get_row 7 first_store.users) first_store (update_user_config 7 "a@x" first_store)
    × Guarded (get_row 7 first_store.users) first_store (delete_user 7 first_store)
    × Guarded (own_key 7 1 first_store) first_store (delete_api_key 7 1 first_store)
    × Entered
        (get_text "a@x" first_store.users_by_email)
        first_store
        (create_user 10 "a@x" "h" "user" first_store)
errors_leave_example = errors_leave 7 1 10 "a@x" "h" "user" first_store
