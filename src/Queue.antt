-- ===== src/Queue.antt =====
-- internal/queue/queue.go: a queue of jobs over a channel with a buffer.
pub mod Bounded
use travel_mcp.Prelude.{
  ℕ, zero, suc, String, Bool, true, List, [], ◌∷◌, ◌++◌, Option, none, some, ltb, if◌then◌else◌,
  length, ℤ, pos, negsuc,
}

pub record Job : Type 0 where
  pub topic : String
  pub payload : List ℕ

pub record MemoryQueue : Type 0 where
  pub buffer : ℕ
  pub waiting : List Job

unfoldable pub new_memory : ℤ → MemoryQueue
new_memory (pos zero) = record { buffer = 100; waiting = [] }
new_memory (pos (suc n)) = record { buffer = suc n; waiting = [] }
new_memory (negsuc n) = record { buffer = 100; waiting = [] }

-- A job that finds the buffer full is dropped, and the answer is `nil` in both cases.
unfoldable pub enqueue : Job → MemoryQueue → MemoryQueue
enqueue j q =
    if ltb (length q.waiting) q.buffer then record q { waiting = q.waiting ++ (j ∷ []) } else q

-- What a reader of `Chan()` gets, if a job waits.
unfoldable pub receive : MemoryQueue → Option (Job × MemoryQueue)
receive q = elim q.waiting [ [] ↦ none | j ∷ rest ↦ some (j, record q { waiting = rest }) ]
