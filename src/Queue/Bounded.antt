-- ===== src/Queue/Bounded.antt =====
-- What the queue keeps of the jobs that it is given.
use mathlib.Core.List.{append-nil, append_assoc}
use travel_mcp.Prelude.{
  ℕ, zero, suc, ◌-◌, ◌≤◌, ◌≡◌, refl, sym, ap, ◌∙◌, inl, inr, true, false, ltb, length,
  length-append, take, List, [], ◌∷◌, ◌++◌, arith, Bool-cases,
}
use travel_mcp.Queue.{Job, MemoryQueue, enqueue}

pub enqueue_all : List Job → MemoryQueue → MemoryQueue
enqueue_all [] q = q
enqueue_all (j ∷ js) q = enqueue_all js (enqueue j q)

take_none : (n : ℕ) → take {A = Job} n [] ≡ []
take_none zero = refl
take_none (suc n) = refl

enqueue_room :
    (j : Job) (q : MemoryQueue)
    → ltb (length q.waiting) q.buffer ≡ true
    → enqueue j q ≡ record q { waiting = q.waiting ++ (j ∷ []) }
unfolding enqueue
enqueue_room j q y = rw y refl

enqueue_full :
    (j : Job) (q : MemoryQueue) → ltb (length q.waiting) q.buffer ≡ false → enqueue j q ≡ q
unfolding enqueue
enqueue_full j q n = rw n refl

-- A queue keeps, behind the jobs that wait, the first of those that it is given, in their order, as
-- many as the buffer has room for; the others are lost.
pub enqueue_all_lem :
    (js : List Job) (q : MemoryQueue)
    → length q.waiting ≤ q.buffer
    → (enqueue_all js q).waiting ≡ q.waiting ++ take (q.buffer - length q.waiting) js
unfolding enqueue_all enqueue
enqueue_all_lem [] q h =
    sym (append-nil q.waiting)
    ∙ ap (λ l. q.waiting ++ l) (sym (take_none (q.buffer - length q.waiting)))
enqueue_all_lem (j ∷ js) q h = elim (Bool-cases (ltb (length q.waiting) q.buffer)) [
  | inl y ↦
      let more = length-append q.waiting (j ∷ []) in
      let room : q.buffer - length q.waiting ≡ suc (q.buffer - length (q.waiting ++ (j ∷ []))) =
        ground arith in
      rw room (
        ap (λ u. (enqueue_all js u).waiting) (enqueue_room j q y)
        ∙ enqueue_all_lem js (record q { waiting = q.waiting ++ (j ∷ []) }) (ground arith)
        ∙ append_assoc q.waiting (j ∷ []) (take (q.buffer - length (q.waiting ++ (j ∷ []))) js))
  | inr n ↦
      let full : q.buffer - length q.waiting ≡ 0 = ground arith in
      rw full (
        ap (λ u. (enqueue_all js u).waiting) (enqueue_full j q n)
        ∙ enqueue_all_lem js q h
        ∙ ap (λ k. q.waiting ++ take k js) full)
]
