-- ===== src/TaskQueue/Slots.antt =====
-- The operations of coding_agent/queue.rs, run one at a time, as steps of the interleaved queue.
use adk_gateway.Common.{
  ℕ, String, List, [], ◌∷◌, Option, none, some, length, ◌≡◌, refl, ◌↔◌, ◌⊎◌, inl, inr, arith,
  Bool-cases,
}
use adk_gateway.Common.Map.{contains_key}
use adk_gateway.TaskQueue.{
  TaskRequest, QueuedTask, TaskQueue, enqueue, acquire, pop_into, dequeue_with, try_dequeue,
  complete_task, is_pending, cancel_task,
}
use adk_gateway.TaskQueue.Interleaving.{
  enqueues, acquires, pops, gives_up, activates, frees, cancels_pending, Steps, here, next, at_rest,
  IsBalanced,
}

-- A call of the queue's interface.
pub data Call : Type 0 where
  enqueue_call : (id agent_id : String) (request : TaskRequest) (now : ℕ) → Call
  dequeue_call : (now : ℕ) → Call
  complete_call cancel_call : (id : String) → Call

unfoldable pub perform : TaskQueue → Call → TaskQueue
perform q (enqueue_call id agent_id request now) = (enqueue q id agent_id request now).0
perform q (dequeue_call now) = (try_dequeue q now).0
perform q (complete_call id) = (complete_task q id).0
perform q (cancel_call id) = (cancel_task q id).0

pop_into-Steps :
    (q held : TaskQueue) (ts : List QueuedTask) (now : ℕ)
    → acquire q ≡ some held
    → held.pending ≡ ts
    → Steps (at_rest q) (at_rest (pop_into held ts now).0)
pop_into-Steps q held [] now e p = next (next here (acquires e)) (gives_up refl p)
pop_into-Steps q held (task ∷ rest) now e p =
    next (next (next here (acquires e)) (pops refl p)) (activates [] [] task now refl)

dequeue_with-Steps :
    (q : TaskQueue) (o : Option TaskQueue) (now : ℕ)
    → acquire q ≡ o
    → Steps (at_rest q) (at_rest (dequeue_with q o now).0)
dequeue_with-Steps q none now e = here
dequeue_with-Steps q (some held) now e = pop_into-Steps q held held.pending now e refl

complete_task-Steps :
    (q : TaskQueue) (id : String) → Steps (at_rest q) (at_rest (complete_task q id).0)
unfolding complete_task
complete_task-Steps q id = elim (Bool-cases (contains_key id q.active)) [
  | inl found ↦ rw found (next here (frees id found))
  | inr missing ↦ rw missing here
]

cancel_task-Steps : (q : TaskQueue) (id : String) → Steps (at_rest q) (at_rest (cancel_task q id).0)
unfolding cancel_task
cancel_task-Steps q id = elim (Bool-cases (contains_key id q.active)) [
  | inl found ↦ rw found (next here (frees id found))
  | inr missing ↦ rw missing (elim (Bool-cases (is_pending id q.pending)) [
    | inl waits ↦ rw waits (next here (cancels_pending id waits))
    | inr unknown ↦ rw unknown here
  ])
]

-- Each operation, run to its end, is a run of the interleaved steps: so what holds after every
-- interleaving holds after every sequence of calls.
pub perform-Steps : (q : TaskQueue) (c : Call) → Steps (at_rest q) (at_rest (perform q c))
unfolding perform try_dequeue
perform-Steps q (enqueue_call id agent_id request now) =
    next here (enqueues id agent_id request now)
perform-Steps q (dequeue_call now) = dequeue_with-Steps q (acquire q) now refl
perform-Steps q (complete_call id) = complete_task-Steps q id
perform-Steps q (cancel_call id) = cancel_task-Steps q id

try_dequeue_cases :
    (q : TaskQueue) (ts : List QueuedTask) (now : ℕ)
    → q.pending ≡ ts
    → ((try_dequeue q now).1 ≡ none) ↔ ((ts ≡ []) ⊎ (q.available ≡ 0))
unfolding try_dequeue acquire
try_dequeue_cases q [] now e = (λ h. inl refl, λ h. ground arith)
try_dequeue_cases q (t ∷ ts) now e = (λ h. inr (ground arith), λ h. ground arith)

-- While no call is under way, `try_dequeue` finds nothing to run exactly when no task is pending or
-- as many tasks are active as the limit allows.
pub try_dequeue-none_iff :
    (q : TaskQueue) (now : ℕ)
    → IsBalanced (at_rest q)
    → ((try_dequeue q now).1 ≡ none) ↔ ((q.pending ≡ []) ⊎ (length q.active ≡ q.max_concurrent))
try_dequeue-none_iff q now b =
    let (sound, complete) = try_dequeue_cases q q.pending now refl in
    (
      λ h. elim (sound h) [ inl e ↦ inl e | inr full ↦ inr (omega (arith, b.permits)) ],
      λ h. elim h [
        | inl e ↦ complete (inl e)
        | inr full ↦ complete (inr (omega (arith, b.permits)))
      ],
    )
