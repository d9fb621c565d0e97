-- ===== src/TaskQueue/Tasks.antt =====
-- Where a task of coding_agent/queue.rs is, and that none is lost or run twice.
use adk_gateway.Common.{
  ℕ, suc, ◌+◌, ◌-◌, ◌≤◌, String, List, [], ◌∷◌, ◌++◌, some, Bool, true, false, not, ◌&&◌,
  if◌then◌else◌, str_eq, ◌==◌, ◌≡◌, refl, inl, inr, arith, eq_iff, Bool-cases,
}
use adk_gateway.Common.Map.{lookup, contains_key, lookup-insert, lookup-remove}
use adk_gateway.TaskQueue.{
  TaskRequest, QueuedTask, TaskQueue, activated, enqueue, acquire, activate, release, pop_into,
  try_dequeue, complete_task, remove_first, is_pending, cancel_task,
}

abbrev pub waiting : String → List QueuedTask → ℕ
waiting id [] = 0
waiting id (t ∷ ts) = let rest = waiting id ts in if str_eq t.task_id id then suc rest else rest

abbrev pub one_if : Bool → ℕ
one_if true = 1
one_if false = 0

-- How many tasks of an id the queue knows, pending and active.
unfoldable pub occurrences : String → TaskQueue → ℕ
occurrences id q = waiting id q.pending + one_if (contains_key id q.active)

-- No two tasks of the queue have one id.
abbrev pub IsDistinct : TaskQueue → Type 0
IsDistinct q = (id : String) → occurrences id q ≤ 1

waiting-append :
    (id : String) (ts us : List QueuedTask) → waiting id (ts ++ us) ≡ waiting id ts + waiting id us
waiting-append id [] us = omega arith
waiting-append id (t ∷ ts) us = ground (arith, waiting-append id ts us)

waiting-remove_first :
    (id j : String) (ts : List QueuedTask)
    → is_pending id ts ≡ true
    → waiting j (remove_first id ts) ≡ waiting j ts - one_if (str_eq id j)
unfolding remove_first is_pending
waiting-remove_first id j [] h = cc
waiting-remove_first id j (t ∷ ts) h =
    ground
      (arith, eq_iff t.task_id id, eq_iff t.task_id j, eq_iff id j, waiting-remove_first id j ts)

waiting-is_pending :
    (id : String) (ts : List QueuedTask) → is_pending id ts ≡ not (waiting id ts == 0)
unfolding is_pending
waiting-is_pending id [] = refl
waiting-is_pending id (t ∷ ts) = ground (arith, waiting-is_pending id ts)

-- Enqueueing under an id adds one task of that id, and no other.
pub occurrences-enqueue :
    (q : TaskQueue) (id j agent_id : String) (request : TaskRequest) (now : ℕ)
    → occurrences j (enqueue q id agent_id request now).0 ≡ occurrences j q + one_if (str_eq id j)
unfolding occurrences enqueue
occurrences-enqueue q id j agent_id request now = ground (
  arith,
  waiting-append j q.pending
      (record { task_id = id; agent_id = agent_id; request = request; queued_at = now } ∷ []),
)

pop_into-occurrences :
    (q : TaskQueue) (ts : List QueuedTask) (now : ℕ) (j : String)
    → q.pending ≡ ts
    → IsDistinct q
    → occurrences j (pop_into q ts now).0 ≡ occurrences j q
unfolding occurrences release activate
pop_into-occurrences q [] now j e d = refl
pop_into-occurrences q (t ∷ ts) now j e d = ground (
  arith,
  d t.task_id,
  eq_iff t.task_id t.task_id,
  eq_iff t.task_id j,
  lookup-insert t.task_id j (activated t now) q.active,
)

-- Dequeueing loses no task and doubles none, where ids are distinct.
pub occurrences-try_dequeue :
    (q : TaskQueue) (now : ℕ) (j : String)
    → IsDistinct q
    → occurrences j (try_dequeue q now).0 ≡ occurrences j q
unfolding try_dequeue occurrences acquire
occurrences-try_dequeue q now j d = elim (Bool-cases (q.available == 0)) [
  | inl full ↦ rw full
  | inr free ↦
      rw free
        (pop_into-occurrences (record q { available = q.available - 1 }) q.pending now j refl d)
]

-- The task that `try_dequeue` names was the oldest one pending; it is active, for its agent and with
-- its request, and the others stay pending in their order.
pub try_dequeue-some :
    (q : TaskQueue) (now : ℕ) (id : String)
    → (try_dequeue q now).1 ≡ some id
    → (task : QueuedTask) × (rest : List QueuedTask) × (q.pending ≡ task ∷ rest)
      × (task.task_id ≡ id)
      × ((try_dequeue q now).0.pending ≡ rest)
      × (lookup id (try_dequeue q now).0.active ≡ some (activated task now))
unfolding try_dequeue acquire activate
try_dequeue-some q now id h = go q.pending refl
  where
    go :
        (ts : List QueuedTask)
        → q.pending ≡ ts
        → (task : QueuedTask) × (rest : List QueuedTask) × (q.pending ≡ task ∷ rest)
          × (task.task_id ≡ id)
          × ((try_dequeue q now).0.pending ≡ rest)
          × (lookup id (try_dequeue q now).0.active ≡ some (activated task now))
    go [] e = absurd (ground arith)
    go (t ∷ ts) e = (
      t,
      ts,
      e,
      ground arith,
      ground arith,
      ground (
        arith,
        lookup-insert t.task_id t.task_id (activated t now) q.active,
        eq_iff t.task_id t.task_id,
      ),
    )

-- Completing and cancelling report success exactly when the queue knows the task (as an active one,
-- for completing), and then it is gone, and no other task is.
pub finish_lem :
    (q : TaskQueue) (id j : String)
    → IsDistinct q
    → ((complete_task q id).1 ≡ contains_key id q.active)
      × (occurrences j (complete_task q id).0
          ≡ occurrences j q - one_if ((complete_task q id).1 && str_eq id j))
      × ((cancel_task q id).1 ≡ not (occurrences id q == 0))
      × (occurrences j (cancel_task q id).0
          ≡ occurrences j q - one_if ((cancel_task q id).1 && str_eq id j))
unfolding complete_task cancel_task occurrences
finish_lem q id j d = (
  ground arith,
  ground (arith, d id, eq_iff id j, lookup-remove id j q.active),
  ground (arith, waiting-is_pending id q.pending),
  ground (
    arith,
    d id,
    eq_iff id j,
    lookup-remove id j q.active,
    waiting-is_pending id q.pending,
    waiting-remove_first id j q.pending,
  ),
)
