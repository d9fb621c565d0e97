-- ===== src/TaskQueue/Interleaving.antt =====
-- The steps of coding_agent/queue.rs as concurrent callers can interleave them. Between its steps a
-- caller of `try_dequeue` holds a permit, and then a permit and a task; these are part of the state.
use adk_gateway.Common.{
  ℕ, suc, ◌+◌, ◌≤◌, String, List, [], ◌∷◌, ◌++◌, some, true, length, ◌≡◌, refl, ap, ◌∙◌, arith,
}
use adk_gateway.Common.Map.{
  contains_key, Unique, insert-Unique, remove-Unique, length-insert, length-remove,
}
use adk_gateway.TaskQueue.{
  TaskRequest, QueuedTask, TaskQueue, empty_queue, enqueue, acquire, activate, release, free_slot,
  activated, remove_first, is_pending,
}

-- `holding` callers have a permit and no task yet; `hands` are the tasks that callers have popped.
pub record System : Type 0 where
  pub queue : TaskQueue
  pub holding : ℕ
  pub hands : List QueuedTask

pub data Step (s : System) : System → Type 0 where
  enqueues :
      (id agent_id : String) (request : TaskRequest) (now : ℕ)
      → Step s (record s { queue = (enqueue s.queue id agent_id request now).0 })
  acquires :
      {q : TaskQueue}
      → acquire s.queue ≡ some q
      → Step s (record s { queue = q; holding = suc s.holding })
  pops :
      {n : ℕ} {task : QueuedTask} {rest : List QueuedTask}
      → s.holding ≡ suc n
      → s.queue.pending ≡ task ∷ rest
      → Step s (record {
        queue = record (s.queue) { pending = rest };
        holding = n;
        hands = task ∷ s.hands;
      })
  gives_up :
      {n : ℕ}
      → s.holding ≡ suc n
      → s.queue.pending ≡ []
      → Step s (record s { queue = release s.queue; holding = n })
  -- Any of the popped tasks may be the next to be inserted.
  activates :
      (before after : List QueuedTask) (task : QueuedTask) (now : ℕ)
      → s.hands ≡ before ++ (task ∷ after)
      → Step s (record s { queue = activate s.queue task now; hands = before ++ after })
  frees :
      (id : String)
      → contains_key id s.queue.active ≡ true
      → Step s (record s { queue = free_slot s.queue id })
  cancels_pending :
      (id : String)
      → is_pending id s.queue.pending ≡ true
      → Step s (record s { queue = record (s.queue) { pending = remove_first id s.queue.pending } })

pub data Steps (s : System) : System → Type 0 where
  here : Steps s s
  next : {t u : System} → Steps s t → Step t u → Steps s u

abbrev pub at_rest : TaskQueue → System
at_rest q = record { queue = q; holding = 0; hands = [] }

-- Every permit is free, held by a caller, or held by an active task.
pub record IsBalanced (s : System) : Type 0 where
  pub unique : Unique s.queue.active
  pub permits :
      s.queue.available + s.holding + length s.hands + length s.queue.active
      ≡ s.queue.max_concurrent

length-middle {ℓ} :
    {A : Type ℓ} (xs ys : List A) (a : A) → length (xs ++ (a ∷ ys)) ≡ suc (length (xs ++ ys))
length-middle [] ys a = refl
length-middle (x ∷ xs) ys a = ap suc (length-middle xs ys a)

Step-IsBalanced : {s t : System} → Step s t → IsBalanced s → IsBalanced t
unfolding enqueue acquire release activate free_slot
Step-IsBalanced (enqueues id agent_id request now) b = record {
  unique = b.unique;
  permits = b.permits;
}
Step-IsBalanced {s} (acquires e) b = record { unique = ground arith; permits = ground arith }
Step-IsBalanced (pops h e) b = record { unique = b.unique; permits = ground arith }
Step-IsBalanced (gives_up h e) b = record { unique = b.unique; permits = ground arith }
Step-IsBalanced {s} (activates before after task now e) b = record {
  unique = insert-Unique task.task_id _ s.queue.active b.unique;
  permits = ground (
    arith,
    length-insert task.task_id (activated task now) s.queue.active,
    ap length e,
    length-middle before after task,
  );
}
Step-IsBalanced {s} (frees id h) b = record {
  unique = remove-Unique id s.queue.active b.unique;
  permits = ground (arith, length-remove id s.queue.active b.unique h);
}
Step-IsBalanced (cancels_pending id h) b = record { unique = b.unique; permits = b.permits }

Steps-IsBalanced : {s t : System} → IsBalanced s → Steps s t → IsBalanced t
Steps-IsBalanced b here = b
Steps-IsBalanced b (next r st) = Step-IsBalanced st (Steps-IsBalanced b r)

Step-max : {s t : System} → Step s t → t.queue.max_concurrent ≡ s.queue.max_concurrent
unfolding enqueue acquire release activate free_slot
Step-max (enqueues id agent_id request now) = refl
Step-max (acquires e) = ground arith
Step-max (pops h e) = refl
Step-max (gives_up h e) = refl
Step-max (activates before after task now e) = refl
Step-max (frees id h) = refl
Step-max (cancels_pending id h) = refl

Steps-max : {s t : System} → Steps s t → t.queue.max_concurrent ≡ s.queue.max_concurrent
Steps-max here = refl
Steps-max (next r st) = Step-max st ∙ Steps-max r

pub empty-IsBalanced : (max : ℕ) → IsBalanced (at_rest (empty_queue max))
empty-IsBalanced max = record { unique = tt; permits = omega arith }

-- However the callers interleave, the active tasks, with those that a caller is about to activate,
-- never exceed the limit that the queue was created with, and every permit is accounted for.
pub slots_bounded :
    (max : ℕ) {s : System}
    → Steps (at_rest (empty_queue max)) s
    → (length s.queue.active + length s.hands ≤ max)
      × (s.queue.available + s.holding + length s.hands + length s.queue.active ≡ max)
slots_bounded max r =
    omega (arith, (Steps-IsBalanced (empty-IsBalanced max) r).permits, Steps-max r)
