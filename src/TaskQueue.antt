-- ===== src/TaskQueue.antt =====
-- coding_agent/queue.rs, with the requests of coding_agent/models.rs: the queue of coding tasks with
-- its slots. Every entry of `active` holds one permit of the semaphore, and dropping the entry gives
-- it back; `available` counts the permits that are free. Ids and times come from the caller.
pub mod Interleaving
pub mod Slots
pub mod Tasks
pub mod Examples
use adk_gateway.Common.{
  ℕ, ◌+◌, ◌-◌, String, List, [], ◌∷◌, ◌++◌, Option, none, some, Bool, true, false, if◌then◌else◌,
  str_eq, ◌==◌,
}
use adk_gateway.Common.Map.{Map, insert, remove, contains_key}

pub data TaskTrigger : Type 0 where
  user_command : (user_id channel : String) → TaskTrigger
  cron_job : (job_id : String) → TaskTrigger
  agent_delegation : (source_agent_id : String) → TaskTrigger
  control_panel : (user_id : String) → TaskTrigger

pub record ReplyTarget : Type 0 where
  pub channel_type : String
  pub channel_id : String
  pub message_id : Option String

pub record TaskRequest : Type 0 where
  pub description : String
  pub trigger : TaskTrigger
  pub workspace : Option String
  pub file_context : Option (List String)
  pub reply_to : ReplyTarget

pub record QueuedTask : Type 0 where
  pub task_id : String
  pub agent_id : String
  pub request : TaskRequest
  pub queued_at : ℕ

pub record ActiveTask : Type 0 where
  pub task_id : String
  pub agent_id : String
  pub request : TaskRequest
  pub started_at : ℕ

pub record TaskQueue : Type 0 where
  pub pending : List QueuedTask
  pub active : Map ActiveTask
  pub max_concurrent : ℕ
  pub available : ℕ
  -- The permit that `Notify::notify_one` stores.
  pub notified : Bool

abbrev pub default_max_concurrent : ℕ
default_max_concurrent = 3

abbrev pub empty_queue : ℕ → TaskQueue
empty_queue max = record {
  pending = [];
  active = [];
  max_concurrent = max;
  available = max;
  notified = false;
}

unfoldable pub new : Option ℕ → TaskQueue
new none = empty_queue default_max_concurrent
new (some max) = empty_queue max

unfoldable pub enqueue : TaskQueue → String → String → TaskRequest → ℕ → TaskQueue × String
enqueue q id agent_id request now =
    let task : QueuedTask = record {
      task_id = id;
      agent_id = agent_id;
      request = request;
      queued_at = now;
    } in
    (record q { pending = q.pending ++ task ∷ []; notified = true }, id)

abbrev pub activated : QueuedTask → ℕ → ActiveTask
activated task now = record {
  task_id = task.task_id;
  agent_id = task.agent_id;
  request = task.request;
  started_at = now;
}

-- `try_acquire_owned`, `pop_front` and `active.insert`, the three steps of `try_dequeue`.
unfoldable pub acquire : TaskQueue → Option TaskQueue
acquire q = if q.available == 0 then none else some (record q { available = q.available - 1 })

-- An entry that the insertion replaces is dropped, with its permit.
unfoldable pub activate : TaskQueue → QueuedTask → ℕ → TaskQueue
activate q task now = record q {
  active = insert task.task_id (activated task now) q.active;
  available = if contains_key task.task_id q.active then q.available + 1 else q.available;
}

unfoldable pub release : TaskQueue → TaskQueue
release q = record q { available = q.available + 1 }

abbrev pub pop_into : TaskQueue → List QueuedTask → ℕ → TaskQueue × Option String
pop_into q [] now = (release q, none)
pop_into q (task ∷ rest) now = (activate (record q { pending = rest }) task now, some task.task_id)

abbrev pub dequeue_with : TaskQueue → Option TaskQueue → ℕ → TaskQueue × Option String
dequeue_with q none now = (q, none)
dequeue_with q (some held) now = pop_into held held.pending now

unfoldable pub try_dequeue : TaskQueue → ℕ → TaskQueue × Option String
unfolding acquire activate release
try_dequeue q now = dequeue_with q (acquire q) now

-- `active.remove` of a task that is there, with the permit that it drops and the notification.
unfoldable pub free_slot : TaskQueue → String → TaskQueue
free_slot q id = record q {
  active = remove id q.active;
  available = q.available + 1;
  notified = true;
}

unfoldable pub complete_task : TaskQueue → String → TaskQueue × Bool
unfolding free_slot
complete_task q id = if contains_key id q.active then (free_slot q id, true) else (q, false)

-- `position` and `remove` on the pending queue: the first task of that id.
unfoldable pub remove_first : String → List QueuedTask → List QueuedTask
remove_first id [] = []
remove_first id (t ∷ ts) = if str_eq t.task_id id then ts else t ∷ remove_first id ts

unfoldable pub is_pending : String → List QueuedTask → Bool
is_pending id [] = false
is_pending id (t ∷ ts) = if str_eq t.task_id id then true else is_pending id ts

unfoldable pub cancel_task : TaskQueue → String → TaskQueue × Bool
unfolding free_slot remove_first is_pending
cancel_task q id =
    if contains_key id q.active
    then (free_slot q id, true)
    else if is_pending id q.pending
    then (record q { pending = remove_first id q.pending }, true)
    else (q, false)
