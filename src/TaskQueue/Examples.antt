-- ===== src/TaskQueue/Examples.antt =====
-- Runs of the task queue (coding_agent/queue.rs).
use adk_gateway.Common.{
  ◌+◌, ◌≤◌, List, [], ◌∷◌, none, some, true, false, length, ◌≡◌, refl, ◌↔◌, ◌⊎◌, arith,
}
use adk_gateway.Common.Map.{lookup, insert, remove}
use adk_gateway.TaskQueue.{
  TaskRequest, control_panel, QueuedTask, TaskQueue, empty_queue, new, enqueue, acquire,
  try_dequeue, complete_task, cancel_task,
}
use adk_gateway.TaskQueue.Interleaving.{
  System, here, next, enqueues, acquires, empty-IsBalanced, slots_bounded,
}
use adk_gateway.TaskQueue.Slots.{Call, enqueue_call, dequeue_call, perform, try_dequeue-none_iff}
use adk_gateway.TaskQueue.Tasks.{occurrences, IsDistinct, occurrences-try_dequeue}

abbrev request : TaskRequest
request = record {
  description = "fix the build";
  trigger = control_panel "user";
  workspace = none;
  file_context = none;
  reply_to = record { channel_type = "telegram"; channel_id = "1"; message_id = none };
}

abbrev run : TaskQueue → List Call → TaskQueue
run q [] = q
run q (c ∷ cs) = run (perform q c) cs

abbrev two_tasks : List Call
two_tasks = enqueue_call "t1" "a" request 1 ∷ enqueue_call "t2" "a" request 2 ∷ []

one_slot :
    ((try_dequeue (run (new (some 1)) two_tasks) 5).1 ≡ some "t1")
    × ((try_dequeue (perform (run (new (some 1)) two_tasks) (dequeue_call 5)) 6).1 ≡ none)
    × ((cancel_task (run (new (some 1)) two_tasks) "t2").1 ≡ true)
    × ((complete_task (run (new (some 1)) two_tasks) "t2").1 ≡ false)
unfolding perform new enqueue try_dequeue complete_task cancel_task lookup insert remove
one_slot = (refl, refl, refl, refl)

abbrev first_task : QueuedTask
first_task = record { task_id = "t1"; agent_id = "a"; request = request; queued_at = 1 }

abbrev waits : TaskQueue
waits = record (empty_queue 1) { pending = first_task ∷ []; notified = true }

-- A caller that holds the only permit, while another has enqueued a task.
abbrev caught : System
caught = record { queue = record waits { available = 0 }; holding = 1; hands = [] }

slots_bounded_example :
    (length caught.queue.active + length caught.hands ≤ 1)
    × (caught.queue.available + caught.holding + length caught.hands + length caught.queue.active
        ≡ 1)
unfolding enqueue acquire
slots_bounded_example =
    slots_bounded 1 {s = caught} (next (next here (enqueues "t1" "a" request 1)) (acquires refl))

try_dequeue-none_iff_example : ((try_dequeue (empty_queue 1) 5).1 ≡ none) ↔ (
    (◌≡◌ {A = List QueuedTask} [] [])
    ⊎ (length (empty_queue 1).active ≡ (empty_queue 1).max_concurrent))
try_dequeue-none_iff_example = try_dequeue-none_iff (empty_queue 1) 5 (empty-IsBalanced 1)

waits-IsDistinct : IsDistinct waits
unfolding occurrences lookup
waits-IsDistinct id = ground arith

occurrences-try_dequeue_example : occurrences "t1" (try_dequeue waits 5).0 ≡ occurrences "t1" waits
occurrences-try_dequeue_example = occurrences-try_dequeue waits 5 "t1" waits-IsDistinct
