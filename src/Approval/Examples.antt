-- ===== src/Approval/Examples.antt =====
-- The theorem on tool_approval.rs at concrete calls.
use adk_gateway.Common.{◌+◌, ◌≤◌, List, [], ◌∷◌, some, true, false, ◌≡◌, ◌↔◌, refl}
use adk_gateway.Approval.{new, is_pending}
use adk_gateway.Approval.Callbacks.{
  Callback, parse_callback_data, callback_data, parse_callback_data-callback_data,
}
use adk_gateway.Approval.Patterns.{matches_pattern}
use adk_gateway.Approval.Matching.{begins_with, written, Matches, matches_pattern-written}
use adk_gateway.Approval.Once.{
  Call, requests, calls_back, times_out, sweeps, run, answers, one_if, requested, approval_sent,
  user_approves, run-resolved_once,
}

abbrev calls : List Call
calls =
    requests "a1" "fs_write" "alice" 0
    ∷ requests "a2" "shell_exec" "alice" 10
    ∷ calls_back "a1" true true
    ∷ calls_back "a1" false true
    ∷ sweeps 130_000
    ∷ times_out "a2"
    ∷ []

run-resolved_once_example :
    (answers "a2" (run (new 120) calls).sent + one_if (is_pending (run (new 120) calls) "a2")
      ≤ requested "a2" calls)
    × (approval_sent "a2" (run (new 120) calls).sent ≡ true → user_approves "a2" calls ≡ true)
run-resolved_once_example = run-resolved_once 120 calls "a2"

matches_pattern-written_example :
    (matches_pattern "fs_write" (written (begins_with "fs_")) ≡ true)
    ↔ Matches "fs_write" (begins_with "fs_")
matches_pattern-written_example = matches_pattern-written "fs_write" (begins_with "fs_") refl

abbrev rejection : Callback
rejection = record { approval_id = "a1"; approved = false }

parse_callback_data-callback_data_example :
    parse_callback_data "reject:a1" ≡ some rejection ↔ ("reject:a1" ≡ callback_data rejection)
parse_callback_data-callback_data_example = parse_callback_data-callback_data "reject:a1" rejection
