-- ===== src/Approval.antt =====
-- tool_approval.rs: which tool calls wait for the user's approval, and how the waiting ones are
-- resolved. The id (a random UUID) and the time are arguments. A `oneshot` sender is told by the id of
-- its request, and `sent` lists what the senders have sent; whether the receiver still lives is an
-- argument of the callback. The arguments of the tool and the texts for the user are not modelled.
pub mod Patterns
pub mod Search
pub mod Matching
pub mod Callbacks
pub mod Once
pub mod Examples
use adk_gateway.Common.{
  ℕ, ◌+◌, ◌*◌, String, List, [], ◌∷◌, ◌++◌, Option, none, some, Bool, true, false, not,
  if◌then◌else◌, leb, any, is_empty, length,
}
use adk_gateway.Common.Map.{Map, lookup, insert, remove, contains_key}
use adk_gateway.Approval.Patterns.{matches_pattern}

pub data ApprovalDecision : Type 0 where
  required not_required : ApprovalDecision

-- The state that a sender sends; `Pending` is never sent.
pub data ApprovalState : Type 0 where
  pending : (expires_at_ms : ℕ) → ApprovalState
  approved rejected timed_out : ApprovalState

pub record PendingApproval : Type 0 where
  pub id : String
  pub tool_name : String
  pub user_id : String
  pub requested_at : ℕ
  pub expires_at : ℕ
  pub callback_tx : Option String

pub record ToolApprovalService : Type 0 where
  pub pending_map : Map PendingApproval
  pub timeout : ℕ
  pub sent : List (String × ApprovalState)

pub record ApprovalConfig : Type 0 where
  pub require_approval : List String
  pub timeout_secs : ℕ

abbrev pub default_dangerous_tools : List String
default_dangerous_tools = "fs_write" ∷ "fs_delete" ∷ "shell_exec" ∷ "run_command" ∷ []

abbrev pub default_timeout_secs : ℕ
default_timeout_secs = 120

unfoldable pub new : ℕ → ToolApprovalService
new timeout_secs = record { pending_map = []; timeout = timeout_secs * 1000; sent = [] }

unfoldable pub check_requires_approval : String → ApprovalConfig → ApprovalDecision
check_requires_approval tool config =
    if not (is_empty config.require_approval)
    then if any (λ pattern. matches_pattern tool pattern) config.require_approval
      then required
      else not_required
    else if any (λ pattern. matches_pattern tool pattern) default_dangerous_tools
    then required
    else not_required

unfoldable pub request_approval :
    ToolApprovalService → String → String → String → ℕ → ToolApprovalService
request_approval service id tool user now = record service {
  pending_map =
      insert id
        (record {
          id = id;
          tool_name = tool;
          user_id = user;
          requested_at = now;
          expires_at = now + service.timeout;
          callback_tx = some id;
        })
        service.pending_map;
}

-- `if let Some(tx) = approval.callback_tx.take() { tx.send(state) }`.
abbrev pub send : Option String → ApprovalState → List (String × ApprovalState)
send none state = []
send (some tx) state = (tx, state) ∷ []

-- An entry is taken out of the map and told the state; nothing happens where there is none.
unfoldable pub time_out : ToolApprovalService → String → ToolApprovalService
time_out service id = elim (lookup id service.pending_map) [
  | none ↦ service
  | some approval ↦ record service {
    pending_map = remove id service.pending_map;
    sent = service.sent ++ send approval.callback_tx timed_out;
  }
]

unfoldable pub expired_ids : ℕ → Map PendingApproval → List String
expired_ids now [] = []
expired_ids now ((id, approval) ∷ rest) =
    let later = expired_ids now rest in if leb approval.expires_at now then id ∷ later else later

unfoldable pub time_out_all : List String → ToolApprovalService → ToolApprovalService
unfolding time_out
time_out_all [] service = service
time_out_all (id ∷ ids) service = time_out_all ids (time_out service id)

unfoldable pub expire_stale : ToolApprovalService → ℕ → ToolApprovalService
unfolding expired_ids time_out_all
expire_stale service now = time_out_all (expired_ids now service.pending_map) service

pub data CallbackResult : Type 0 where
  resolved receiver_dropped not_found : CallbackResult

abbrev pub answer : Bool → ApprovalState
answer true = approved
answer false = rejected

abbrev pub delivery : Option String → Bool → CallbackResult
delivery none alive = resolved
delivery (some tx) alive = if alive then resolved else receiver_dropped

abbrev pub send_if_alive : Option String → Bool → ApprovalState → List (String × ApprovalState)
send_if_alive tx alive state = if alive then send tx state else []

unfoldable pub handle_callback :
    ToolApprovalService → String → Bool → Bool → ToolApprovalService × CallbackResult
handle_callback service id approves alive = elim (lookup id service.pending_map) [
  | none ↦ (service, not_found)
  | some approval ↦ (
    record service {
      pending_map = remove id service.pending_map;
      sent = service.sent ++ send_if_alive approval.callback_tx alive (answer approves);
    },
    delivery approval.callback_tx alive,
  )
]

unfoldable pub pending_count : ToolApprovalService → ℕ
pending_count service = length service.pending_map

unfoldable pub is_pending : ToolApprovalService → String → Bool
is_pending service id = contains_key id service.pending_map
