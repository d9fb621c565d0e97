-- ===== src/Delivery.antt =====
-- delivery.rs: how the text of a response reaches a channel, edited in place or sent when complete, with
-- the loops of gateway.rs over the chunks. The channel answers by arguments, one for each call; times
-- are milliseconds.
pub mod Split
pub mod Cuts
pub mod Chunks
pub mod Ascii
pub mod Streaming
pub mod Examples
use adk_gateway.Common.{
  ℕ, ◌+◌, ◌-◌, String, List, [], ◌∷◌, ◌++◌, Option, none, some, Bool, true, false, not, ◌&&◌,
  if◌then◌else◌, ltb, str_eq,
}
use adk_gateway.AgentConfig.{or_else}
use adk_gateway.Router.{
  ChannelType, telegram, slack, discord, whatsapp, matrix, signal, imessage, webhook,
}
use adk_gateway.Approval.Patterns.{contains_text}

-- `max_message_length` of channel/mod.rs.
unfoldable pub max_message_length : ChannelType → ℕ
max_message_length telegram = 4_096
max_message_length slack = 4_000
max_message_length discord = 2_000
max_message_length whatsapp = 4_096
max_message_length matrix = 65_536
max_message_length signal = 6_000
max_message_length imessage = 20_000
max_message_length webhook = 65_536

pub record MessageRef : Type 0 where
  pub channel_type : ChannelType
  pub account_id : String
  pub recipient_id : String
  pub message_id : Option String
  pub reply_to : Option String

pub record OutboundMessage : Type 0 where
  pub channel_type : ChannelType
  pub account_id : String
  pub recipient_id : String
  pub text : String
  pub reply_to : Option String
  pub is_partial : Bool

pub record EditMessage : Type 0 where
  pub channel_type : ChannelType
  pub account_id : String
  pub message_id : String
  pub recipient_id : String
  pub text : String

pub data ChannelCall : Type 0 where
  sends : (at : ℕ) → OutboundMessage → ChannelCall
  edits : (at : ℕ) → EditMessage → ChannelCall

-- What `send` answers: the platform's id of the message, if it has one, or an error.
pub data Sent : Type 0 where
  accepted : Option String → Sent
  rejected : (error : String) → Sent

-- What the calls of one step are answered: a send, an edit and the edit that is tried again, each
-- edit with its error; and the latest text at that time, which another step may have stored.
pub record Answers : Type 0 where
  pub sent : Sent
  pub edited : Option String
  pub retried : Option String
  pub latest_then : String

pub record StreamingState : Type 0 where
  pub sent_message_id : Option String
  pub last_edit : Option ℕ
  pub latest_text : String
  pub edit_interval : ℕ

unfoldable pub new : StreamingState
new = record { sent_message_id = none; last_edit = none; latest_text = ""; edit_interval = 1_000 }

pub record Delivered : Type 0 where
  pub state : StreamingState
  pub calls : List ChannelCall
  pub error : Option String

abbrev pub edit_of : MessageRef → String → String → EditMessage
edit_of msg_ref message_id text = record {
  channel_type = msg_ref.channel_type;
  account_id = msg_ref.account_id;
  message_id = message_id;
  recipient_id = msg_ref.recipient_id;
  text = text;
}

abbrev pub message_of : MessageRef → Bool → String → OutboundMessage
message_of msg_ref is_partial text = record {
  channel_type = msg_ref.channel_type;
  account_id = msg_ref.account_id;
  recipient_id = msg_ref.recipient_id;
  text = text;
  reply_to = msg_ref.reply_to;
  is_partial = is_partial;
}

abbrev not_modified : String → Bool
not_modified error = contains_text error "message is not modified"

abbrev retry_text : String → String → String
retry_text latest text = if str_eq latest "" then text else latest

-- The second edit comes when the rate-limit window is over.
unfoldable pub try_edit :
    StreamingState → MessageRef → String → String → ℕ → Answers → Option String → Delivered
try_edit state msg_ref text message_id now answers none = record {
  state = state;
  calls = edits now (edit_of msg_ref message_id text) ∷ [];
  error = none;
}
try_edit state msg_ref text message_id now answers (some error) =
    if not_modified error
    then record {
      state = state;
      calls = edits now (edit_of msg_ref message_id text) ∷ [];
      error = none;
    }
    else record {
      state = state;
      calls =
          edits now (edit_of msg_ref message_id text)
          ∷ edits (now + state.edit_interval)
              (edit_of msg_ref message_id (retry_text answers.latest_then text))
          ∷ [];
      error = answers.retried;
    }

-- The placeholder: the first partial text, as a message of its own.
unfoldable pub send_placeholder : StreamingState → MessageRef → String → ℕ → Sent → Delivered
send_placeholder state msg_ref text now (accepted id) = record {
  state = record state { sent_message_id = or_else id msg_ref.message_id; last_edit = some now };
  calls = sends now (message_of msg_ref true text) ∷ [];
  error = none;
}
send_placeholder state msg_ref text now (rejected error) = record {
  state = state;
  calls = sends now (message_of msg_ref true text) ∷ [];
  error = some error;
}

abbrev pub is_throttled : Option ℕ → ℕ → ℕ → Bool
is_throttled none now interval = false
is_throttled (some last) now interval = ltb (now - last) interval

unfoldable pub on_partial : StreamingState → MessageRef → String → ℕ → Answers → Delivered
unfolding try_edit send_placeholder
on_partial state msg_ref text now answers =
    let held = record state { latest_text = text } in
    elim state.sent_message_id [
      | none ↦ send_placeholder held msg_ref text now answers.sent
      | some message_id ↦
          if is_throttled state.last_edit now state.edit_interval
          then record { state = held; calls = []; error = none }
          else try_edit (record held { last_edit = some now }) msg_ref text message_id now answers
              answers.edited
    ]

abbrev pub error_of : Sent → Option String
error_of (accepted id) = none
error_of (rejected error) = some error

unfoldable pub on_complete : StreamingState → MessageRef → String → ℕ → Answers → Delivered
unfolding try_edit
on_complete state msg_ref text now answers =
    let held = record state { latest_text = text } in
    elim state.sent_message_id [
      | some message_id ↦ try_edit held msg_ref text message_id now answers answers.edited
      | none ↦ record {
        state = held;
        calls = sends now (message_of msg_ref false text) ∷ [];
        error = error_of answers.sent;
      }
    ]

-- `BatchDelivery`.
unfoldable pub batch_complete : MessageRef → String → ℕ → Sent → List ChannelCall × Option String
batch_complete msg_ref text now answer =
    (sends now (message_of msg_ref false text) ∷ [], error_of answer)

pub data DeliveryStrategy : Type 0 where
  streaming batch : DeliveryStrategy

abbrev streams : Option String → Bool
streams none = true
streams (some mode) = not (str_eq mode "complete")

unfoldable pub select_strategy : Bool → Option String → DeliveryStrategy
select_strategy supports_editing stream_mode =
    if supports_editing && streams stream_mode then streaming else batch

-- The loop over the chunks, which the first error ends: one `on_complete` for each of them.
unfoldable pub deliver_chunks :
    StreamingState → MessageRef → List String → (ℕ → ℕ) → (ℕ → Answers) → ℕ → Delivered
unfolding on_complete
deliver_chunks state msg_ref [] at answers round = record {
  state = state;
  calls = [];
  error = none;
}
deliver_chunks state msg_ref (chunk ∷ rest) at answers round =
    let first = on_complete state msg_ref chunk (at round) (answers round) in
    let later = deliver_chunks first.state msg_ref rest at answers (round + 1) in
    elim first.error [
      | none ↦ record later { calls = first.calls ++ later.calls }
      | some error ↦ first
    ]

pub record Partial : Type 0 where
  pub text : String
  pub at : ℕ
  pub answers : Answers

-- The partial texts of one response; their errors are logged and left.
unfoldable pub run_partials : StreamingState → MessageRef → List Partial → Delivered
unfolding on_partial
run_partials state msg_ref [] = record { state = state; calls = []; error = none }
run_partials state msg_ref (event ∷ rest) =
    let first = on_partial state msg_ref event.text event.at event.answers in
    let later = run_partials first.state msg_ref rest in
    record later { calls = first.calls ++ later.calls }
