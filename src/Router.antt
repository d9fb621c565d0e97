-- ===== src/Router.antt =====
-- router.rs: which agent handles an inbound message. A function of the source that ends at the
-- first match of a loop returns `none` here where the loop runs through.
pub mod Resolution
pub mod Bindings
pub mod Examples
use adk_gateway.Common.{
  String, List, [], ◌∷◌, ◌++◌, map, Option, none, some, Bool, true, false, not, ◌&&◌, ◌||◌,
  if◌then◌else◌, str_eq, ◌==◌, is_some, filter,
}
use Prim.Native.Char.{code}
use adk_gateway.Json.{Value, get, as_str}
use adk_gateway.AgentConfig.{ChannelBinding, or_else}

-- What the router reads of `InboundMessage`, and the channel types with their names.
pub data ChannelType : Type 0 where
  telegram slack discord whatsapp matrix signal imessage webhook : ChannelType

unfoldable pub channel_name : ChannelType → String
channel_name telegram = "telegram"
channel_name slack = "slack"
channel_name discord = "discord"
channel_name whatsapp = "whatsapp"
channel_name matrix = "matrix"
channel_name signal = "signal"
channel_name imessage = "imessage"
channel_name webhook = "webhook"

pub record InboundMessage : Type 0 where
  pub channel_type : ChannelType
  pub account_id : String
  pub sender_id : String
  pub sender_name : Option String
  pub group_id : Option String

pub record AgentBinding : Type 0 where
  pub channel_type : String
  pub account_id : Option String
  pub peer_filter : Option String
  pub agent_id : String

pub record RoutingMatch : Type 0 where
  pub channel : Option String
  pub account_id : Option String
  pub peer : Option Value

pub record RoutingBinding : Type 0 where
  pub agent_id : String
  pub match_rule : RoutingMatch

pub record MessageRouter : Type 0 where
  pub bindings : List RoutingBinding
  pub agent_bindings : List AgentBinding
  pub default_agent_id : String

unfoldable pub new : List RoutingBinding → String → MessageRouter
new bindings default_agent = record {
  bindings = bindings;
  agent_bindings = [];
  default_agent_id = default_agent;
}

abbrev pub bind_agent : String → ChannelBinding → AgentBinding
bind_agent id cb = record {
  channel_type = cb.channel_type;
  account_id = cb.account_id;
  peer_filter = cb.peer_filter;
  agent_id = id;
}

unfoldable pub add_agent_bindings : MessageRouter → String → List ChannelBinding → MessageRouter
add_agent_bindings r id cbs = record r {
  agent_bindings = r.agent_bindings ++ map (bind_agent id) cbs;
}

unfoldable pub remove_agent_bindings : MessageRouter → String → MessageRouter
remove_agent_bindings r id = record r {
  agent_bindings = filter (λ b. not (str_eq b.agent_id id)) r.agent_bindings;
}

unfoldable pub update_agent_bindings : MessageRouter → String → List ChannelBinding → MessageRouter
update_agent_bindings r id cbs = add_agent_bindings (remove_agent_bindings r id) id cbs

-- `msg_account`: an empty account is none.
unfoldable pub msg_account : InboundMessage → Option String
msg_account msg = if str_eq msg.account_id "" then none else some msg.account_id

-- The match on the binding's and the message's account: only two equal accounts match.
abbrev pub account_matches : Option String → Option String → Bool
account_matches (some a) (some b) = str_eq a b
account_matches (some a) none = false
account_matches none b = false

abbrev pub peer_matches : Option String → String → Bool
peer_matches (some peer) sender = str_eq peer sender
peer_matches none sender = false

-- The tests of the three loops over the agent bindings.
unfoldable pub exact_match : InboundMessage → AgentBinding → Bool
unfolding channel_name msg_account
exact_match msg ab =
    str_eq ab.channel_type (channel_name msg.channel_type)
    && account_matches ab.account_id (msg_account msg)
    && peer_matches ab.peer_filter msg.sender_id

unfoldable pub account_match : InboundMessage → AgentBinding → Bool
unfolding channel_name msg_account
account_match msg ab =
    str_eq ab.channel_type (channel_name msg.channel_type)
    && not (is_some ab.peer_filter)
    && account_matches ab.account_id (msg_account msg)

unfoldable pub channel_match : InboundMessage → AgentBinding → Bool
unfolding channel_name
channel_match msg ab =
    str_eq ab.channel_type (channel_name msg.channel_type)
    && not (is_some ab.account_id || is_some ab.peer_filter)

unfoldable pub find_binding : (AgentBinding → Bool) → List AgentBinding → Option String
find_binding test [] = none
find_binding test (ab ∷ abs) = if test ab then some ab.agent_id else find_binding test abs

-- `str::trim_start_matches('@')`.
unfoldable pub trim_at : String → String
trim_at String.[] = String.[]
trim_at (String.◌∷◌ c s) = if code c == b'@' then trim_at s else String.◌∷◌ c s

abbrev pub same_opt : Option String → String → Bool
same_opt none b = false
same_opt (some a) b = str_eq a b

-- `match kind`: a peer of another kind matches no message.
abbrev pub peer_of_kind : InboundMessage → String → String → Bool
peer_of_kind msg kind id =
    if str_eq kind "user"
    then str_eq (trim_at id) msg.sender_id || same_opt msg.sender_name (trim_at id)
    else if str_eq kind "group"
    then same_opt msg.group_id id
    else false

-- A peer without a text `kind` and a text `id` is no restriction.
abbrev pub kind_and_id : InboundMessage → Option String → Option String → Bool
kind_and_id msg none id = true
kind_and_id msg (some kind) none = true
kind_and_id msg (some kind) (some id) = peer_of_kind msg kind id

abbrev pub and_then_str : Option Value → Option String
and_then_str none = none
and_then_str (some v) = as_str v

abbrev pub legacy_peer : InboundMessage → Option Value → Bool
legacy_peer msg none = true
legacy_peer msg (some peer) =
    kind_and_id msg (and_then_str (get "kind" peer)) (and_then_str (get "id" peer))

abbrev pub legacy_account : Option String → Option String → Bool
legacy_account none account = true
legacy_account (some a) none = false
legacy_account (some a) (some b) = str_eq b a

abbrev pub legacy_channel : Option String → String → Bool
legacy_channel none name = true
legacy_channel (some c) name = str_eq c name

unfoldable pub legacy_match : InboundMessage → RoutingMatch → Bool
unfolding channel_name msg_account trim_at
legacy_match msg m =
    legacy_channel m.channel (channel_name msg.channel_type)
    && legacy_account m.account_id (msg_account msg)
    && legacy_peer msg m.peer

unfoldable pub find_legacy : InboundMessage → List RoutingBinding → Option String
find_legacy msg [] = none
find_legacy msg (b ∷ bs) =
    if legacy_match msg b.match_rule then some b.agent_id else find_legacy msg bs

abbrev pub unwrap_or : Option String → String → String
unwrap_or none d = d
unwrap_or (some a) d = a

unfoldable pub resolve_agent : MessageRouter → InboundMessage → String
resolve_agent r msg =
    unwrap_or
      (or_else (find_binding (exact_match msg) r.agent_bindings) (
        or_else (find_binding (account_match msg) r.agent_bindings) (
          or_else (find_binding (channel_match msg) r.agent_bindings)
            (find_legacy msg r.bindings))))
      r.default_agent_id
