-- ===== src/Router/Examples.antt =====
-- Runs of the router (router.rs).
use adk_gateway.Common.{[], ◌∷◌, none, some, ◌≡◌, refl, arith}
use adk_gateway.Json.{Value, object, member, no_members, string}
use adk_gateway.AgentConfig.{ChannelBinding}
use adk_gateway.Router.{
  InboundMessage, telegram, AgentBinding, RoutingBinding, MessageRouter, new, find_binding,
  exact_match, account_match, channel_match, find_legacy, channel_name, legacy_match, resolve_agent,
}
use adk_gateway.Router.Resolution.{rank, resolve_agent-most_specific}

abbrev message : InboundMessage
message = record {
  channel_type = telegram;
  account_id = "bot1";
  sender_id = "42";
  sender_name = some "ann";
  group_id = none;
}

abbrev user_peer : Value
user_peer = object (member "kind" (string "user") (member "id" (string "@ann") no_members))

abbrev legacy : RoutingBinding
legacy = record {
  agent_id = "old";
  match_rule = record { channel = some "telegram"; account_id = none; peer = some user_peer };
}

abbrev on_channel : AgentBinding
on_channel = record {
  channel_type = "telegram";
  account_id = none;
  peer_filter = none;
  agent_id = "any";
}

abbrev on_account : AgentBinding
on_account = record on_channel { account_id = some "bot1"; agent_id = "account" }

abbrev on_peer : AgentBinding
on_peer = record on_channel { peer_filter = some "42"; agent_id = "peer" }

abbrev router : MessageRouter
router = record {
  bindings = legacy ∷ [];
  agent_bindings = on_channel ∷ on_account ∷ [];
  default_agent_id = "main";
}

resolutions :
    (resolve_agent router message ≡ "account")
    × (resolve_agent (new (legacy ∷ []) "main") message ≡ "old")
    × (resolve_agent (new [] "main") message ≡ "main")
unfolding resolve_agent find_binding exact_match account_match channel_match find_legacy
    legacy_match new
resolutions = (refl, refl, refl)

resolve_agent-most_specific_example : resolve_agent router message ≡ "account"
unfolding rank channel_name
resolve_agent-most_specific_example =
    resolve_agent-most_specific router message (on_channel ∷ []) [] on_account refl (omega arith)
      (omega arith, tt) tt

abbrev slack_binding : ChannelBinding
slack_binding = record { channel_type = "slack"; account_id = none; peer_filter = none }
