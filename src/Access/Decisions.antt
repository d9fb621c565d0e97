-- ===== src/Access/Decisions.antt =====
-- The decisions of access_control.rs on messages, told by the configuration alone.
use adk_gateway.Common.{
  String, List, some, Bool, ◌||◌, contains, if◌then◌else◌, ◌≡◌, refl, arith, sym,
}
use adk_gateway.Common.Map.{lookup}
use adk_gateway.Router.{InboundMessage, channel_name}
use adk_gateway.Access.{
  AuthDecision, allowed, denied, requires_pairing, DmPolicy, dm_pairing, dm_allowlist, dm_open,
  dm_disabled, ChannelAuthOverride, GatewayConfig, ChannelPolicy, policies_of, policy_or, new,
  map_identity, evaluate_policy, check_message_access,
}
use adk_gateway.Access.Rebuilt.{Event, run, config_after, pairs_user, run-new-Agrees}
use adk_gateway.Access.Policies.{
  override_for, OverridesUnique, policy_for, pairing_policy, Implements, policy_for-Implements,
}

-- The decision by a policy and an allow list, for a user who is paired or not.
abbrev pub decide : DmPolicy × List String → Bool → String → String → AuthDecision
decide (dm_open, allow_list) paired canonical platform = allowed
decide (dm_allowlist, allow_list) paired canonical platform =
    if contains canonical allow_list || contains platform allow_list
    then allowed
    else denied "user not in allow list"
decide (dm_pairing, allow_list) paired canonical platform =
    if paired then allowed else requires_pairing
decide (dm_disabled, allow_list) paired canonical platform =
    denied "DMs are disabled for this channel"

decide-Implements :
    (settings : DmPolicy × List String) (policy : ChannelPolicy) (msg : InboundMessage)
    (paired : List String)
    → Implements settings policy
    → evaluate_policy policy (map_identity msg) paired
      ≡ decide settings
          (contains (map_identity msg).canonical_id paired)
          (map_identity msg).canonical_id
          msg.sender_id
unfolding evaluate_policy map_identity
decide-Implements (dm_open, l) policy msg paired i = rw i.same_policy refl
decide-Implements (dm_allowlist, l) policy msg paired i =
    ground
      (arith, i.same_policy, i.same_list (map_identity msg).canonical_id, i.same_list msg.sender_id)
decide-Implements (dm_pairing, l) policy msg paired i = rw i.same_policy refl
decide-Implements (dm_disabled, l) policy msg paired i = rw i.same_policy refl

-- After any pairings and reloads, a message is decided by the configuration in force and by whether
-- its sender was paired: an override of the channel decides before the channel's own section, and
-- without either the sender must be paired.
pub check_message_access-run :
    (config : GatewayConfig) (es : List Event) (msg : InboundMessage)
    → OverridesUnique (config_after config es).auth
    → check_message_access (run (new config) es) msg
      ≡ decide
          (policy_for (config_after config es) msg.channel_type)
          (pairs_user (map_identity msg).canonical_id es)
          (map_identity msg).canonical_id
          msg.sender_id
unfolding check_message_access
check_message_access-run config es msg u =
    let a = run-new-Agrees config es in
    let i = policy_for-Implements (config_after config es) msg.channel_type u in
    rw (a.policies, a.fallback, sym (a.pairings (map_identity msg).canonical_id))
      (decide-Implements (policy_for (config_after config es) msg.channel_type)
        (policy_or (lookup (channel_name msg.channel_type) (policies_of (config_after config es)))
          pairing_policy)
        msg (run (new config) es).paired_users i)

-- While the configuration in force overrides a channel with the allow-list policy, every message on
-- the channel is denied, whoever sends it: the override has no allow list, and the list of the
-- channel's own section is not read.
pub override_allowlist_denies :
    (config : GatewayConfig) (es : List Event) (msg : InboundMessage) (over : ChannelAuthOverride)
    → OverridesUnique (config_after config es).auth
    → override_for (config_after config es).auth (channel_name msg.channel_type) ≡ some over
    → over.dm_policy ≡ some dm_allowlist
    → check_message_access (run (new config) es) msg ≡ denied "user not in allow list"
override_allowlist_denies config es msg over u found policy =
    rw (check_message_access-run config es msg u, found, policy) refl
