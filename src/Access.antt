-- ===== src/Access.antt =====
-- access_control.rs: who may talk to the gateway over which channel, and who may run which tool.
-- A `HashSet` is a list without duplicates. Of the configuration the fields read here are kept, and
-- of the message the channel and the sender. A role is checked by name; its permissions are data.
pub mod Sets
pub mod Rebuilt
pub mod Policies
pub mod Decisions
pub mod Identity
pub mod Tools
pub mod Examples
use adk_gateway.Common.{
  String, List, [], ◌∷◌, Option, none, some, Bool, not, ◌||◌, map, filter, contains, is_empty,
  if◌then◌else◌, concat, join,
}
use adk_gateway.Common.Map.{Map, lookup, insert, contains_key}
use adk_gateway.Access.Sets.{set_insert, set_of, union}
use adk_gateway.Router.{ChannelType, InboundMessage, channel_name}

pub data AuthDecision : Type 0 where
  allowed : AuthDecision
  denied : (reason : String) → AuthDecision
  requires_pairing : AuthDecision

pub record Role : Type 0 where
  pub name : String
  pub permissions : List String
  pub scopes : List String

pub record AuthIdentity : Type 0 where
  pub canonical_id : String
  pub platform_id : String
  pub channel_type : ChannelType

pub data ToolAccessDecision : Type 0 where
  tool_allowed : ToolAccessDecision
  tool_denied : (reason : String) → ToolAccessDecision

pub data DmPolicy : Type 0 where
  dm_pairing dm_allowlist dm_open dm_disabled : DmPolicy

pub record RoleConfig : Type 0 where
  pub name : String
  pub permissions : List String
  pub scopes : List String

pub record UserRoleMapping : Type 0 where
  pub user_id : String
  pub role : String

pub record ChannelAuthOverride : Type 0 where
  pub dm_policy : Option DmPolicy
  pub roles : List RoleConfig

pub record AuthConfig : Type 0 where
  pub roles : List RoleConfig
  pub user_mappings : List UserRoleMapping
  pub channel_overrides : Map ChannelAuthOverride

pub record TelegramConfig : Type 0 where
  pub dm_policy : DmPolicy
  pub allow_from : List String

pub record SlackConfig : Type 0 where
  pub dm_policy : DmPolicy
  pub allow_from : List String

pub record GatewayConfig : Type 0 where
  pub auth : Option AuthConfig
  pub telegram : Option TelegramConfig
  pub slack : Option SlackConfig

pub record ChannelPolicy : Type 0 where
  pub dm_policy : DmPolicy
  pub allow_list : List String
  pub roles : List Role

pub record AccessControlBridge : Type 0 where
  pub roles : Map Role
  pub user_roles : Map (List String)
  pub paired_users : List String
  pub channel_policies : Map ChannelPolicy
  pub default_policy : ChannelPolicy

abbrev pub role_of : RoleConfig → Role
role_of rc = record { name = rc.name; permissions = rc.permissions; scopes = rc.scopes }

abbrev pub or_default : Option (List String) → List String
or_default none = []
or_default (some roles) = roles

-- `user_roles.entry(user).or_default().insert(role)`.
unfoldable pub give_role : Map (List String) → String → String → Map (List String)
give_role user_roles user role =
    insert user (set_insert role (or_default (lookup user user_roles))) user_roles

unfoldable pub load_roles : List RoleConfig → Map Role → Map Role
load_roles [] roles = roles
load_roles (rc ∷ rest) roles = load_roles rest (insert rc.name (role_of rc) roles)

unfoldable pub load_mappings : List UserRoleMapping → Map (List String) → Map (List String)
load_mappings [] user_roles = user_roles
load_mappings (mapping ∷ rest) user_roles =
    load_mappings rest (give_role user_roles mapping.user_id mapping.role)

unfoldable pub load_auth_config :
    AuthConfig → Map Role → Map (List String) → Map Role × Map (List String)
load_auth_config auth roles user_roles =
    (load_roles auth.roles roles, load_mappings auth.user_mappings user_roles)

abbrev pub policy_or_pairing : Option DmPolicy → DmPolicy
policy_or_pairing none = dm_pairing
policy_or_pairing (some policy) = policy

unfoldable pub build_channel_policy_from_override : ChannelAuthOverride → ChannelPolicy
build_channel_policy_from_override over = record {
  dm_policy = policy_or_pairing over.dm_policy;
  allow_list = [];
  roles = map role_of over.roles;
}

unfoldable pub load_overrides : Map ChannelAuthOverride → Map ChannelPolicy → Map ChannelPolicy
unfolding build_channel_policy_from_override
load_overrides [] policies = policies
load_overrides ((channel, over) ∷ rest) policies =
    load_overrides rest (insert channel (build_channel_policy_from_override over) policies)

-- `channel_policies.entry(channel).or_insert_with(..)`.
unfoldable pub entry_or_insert : String → ChannelPolicy → Map ChannelPolicy → Map ChannelPolicy
entry_or_insert channel policy policies =
    if contains_key channel policies then policies else insert channel policy policies

abbrev pub settings_policy : DmPolicy → List String → ChannelPolicy
settings_policy policy allow_from = record {
  dm_policy = policy;
  allow_list = set_of allow_from;
  roles = [];
}

unfoldable pub add_telegram : Option TelegramConfig → Map ChannelPolicy → Map ChannelPolicy
add_telegram none policies = policies
add_telegram (some tg) policies =
    entry_or_insert "telegram" (settings_policy tg.dm_policy tg.allow_from) policies

unfoldable pub add_slack : Option SlackConfig → Map ChannelPolicy → Map ChannelPolicy
add_slack none policies = policies
add_slack (some sl) policies =
    entry_or_insert "slack" (settings_policy sl.dm_policy sl.allow_from) policies

abbrev pub auth_roles : Option AuthConfig → Map Role × Map (List String)
auth_roles none = ([], [])
auth_roles (some auth) = load_auth_config auth [] []

abbrev pub auth_policies : Option AuthConfig → Map ChannelPolicy
auth_policies none = []
auth_policies (some auth) = load_overrides auth.channel_overrides []

-- The part that `new` and `rebuild` have in common.
abbrev pub policies_of : GatewayConfig → Map ChannelPolicy
policies_of config =
    add_slack config.slack (add_telegram config.telegram (auth_policies config.auth))

unfoldable pub new : GatewayConfig → AccessControlBridge
unfolding load_auth_config load_overrides add_telegram add_slack
new config = record {
  roles = (auth_roles config.auth).0;
  user_roles = (auth_roles config.auth).1;
  paired_users = [];
  channel_policies = policies_of config;
  default_policy = record { dm_policy = dm_pairing; allow_list = []; roles = [] };
}

unfoldable pub map_identity : InboundMessage → AuthIdentity
map_identity msg = record {
  canonical_id = concat (channel_name msg.channel_type) (concat ":" msg.sender_id);
  platform_id = msg.sender_id;
  channel_type = msg.channel_type;
}

unfoldable pub evaluate_policy : ChannelPolicy → AuthIdentity → List String → AuthDecision
evaluate_policy policy identity paired_users = elim policy.dm_policy [
  | dm_open ↦ allowed
  | dm_allowlist ↦
      if contains identity.canonical_id policy.allow_list
        || contains identity.platform_id policy.allow_list
      then allowed
      else denied "user not in allow list"
  | dm_pairing ↦ if contains identity.canonical_id paired_users then allowed else requires_pairing
  | dm_disabled ↦ denied "DMs are disabled for this channel"
]

abbrev pub policy_or : Option ChannelPolicy → ChannelPolicy → ChannelPolicy
policy_or none fallback = fallback
policy_or (some policy) fallback = policy

unfoldable pub check_message_access : AccessControlBridge → InboundMessage → AuthDecision
unfolding evaluate_policy map_identity
check_message_access bridge msg =
    evaluate_policy
      (policy_or (lookup (channel_name msg.channel_type) bridge.channel_policies)
        bridge.default_policy)
      (map_identity msg) bridge.paired_users

unfoldable pub mark_paired : AccessControlBridge → String → AccessControlBridge
unfolding give_role
mark_paired bridge user = record bridge {
  paired_users = set_insert user bridge.paired_users;
  user_roles = give_role bridge.user_roles user "paired";
}

unfoldable pub is_paired : AccessControlBridge → String → Bool
is_paired bridge user = contains user bridge.paired_users

-- The loop of `rebuild` over the paired users.
unfoldable pub restore_paired : List String → Map (List String) → Map (List String)
unfolding give_role
restore_paired [] user_roles = user_roles
restore_paired (user ∷ rest) user_roles = restore_paired rest (give_role user_roles user "paired")

unfoldable pub rebuild : AccessControlBridge → GatewayConfig → AccessControlBridge
unfolding load_auth_config load_overrides add_telegram add_slack restore_paired
rebuild bridge config = record bridge {
  roles = (auth_roles config.auth).0;
  user_roles = restore_paired bridge.paired_users (auth_roles config.auth).1;
  channel_policies = policies_of config;
}

unfoldable pub user_role_names : AccessControlBridge → String → List String
user_role_names bridge user = or_default (lookup user bridge.user_roles)

-- The reason of a denial for want of a role.
abbrev pub role_reason : String → String → String
role_reason tool role =
    concat "tool '"
      (concat tool (concat "' requires role '" (concat role "' which the user does not have")))

abbrev pub scopes_reason : String → List String → String
scopes_reason tool missing = concat "tool '" (
    concat tool
      (concat "' requires scopes [" (concat (join ", " missing) "] which the user is missing")))

abbrev pub check_scopes : List String → String → List String → ToolAccessDecision
check_scopes user_scopes tool required_scopes =
    let missing : List String = filter (λ s. not (contains s user_scopes)) required_scopes in
    if not (is_empty missing) then tool_denied (scopes_reason tool missing) else tool_allowed

unfoldable pub check_tool_access :
    List String → List String → String → Option String → List String → ToolAccessDecision
check_tool_access user_roles user_scopes tool none required_scopes =
    check_scopes user_scopes tool required_scopes
check_tool_access user_roles user_scopes tool (some role) required_scopes =
    if not (contains role user_roles)
    then tool_denied (role_reason tool role)
    else check_scopes user_scopes tool required_scopes

-- A `ScopeResolver`: the scopes of a user.
abbrev pub ScopeResolver : Type 0
ScopeResolver = String → List String

unfoldable pub static_scopes : Map (List String) → ScopeResolver
static_scopes user_scopes user = or_default (lookup user user_scopes)

unfoldable pub chained_scopes : List ScopeResolver → ScopeResolver
chained_scopes [] user = []
chained_scopes (resolver ∷ rest) user = union (resolver user) (chained_scopes rest user)

unfoldable pub wrap_tool_check :
    AccessControlBridge
    → String
    → String
    → Option String
    → List String
    → ScopeResolver
    → ToolAccessDecision
unfolding check_tool_access user_role_names
wrap_tool_check bridge user tool required_role required_scopes resolver =
    check_tool_access (user_role_names bridge user) (resolver user) tool required_role
      required_scopes
