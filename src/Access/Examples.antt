-- ===== src/Access/Examples.antt =====
-- The theorems on access_control.rs at a concrete configuration and history.
use adk_gateway.Common.{
  List, [], ◌∷◌, none, some, true, ◌||◌, ◌&&◌, any, all, contains, str_eq, ◌≡◌, ◌↔◌, refl,
}
use adk_gateway.Common.Map.{lookup}
use adk_gateway.Router.{telegram, InboundMessage}
use adk_gateway.Access.{
  tool_allowed, ScopeResolver, chained_scopes, static_scopes, wrap_tool_check, dm_allowlist,
  dm_open, ChannelAuthOverride, GatewayConfig, new, check_message_access, is_paired,
  user_role_names, map_identity,
}
use adk_gateway.Access.Rebuilt.{
  Event, pairs, reloads, run, config_after, pairs_user, maps_role, roles-run,
}
use adk_gateway.Access.Policies.{policy_for}
use adk_gateway.Access.Decisions.{decide, check_message_access-run}
use adk_gateway.Access.Tools.{role_granted, wrap_tool_check-run}

abbrev before : GatewayConfig
before = record {
  auth = none;
  telegram = some (record { dm_policy = dm_open; allow_from = [] });
  slack = none;
}

abbrev team_only : ChannelAuthOverride
team_only = record { dm_policy = some dm_allowlist; roles = [] }

abbrev with_override : GatewayConfig
with_override = record {
  auth = some (record {
    roles = [];
    user_mappings = record { user_id = "telegram:7"; role = "admin" } ∷ [];
    channel_overrides = ("telegram", team_only) ∷ [];
  });
  telegram = some (record { dm_policy = dm_allowlist; allow_from = "7" ∷ [] });
  slack = none;
}

abbrev history : List Event
history = pairs "telegram:7" ∷ reloads with_override ∷ []

abbrev from_seven : InboundMessage
from_seven = record {
  channel_type = telegram;
  account_id = "default";
  sender_id = "7";
  sender_name = none;
  group_id = none;
}

roles-run_example :
    (is_paired (run (new before) history) "telegram:7" ≡ pairs_user "telegram:7" history)
    × (contains "admin" (user_role_names (run (new before) history) "telegram:7") ≡ (
        maps_role (config_after before history).auth "telegram:7" "admin"
        || pairs_user "telegram:7" history && str_eq "paired" "admin"))
roles-run_example = roles-run before history "telegram:7" "admin"

check_message_access-run_example :
    check_message_access (run (new before) history) from_seven
    ≡ decide
        (policy_for (config_after before history) telegram)
        (pairs_user (map_identity from_seven).canonical_id history)
        (map_identity from_seven).canonical_id
        "7"
unfolding lookup
check_message_access-run_example = check_message_access-run before history from_seven (refl, tt)

abbrev by_work_account : InboundMessage
by_work_account = record from_seven { account_id = "work"; sender_name = some "Seven" }

abbrev resolvers : List ScopeResolver
resolvers = static_scopes [] ∷ static_scopes (("telegram:7", "files:write" ∷ []) ∷ []) ∷ []

wrap_tool_check-run_example :
    (wrap_tool_check
        (run (new before) history)
        "telegram:7"
        "write_file"
        (some "admin")
        ("files:write" ∷ [])
        (chained_scopes resolvers)
      ≡ tool_allowed)
    ↔ ((role_granted before history "telegram:7" (some "admin") ≡ true)
        × (all (λ s. any (λ r. contains s (r "telegram:7")) resolvers) ("files:write" ∷ []) ≡ true))
wrap_tool_check-run_example =
    wrap_tool_check-run before history "telegram:7" "write_file" (some "admin") ("files:write" ∷ [])
      resolvers
