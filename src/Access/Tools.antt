-- ===== src/Access/Tools.antt =====
-- The check of access_control.rs on a tool call.
use adk_gateway.Common.{
  String, List, [], ◌∷◌, Option, none, some, Bool, true, false, not, ◌&&◌, ◌||◌, any, all, filter,
  is_empty, contains, str_eq, ◌≡◌, refl, ◌↔◌, arith,
}
use adk_gateway.Access.Sets.{contains-union}
use adk_gateway.Access.{
  GatewayConfig, ToolAccessDecision, tool_allowed, tool_denied, ScopeResolver, chained_scopes,
  check_tool_access, user_role_names, wrap_tool_check, new,
}
use adk_gateway.Access.Rebuilt.{Event, run, config_after, pairs_user, maps_role, roles-run}

abbrev is_tool_allowed : ToolAccessDecision → Bool
is_tool_allowed tool_allowed = true
is_tool_allowed (tool_denied reason) = false

is_tool_allowed_iff : (d : ToolAccessDecision) → (d ≡ tool_allowed) ↔ (is_tool_allowed d ≡ true)
is_tool_allowed_iff tool_allowed = (λ h. refl, λ h. refl)
is_tool_allowed_iff (tool_denied reason) = (λ h. ground arith, λ h. ground arith)

abbrev holds_role : List String → Option String → Bool
holds_role roles none = true
holds_role roles (some role) = contains role roles

missing_none :
    (has : String → Bool) (required : List String)
    → is_empty (filter (λ s. not (has s)) required) ≡ all has required
missing_none has [] = refl
missing_none has (s ∷ rest) = ground (arith, missing_none has rest)

check_tool_access_allowed :
    (roles scopes : List String) (tool : String) (role : Option String) (required : List String)
    → is_tool_allowed (check_tool_access roles scopes tool role required)
      ≡ (holds_role roles role && all (λ s. contains s scopes) required)
unfolding check_tool_access
check_tool_access_allowed roles scopes tool none required =
    ground (arith, missing_none (λ s. contains s scopes) required)
check_tool_access_allowed roles scopes tool (some role) required =
    ground (arith, missing_none (λ s. contains s scopes) required)

contains-chained_scopes :
    (resolvers : List ScopeResolver) (user scope : String)
    → contains scope (chained_scopes resolvers user) ≡ any (λ r. contains scope (r user)) resolvers
unfolding chained_scopes
contains-chained_scopes [] user scope = refl
contains-chained_scopes (r ∷ rest) user scope = ground (
  arith,
  contains-union scope (r user) (chained_scopes rest user),
  contains-chained_scopes rest user scope,
)

all-chained_scopes :
    (resolvers : List ScopeResolver) (user : String) (required : List String)
    → all (λ s. contains s (chained_scopes resolvers user)) required
      ≡ all (λ s. any (λ r. contains s (r user)) resolvers) required
all-chained_scopes resolvers user [] = refl
all-chained_scopes resolvers user (s ∷ rest) =
    ground (arith, contains-chained_scopes resolvers user s, all-chained_scopes resolvers user rest)

-- The role that a tool asks for, if it asks for one, is the user's: by the configuration, or "paired".
abbrev pub role_granted : GatewayConfig → List Event → String → Option String → Bool
role_granted config es user none = true
role_granted config es user (some role) =
    maps_role (config_after config es).auth user role || pairs_user user es && str_eq "paired" role

holds_role-run :
    (config : GatewayConfig) (es : List Event) (user : String) (role : Option String)
    → holds_role (user_role_names (run (new config) es) user) role
      ≡ role_granted config es user role
holds_role-run config es user none = refl
holds_role-run config es user (some role) = (roles-run config es user role).1

-- After any pairings and reloads a tool call is allowed exactly when the role that the tool requires,
-- if any, is given to the user by the configuration in force or is "paired" and the user is paired,
-- and each scope that it requires is given by one of the chained resolvers.
pub wrap_tool_check-run :
    (config : GatewayConfig) (es : List Event) (user tool : String) (role : Option String)
    (required : List String) (resolvers : List ScopeResolver)
    → (wrap_tool_check (run (new config) es) user tool role required (chained_scopes resolvers)
        ≡ tool_allowed)
      ↔ ((role_granted config es user role ≡ true)
          × (all (λ s. any (λ r. contains s (r user)) resolvers) required ≡ true))
unfolding wrap_tool_check
wrap_tool_check-run config es user tool role required resolvers =
    let roles = user_role_names (run (new config) es) user in
    let scopes = chained_scopes resolvers user in
    let decision = is_tool_allowed_iff (check_tool_access roles scopes tool role required) in
    let computed = check_tool_access_allowed roles scopes tool role required in
    let granted = holds_role-run config es user role in
    let covered = all-chained_scopes resolvers user required in
    (λ h. ground arith, λ h. ground arith)
