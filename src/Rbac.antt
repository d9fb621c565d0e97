-- ===== src/Rbac.antt =====
-- rbac_bridge.rs: roles of agents, the check of a permission, and the bridge that keeps the roles
-- in step with the registry. A denial keeps the permission itself where the source keeps its debug
-- text; a poisoned lock is not modelled.
pub mod Checks
pub mod Rebuild
pub mod Examples
use adk_gateway.Common.{
  String, List, [], ◌∷◌, ◌++◌, none, some, Bool, true, false, ◌||◌, if◌then◌else◌, str_eq, contains,
  map,
}
use adk_gateway.Common.Map.{Map, lookup, insert, remove}
use adk_gateway.AgentConfig.{AgentRoleConfig}
use adk_gateway.Registry.{AgentRecord, Registry, is_system_agent}

pub data Permission : Type 0 where
  tool : String → Permission
  agent : String → Permission
  all_tools all_agents : Permission

-- The derived `PartialEq`.
abbrev pub same_permission : Permission → Permission → Bool
same_permission (tool a) (tool b) = str_eq a b
same_permission (agent a) (agent b) = str_eq a b
same_permission all_tools all_tools = true
same_permission all_agents all_agents = true
same_permission _ _ = false

-- A `HashSet<Permission>` is a list, read by membership only.
abbrev pub has : Permission → List Permission → Bool
has p [] = false
has p (q ∷ qs) = same_permission q p || has p qs

pub record Role : Type 0 where
  pub name : String
  pub allow : List Permission
  pub deny : List Permission

pub data Reason : Type 0 where
  no_role_registered explicitly_denied not_in_allow_list : Reason

pub record AccessDenied : Type 0 where
  pub agent_id : String
  pub permission : Permission
  pub reason : Reason

pub data CheckResult : Type 0 where
  ok : CheckResult
  err : AccessDenied → CheckResult

-- `AccessControl` is its map of roles.
abbrev pub AccessControl : Type 0
AccessControl = Map Role

abbrev pub denied : String → Permission → Reason → CheckResult
denied id p why = err (record { agent_id = id; permission = p; reason = why })

-- The wildcard arms of the `match` in `check`.
abbrev pub wildcard : Permission → Role → Bool
wildcard (tool t) role = has all_tools role.allow
wildcard (agent a) role = has all_agents role.allow
wildcard all_tools role = false
wildcard all_agents role = false

unfoldable pub check : AccessControl → String → Permission → CheckResult
check ac id p = elim (lookup id ac) [
  | none ↦ denied id p no_role_registered
  | some role ↦
      if has p role.deny
      then denied id p explicitly_denied
      else if has p role.allow
      then ok
      else if wildcard p role
      then ok
      else denied id p not_in_allow_list
]

abbrev pub system_tools : List String
system_tools =
    "agent_create" ∷ "agent_start" ∷ "agent_stop" ∷ "agent_delete" ∷ "agent_list"
    ∷ "agent_configure" ∷ "task_list" ∷ "task_create" ∷ "task_cancel" ∷ "task_delete" ∷ "fs_list"
    ∷ "fs_read" ∷ "fs_search" ∷ "fs_pwd" ∷ "fs_tree" ∷ "send_photo" ∷ []

unfoldable pub is_system_tool : String → Bool
is_system_tool t = contains t system_tools

unfoldable pub admin_role : String → Role
admin_role id = record {
  name = Prim.Native.String.◌++◌ id "-admin";
  allow = all_tools ∷ all_agents ∷ [];
  deny = [];
}

-- The loop over `role_config.allow`: the entries that are kept.
unfoldable pub kept : List String → List Permission
kept [] = []
kept (entry ∷ entries) =
    let rest = kept entries in if is_system_tool entry then rest else tool entry ∷ rest

unfoldable pub stripped : List String → List String
stripped [] = []
stripped (entry ∷ entries) =
    let rest = stripped entries in if is_system_tool entry then entry ∷ rest else rest

unfoldable pub user_role : String → AgentRoleConfig → Role
user_role id config = record {
  name = Prim.Native.String.◌++◌ id "-role";
  allow = kept config.allow;
  deny = map tool config.deny;
}

unfoldable pub register_system_agent : AccessControl → String → AccessControl
register_system_agent ac id = insert id (admin_role id) ac

unfoldable pub register_agent :
    AccessControl → String → AgentRoleConfig → AccessControl × List String
register_agent ac id config = (insert id (user_role id config) ac, stripped config.allow)

unfoldable pub check_tool : AccessControl → String → String → CheckResult
unfolding check
check_tool ac id tool_name = check ac id (tool tool_name)

unfoldable pub check_delegation : AccessControl → String → String → CheckResult
unfolding check
check_delegation ac caller target = check ac caller (agent target)

unfoldable pub remove_agent : AccessControl → String → AccessControl
remove_agent ac id = remove id ac

abbrev pub role_for : {D : Type 0} → Registry D → String → AgentRecord → Role
role_for reg id rec = if is_system_agent reg id then admin_role id else user_role id rec.config.role

-- The loop of `rebuild_from_registry` over the agents.
unfoldable pub rebuild_loop :
    {D : Type 0} → Registry D → AccessControl → Map AgentRecord → AccessControl
rebuild_loop reg ac [] = ac
rebuild_loop reg ac ((id, rec) ∷ agents) =
    rebuild_loop reg (insert id (role_for reg id rec) ac) agents

unfoldable pub rebuild_from_registry : {D : Type 0} → Registry D → AccessControl
rebuild_from_registry reg = rebuild_loop reg [] reg.agents
