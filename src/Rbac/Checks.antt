-- ===== src/Rbac/Checks.antt =====
-- What an agent may do after it is registered with the bridge (rbac_bridge.rs).
use adk_gateway.Common.{
  String, List, [], ◌∷◌, some, true, false, ◌&&◌, ◌||◌, not, contains, map, ◌≡◌, refl, ◌≢◌, ◌↔◌,
  arith, eq_iff,
}
use adk_gateway.Common.Map.{lookup, lookup-insert, lookup-insert_self}
use adk_gateway.AgentConfig.{AgentRoleConfig}
use adk_gateway.Rbac.{
  Permission, tool, agent, all_tools, all_agents, has, Role, ok, wildcard, check, is_system_tool,
  admin_role, kept, stripped, user_role, AccessControl, register_system_agent, register_agent,
  check_tool, check_delegation,
}

has-kept :
    (t : String) (entries : List String)
    → has (tool t) (kept entries) ≡ (contains t entries && not (is_system_tool t))
unfolding kept
has-kept t [] = refl
has-kept t (e ∷ entries) = ground (arith, has-kept t entries, eq_iff e t)

has_all_tools-kept : (entries : List String) → has all_tools (kept entries) ≡ false
unfolding kept
has_all_tools-kept [] = refl
has_all_tools-kept (e ∷ entries) = ground (arith, has_all_tools-kept entries)

has_agent-kept :
    (a : String) (entries : List String)
    → (has (agent a) (kept entries) ≡ false) × (has all_agents (kept entries) ≡ false)
unfolding kept
has_agent-kept a [] = (refl, refl)
has_agent-kept a (e ∷ entries) = ground (arith, has_agent-kept a entries)

has-map_tool : (t : String) (ds : List String) → has (tool t) (map tool ds) ≡ contains t ds
has-map_tool t [] = refl
has-map_tool t (d ∷ ds) = ground (arith, has-map_tool t ds)

pub role_check :
    (ac : AccessControl) (id : String) (role : Role) (p : Permission)
    → lookup id ac ≡ some role
    → (check ac id p ≡ ok)
      ↔ (has p role.deny ≡ false) × ((has p role.allow || wildcard p role) ≡ true)
unfolding check
role_check ac id role p e = (λ h. ground arith, λ h. ground arith)

-- A registered user agent may invoke exactly the tools of its allow list that are neither in its
-- deny list nor among the system tools.
pub check_tool-register_agent :
    (ac : AccessControl) (id : String) (config : AgentRoleConfig) (t : String)
    → (check_tool (register_agent ac id config).0 id t ≡ ok)
      ↔ (contains t config.allow ≡ true)
        × (contains t config.deny ≡ false)
        × (is_system_tool t ≡ false)
unfolding check_tool register_agent user_role
check_tool-register_agent ac id config t =
    let (sound, complete) =
      role_check (register_agent ac id config).0 id (user_role id config) (tool t)
        (lookup-insert_self id (user_role id config) ac) in
    (
      λ h.
          let granted = sound h in
          ground (
            arith,
            has-kept t config.allow,
            has_all_tools-kept config.allow,
            has-map_tool t config.deny,
          ),
      λ h.
          complete
            (ground (arith, has-map_tool t config.deny), ground (arith, has-kept t config.allow)),
    )

contains-stripped :
    (t : String) (entries : List String)
    → contains t (stripped entries) ≡ (contains t entries && is_system_tool t)
unfolding stripped
contains-stripped t [] = refl
contains-stripped t (e ∷ entries) = ground (arith, contains-stripped t entries, eq_iff e t)

-- The entries that `register_agent` reports as stripped are the system tools of the allow list.
pub register_agent_stripped :
    (ac : AccessControl) (id : String) (config : AgentRoleConfig) (t : String)
    → contains t (register_agent ac id config).1 ≡ (contains t config.allow && is_system_tool t)
unfolding register_agent
register_agent_stripped ac id config t = contains-stripped t config.allow

-- However its role is configured, a registered user agent may delegate to no agent.
pub check_delegation-register_agent :
    (ac : AccessControl) (id : String) (config : AgentRoleConfig) (target : String)
    → check_delegation (register_agent ac id config).0 id target ≢ ok
unfolding check_delegation register_agent user_role
check_delegation-register_agent ac id config target h =
    let granted =
      (role_check (register_agent ac id config).0 id (user_role id config) (agent target)
          (lookup-insert_self id (user_role id config) ac)).0
        h in
    ground (arith, has_agent-kept target config.allow)

-- The system agent may invoke every tool and delegate to every agent, and no other agent's
-- permissions change when it is registered.
pub register_system_agent_lem :
    (ac : AccessControl) (id name : String)
    → (check_tool (register_system_agent ac id) id name ≡ ok)
      × (check_delegation (register_system_agent ac id) id name ≡ ok)
      × ((j : String) (p : Permission)
          → id ≢ j
          → check (register_system_agent ac id) j p ≡ check ac j p)
unfolding check_tool check_delegation register_system_agent admin_role check
register_system_agent_lem ac id name = (
  ground (arith, lookup-insert_self id (admin_role id) ac),
  ground (arith, lookup-insert_self id (admin_role id) ac),
  λ j p n. ground (arith, lookup-insert id j (admin_role id) ac, eq_iff id j),
)
