-- ===== src/Rbac/Examples.antt =====
-- Runs of the permission bridge (rbac_bridge.rs).
use adk_gateway.Common.{[], ◌∷◌, some, none, true, false, ◌≡◌, refl, ◌↔◌, contains}
use adk_gateway.Common.Map.{lookup, insert, remove}
use adk_gateway.AgentConfig.{AgentRoleConfig, stopped}
use adk_gateway.Registry.{AgentRecord, Registry, new_record, is_system_agent, create_agent, delete}
use adk_gateway.Registry.Examples.{MemoryDisk, memory_storage, config_of}
use adk_gateway.Rbac.{
  tool, ok, user_role, kept, stripped, check, is_system_tool, register_system_agent, register_agent,
  check_tool, rebuild_from_registry, denied, no_role_registered, explicitly_denied,
}
use adk_gateway.Rbac.Checks.{check_tool-register_agent}
use adk_gateway.Rbac.Rebuild.{check-rebuild, deleted_system_id_escalates}

abbrev searcher : AgentRoleConfig
searcher = record { allow = "web_search" ∷ "fs_read" ∷ "kg_add" ∷ []; deny = "kg_add" ∷ [] }

searcher_checks :
    (check_tool (register_agent [] "a" searcher).0 "a" "web_search" ≡ ok)
    × (check_tool (register_agent [] "a" searcher).0 "a" "kg_add"
        ≡ denied "a" (tool "kg_add") explicitly_denied)
    × ((register_agent [] "a" searcher).1 ≡ "fs_read" ∷ [])
unfolding check_tool register_agent user_role kept stripped is_system_tool lookup insert
searcher_checks = (refl, refl, refl)

check_tool-register_agent_example :
    (check_tool (register_agent [] "a" searcher).0 "a" "fs_read" ≡ ok)
    ↔ (contains "fs_read" searcher.allow ≡ true)
      × (contains "fs_read" searcher.deny ≡ false)
      × (is_system_tool "fs_read" ≡ false)
check_tool-register_agent_example = check_tool-register_agent [] "a" searcher "fs_read"

abbrev system_record : AgentRecord
system_record = record (new_record (config_of "system" ("*" ∷ [])) 1) { state = stopped }

abbrev user_record : AgentRecord
user_record = new_record (config_of "a" ("web_search" ∷ [])) 2

abbrev two_agents : Registry MemoryDisk
two_agents = record {
  agents = ("system", system_record) ∷ ("a", user_record) ∷ [];
  system_agent_id = some "system";
  disk = (true, []);
}

check-rebuild_example :
    ((rec : AgentRecord)
      → lookup "a" two_agents.agents ≡ some rec
      → is_system_agent two_agents "a" ≡ false
      → check (rebuild_from_registry two_agents) "a" (tool "fs_read")
        ≡ check (register_agent [] "a" rec.config.role).0 "a" (tool "fs_read"))
    × ((rec : AgentRecord)
        → lookup "a" two_agents.agents ≡ some rec
        → is_system_agent two_agents "a" ≡ true
        → check (rebuild_from_registry two_agents) "a" (tool "fs_read")
          ≡ check (register_system_agent [] "a") "a" (tool "fs_read"))
    × (lookup "a" two_agents.agents ≡ none
        → check (rebuild_from_registry two_agents) "a" (tool "fs_read")
          ≡ denied "a" (tool "fs_read") no_role_registered)
unfolding lookup
check-rebuild_example = check-rebuild two_agents [] "a" (tool "fs_read") (refl, (refl, tt))

deleted_system_id_escalates_example :
    check_tool
      (rebuild_from_registry
        (create_agent memory_storage
          (delete memory_storage two_agents "system").0
          (config_of "system" [])
          9).0)
      "system"
      "agent_delete"
    ≡ ok
unfolding lookup is_system_agent create_agent delete insert remove
deleted_system_id_escalates_example =
    deleted_system_id_escalates memory_storage two_agents (config_of "system" []) 9 "agent_delete"
      (refl, (refl, tt)) refl refl
