-- ===== src/Boot/Examples.antt =====
-- A start of the gateway (gateway_state.rs).
use adk_gateway.Common.{[], ◌∷◌, true, refl, ◌≢◌, arith, eq_iff}
use adk_gateway.AgentConfig.{AgentConfig, stopping}
use adk_gateway.Registry.{AgentRecord, new_record, new}
use adk_gateway.Registry.Examples.{MemoryDisk, memory_storage, config_of}
use adk_gateway.Rbac.{ok, check_tool, is_system_tool}
use adk_gateway.Boot.{boot}
use adk_gateway.Boot.Safety.{boot_no_system_tools}

abbrev system_config : AgentConfig
system_config = config_of "system" []

-- A file of an agent that was stopping when the gateway ended, and lists a system tool.
abbrev stale : AgentRecord
stale = record (new_record (config_of "a" ("fs_read" ∷ [])) 2) { state = stopping }

abbrev disk_with_stale : MemoryDisk
disk_with_stale = (true, ("a", stale) ∷ [])

boot_no_system_tools_example :
    check_tool
      (boot memory_storage (new memory_storage disk_with_stale) [] system_config 9).1
      "a"
      "fs_read"
    ≢ ok
unfolding is_system_tool
boot_no_system_tools_example =
    boot_no_system_tools memory_storage disk_with_stale system_config 9 "a" "fs_read" refl
      (λ e. ground (arith, eq_iff "a" "system")) refl
