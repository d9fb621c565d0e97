-- ===== src/Coding.antt =====
-- coding_agent/registry.rs: the coding agents with their connection status. The file system, the
-- Unicode table of lower case letters and the arithmetic of `f64`, which the child modules use, are
-- arguments; a float is its bit pattern, a time a number.
pub mod Costs
pub mod Paths
pub mod Delegator
pub mod Workspaces
pub mod Naming
pub mod Delegation
pub mod Examples
use adk_gateway.Common.{
  ℕ, String, List, [], ◌∷◌, ◌++◌, Option, none, some, Bool, true, false, ◌&&◌, if◌then◌else◌,
  str_eq, ◌==◌, is_empty,
}
use adk_gateway.Common.Map.{Map, lookup, insert, remove, contains_key}
use adk_gateway.Delivery.Split.{trim_start}

pub record Environment : Type 0 where
  -- `Path::canonicalize`: `none` for a path that does not exist.
  pub canonicalize : String → Option String
  -- `str::to_lowercase`.
  pub to_lowercase : String → String
  -- `>` and `+` of `f64`.
  pub exceeds : ℕ → ℕ → Bool
  pub add : ℕ → ℕ → ℕ

pub data AgentConnectionStatus : Type 0 where
  connected : AgentConnectionStatus
  disconnected : (since : ℕ) → AgentConnectionStatus
  errored : (message : String) (since : ℕ) → AgentConnectionStatus
  unknown : AgentConnectionStatus

-- What the modelled code reads of the configuration of an agent and of a backend.
pub record CodingAgentInstanceConfig : Type 0 where
  pub id : String
  pub backend_type : String
  pub endpoint : String
  pub workspaces : List String
  pub cost_cap_usd : Option ℕ
  pub alias : Option String

pub record BackendDefinition : Type 0 where
  pub agent_type : String
  pub cli_command : String
  pub install_check_command : String

pub record CodingAgentsConfig : Type 0 where
  pub agents : List CodingAgentInstanceConfig
  pub backends : List BackendDefinition

pub record RegisteredAgent : Type 0 where
  pub id : String
  pub backend_type : String
  pub config : CodingAgentInstanceConfig
  pub status : AgentConnectionStatus
  pub last_health_check : Option ℕ
  pub last_successful_task : Option ℕ
  pub endpoint : String

pub record CodingAgentRegistry : Type 0 where
  pub agents : Map RegisteredAgent
  pub backends : Map BackendDefinition

pub record AgentStatusEvent : Type 0 where
  pub agent_id : String
  pub previous_status : AgentConnectionStatus
  pub new_status : AgentConnectionStatus
  pub timestamp : ℕ

pub data CodingAgentError : Type 0 where
  config_validation agent_not_found agent_disconnected delegation_failed :
      (text : String) → CodingAgentError
  workspace_violation : (path : String) → CodingAgentError
  cost_cap_exceeded : (spent_usd cap_usd : ℕ) → CodingAgentError

unfoldable pub new : CodingAgentRegistry
new = record { agents = []; backends = [] }

unfoldable pub register_agent :
    CodingAgentRegistry → CodingAgentInstanceConfig → CodingAgentRegistry × Option CodingAgentError
register_agent registry config =
    if contains_key config.id registry.agents
    then (registry, some (config_validation config.id))
    else let agent : RegisteredAgent = record {
      id = config.id;
      backend_type = config.backend_type;
      config = config;
      status = unknown;
      last_health_check = none;
      last_successful_task = none;
      endpoint = config.endpoint;
    } in
      (record registry { agents = insert config.id agent registry.agents }, none)

unfoldable pub unregister_agent :
    CodingAgentRegistry → String → CodingAgentRegistry × Option RegisteredAgent
unregister_agent registry id =
    (record registry { agents = remove id registry.agents }, lookup id registry.agents)

-- `trim().is_empty()`.
unfoldable is_blank : String → Bool
unfolding trim_start
is_blank text = str_eq (trim_start text) ""

-- `validate_backend_definition` of coding_agent/config.rs: the fields that are blank.
unfoldable pub validate_backend_definition : BackendDefinition → List String
unfolding is_blank
validate_backend_definition definition =
    (if is_blank definition.agent_type then "agent_type" ∷ [] else [])
    ++ (if is_blank definition.cli_command then "cli_command" ∷ [] else [])
    ++ (if is_blank definition.install_check_command then "install_check_command" ∷ [] else [])

unfoldable pub load_backends :
    Map BackendDefinition → List BackendDefinition → Map BackendDefinition
unfolding validate_backend_definition
load_backends loaded [] = loaded
load_backends loaded (backend ∷ rest) =
    load_backends
      (if is_empty (validate_backend_definition backend)
        then insert backend.agent_type backend loaded
        else loaded)
      rest

unfoldable pub load_backends_from_config :
    CodingAgentRegistry → List BackendDefinition → CodingAgentRegistry
unfolding load_backends
load_backends_from_config registry backends = record registry {
  backends = load_backends [] backends;
}

-- The loops over the agents of a configuration: an id that is there is left as it is.
unfoldable pub register_all :
    CodingAgentRegistry → List CodingAgentInstanceConfig → CodingAgentRegistry
unfolding register_agent
register_all registry [] = registry
register_all registry (config ∷ rest) = register_all (register_agent registry config).0 rest

unfoldable pub from_config : CodingAgentsConfig → CodingAgentRegistry
unfolding new load_backends_from_config register_all
from_config config = register_all (load_backends_from_config new config.backends) config.agents

unfoldable pub reload_from_config : CodingAgentRegistry → CodingAgentsConfig → CodingAgentRegistry
unfolding load_backends_from_config register_all
reload_from_config registry config =
    register_all (load_backends_from_config registry config.backends) config.agents

abbrev pub status_eq : AgentConnectionStatus → AgentConnectionStatus → Bool
status_eq connected connected = true
status_eq (disconnected a) (disconnected b) = a == b
status_eq (errored m a) (errored n b) = str_eq m n && a == b
status_eq unknown unknown = true
status_eq connected (disconnected b) = false
status_eq connected (errored n b) = false
status_eq connected unknown = false
status_eq (disconnected a) connected = false
status_eq (disconnected a) (errored n b) = false
status_eq (disconnected a) unknown = false
status_eq (errored m a) connected = false
status_eq (errored m a) (disconnected b) = false
status_eq (errored m a) unknown = false
status_eq unknown connected = false
status_eq unknown (disconnected b) = false
status_eq unknown (errored n b) = false

pub record StatusUpdate : Type 0 where
  pub registry : CodingAgentRegistry
  pub event : Option AgentStatusEvent
  pub error : Option CodingAgentError

-- An event goes out when the status has changed.
unfoldable pub update_status :
    CodingAgentRegistry → String → AgentConnectionStatus → ℕ → StatusUpdate
update_status registry id status now = elim (lookup id registry.agents) [
  | none ↦ record { registry = registry; event = none; error = some (agent_not_found id) }
  | some agent ↦
      if status_eq agent.status status
      then record { registry = registry; event = none; error = none }
      else record {
        registry = record registry {
          agents = insert id (record agent { status = status }) registry.agents;
        };
        event = some (record {
          agent_id = id;
          previous_status = agent.status;
          new_status = status;
          timestamp = now;
        });
        error = none;
      }
]

unfoldable pub record_successful_task : CodingAgentRegistry → String → ℕ → CodingAgentRegistry
record_successful_task registry id now = elim (lookup id registry.agents) [
  | none ↦ registry
  | some agent ↦ record registry {
    agents = insert id (record agent { last_successful_task = some now }) registry.agents;
  }
]

unfoldable pub record_health_check : CodingAgentRegistry → String → ℕ → CodingAgentRegistry
record_health_check registry id now = elim (lookup id registry.agents) [
  | none ↦ registry
  | some agent ↦ record registry {
    agents = insert id (record agent { last_health_check = some now }) registry.agents;
  }
]
