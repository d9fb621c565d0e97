-- ===== src/Coding/Delegator.antt =====
-- coding_agent/delegator.rs: a task is handed to an agent, which may be named by its alias, after the checks
-- on its status, its paths and what it has spent.
use adk_gateway.Common.{
  ℕ, String, List, [], ◌∷◌, Option, none, some, Bool, false, if◌then◌else◌, str_eq, concat,
}
use adk_gateway.Common.Map.{Map, lookup, contains_key}
use adk_gateway.TaskQueue.{TaskQueue, TaskRequest, enqueue, cancel_task}
use adk_gateway.Coding.{
  Environment, CodingAgentRegistry, RegisteredAgent, AgentConnectionStatus, connected, disconnected,
  errored, unknown, CodingAgentError, agent_not_found, agent_disconnected, delegation_failed,
}
use adk_gateway.Coding.Costs.{CostTracker, check_cost_cap, get_agent_stats}
use adk_gateway.Coding.Paths.{validate_path, validate_paths}

abbrev pub has_alias : Environment → String → Option String → Bool
has_alias env name none = false
has_alias env name (some alias) = str_eq (env.to_lowercase alias) (env.to_lowercase name)

-- The first agent, in the order of the map, that has the alias.
unfoldable pub resolve_by_alias : Environment → Map RegisteredAgent → String → Option String
resolve_by_alias env [] name = none
resolve_by_alias env ((key, agent) ∷ rest) name =
    if has_alias env name agent.config.alias then some agent.id else resolve_by_alias env rest name

-- The first agent whose id is the name but for case.
unfoldable pub resolve_by_case : Environment → Map RegisteredAgent → String → Option String
resolve_by_case env [] name = none
resolve_by_case env ((key, agent) ∷ rest) name =
    if str_eq (env.to_lowercase agent.id) (env.to_lowercase name)
    then some agent.id
    else resolve_by_case env rest name

unfoldable pub resolve_agent_id : Environment → CodingAgentRegistry → String → Option String
unfolding resolve_by_alias resolve_by_case
resolve_agent_id env registry name =
    if contains_key name registry.agents
    then some name
    else elim (resolve_by_alias env registry.agents name) [
      | some resolved ↦ some resolved
      | none ↦ resolve_by_case env registry.agents name
    ]

-- An agent that has not been checked yet may be given a task.
abbrev pub check_status : String → AgentConnectionStatus → Option CodingAgentError
check_status resolved connected = none
check_status resolved (disconnected since) = some (agent_disconnected resolved)
check_status resolved (errored message since) =
    some (agent_disconnected (concat resolved (concat ": " message)))
check_status resolved unknown = none

unfoldable pub check_workspace : Environment → List String → Option String → Option CodingAgentError
unfolding validate_path
check_workspace env workspaces none = none
check_workspace env workspaces (some path) = validate_path env workspaces path

unfoldable pub check_files :
    Environment → List String → Option (List String) → Option CodingAgentError
unfolding validate_paths
check_files env workspaces none = none
check_files env workspaces (some paths) = validate_paths env workspaces paths

-- What the agent has spent so far against its cap; without a cap or a record there is no check.
unfoldable pub check_spent : Environment → CostTracker → String → Option ℕ → Option CodingAgentError
unfolding check_cost_cap
check_spent env tracker resolved none = none
check_spent env tracker resolved (some cap) = elim (get_agent_stats tracker resolved) [
  | none ↦ none
  | some stats ↦ check_cost_cap env stats.estimated_total_cost_usd cap
]

abbrev pub first_error : Option CodingAgentError → Option CodingAgentError → Option CodingAgentError
first_error none later = later
first_error (some error) later = some error

-- The checks on an agent that is there, in their order.
unfoldable pub check_agent :
    Environment → CostTracker → String → RegisteredAgent → TaskRequest → Option CodingAgentError
unfolding check_workspace check_files check_spent
check_agent env tracker resolved agent task = first_error (check_status resolved agent.status) (
    first_error (check_workspace env agent.config.workspaces task.workspace) (
      first_error (check_files env agent.config.workspaces task.file_context)
        (check_spent env tracker resolved agent.config.cost_cap_usd)))

pub data Delegated : Type 0 where
  accepted : (task_id : String) → Delegated
  refused : CodingAgentError → Delegated

unfoldable pub delegate_to :
    TaskQueue → String → TaskRequest → String → ℕ → Option CodingAgentError → TaskQueue × Delegated
unfolding enqueue
delegate_to queue resolved task task_id now none =
    ((enqueue queue task_id resolved task now).0, accepted task_id)
delegate_to queue resolved task task_id now (some error) = (queue, refused error)

unfoldable pub delegate :
    Environment
    → CodingAgentRegistry
    → CostTracker
    → TaskQueue
    → String
    → TaskRequest
    → String
    → ℕ
    → TaskQueue × Delegated
unfolding resolve_agent_id check_agent delegate_to
delegate env registry tracker queue name task task_id now =
    elim (resolve_agent_id env registry name) [
      | none ↦ (queue, refused (agent_not_found name))
      | some resolved ↦ elim (lookup resolved registry.agents) [
        | none ↦ (queue, refused (agent_not_found name))
        | some agent ↦
            delegate_to queue resolved task task_id now
              (check_agent env tracker resolved agent task)
      ]
    ]

-- `TaskDelegator::cancel_task`.
unfoldable pub cancel : TaskQueue → String → TaskQueue × Option CodingAgentError
unfolding cancel_task
cancel queue task_id =
    let (left, found) = cancel_task queue task_id in
    (left, if found then none else some (delegation_failed task_id))
