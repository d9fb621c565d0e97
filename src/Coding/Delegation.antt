-- ===== src/Coding/Delegation.antt =====
-- Which tasks coding_agent/delegator.rs hands on, and what it does to the queue of coding_agent/queue.rs.
use adk_gateway.Common.{
  ℕ, String, List, Option, none, some, false, All, ◌≡◌, refl, ◌⊎◌, ◌↔◌, inl, inr, arith, Bool-cases,
  Option-cases,
}
use adk_gateway.Common.Map.{lookup}
use adk_gateway.TaskQueue.{TaskQueue, TaskRequest, enqueue}
use adk_gateway.Coding.{
  Environment, CodingAgentRegistry, RegisteredAgent, AgentConnectionStatus, connected, disconnected,
  errored, unknown, CodingAgentError, agent_not_found,
}
use adk_gateway.Coding.Costs.{CostTracker, AgentCostRecord, check_cost_cap}
use adk_gateway.Coding.Workspaces.{Within, validate_path-Within, validate_paths-Within}
use adk_gateway.Coding.Naming.{Names, resolve_agent_id-Names}
use adk_gateway.Coding.Delegator.{
  resolve_agent_id, check_status, check_workspace, check_files, check_spent, check_agent,
  first_error, delegate_to, delegate, accepted, refused,
}

abbrev pub IsReachable : AgentConnectionStatus → Type 0
IsReachable connected = Unit
IsReachable (disconnected since) = ⊥
IsReachable (errored message since) = ⊥
IsReachable unknown = Unit

abbrev pub Every {ℓ} : {A : Type ℓ} → (A → Type 0) → Option A → Type 0
Every P none = Unit
Every P (some a) = P a

-- No float that is greater than the cap has been spent.
abbrev pub IsWithinCap : Environment → Option ℕ → Option AgentCostRecord → Type 0
IsWithinCap env none stats = Unit
IsWithinCap env (some cap) none = Unit
IsWithinCap env (some cap) (some stats) = env.exceeds stats.estimated_total_cost_usd cap ≡ false

-- What a task needs of the agent that it is for.
pub record MayRun (env : Environment) (tracker : CostTracker) (resolved : String)
    (agent : RegisteredAgent) (task : TaskRequest) : Type 0 where
  pub status : IsReachable agent.status
  pub workspace : Every (Within env agent.config.workspaces) task.workspace
  pub files : Every (All (Within env agent.config.workspaces)) task.file_context
  pub spent : IsWithinCap env agent.config.cost_cap_usd (lookup resolved tracker.agent_costs)

check_status-IsReachable :
    (resolved : String) (status : AgentConnectionStatus)
    → check_status resolved status ≡ none ↔ IsReachable status
check_status-IsReachable resolved connected = (λ h. tt, λ h. refl)
check_status-IsReachable resolved (disconnected since) = (λ h. ground arith, λ h. absurd h)
check_status-IsReachable resolved (errored message since) = (λ h. ground arith, λ h. absurd h)
check_status-IsReachable resolved unknown = (λ h. tt, λ h. refl)

check_workspace-Every :
    (env : Environment) (workspaces : List String) (path : Option String)
    → check_workspace env workspaces path ≡ none ↔ Every (Within env workspaces) path
unfolding check_workspace
check_workspace-Every env workspaces none = (λ h. tt, λ h. refl)
check_workspace-Every env workspaces (some path) = validate_path-Within env workspaces path

check_files-Every :
    (env : Environment) (workspaces : List String) (paths : Option (List String))
    → check_files env workspaces paths ≡ none ↔ Every (All (Within env workspaces)) paths
unfolding check_files
check_files-Every env workspaces none = (λ h. tt, λ h. refl)
check_files-Every env workspaces (some paths) = validate_paths-Within env workspaces paths

check_spent-IsWithinCap :
    (env : Environment) (tracker : CostTracker) (resolved : String) (cap : Option ℕ)
    → check_spent env tracker resolved cap ≡ none
      ↔ IsWithinCap env cap (lookup resolved tracker.agent_costs)
unfolding check_spent check_cost_cap
check_spent-IsWithinCap env tracker resolved none = (λ h. tt, λ h. refl)
check_spent-IsWithinCap env tracker resolved (some cap) =
    elim (Option-cases (lookup resolved tracker.agent_costs)) [
      | inl e ↦ rw (e, check_spent) (λ h. tt, λ h. refl)
      | inr (stats, e) ↦ elim (Bool-cases (env.exceeds stats.estimated_total_cost_usd cap)) [
        | inl over ↦ rw (e, check_spent, over) (λ h. ground arith, λ h. ground arith)
        | inr under ↦ rw (e, check_spent, under) (λ h. refl, λ h. refl)
      ]
    ]

first_error-none :
    (first later : Option CodingAgentError)
    → first_error first later ≡ none ↔ ((first ≡ none) × (later ≡ none))
first_error-none none later = (λ h. (refl, h), λ h. h.1)
first_error-none (some error) later = (λ h. ground arith, λ h. ground (arith, h))

check_agent-MayRun :
    (env : Environment) (tracker : CostTracker) (resolved : String) (agent : RegisteredAgent)
    (task : TaskRequest)
    → check_agent env tracker resolved agent task ≡ none ↔ MayRun env tracker resolved agent task
unfolding check_agent
check_agent-MayRun env tracker resolved agent task =
    let status = check_status-IsReachable resolved agent.status in
    let workspace = check_workspace-Every env agent.config.workspaces task.workspace in
    let files = check_files-Every env agent.config.workspaces task.file_context in
    let spent = check_spent-IsWithinCap env tracker resolved agent.config.cost_cap_usd in
    let third =
      first_error-none (check_files env agent.config.workspaces task.file_context)
        (check_spent env tracker resolved agent.config.cost_cap_usd) in
    let second = first_error-none (check_workspace env agent.config.workspaces task.workspace) _ in
    let first = first_error-none (check_status resolved agent.status) _ in
    (
      λ h.
          let (a, b) = first.0 h in
          let (c, d) = second.0 b in
          let (e, f) = third.0 d in
          record {
            status = status.0 a;
            workspace = workspace.0 c;
            files = files.0 e;
            spent = spent.0 f;
          },
      λ v. first.1 (
        status.1 v.status,
        second.1 (workspace.1 v.workspace, third.1 (files.1 v.files, spent.1 v.spent)),
      ),
    )

-- What a task needs of the agent that its name resolves to.
pub record Finds (env : Environment) (registry : CodingAgentRegistry) (tracker : CostTracker)
    (name : String) (task : TaskRequest) : Type 0 where
  pub resolved : String
  pub agent : RegisteredAgent
  pub found : resolve_agent_id env registry name ≡ some resolved
  pub held : lookup resolved registry.agents ≡ some agent
  pub named : Names env registry.agents name resolved
  pub may_run : MayRun env tracker resolved agent task

refused-Finds :
    (env : Environment) (registry : CodingAgentRegistry) (tracker : CostTracker) (name : String)
    (task : TaskRequest) (resolved : String) (agent : RegisteredAgent) (error : CodingAgentError)
    → resolve_agent_id env registry name ≡ some resolved
    → lookup resolved registry.agents ≡ some agent
    → check_agent env tracker resolved agent task ≡ some error
    → ¬ Finds env registry tracker name task
refused-Finds env registry tracker name task resolved agent error e f g v =
    let passes : check_agent env tracker v.resolved v.agent task ≡ none =
      (check_agent-MayRun env tracker v.resolved v.agent task).1 v.may_run in
    let r : v.resolved ≡ resolved = ground (arith, v.found) in
    let a : v.agent ≡ agent = ground (arith, v.held) in ground (arith, rw (r, a) at passes)

-- Either the name resolves to an agent that is there, is not known to be gone, whose workspaces hold
-- every path of the task and that is within its cap: then exactly one task is put at the end of
-- the queue, for that agent; or not: then delegate refuses the task and leaves the queue.
pub delegate-Finds :
    (env : Environment) (registry : CodingAgentRegistry) (tracker : CostTracker) (queue : TaskQueue)
    (name : String) (task : TaskRequest) (task_id : String) (now : ℕ)
    → ((v : Finds env registry tracker name task) × ((delegate env registry tracker queue name task
            task_id now).0
          ≡ (enqueue queue task_id v.resolved task now).0)
        × ((delegate env registry tracker queue name task task_id now).1 ≡ accepted task_id))
      ⊎ ((error : CodingAgentError) × ((delegate env registry tracker queue name task task_id now).0
            ≡ queue)
          × ((delegate env registry tracker queue name task task_id now).1 ≡ refused error)
          × (¬ Finds env registry tracker name task))
unfolding delegate delegate_to
delegate-Finds env registry tracker queue name task task_id now =
    elim (Option-cases (resolve_agent_id env registry name)) [
      | inl e ↦
          rw (e, delegate) (inr (agent_not_found name, refl, refl, λ v. ground (arith, v.found)))
      | inr (resolved, e) ↦ elim (Option-cases (lookup resolved registry.agents)) [
        | inl f ↦
            rw (e, f, delegate)
              (inr (agent_not_found name, refl, refl, λ v. ground (arith, v.found, v.held)))
        | inr (agent, f) ↦ elim (Option-cases (check_agent env tracker resolved agent task)) [
          | inl g ↦
              let v : Finds env registry tracker name task = record {
                resolved = resolved;
                agent = agent;
                found = e;
                held = f;
                named = resolve_agent_id-Names env registry name resolved e;
                may_run = (check_agent-MayRun env tracker resolved agent task).0 g;
              } in
              rw (e, f, g, delegate) (inl (v, refl, refl))
          | inr (error, g) ↦
              rw (e, f, g, delegate)
                (inr (
                  error,
                  refl,
                  refl,
                  λ v. refused-Finds env registry tracker name task resolved agent error e f g v,
                ))
        ]
      ]
    ]
