-- ===== src/Coding/Examples.antt =====
-- Runs of the delegator at concrete agents, and the instances of its theorems.
use adk_gateway.Common.{[], ◌∷◌, none, some, false, ◌≡◌, refl, ◌⊎◌, ltb, ◌↔◌, ◌+◌}
use adk_gateway.TaskQueue as TaskQueue
use adk_gateway.TaskQueue.{TaskRequest, control_panel, enqueue}
use adk_gateway.Common.Map.{lookup, insert}
use adk_gateway.Coding.{
  Environment, CodingAgentRegistry, CodingAgentInstanceConfig, CodingAgentError, from_config,
  register_all, register_agent, load_backends_from_config, load_backends,
}
use adk_gateway.Coding as Coding
use adk_gateway.Coding.Costs as Costs
use adk_gateway.Coding.Paths.{
  path_starts_with, components, split_slash, is_prefix, validate_path, is_within_workspace,
}
use adk_gateway.Coding.Workspaces.{Within, validate_path-Within}
use adk_gateway.Coding.Delegator.{
  delegate, accepted, refused, delegate_to, resolve_agent_id, resolve_by_alias, check_agent,
  check_workspace, check_files, check_spent,
}
use adk_gateway.Coding.Delegation.{Finds, delegate-Finds}

abbrev env : Environment
env = record {
  canonicalize = λ path. some path;
  to_lowercase = λ text. text;
  exceeds = λ spent cap. ltb cap spent;
  add = λ a b. a + b;
}

abbrev helper : CodingAgentInstanceConfig
helper = record {
  id = "claude-code-1";
  backend_type = "claude-code";
  endpoint = "";
  workspaces = "/home/me/work" ∷ [];
  cost_cap_usd = some 5;
  alias = some "cc";
}

abbrev registry : CodingAgentRegistry
unfolding from_config Coding.new register_all load_backends_from_config load_backends register_agent
    insert
registry = from_config (record { agents = helper ∷ []; backends = [] })

abbrev task : TaskRequest
task = record {
  description = "fix the build";
  trigger = control_panel "me";
  workspace = some "/home/me/work/src";
  file_context = none;
  reply_to = record { channel_type = "webhook"; channel_id = "c"; message_id = none };
}

delegated_by_alias :
    (delegate env registry Costs.new (TaskQueue.new none) "cc" task "t1" 0).1 ≡ accepted "t1"
unfolding registry delegate delegate_to resolve_agent_id resolve_by_alias check_agent
    check_workspace check_files check_spent validate_path is_within_workspace path_starts_with
    components split_slash is_prefix Costs.new enqueue TaskQueue.new lookup
delegated_by_alias = refl

-- A directory whose name only begins like the workspace's lies outside.
sibling_is_outside : path_starts_with "/home/me/workshop" "/home/me/work" ≡ false
unfolding path_starts_with components split_slash is_prefix
sibling_is_outside = refl

validate_path-Within_example :
    validate_path env ("/home/me/work" ∷ []) "/home/me/work/src" ≡ none
    ↔ Within env ("/home/me/work" ∷ []) "/home/me/work/src"
validate_path-Within_example = validate_path-Within env ("/home/me/work" ∷ []) "/home/me/work/src"

delegate-Finds_example :
    ((v : Finds env registry Costs.new "cc" task) × ((delegate env registry Costs.new
          (TaskQueue.new none)
          "cc"
          task
          "t1"
          0).0
        ≡ (enqueue (TaskQueue.new none) "t1" v.resolved task 0).0)
      × ((delegate env registry Costs.new (TaskQueue.new none) "cc" task "t1" 0).1 ≡ accepted "t1"))
    ⊎ ((error : CodingAgentError) × ((delegate env registry Costs.new
            (TaskQueue.new none)
            "cc"
            task
            "t1"
            0).0
          ≡ TaskQueue.new none)
        × ((delegate env registry Costs.new (TaskQueue.new none) "cc" task "t1" 0).1
            ≡ refused error)
        × (¬ Finds env registry Costs.new "cc" task))
delegate-Finds_example = delegate-Finds env registry Costs.new (TaskQueue.new none) "cc" task "t1" 0
