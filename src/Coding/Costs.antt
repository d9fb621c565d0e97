-- ===== src/Coding/Costs.antt =====
-- coding_agent/cost.rs: what the coding agents have spent.
use adk_gateway.Common.{ℕ, ◌+◌, ◌%◌, String, [], Option, none, some, if◌then◌else◌}
use adk_gateway.Common.Map.{Map, lookup, insert}
use adk_gateway.Coding.{Environment, CodingAgentError, cost_cap_exceeded}

pub record TokenUsage : Type 0 where
  pub input_tokens : ℕ
  pub output_tokens : ℕ
  pub estimated_cost_usd : ℕ

pub record AgentCostRecord : Type 0 where
  pub agent_id : String
  pub total_input_tokens : ℕ
  pub total_output_tokens : ℕ
  pub estimated_total_cost_usd : ℕ
  pub task_count : ℕ
  pub period_start : ℕ

pub record CostTracker : Type 0 where
  pub agent_costs : Map AgentCostRecord
  pub task_caps : Map ℕ

-- A `u64` wraps in the release build.
abbrev as_u64 : ℕ → ℕ
as_u64 n = n % 18_446_744_073_709_551_616

unfoldable pub new : CostTracker
new = record { agent_costs = []; task_caps = [] }

unfoldable pub record_usage : Environment → CostTracker → String → TokenUsage → ℕ → CostTracker
record_usage env tracker id usage now = elim (lookup id tracker.agent_costs) [
  | some held ↦ record tracker {
    agent_costs =
        insert id
          (record held {
            total_input_tokens = as_u64 (held.total_input_tokens + usage.input_tokens);
            total_output_tokens = as_u64 (held.total_output_tokens + usage.output_tokens);
            estimated_total_cost_usd =
                env.add held.estimated_total_cost_usd usage.estimated_cost_usd;
            task_count = as_u64 (held.task_count + 1);
          })
          tracker.agent_costs;
  }
  | none ↦ record tracker {
    agent_costs =
        insert id
          (record {
            agent_id = id;
            total_input_tokens = usage.input_tokens;
            total_output_tokens = usage.output_tokens;
            estimated_total_cost_usd = usage.estimated_cost_usd;
            task_count = 1;
            period_start = now;
          })
          tracker.agent_costs;
  }
]

unfoldable pub check_cost_cap : Environment → ℕ → ℕ → Option CodingAgentError
check_cost_cap env current cap =
    if env.exceeds current cap then some (cost_cap_exceeded current cap) else none

-- The bit pattern of 0.0 is 0.
unfoldable pub reset_period : CostTracker → String → ℕ → CostTracker
reset_period tracker id now = elim (lookup id tracker.agent_costs) [
  | none ↦ tracker
  | some held ↦ record tracker {
    agent_costs =
        insert id
          (record held {
            total_input_tokens = 0;
            total_output_tokens = 0;
            estimated_total_cost_usd = 0;
            task_count = 0;
            period_start = now;
          })
          tracker.agent_costs;
  }
]

unfoldable pub set_task_cap : CostTracker → String → ℕ → CostTracker
set_task_cap tracker id cap = record tracker { task_caps = insert id cap tracker.task_caps }

abbrev pub get_agent_stats : CostTracker → String → Option AgentCostRecord
get_agent_stats tracker id = lookup id tracker.agent_costs
