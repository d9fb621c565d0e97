-- ===== src/AgentConfig.antt =====
-- agent_config.rs, and the model categories of config.rs: the declarative definition of an agent
-- and how its model is chosen. An `f32` is kept as its bit pattern.
use adk_gateway.Common.{ℕ, String, List, [], ◌∷◌, Option, none, some, Bool, if◌then◌else◌, str_eq}
use adk_gateway.Json.{ℤ, Value}

pub data ModelSpec : Type 0 where
  simple : String → ModelSpec
  with_fallbacks : (primary : String) (fallbacks : List String) → ModelSpec

pub record CategoryConfig : Type 0 where
  pub primary : ModelSpec
  pub vision : Option (List String)
  pub omni : Option (List String)
  pub image_generation : Option (List String)
  pub tts : Option (List String)
  pub stt : Option (List String)
  pub code : Option (List String)
  pub embedding : Option (List String)
  pub search_models : Option (List String)  -- `search` in the source
  pub music : Option (List String)

unfoldable pub spec_primary : ModelSpec → String
spec_primary (simple s) = s
spec_primary (with_fallbacks p fallbacks) = p

unfoldable pub first_or : Option (List String) → Option String
first_or none = none
first_or (some []) = none
first_or (some (m ∷ ms)) = some m

abbrev pub or_else {ℓ} : {A : Type ℓ} → Option A → Option A → Option A
or_else none b = b
or_else (some a) b = some a

-- `CategoryConfig::resolve`: the match on the category's name, in the source's order.
unfoldable pub resolve : CategoryConfig → String → Option String
unfolding spec_primary first_or
resolve c category =
    if str_eq category "primary"
    then some (spec_primary c.primary)
    else if str_eq category "vision"
    then or_else (first_or c.vision) (first_or c.omni)
    else if str_eq category "tts"
    then or_else (first_or c.tts) (first_or c.omni)
    else if str_eq category "stt"
    then or_else (first_or c.stt) (first_or c.omni)
    else if str_eq category "omni"
    then first_or c.omni
    else if str_eq category "image_generation"
    then first_or c.image_generation
    else if str_eq category "code"
    then first_or c.code
    else if str_eq category "embedding"
    then first_or c.embedding
    else if str_eq category "search"
    then first_or c.search_models
    else if str_eq category "music"
    then first_or c.music
    else none

pub data AgentModelOverride : Type 0 where
  partial : CategoryConfig → AgentModelOverride
  full : CategoryConfig → AgentModelOverride

pub data AgentType : Type 0 where
  llm sequential parallel loop router graph : AgentType

pub record ActionNodeEntry : Type 0 where
  pub id : String
  pub config : Value

pub record WorkflowEdge : Type 0 where
  pub from_node : String
  pub to_node : String
  pub condition : Option String

pub record AgentRoleConfig : Type 0 where
  pub allow : List String
  pub deny : List String

pub record ChannelBinding : Type 0 where
  pub channel_type : String
  pub account_id : Option String
  pub peer_filter : Option String

pub record AgentConfig : Type 0 where
  pub id : String
  pub name : String
  pub description : String
  pub agent_type : AgentType
  pub model : String
  pub api_key_env : String
  pub instruction : String
  pub tools : List String
  pub action_nodes : List ActionNodeEntry
  pub workflow_edges : List WorkflowEdge
  pub sub_agents : List String
  pub role : AgentRoleConfig
  pub channel_bindings : List ChannelBinding
  pub auto_start : Bool
  pub temperature : Option ℕ
  pub max_output_tokens : Option ℤ
  pub model_override : Option AgentModelOverride

pub data LifecycleState : Type 0 where
  created starting running stopping stopped : LifecycleState
  error : (message : String) → LifecycleState

-- `AgentConfig::resolve_model`.
abbrev pub resolve_by : Option AgentModelOverride → String → CategoryConfig → Option String
resolve_by none category global = resolve global category
resolve_by (some (partial c)) category global =
    or_else (resolve c category) (resolve global category)
resolve_by (some (full c)) category global = resolve c category

unfoldable pub resolve_model : AgentConfig → String → CategoryConfig → Option String
resolve_model a category global = resolve_by a.model_override category global
