-- ===== src/Coding/Naming.antt =====
-- Which agent a name stands for in coding_agent/delegator.rs.
use adk_gateway.Common.{
  String, [], ◌∷◌, Option, none, some, true, In, ◌∙◌, str_eq, ◌≡◌, refl, ◌⊎◌, inl, inr, arith,
  Bool-cases, Option-cases, eq_iff,
}
use adk_gateway.Common.Map.{Map, contains_key}
use adk_gateway.Coding.{Environment, CodingAgentRegistry, RegisteredAgent}
use adk_gateway.Coding.Delegator.{resolve_agent_id, resolve_by_alias, resolve_by_case, has_alias}

-- The agent that a name stands for: the id itself where there is one, else an agent that is there
-- whose alias or id is the name but for case.
abbrev pub CalledBy : Environment → String → RegisteredAgent → Type 0
CalledBy env name agent =
    ((alias : String) × (agent.config.alias ≡ some alias)
      × (env.to_lowercase alias ≡ env.to_lowercase name))
    ⊎ (env.to_lowercase agent.id ≡ env.to_lowercase name)

abbrev pub Names : Environment → Map RegisteredAgent → String → String → Type 0
Names env agents name resolved =
    (resolved ≡ name)
    ⊎ ((entry : String × RegisteredAgent) × In entry agents
        × (entry.1.id ≡ resolved)
        × CalledBy env name entry.1)

has_alias-CalledBy :
    (env : Environment) (name : String) (agent : RegisteredAgent) (alias : Option String)
    → agent.config.alias ≡ alias
    → has_alias env name alias ≡ true
    → CalledBy env name agent
has_alias-CalledBy env name agent none e h = ground arith
has_alias-CalledBy env name agent (some alias) e h =
    inl (alias, e, (eq_iff (env.to_lowercase alias) (env.to_lowercase name)).0 h)

later-Names :
    (env : Environment) (name resolved : String) (entry : String × RegisteredAgent)
    (rest : Map RegisteredAgent)
    → Names env rest name resolved
    → Names env (entry ∷ rest) name resolved
later-Names env name resolved entry rest (inl e) = inl e
later-Names env name resolved entry rest (inr (found, member, same, called)) =
    inr (found, inr member, same, called)

resolve_by_alias-Names :
    (env : Environment) (agents : Map RegisteredAgent) (name resolved : String)
    → resolve_by_alias env agents name ≡ some resolved
    → Names env agents name resolved
unfolding resolve_by_alias
resolve_by_alias-Names env [] name resolved h = ground arith
resolve_by_alias-Names env ((key, agent) ∷ rest) name resolved h =
    elim (Bool-cases (has_alias env name agent.config.alias)) [
      | inl e ↦ inr (
        (key, agent),
        inl refl,
        ground arith,
        has_alias-CalledBy env name agent agent.config.alias refl e,
      )
      | inr e ↦
          later-Names env name resolved (key, agent) rest
            (resolve_by_alias-Names env rest name resolved (ground arith))
    ]

resolve_by_case-Names :
    (env : Environment) (agents : Map RegisteredAgent) (name resolved : String)
    → resolve_by_case env agents name ≡ some resolved
    → Names env agents name resolved
unfolding resolve_by_case
resolve_by_case-Names env [] name resolved h = ground arith
resolve_by_case-Names env ((key, agent) ∷ rest) name resolved h =
    elim (Bool-cases (str_eq (env.to_lowercase agent.id) (env.to_lowercase name))) [
      | inl e ↦ inr (
        (key, agent),
        inl refl,
        ground arith,
        inr ((eq_iff (env.to_lowercase agent.id) (env.to_lowercase name)).0 e),
      )
      | inr e ↦
          later-Names env name resolved (key, agent) rest
            (resolve_by_case-Names env rest name resolved (ground arith))
    ]

pub resolve_agent_id-Names :
    (env : Environment) (registry : CodingAgentRegistry) (name resolved : String)
    → resolve_agent_id env registry name ≡ some resolved
    → Names env registry.agents name resolved
unfolding resolve_agent_id
resolve_agent_id-Names env registry name resolved h =
    elim (Bool-cases (contains_key name registry.agents)) [
      | inl e ↦ inl (ground (arith, rw (e, resolve_agent_id) at h))
      | inr e ↦ elim (Option-cases (resolve_by_alias env registry.agents name)) [
        | inl f ↦
            resolve_by_case-Names env registry.agents name resolved
              (rw (e, f, resolve_agent_id) at h)
        | inr (found, f) ↦
            resolve_by_alias-Names env registry.agents name resolved
              (f ∙ (rw (e, f, resolve_agent_id) at h))
      ]
    ]
