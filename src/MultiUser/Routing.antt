-- ===== src/MultiUser/Routing.antt =====
-- The agent that multi_user.rs picks for a message of a group, against the rules in their written order.
use adk_gateway.Common.{
  String, List, [], ◌∷◌, ◌++◌, Option, none, some, Bool, not, ◌&&◌, filter, if◌then◌else◌, str_eq,
  is_some, ◌≡◌, refl, inl, inr, arith, Bool-cases, eq_iff, append_assoc, append-nil, sym, ◌∙◌, ap,
}
use adk_gateway.Common.Map.{Map, lookup, insert, lookup-insert}
use adk_gateway.MultiUser.{
  ThreadContext, AgentRoutingRule, AgentRouter, rules_or_empty, group_rules, update_rules,
  same_thread, thread_agent, group_agent, first_of, route,
}

abbrev of_group : String → AgentRoutingRule → Bool
of_group group rule = str_eq rule.group_id group

lookup-group_rules :
    (group : String) (grouped : Map (List AgentRoutingRule)) (rules : List AgentRoutingRule)
    → rules_or_empty (lookup group (group_rules grouped rules))
      ≡ rules_or_empty (lookup group grouped) ++ filter (of_group group) rules
unfolding group_rules
lookup-group_rules group grouped [] = sym (append-nil _)
lookup-group_rules group grouped (rule ∷ rest) =
    let held = rules_or_empty (lookup rule.group_id grouped) ++ rule ∷ [] in
    let later = lookup-group_rules group (insert rule.group_id held grouped) rest in
    elim (Bool-cases (str_eq rule.group_id group)) [
      | inl e ↦
          let same : rule.group_id ≡ group = (eq_iff rule.group_id group).0 e in
          let stored : lookup group (insert rule.group_id held grouped) ≡ some held =
            ground (arith, lookup-insert rule.group_id group held grouped) in
          rw e (
            later
            ∙ ap (λ found. rules_or_empty found ++ filter (of_group group) rest) stored
            ∙ append_assoc (rules_or_empty (lookup rule.group_id grouped)) (rule ∷ [])
                (filter (of_group group) rest)
            ∙ ap (λ g. rules_or_empty (lookup g grouped) ++ rule ∷ filter (of_group group) rest)
                same)
      | inr e ↦ ground (arith, later, lookup-insert rule.group_id group held grouped)
    ]

-- The agent of the first rule that passes a test.
abbrev pub first_agent : (AgentRoutingRule → Bool) → List AgentRoutingRule → Option String
first_agent test [] = none
first_agent test (rule ∷ rest) = if test rule then some rule.agent_id else first_agent test rest

thread_agent-filter :
    (group : String) (thread : Option String) (rules : List AgentRoutingRule)
    → thread_agent (filter (of_group group) rules) thread
      ≡ first_agent (λ rule. of_group group rule && same_thread rule.thread_id thread) rules
unfolding thread_agent
thread_agent-filter group thread [] = refl
thread_agent-filter group thread (rule ∷ rest) =
    ground (arith, thread_agent-filter group thread rest)

group_agent-filter :
    (group : String) (rules : List AgentRoutingRule)
    → group_agent (filter (of_group group) rules)
      ≡ first_agent (λ rule. of_group group rule && not (is_some rule.thread_id)) rules
unfolding group_agent
group_agent-filter group [] = refl
group_agent-filter group (rule ∷ rest) = ground (arith, group_agent-filter group rest)

-- After an update of its rules, whatever they were before, a router picks the agent of the first rule,
-- in the order given, that has the message's group and its thread; else that of the first rule of
-- the group that names no thread; else the default agent.
pub route-first_agent :
    (router : AgentRouter) (rules : List AgentRoutingRule) (context : ThreadContext)
    → route (update_rules router rules) context
      ≡ first_of
          (first_agent
            (λ rule.
              str_eq rule.group_id context.group_id && same_thread rule.thread_id context.thread_id)
            rules)
          (first_agent
            (λ rule. str_eq rule.group_id context.group_id && not (is_some rule.thread_id))
            rules)
          router.default_agent
unfolding route update_rules lookup
route-first_agent router rules context =
    rw
      (
        lookup-group_rules context.group_id [] rules,
        thread_agent-filter context.group_id context.thread_id rules,
        group_agent-filter context.group_id rules,
      )
      refl
