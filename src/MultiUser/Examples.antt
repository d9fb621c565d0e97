-- ===== src/MultiUser/Examples.antt =====
-- Runs of multi_user.rs at concrete users, and the instances of its theorems.
use adk_gateway.Common.{
  String, List, [], ◌∷◌, Option, none, some, true, not, ◌&&◌, is_some, str_eq, map, ◌≡◌, ◌≢◌, refl,
}
use adk_gateway.Common.Map.{lookup, insert, remove}
use adk_gateway.Router.{ChannelType, telegram, slack, channel_name}
use adk_gateway.MultiUser.{
  PairedUser, SessionHandle, SessionMessage, ThreadContext, AgentRoutingRule, MultiUserManager,
  AgentRouter, new, new_router, group_rules, update_rules, same_thread, first_of, route, add_user,
  remove_user, get_user, find_user, add_message_to_session, resolve_session,
}
use adk_gateway.MultiUser.Routing.{first_agent, route-first_agent}
use adk_gateway.MultiUser.Isolation.{IsSameFor, others_stay}

abbrev user_on : ChannelType → PairedUser
user_on channel = record {
  user_id = "u1";
  channel_type = channel;
  paired_at = 0;
  display_name = none;
  heartbeat_enabled = true;
  heartbeat_interval_secs = none;
}

abbrev hello : SessionMessage
hello = record { role = "user"; content = "hello"; timestamp = 1; thread_id = none }

-- "u1" on Telegram, with one message.
abbrev one_user : MultiUserManager
unfolding new new_router group_rules add_user get_user find_user add_message_to_session lookup
    insert channel_name
one_user =
    (add_message_to_session (add_user (new [] "default") (user_on telegram) 0).0 "u1" hello 1).0

abbrev values_of : Option SessionHandle → List SessionHandle
values_of none = []
values_of (some session) = session ∷ []

-- The same id on Slack replaces the session with its history.
second_channel_resets :
    map
      (λ session. session.history)
      (values_of (resolve_session (add_user one_user (user_on slack) 2).0 telegram "u1"))
    ≡ [] ∷ []
unfolding one_user add_user get_user find_user resolve_session new new_router group_rules
    add_message_to_session lookup insert channel_name
second_channel_resets = refl

-- And when the id is removed, one of the two users is still paired, but without a session.
removal_strands :
    (is_some (get_user (remove_user (add_user one_user (user_on slack) 2).0 "u1").0 slack "u1")
      && not (
          is_some (
            resolve_session
              (remove_user (add_user one_user (user_on slack) 2).0 "u1").0
              slack
              "u1")))
    ≡ true
unfolding one_user add_user remove_user get_user find_user resolve_session new new_router
    group_rules add_message_to_session lookup insert remove channel_name
removal_strands = refl

abbrev rules : List AgentRoutingRule
rules =
    record { group_id = "g"; thread_id = none; agent_id = "general" }
    ∷ record { group_id = "g"; thread_id = some "t"; agent_id = "threads" }
    ∷ []

abbrev in_thread : ThreadContext
in_thread = record { group_id = "g"; thread_id = some "t"; sender_id = "u1" }

abbrev router : AgentRouter
unfolding new_router group_rules
router = new_router [] "default"

route-first_agent_example :
    route (update_rules router rules) in_thread
    ≡ first_of
        (first_agent
          (λ rule. str_eq rule.group_id "g" && same_thread rule.thread_id (some "t"))
          rules)
        (first_agent (λ rule. str_eq rule.group_id "g" && not (is_some rule.thread_id)) rules)
        router.default_agent
route-first_agent_example = route-first_agent router rules in_thread

others_stay_example :
    ((other : String)
      → "u1" ≢ other
      → IsSameFor other one_user (add_user one_user (user_on slack) 2).0)
    × ((other : String) → "u1" ≢ other → IsSameFor other one_user (remove_user one_user "u1").0)
others_stay_example = others_stay one_user (user_on slack) "u1" 2
