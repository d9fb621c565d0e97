-- ===== src/MultiUser.antt =====
-- multi_user.rs, with the schedules of heartbeat_v2.rs: users per channel with their sessions and
-- heartbeats, and the agents of group chats. Times come from the caller; a cancellation token, the log
-- and the locks are not modelled.
pub mod Routing
pub mod Isolation
pub mod Examples
use adk_gateway.Common.{
  ℕ, String, List, [], ◌∷◌, ◌++◌, Option, none, some, Bool, false, not, ◌&&◌, filter, if◌then◌else◌,
  str_eq, is_some,
}
use adk_gateway.Common.Map.{Map, lookup, insert, remove}
use adk_gateway.Router.{ChannelType, channel_name}

pub record PairedUser : Type 0 where
  pub user_id : String
  pub channel_type : ChannelType
  pub paired_at : ℕ
  pub display_name : Option String
  pub heartbeat_enabled : Bool
  pub heartbeat_interval_secs : Option ℕ

pub record SessionMessage : Type 0 where
  pub role : String
  pub content : String
  pub timestamp : ℕ
  pub thread_id : Option String

pub record SessionHandle : Type 0 where
  pub user_id : String
  pub channel_type : ChannelType
  pub history : List SessionMessage
  pub created_at : ℕ
  pub last_activity : ℕ

pub record ThreadContext : Type 0 where
  pub group_id : String
  pub thread_id : Option String
  pub sender_id : String

pub record AgentRoutingRule : Type 0 where
  pub group_id : String
  pub thread_id : Option String
  pub agent_id : String

pub record AgentRouter : Type 0 where
  pub rules : Map (List AgentRoutingRule)
  pub default_agent : String

abbrev pub rules_or_empty : Option (List AgentRoutingRule) → List AgentRoutingRule
rules_or_empty none = []
rules_or_empty (some rules) = rules

-- `entry(group_id).or_default().push(rule)`, for every rule.
unfoldable pub group_rules :
    Map (List AgentRoutingRule) → List AgentRoutingRule → Map (List AgentRoutingRule)
group_rules grouped [] = grouped
group_rules grouped (rule ∷ rest) =
    group_rules
      (insert rule.group_id (rules_or_empty (lookup rule.group_id grouped) ++ rule ∷ []) grouped)
      rest

unfoldable pub new_router : List AgentRoutingRule → String → AgentRouter
unfolding group_rules
new_router rules default_agent = record {
  rules = group_rules [] rules;
  default_agent = default_agent;
}

unfoldable pub update_rules : AgentRouter → List AgentRoutingRule → AgentRouter
unfolding group_rules
update_rules router rules = record router { rules = group_rules [] rules }

-- `a == b` of two `Option<String>`, where the left one is some text.
abbrev pub same_thread : Option String → Option String → Bool
same_thread none b = false
same_thread (some a) none = false
same_thread (some a) (some b) = str_eq a b

unfoldable pub thread_agent : List AgentRoutingRule → Option String → Option String
thread_agent [] thread = none
thread_agent (rule ∷ rest) thread =
    if same_thread rule.thread_id thread then some rule.agent_id else thread_agent rest thread

unfoldable pub group_agent : List AgentRoutingRule → Option String
group_agent [] = none
group_agent (rule ∷ rest) = if is_some rule.thread_id then group_agent rest else some rule.agent_id

abbrev pub first_of : Option String → Option String → String → String
first_of (some agent) later fallback = agent
first_of none (some agent) fallback = agent
first_of none none fallback = fallback

unfoldable pub route : AgentRouter → ThreadContext → String
unfolding thread_agent group_agent
route router context =
    let rules = rules_or_empty (lookup context.group_id router.rules) in
    first_of (thread_agent rules context.thread_id) (group_agent rules) router.default_agent

pub record HeartbeatSchedule : Type 0 where
  pub user_id : String
  pub interval : ℕ
  pub last_fired : Option ℕ

-- A user stands under the channel and the id, a session and a schedule under the id alone.
pub record MultiUserManager : Type 0 where
  pub paired_users : List PairedUser
  pub sessions : Map SessionHandle
  pub schedules : Map HeartbeatSchedule
  pub default_interval_secs : ℕ
  pub router : AgentRouter

pub data PairingError : Type 0 where
  already_paired user_not_found : (user_id : String) → PairingError

-- The interval is the default one of `HeartbeatV2Config`.
unfoldable pub new : List AgentRoutingRule → String → MultiUserManager
unfolding new_router
new rules default_agent = record {
  paired_users = [];
  sessions = [];
  schedules = [];
  default_interval_secs = 3_600;
  router = new_router rules default_agent;
}

abbrev pub has_key : ChannelType → String → PairedUser → Bool
has_key channel id user =
    str_eq (channel_name user.channel_type) (channel_name channel) && str_eq user.user_id id

unfoldable pub find_user : (PairedUser → Bool) → List PairedUser → Option PairedUser
find_user test [] = none
find_user test (user ∷ rest) = if test user then some user else find_user test rest

unfoldable pub get_user : MultiUserManager → ChannelType → String → Option PairedUser
unfolding find_user
get_user manager channel id = find_user (has_key channel id) manager.paired_users

unfoldable pub add_user : MultiUserManager → PairedUser → ℕ → MultiUserManager × Option PairingError
unfolding get_user
add_user manager user now =
    if is_some (get_user manager user.channel_type user.user_id)
    then (manager, some (already_paired user.user_id))
    else (
      record manager {
        paired_users = manager.paired_users ++ user ∷ [];
        sessions =
            insert user.user_id
              (record {
                user_id = user.user_id;
                channel_type = user.channel_type;
                history = [];
                created_at = now;
                last_activity = now;
              })
              manager.sessions;
      },
      none,
    )

abbrev pub is_user : String → PairedUser → Bool
is_user id user = str_eq user.user_id id

unfoldable pub remove_user : MultiUserManager → String → MultiUserManager × Option PairingError
unfolding find_user
remove_user manager id = elim (find_user (is_user id) manager.paired_users) [
  | none ↦ (manager, some (user_not_found id))
  | some user ↦ (
    record manager {
      paired_users =
          filter (λ other. not (has_key user.channel_type user.user_id other)) manager.paired_users;
      schedules = remove id manager.schedules;
      sessions = remove id manager.sessions;
    },
    none,
  )
]

unfoldable pub users_for_channel : MultiUserManager → ChannelType → List PairedUser
users_for_channel manager channel =
    filter (λ user. str_eq (channel_name user.channel_type) (channel_name channel))
      manager.paired_users

unfoldable pub resolve_session : MultiUserManager → ChannelType → String → Option SessionHandle
unfolding get_user
resolve_session manager channel id =
    if is_some (get_user manager channel id) then lookup id manager.sessions else none

unfoldable pub add_message_to_session :
    MultiUserManager → String → SessionMessage → ℕ → MultiUserManager × Option PairingError
add_message_to_session manager id message now = elim (lookup id manager.sessions) [
  | none ↦ (manager, some (user_not_found id))
  | some session ↦ (
    record manager {
      sessions =
          insert id
            (record session { history = session.history ++ message ∷ []; last_activity = now })
            manager.sessions;
    },
    none,
  )
]

unfoldable pub update_routing_rules : MultiUserManager → List AgentRoutingRule → MultiUserManager
unfolding update_rules
update_routing_rules manager rules = record manager { router = update_rules manager.router rules }

unfoldable pub route_message : MultiUserManager → ThreadContext → String
unfolding route
route_message manager context = route manager.router context

abbrev interval_of : Option ℕ → ℕ → ℕ
interval_of none fallback = fallback
interval_of (some interval) fallback = interval

unfoldable pub schedule_heartbeat_for_user : MultiUserManager → String → MultiUserManager
unfolding find_user
schedule_heartbeat_for_user manager id = elim (find_user (is_user id) manager.paired_users) [
  | none ↦ manager
  | some user ↦
      if user.heartbeat_enabled
      then record manager {
        schedules =
            insert id
              (record {
                user_id = id;
                interval = interval_of user.heartbeat_interval_secs manager.default_interval_secs;
                last_fired = none;
              })
              (remove id manager.schedules);
      }
      else manager
]

unfoldable pub cancel_heartbeat_for_user : MultiUserManager → String → MultiUserManager
cancel_heartbeat_for_user manager id = record manager { schedules = remove id manager.schedules }
