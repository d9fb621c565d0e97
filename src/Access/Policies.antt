-- ===== src/Access/Policies.antt =====
-- The policy that access_control.rs finds for a channel, told by the configuration alone.
use adk_gateway.Common.{
  String, List, [], ◌∷◌, Option, none, some, contains, if◌then◌else◌, str_eq, ◌≡◌, refl, arith,
  eq_iff,
}
use adk_gateway.Common.Map.{Map, lookup, insert, lookup-insert, Unique}
use adk_gateway.Router.{
  ChannelType, telegram, slack, discord, whatsapp, matrix, signal, imessage, webhook, channel_name,
}
use adk_gateway.Access.Sets.{contains-set_of}
use adk_gateway.Access.{
  DmPolicy, dm_pairing, AuthConfig, ChannelAuthOverride, TelegramConfig, SlackConfig, GatewayConfig,
  ChannelPolicy, build_channel_policy_from_override, load_overrides, entry_or_insert,
  settings_policy, add_telegram, add_slack, auth_policies, policies_of, policy_or,
  policy_or_pairing,
}

-- The override of a channel, if the configuration has one.
abbrev pub override_for : Option AuthConfig → String → Option ChannelAuthOverride
override_for none channel = none
override_for (some auth) channel = lookup channel auth.channel_overrides

abbrev pub OverridesUnique : Option AuthConfig → Type 0
OverridesUnique none = Unit
OverridesUnique (some auth) = Unique auth.channel_overrides

abbrev telegram_settings : Option TelegramConfig → DmPolicy × List String
telegram_settings none = (dm_pairing, [])
telegram_settings (some tg) = (tg.dm_policy, tg.allow_from)

abbrev slack_settings : Option SlackConfig → DmPolicy × List String
slack_settings none = (dm_pairing, [])
slack_settings (some sl) = (sl.dm_policy, sl.allow_from)

-- The settings of the channel's own section: only Telegram and Slack have any.
unfoldable pub settings_for : GatewayConfig → ChannelType → DmPolicy × List String
settings_for config telegram = telegram_settings config.telegram
settings_for config slack = slack_settings config.slack
settings_for config _ = (dm_pairing, [])

abbrev pub overridden : Option ChannelAuthOverride → DmPolicy × List String → DmPolicy × List String
overridden none settings = settings
overridden (some over) settings = (policy_or_pairing over.dm_policy, [])

-- An override wins over the channel's own section, and has no allow list.
abbrev pub policy_for : GatewayConfig → ChannelType → DmPolicy × List String
policy_for config channel =
    overridden (override_for config.auth (channel_name channel)) (settings_for config channel)

abbrev override_or : Option ChannelAuthOverride → Option ChannelPolicy → Option ChannelPolicy
override_or none rest = rest
override_or (some over) rest = some (build_channel_policy_from_override over)

lookup-load_overrides :
    (overrides : Map ChannelAuthOverride) (policies : Map ChannelPolicy) (channel : String)
    → Unique overrides
    → lookup channel (load_overrides overrides policies)
      ≡ override_or (lookup channel overrides) (lookup channel policies)
unfolding load_overrides lookup
lookup-load_overrides [] policies channel u = refl
lookup-load_overrides ((name, over) ∷ rest) policies channel u = ground (
  arith,
  eq_iff name channel,
  lookup-load_overrides rest (insert name (build_channel_policy_from_override over) policies)
      channel u.1,
  lookup-insert name channel (build_channel_policy_from_override over) policies,
)

lookup-auth_policies :
    (auth : Option AuthConfig) (channel : String)
    → OverridesUnique auth
    → lookup channel (auth_policies auth) ≡ override_or (override_for auth channel) none
unfolding lookup
lookup-auth_policies none channel u = refl
lookup-auth_policies (some auth) channel u =
    ground (arith, lookup-load_overrides auth.channel_overrides [] channel u)

abbrev or_policy : Option ChannelPolicy → Option ChannelPolicy → Option ChannelPolicy
or_policy none second = second
or_policy (some policy) second = some policy

lookup-entry_or_insert :
    (name channel : String) (policy : ChannelPolicy) (policies : Map ChannelPolicy)
    → lookup channel (entry_or_insert name policy policies)
      ≡ or_policy (lookup channel policies) (if str_eq name channel then some policy else none)
unfolding entry_or_insert
lookup-entry_or_insert name channel policy policies =
    ground (arith, eq_iff name channel, lookup-insert name channel policy policies)

abbrev telegram_policy : Option TelegramConfig → Option ChannelPolicy
telegram_policy none = none
telegram_policy (some tg) = some (settings_policy tg.dm_policy tg.allow_from)

abbrev slack_policy : Option SlackConfig → Option ChannelPolicy
slack_policy none = none
slack_policy (some sl) = some (settings_policy sl.dm_policy sl.allow_from)

lookup-add_telegram :
    (tg : Option TelegramConfig) (policies : Map ChannelPolicy) (channel : String)
    → lookup channel (add_telegram tg policies)
      ≡ or_policy
          (lookup channel policies)
          (if str_eq "telegram" channel then telegram_policy tg else none)
unfolding add_telegram
lookup-add_telegram none policies channel = ground arith
lookup-add_telegram (some tg) policies channel =
    lookup-entry_or_insert "telegram" channel (settings_policy tg.dm_policy tg.allow_from) policies

lookup-add_slack :
    (sl : Option SlackConfig) (policies : Map ChannelPolicy) (channel : String)
    → lookup channel (add_slack sl policies)
      ≡ or_policy
          (lookup channel policies)
          (if str_eq "slack" channel then slack_policy sl else none)
unfolding add_slack
lookup-add_slack none policies channel = ground arith
lookup-add_slack (some sl) policies channel =
    lookup-entry_or_insert "slack" channel (settings_policy sl.dm_policy sl.allow_from) policies

abbrev pub pairing_policy : ChannelPolicy
pairing_policy = record { dm_policy = dm_pairing; allow_list = []; roles = [] }

-- The policy that the bridge finds for a channel has the effective settings.
pub record Implements (settings : DmPolicy × List String) (policy : ChannelPolicy) : Type 0 where
  pub same_policy : policy.dm_policy ≡ settings.0
  pub same_list : (user : String) → contains user policy.allow_list ≡ contains user settings.1

telegram-Implements :
    (tg : Option TelegramConfig)
    → Implements (telegram_settings tg) (policy_or (telegram_policy tg) pairing_policy)
telegram-Implements none = record { same_policy = refl; same_list = λ user. refl }
telegram-Implements (some tg) = record {
  same_policy = refl;
  same_list = λ user. contains-set_of user tg.allow_from;
}

slack-Implements :
    (sl : Option SlackConfig)
    → Implements (slack_settings sl) (policy_or (slack_policy sl) pairing_policy)
slack-Implements none = record { same_policy = refl; same_list = λ user. refl }
slack-Implements (some sl) = record {
  same_policy = refl;
  same_list = λ user. contains-set_of user sl.allow_from;
}

abbrev section_policy : GatewayConfig → String → Option ChannelPolicy
section_policy config channel =
    or_policy (if str_eq "telegram" channel then telegram_policy config.telegram else none)
      (if str_eq "slack" channel then slack_policy config.slack else none)

or_policy-none : (o : Option ChannelPolicy) → or_policy o none ≡ o
or_policy-none none = refl
or_policy-none (some policy) = refl

section-Implements :
    (config : GatewayConfig) (channel : ChannelType)
    → Implements
        (settings_for config channel)
        (policy_or (section_policy config (channel_name channel)) pairing_policy)
unfolding settings_for channel_name
section-Implements config telegram =
    rw (or_policy-none (telegram_policy config.telegram)) (telegram-Implements config.telegram)
section-Implements config slack = slack-Implements config.slack
section-Implements config discord = record { same_policy = refl; same_list = λ user. refl }
section-Implements config whatsapp = record { same_policy = refl; same_list = λ user. refl }
section-Implements config matrix = record { same_policy = refl; same_list = λ user. refl }
section-Implements config signal = record { same_policy = refl; same_list = λ user. refl }
section-Implements config imessage = record { same_policy = refl; same_list = λ user. refl }
section-Implements config webhook = record { same_policy = refl; same_list = λ user. refl }

override_or_assoc :
    (o : Option ChannelAuthOverride) (a b : Option ChannelPolicy)
    → or_policy (or_policy (override_or o none) a) b ≡ override_or o (or_policy a b)
override_or_assoc none a b = refl
override_or_assoc (some over) a b = refl

lookup-policies_of :
    (config : GatewayConfig) (channel : String)
    → OverridesUnique config.auth
    → lookup channel (policies_of config)
      ≡ override_or (override_for config.auth channel) (section_policy config channel)
lookup-policies_of config channel u =
    rw
      (
        lookup-add_slack config.slack (add_telegram config.telegram (auth_policies config.auth))
            channel,
        lookup-add_telegram config.telegram (auth_policies config.auth) channel,
        lookup-auth_policies config.auth channel u,
      )
      (override_or_assoc (override_for config.auth channel)
        (if str_eq "telegram" channel then telegram_policy config.telegram else none)
        (if str_eq "slack" channel then slack_policy config.slack else none))

overridden-Implements :
    (o : Option ChannelAuthOverride) (settings : DmPolicy × List String)
    (section : Option ChannelPolicy)
    → Implements settings (policy_or section pairing_policy)
    → Implements (overridden o settings) (policy_or (override_or o section) pairing_policy)
unfolding build_channel_policy_from_override
overridden-Implements none settings section i = i
overridden-Implements (some over) settings section i = record {
  same_policy = refl;
  same_list = λ user. refl;
}

pub policy_for-Implements :
    (config : GatewayConfig) (channel : ChannelType)
    → OverridesUnique config.auth
    → Implements
        (policy_for config channel)
        (policy_or (lookup (channel_name channel) (policies_of config)) pairing_policy)
policy_for-Implements config channel u = rw (lookup-policies_of config (channel_name channel) u) (
    overridden-Implements (override_for config.auth (channel_name channel))
      (settings_for config channel) (section_policy config (channel_name channel))
      (section-Implements config channel))
