-- ===== src/Access/Rebuilt.antt =====
-- The users' roles and the pairings of access_control.rs through any sequence of pairings and reloads
-- of the configuration.
use adk_gateway.Common.{
  String, List, [], ◌∷◌, Option, none, some, Bool, false, ◌&&◌, ◌||◌, any, contains, str_eq, ◌≡◌,
  refl, arith, eq_iff,
}
use adk_gateway.Common.Map.{Map, lookup, lookup-insert}
use adk_gateway.Access.Sets.{set_insert, contains-set_insert}
use adk_gateway.Access.{
  GatewayConfig, AuthConfig, UserRoleMapping, AccessControlBridge, give_role, or_default,
  load_mappings, load_auth_config, auth_roles, restore_paired, policies_of, new, mark_paired,
  rebuild, is_paired, user_role_names, dm_pairing,
}

pub data Event : Type 0 where
  pairs : (user : String) → Event
  reloads : (config : GatewayConfig) → Event

unfoldable pub perform : AccessControlBridge → Event → AccessControlBridge
perform bridge (pairs user) = mark_paired bridge user
perform bridge (reloads config) = rebuild bridge config

unfoldable pub run : AccessControlBridge → List Event → AccessControlBridge
run bridge [] = bridge
run bridge (e ∷ es) = run (perform bridge e) es

-- The configuration in force after the events.
abbrev pub config_after : GatewayConfig → List Event → GatewayConfig
config_after config [] = config
config_after config (pairs user ∷ es) = config_after config es
config_after config (reloads fresh ∷ es) = config_after fresh es

-- Whether the events pair the user.
abbrev pub pairs_user : String → List Event → Bool
pairs_user user [] = false
pairs_user user (pairs u ∷ es) = str_eq u user || pairs_user user es
pairs_user user (reloads config ∷ es) = pairs_user user es

abbrev pub is_mapping : String → String → UserRoleMapping → Bool
is_mapping user role mapping = str_eq mapping.user_id user && str_eq mapping.role role

-- Whether the configuration maps the user to the role.
abbrev pub maps_role : Option AuthConfig → String → String → Bool
maps_role none user role = false
maps_role (some auth) user role = any (is_mapping user role) auth.user_mappings

abbrev has_role : Map (List String) → String → String → Bool
has_role user_roles user role = contains role (or_default (lookup user user_roles))

has_role-give_role :
    (m : Map (List String)) (u r user role : String)
    → has_role (give_role m u r) user role
      ≡ (str_eq u user && str_eq r role || has_role m user role)
unfolding give_role
has_role-give_role m u r user role = ground (
  arith,
  eq_iff u user,
  lookup-insert u user (set_insert r (or_default (lookup u m))) m,
  contains-set_insert r role (or_default (lookup u m)),
)

has_role-load_mappings :
    (ms : List UserRoleMapping) (m : Map (List String)) (user role : String)
    → has_role (load_mappings ms m) user role
      ≡ (any (is_mapping user role) ms || has_role m user role)
unfolding load_mappings
has_role-load_mappings [] m user role = refl
has_role-load_mappings (x ∷ xs) m user role = ground (
  arith,
  has_role-load_mappings xs (give_role m x.user_id x.role) user role,
  has_role-give_role m x.user_id x.role user role,
)

has_role-restore_paired :
    (us : List String) (m : Map (List String)) (user role : String)
    → has_role (restore_paired us m) user role
      ≡ (contains user us && str_eq "paired" role || has_role m user role)
unfolding restore_paired
has_role-restore_paired [] m user role = refl
has_role-restore_paired (u ∷ us) m user role = ground (
  arith,
  has_role-restore_paired us (give_role m u "paired") user role,
  has_role-give_role m u "paired" user role,
)

has_role-auth :
    (auth : Option AuthConfig) (user role : String)
    → has_role (auth_roles auth).1 user role ≡ maps_role auth user role
unfolding load_auth_config lookup
has_role-auth none user role = refl
has_role-auth (some auth) user role =
    ground (arith, has_role-load_mappings auth.user_mappings [] user role)

-- What a bridge holds, told by its configuration and by who is paired.
pub record Agrees (config : GatewayConfig) (paired : String → Bool) (bridge : AccessControlBridge)
    : Type 0 where
  pub pairings : (user : String) → contains user bridge.paired_users ≡ paired user
  pub roles :
      (user role : String)
      → contains role (or_default (lookup user bridge.user_roles))
        ≡ (maps_role config.auth user role || paired user && str_eq "paired" role)
  pub policies : bridge.channel_policies ≡ policies_of config
  pub fallback :
      bridge.default_policy ≡ record { dm_policy = dm_pairing; allow_list = []; roles = [] }

new-Agrees : (config : GatewayConfig) → Agrees config (λ user. false) (new config)
unfolding new
new-Agrees config = record {
  pairings = λ user. refl;
  roles = λ user role. ground (arith, has_role-auth config.auth user role);
  policies = refl;
  fallback = refl;
}

mark_paired-Agrees :
    (config : GatewayConfig) (paired : String → Bool) (bridge : AccessControlBridge) (u : String)
    → Agrees config paired bridge
    → Agrees config (λ user. str_eq u user || paired user) (mark_paired bridge u)
unfolding mark_paired
mark_paired-Agrees config paired bridge u a = record {
  pairings =
      λ user. ground (arith, contains-set_insert u user bridge.paired_users, a.pairings user);
  roles = λ user role.
      ground (arith, has_role-give_role bridge.user_roles u "paired" user role, a.roles user role);
  policies = a.policies;
  fallback = a.fallback;
}

rebuild-Agrees :
    (config fresh : GatewayConfig) (paired : String → Bool) (bridge : AccessControlBridge)
    → Agrees config paired bridge
    → Agrees fresh paired (rebuild bridge fresh)
unfolding rebuild
rebuild-Agrees config fresh paired bridge a = record {
  pairings = a.pairings;
  roles = λ user role. ground (
    arith,
    has_role-restore_paired bridge.paired_users (auth_roles fresh.auth).1 user role,
    has_role-auth fresh.auth user role,
    a.pairings user,
  );
  policies = refl;
  fallback = a.fallback;
}

pub run-Agrees :
    (config : GatewayConfig) (paired : String → Bool) (bridge : AccessControlBridge)
    (es : List Event)
    → Agrees config paired bridge
    → Agrees (config_after config es) (λ user. paired user || pairs_user user es) (run bridge es)
unfolding run perform
run-Agrees config paired bridge [] a = record {
  pairings = λ u. ground (arith, a.pairings u);
  roles = λ u r. ground (arith, a.roles u r);
  policies = a.policies;
  fallback = a.fallback;
}
run-Agrees config paired bridge (pairs user ∷ es) a =
    let b =
      run-Agrees config (λ u. str_eq user u || paired u) (mark_paired bridge user) es
        (mark_paired-Agrees config paired bridge user a) in
    record {
      pairings = λ u. ground (arith, b.pairings u);
      roles = λ u r. ground (arith, b.roles u r);
      policies = b.policies;
      fallback = b.fallback;
    }
run-Agrees config paired bridge (reloads fresh ∷ es) a =
    run-Agrees fresh paired (rebuild bridge fresh) es (rebuild-Agrees config fresh paired bridge a)

pub run-new-Agrees :
    (config : GatewayConfig) (es : List Event)
    → Agrees (config_after config es) (λ user. pairs_user user es) (run (new config) es)
run-new-Agrees config es = run-Agrees config (λ user. false) (new config) es (new-Agrees config)

-- After any pairings and reloads a user is paired exactly when one of them paired the user, and has a
-- role exactly when the configuration in force maps the user to it, or it is "paired" and the user is
-- paired: a reload drops the roles of the old configuration and no pairing.
pub roles-run :
    (config : GatewayConfig) (es : List Event) (user role : String)
    → (is_paired (run (new config) es) user ≡ pairs_user user es)
      × (contains role (user_role_names (run (new config) es) user) ≡ (
          maps_role (config_after config es).auth user role
          || pairs_user user es && str_eq "paired" role))
unfolding is_paired user_role_names
roles-run config es user role =
    let a = run-new-Agrees config es in (a.pairings user, a.roles user role)
