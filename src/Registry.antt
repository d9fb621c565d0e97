-- ===== src/Registry.antt =====
-- agent_registry.rs: the registry of agents with its lifecycle state machine and its JSON files.
-- An operation takes the registry and the time of the call, and returns the registry after it with
-- its result. The file system is the parameter `Storage`; a poisoned lock is not modelled.
pub mod Files
pub mod Keyed
pub mod Synced
pub mod Lifecycle
pub mod Examples
pub use Files.{Storage, AgentRecord, Entry, file, unparsable, unreadable, ignored}
use adk_gateway.Common.{
  ℕ, suc, String, List, [], ◌∷◌, Option, none, some, Bool, true, false, if◌then◌else◌, str_eq,
}
use adk_gateway.Common.Map.{Map, lookup, insert, remove, contains_key}
use adk_gateway.AgentConfig.{
  AgentConfig, LifecycleState, created, starting, running, stopping, stopped, error,
}

pub record Registry (Disk : Type 0) : Type 0 where
  pub agents : Map AgentRecord
  pub system_agent_id : Option String
  pub disk : Disk

-- The messages of `bail!` and `anyhow!`, with what they print.
pub data RegistryError : Type 0 where
  already_exists : (id : String) → RegistryError
  system_agent_exists : RegistryError
  not_found : (id : String) → RegistryError
  invalid_transition : (id : String) (from_state to_state : LifecycleState) → RegistryError
  id_mismatch : (config_id id : String) → RegistryError
  cannot_delete : (id : String) (state : LifecycleState) → RegistryError
  disappeared : (id : String) → RegistryError
  io : RegistryError

pub data Result {ℓ} (A : Type ℓ) : Type ℓ where
  ok : A → Result A
  err : RegistryError → Result A

-- `is_valid_transition`: the pairs of the `matches!`.
unfoldable pub is_valid_transition : LifecycleState → LifecycleState → Bool
is_valid_transition created starting = true
is_valid_transition starting running = true
is_valid_transition starting (error m) = true
is_valid_transition running stopping = true
is_valid_transition running (error m) = true
is_valid_transition stopping stopped = true
is_valid_transition stopped starting = true
is_valid_transition (error m) starting = true
is_valid_transition _ _ = false

abbrev pub new_record : AgentConfig → ℕ → AgentRecord
new_record config now = record {
  config = config;
  state = created;
  port = none;
  pid = none;
  created_at = now;
  updated_at = now;
}

-- The states in which `delete` goes on.
abbrev pub is_deletable : LifecycleState → Bool
is_deletable stopped = true
is_deletable (error m) = true
is_deletable created = false
is_deletable starting = false
is_deletable running = false
is_deletable stopping = false

-- The loop of `load_from_disk`: an entry that cannot be read or parsed ends it, and what was
-- loaded before stays.
unfoldable pub load_entries : Map AgentRecord → ℕ → List Entry → Map AgentRecord × Result ℕ
load_entries agents count [] = (agents, ok count)
load_entries agents count (ignored ∷ es) = load_entries agents count es
load_entries agents count (unreadable ∷ es) = (agents, err io)
load_entries agents count (unparsable ∷ es) = (agents, err io)
load_entries agents count (file rec ∷ es) =
    load_entries (insert rec.config.id rec agents) (suc count) es

module _ (st : Storage) where
  open st use {Disk}

  unfoldable pub new : Disk → Registry Disk
  new d = record { agents = []; system_agent_id = none; disk = d }

  -- The record is written before it is inserted, so a failed write inserts nothing.
  unfoldable pub create_agent : Registry Disk → AgentConfig → ℕ → Registry Disk × Result String
  create_agent r config now =
      let rec = new_record config now in
      let (disk', written) = st.write config.id rec r.disk in
      if contains_key config.id r.agents
      then (r, err (already_exists config.id))
      else if written
      then (record r { agents = insert config.id rec r.agents; disk = disk' }, ok config.id)
      else (record r { disk = disk' }, err io)

  -- The admin role: allow everything, deny nothing.
  abbrev pub with_admin_role : AgentConfig → AgentConfig
  with_admin_role config = record config { role = record { allow = "*" ∷ []; deny = [] } }

  unfoldable pub register_system_agent :
      Registry Disk → AgentConfig → ℕ → Registry Disk × Result (Unit {0})
  register_system_agent r config now = elim r.system_agent_id [
    | some old ↦ (r, err system_agent_exists)
    | none ↦
        let rec = new_record (with_admin_role config) now in
        let (disk', written) = st.write config.id rec r.disk in
        if written
        then (
          record r {
            agents = insert config.id rec r.agents;
            system_agent_id = some config.id;
            disk = disk';
          },
          ok tt,
        )
        else (record r { disk = disk' }, err io)
  ]

  -- The entry is changed in place and then written: a failed write leaves it changed.
  unfoldable pub store : Registry Disk → String → AgentRecord → Registry Disk × Result (Unit {0})
  store r id rec =
      let (disk', written) = st.write id rec r.disk in
      (
        record r { agents = insert id rec r.agents; disk = disk' },
        if written then ok tt else err io,
      )

  unfoldable pub transition :
      Registry Disk → String → LifecycleState → ℕ → Registry Disk × Result (Unit {0})
  unfolding store is_valid_transition
  transition r id new_state now = elim (lookup id r.agents) [
    | none ↦ (r, err (not_found id))
    | some entry ↦
        if is_valid_transition entry.state new_state
        then store r id (record entry { state = new_state; updated_at = now })
        else (r, err (invalid_transition id entry.state new_state))
  ]

  unfoldable pub force_state :
      Registry Disk → String → LifecycleState → ℕ → Registry Disk × Result (Unit {0})
  unfolding store
  force_state r id new_state now = elim (lookup id r.agents) [
    | none ↦ (r, err (not_found id))
    | some entry ↦ store r id (record entry { state = new_state; updated_at = now })
  ]

  unfoldable pub update_config :
      Registry Disk → String → AgentConfig → ℕ → Registry Disk × Result (Unit {0})
  unfolding store
  update_config r id config now = elim (lookup id r.agents) [
    | none ↦ (r, err (not_found id))
    | some entry ↦
        if str_eq config.id id
        then store r id (record entry { config = config; updated_at = now })
        else (r, err (id_mismatch config.id id))
  ]

  -- The two halves of `delete`, which reads the map twice. The first is its test of the state.
  unfoldable pub check_deletable : Registry Disk → String → Option RegistryError
  check_deletable r id = elim (lookup id r.agents) [
    | none ↦ some (not_found id)
    | some entry ↦ if is_deletable entry.state then none else some (cannot_delete id entry.state)
  ]

  -- `system_agent_id` is left as it is, also when the system agent is the one deleted; an error of
  -- the removal of the file is dropped.
  unfoldable pub take_out : Registry Disk → String → Registry Disk × Result AgentRecord
  take_out r id = elim (lookup id r.agents) [
    | none ↦ (r, err (disappeared id))
    | some entry ↦ (
      record r {
        agents = remove id r.agents;
        disk = (st.remove_file id (st.archive_workspace id r.disk)).0;
      },
      ok entry,
    )
  ]

  -- When nobody comes in between.
  unfoldable pub delete : Registry Disk → String → Registry Disk × Result AgentRecord
  unfolding check_deletable take_out
  delete r id = elim (check_deletable r id) [
    | some refusal ↦ (r, err refusal)
    | none ↦ take_out r id
  ]

  abbrev pub with_agents : Registry Disk → Map AgentRecord × Result ℕ → Registry Disk × Result ℕ
  with_agents r (agents, res) = (record r { agents = agents }, res)

  abbrev pub load_from : Registry Disk → Option (Option (List Entry)) → Registry Disk × Result ℕ
  load_from r none = (r, ok 0)
  load_from r (some none) = (r, err io)
  load_from r (some (some es)) = with_agents r (load_entries r.agents 0 es)

  unfoldable pub load_from_disk : Registry Disk → Registry Disk × Result ℕ
  load_from_disk r = load_from r (st.read_dir r.disk)

-- `list` and `get` are `agents` itself and `lookup`.
unfoldable pub is_system_agent : {D : Type 0} → Registry D → String → Bool
is_system_agent r id = elim r.system_agent_id [ none ↦ false | some s ↦ str_eq s id ]
