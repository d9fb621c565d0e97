-- ===== src/Registry/Synced.antt =====
-- What the disk holds after the operations of agent_registry.rs, and what their errors leave.
use adk_gateway.Common.{
  ℕ, String, Option, none, some, true, false, ◌≡◌, ◌≢◌, inl, inr, List, [], ◌∷◌, suc, arith,
  Option-cases,
}
use adk_gateway.Common.Map.{
  lookup, insert, remove, lookup-insert, lookup-remove, Map, lookup-insert_self,
}
use adk_gateway.AgentConfig.{AgentConfig, LifecycleState}
use adk_gateway.Registry.{
  Storage, AgentRecord, Registry, RegistryError, err, io, is_valid_transition, create_agent,
  register_system_agent, store, transition, force_state, update_config, delete, load_from_disk,
  load_from, load_entries, Entry, file, unparsable, unreadable, ignored, new_record,
  with_admin_role,
}
use adk_gateway.Registry.Keyed.{
  Call, creates, registers_system, transitions, forces, updates, deletes, loads, perform, outcome,
  failure,
}

load_entries_error :
    (agents : Map AgentRecord) (count : ℕ) (es : List Entry) (e : RegistryError)
    → failure (load_entries agents count es).1 ≡ some e
    → e ≡ io
unfolding load_entries
load_entries_error agents count [] e h = cc
load_entries_error agents count (ignored ∷ es) e h = load_entries_error agents count es e h
load_entries_error agents count (unreadable ∷ es) e h = cc
load_entries_error agents count (unparsable ∷ es) e h = cc
load_entries_error agents count (file rec ∷ es) e h =
    load_entries_error (insert rec.config.id rec agents) (suc count) es e h

-- What the registry is after a call that reports no error, as a rule for a predicate of it.
module _ (st : Storage) (P : Registry st.Disk → Type 0) (r : Registry st.Disk) where
  pub create_ok :
      (config : AgentConfig) (now : ℕ)
      → (outcome (create_agent st r config now)).1 ≡ none
      → let rec = new_record config now in
        let (disk', written) = st.write config.id rec r.disk in
        (written ≡ true → P (record r { agents = insert config.id rec r.agents; disk = disk' }))
        → P (create_agent st r config now).0
  unfolding create_agent
  create_ok config now h put = ground arith

  register_ok :
      (config : AgentConfig) (now : ℕ)
      → (outcome (register_system_agent st r config now)).1 ≡ none
      → let rec = new_record (with_admin_role st config) now in
        let (disk', written) = st.write config.id rec r.disk in
        (written ≡ true
          → P (record r {
            agents = insert config.id rec r.agents;
            system_agent_id = some config.id;
            disk = disk';
          }))
        → P (register_system_agent st r config now).0
  unfolding register_system_agent
  register_ok config now h put = ground arith

  module _ (id : String)
      (put : (rec : AgentRecord)
        → (outcome (store st r id rec)).1 ≡ none
        → P (store st r id rec).0) where
    transition_ok :
        (s : LifecycleState) (now : ℕ)
        → (outcome (transition st r id s now)).1 ≡ none
        → P (transition st r id s now).0
    unfolding transition
    transition_ok s now h = elim (Option-cases (lookup id r.agents)) [
      | inl e ↦ ground arith
      | inr (entry, e) ↦ ground (arith, put (record entry { state = s; updated_at = now }))
    ]

    force_ok :
        (s : LifecycleState) (now : ℕ)
        → (outcome (force_state st r id s now)).1 ≡ none
        → P (force_state st r id s now).0
    unfolding force_state
    force_ok s now h = elim (Option-cases (lookup id r.agents)) [
      | inl e ↦ ground arith
      | inr (entry, e) ↦ ground (arith, put (record entry { state = s; updated_at = now }))
    ]

    update_ok :
        (config : AgentConfig) (now : ℕ)
        → (outcome (update_config st r id config now)).1 ≡ none
        → P (update_config st r id config now).0
    unfolding update_config
    update_ok config now h = elim (Option-cases (lookup id r.agents)) [
      | inl e ↦ ground arith
      | inr (entry, e) ↦ ground (arith, put (record entry { config = config; updated_at = now }))
    ]

  delete_ok :
      (id : String)
      → P (record r {
        agents = remove id r.agents;
        disk = (st.remove_file id (st.archive_workspace id r.disk)).0;
      })
      → (outcome (delete st r id)).1 ≡ none
      → P (delete st r id).0
  unfolding delete
  delete_ok id dropped h = ground arith

module _ (st : Storage) where
  open st use {Disk}

  -- Under each plain id the file holds what the memory holds, and there is no file where there is no
  -- agent.
  abbrev pub Synced : Registry Disk → Type 0
  Synced r = (id : String) → st.plain id ≡ true → st.read_json id r.disk ≡ lookup id r.agents

  -- The calls that change one agent, under a plain id; a deletion succeeds in removing the file, as
  -- it does not report it when it does not. `loads` only reads.
  abbrev pub ChangesOne : Registry Disk → Call → Type 0
  ChangesOne r (creates config now) = st.plain config.id ≡ true
  ChangesOne r (registers_system config now) = st.plain config.id ≡ true
  ChangesOne r (transitions id s now) = st.plain id ≡ true
  ChangesOne r (forces id s now) = st.plain id ≡ true
  ChangesOne r (updates id config now) = st.plain id ≡ true
  ChangesOne r (deletes id) =
      (st.plain id ≡ true) × ((st.remove_file id (st.archive_workspace id r.disk)).1 ≡ true)
  ChangesOne r loads = ⊥

  written-Synced :
      (r : Registry Disk) (id : String) (rec : AgentRecord)
      → st.plain id ≡ true
      → (st.write id rec r.disk).1 ≡ true
      → Synced r
      → (sys : Option String)
      → Synced (record r {
        agents = insert id rec r.agents;
        system_agent_id = sys;
        disk = (st.write id rec r.disk).0;
      })
  written-Synced r id rec plain w sync sys j plain_too = ground (
    arith,
    lookup-insert id j rec r.agents,
    st.read_json-write id j rec r.disk plain plain_too w,
    sync j plain_too,
  )

  removed-Synced :
      (r : Registry Disk) (id : String)
      → ChangesOne r (deletes id)
      → Synced r
      → Synced (record r {
        agents = remove id r.agents;
        disk = (st.remove_file id (st.archive_workspace id r.disk)).0;
      })
  removed-Synced r id (plain, gone) sync j plain_too = ground (
    arith,
    lookup-remove id j r.agents,
    st.read_json-remove_file id j (st.archive_workspace id r.disk) plain plain_too gone,
    st.read_json-archive_workspace id j r.disk plain plain_too,
    sync j plain_too,
  )

  store-Synced :
      (r : Registry Disk) (id : String) (rec : AgentRecord)
      → st.plain id ≡ true
      → (outcome (store st r id rec)).1 ≡ none
      → Synced r
      → Synced (store st r id rec).0
  unfolding store
  store-Synced r id rec plain h sync =
      written-Synced r id rec plain (ground arith) sync r.system_agent_id

  -- A call that changes one agent, under a plain id, and reports no error (nor hides one, of the
  -- removal of the file) leaves memory and disk in step, if they were: each plain id has the same
  -- record in both, or in neither.
  pub perform-Synced :
      (r : Registry Disk) (c : Call)
      → ChangesOne r c
      → (perform st r c).1 ≡ none
      → Synced r
      → Synced (perform st r c).0
  unfolding perform
  perform-Synced r (creates config now) plain h sync =
      create_ok st Synced r config now h
        (λ w. written-Synced r config.id (new_record config now) plain w sync r.system_agent_id)
  perform-Synced r (registers_system config now) plain h sync =
      register_ok st Synced r config now h (λ w.
        written-Synced r config.id (new_record (with_admin_role st config) now) plain w sync
          (some config.id))
  perform-Synced r (transitions id s now) plain h sync =
      transition_ok st Synced r id (λ rec k. store-Synced r id rec plain k sync) s now h
  perform-Synced r (forces id s now) plain h sync =
      force_ok st Synced r id (λ rec k. store-Synced r id rec plain k sync) s now h
  perform-Synced r (updates id config now) plain h sync =
      update_ok st Synced r id (λ rec k. store-Synced r id rec plain k sync) config now h
  perform-Synced r (deletes id) w h sync = delete_ok st Synced r id (removed-Synced r id w sync) h
  perform-Synced r loads w h sync = elim w [ ]

  load_from_error :
      (r : Registry Disk) (e : RegistryError) (found : Option (Option (List Entry)))
      → (outcome (load_from st r found)).1 ≡ some e
      → e ≡ io
  load_from_error r e none h = cc
  load_from_error r e (some none) h = cc
  load_from_error r e (some (some es)) h = load_entries_error r.agents 0 es e h

  -- A call that reports any error but that of the file system has changed nothing.
  pub perform_error_unchanged :
      (r : Registry Disk) (c : Call) {e : RegistryError}
      → (perform st r c).1 ≡ some e
      → e ≢ io
      → (perform st r c).0 ≡ r
  unfolding perform create_agent register_system_agent transition force_state update_config delete
      store load_from_disk
  perform_error_unchanged r (creates config now) h n = ground arith
  perform_error_unchanged r (registers_system config now) h n = ground arith
  perform_error_unchanged r (transitions id s now) h n = ground arith
  perform_error_unchanged r (forces id s now) h n = ground arith
  perform_error_unchanged r (updates id config now) h n = ground arith
  perform_error_unchanged r (deletes id) h n = ground arith
  perform_error_unchanged r loads {e} h n = absurd (n (load_from_error r e (st.read_dir r.disk) h))

  -- The lost update: on a failed write `transition` reports an error and has changed the state.
  pub transition_write_fails :
      (r : Registry Disk) (id : String) (s : LifecycleState) (now : ℕ) (entry : AgentRecord)
      → let rec = record entry { state = s; updated_at = now } in
        lookup id r.agents ≡ some entry
        → is_valid_transition entry.state s ≡ true
        → (st.write id rec r.disk).1 ≡ false
        → ((transition st r id s now).1 ≡ err io)
          × (lookup id (transition st r id s now).0.agents ≡ some rec)
  unfolding transition
  transition_write_fails r id s now entry found valid fails = (
    ground arith,
    ground (arith, lookup-insert_self id (record entry { state = s; updated_at = now }) r.agents),
  )
