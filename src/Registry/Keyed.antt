-- ===== src/Registry/Keyed.antt =====
-- The key under which the registry holds an agent (agent_registry.rs) and the id in its config.
use adk_gateway.Common.{
  ℕ, suc, String, List, [], ◌∷◌, Option, none, some, str_eq, ◌≡◌, refl, ◌⊎◌, inl, inr, arith,
  eq_iff, Option-cases, Bool-cases, ap, ◌∙◌,
}
use adk_gateway.Common.Map.{
  Map, lookup, insert, remove, lookup-insert, lookup-remove, Unique, insert-Unique, remove-Unique,
}
use adk_gateway.AgentConfig.{AgentConfig, LifecycleState}
use adk_gateway.Registry.{
  Result, ok, err, RegistryError, Storage, AgentRecord, new_record, with_admin_role, Entry, file,
  unparsable, unreadable, ignored, Registry, new, create_agent, register_system_agent, transition,
  force_state, update_config, delete, load_entries, load_from, load_from_disk,
}

-- A call of the registry's interface, with the time at which it is made.
pub data Call : Type 0 where
  creates : AgentConfig → ℕ → Call
  registers_system : AgentConfig → ℕ → Call
  transitions : String → LifecycleState → ℕ → Call
  forces : String → LifecycleState → ℕ → Call
  updates : String → AgentConfig → ℕ → Call
  deletes : String → Call
  loads : Call

abbrev pub failure {ℓ} : {A : Type ℓ} → Result A → Option RegistryError
failure (ok a) = none
failure (err e) = some e

abbrev pub outcome {ℓ} :
    {D : Type 0} {A : Type ℓ} → Registry D × Result A → Registry D × Option RegistryError
outcome (r, res) = (r, failure res)

module _ (st : Storage) where
  open st use {Disk}

  -- The registry after a call, and its error if it reports one.
  unfoldable pub perform : Registry Disk → Call → Registry Disk × Option RegistryError
  perform r (creates config now) = outcome (create_agent st r config now)
  perform r (registers_system config now) = outcome (register_system_agent st r config now)
  perform r (transitions id s now) = outcome (transition st r id s now)
  perform r (forces id s now) = outcome (force_state st r id s now)
  perform r (updates id config now) = outcome (update_config st r id config now)
  perform r (deletes id) = outcome (delete st r id)
  perform r loads = outcome (load_from_disk st r)

  unfoldable pub run : Registry Disk → List Call → Registry Disk
  run r [] = r
  run r (c ∷ cs) = run (perform r c).0 cs

pub record IsKeyed (agents : Map AgentRecord) : Type 0 where
  pub unique : Unique agents
  pub keyed : (id : String) (rec : AgentRecord) → lookup id agents ≡ some rec → rec.config.id ≡ id

insert-IsKeyed :
    (id : String) (rec : AgentRecord) (agents : Map AgentRecord)
    → rec.config.id ≡ id
    → IsKeyed agents
    → IsKeyed (insert id rec agents)
insert-IsKeyed id rec agents e k = record {
  unique = insert-Unique id rec agents k.unique;
  keyed = λ j rec' h. ground (arith, lookup-insert id j rec agents, k.keyed j rec', eq_iff id j);
}

remove-IsKeyed :
    (id : String) (agents : Map AgentRecord) → IsKeyed agents → IsKeyed (remove id agents)
remove-IsKeyed id agents k = record {
  unique = remove-Unique id agents k.unique;
  keyed = λ j rec' h. ground (arith, lookup-remove id j agents, k.keyed j rec', eq_iff id j);
}

load_entries-IsKeyed :
    (agents : Map AgentRecord) (count : ℕ) (es : List Entry)
    → IsKeyed agents
    → IsKeyed (load_entries agents count es).0
unfolding load_entries
load_entries-IsKeyed agents count [] k = k
load_entries-IsKeyed agents count (ignored ∷ es) k = load_entries-IsKeyed agents count es k
load_entries-IsKeyed agents count (unreadable ∷ es) k = k
load_entries-IsKeyed agents count (unparsable ∷ es) k = k
load_entries-IsKeyed agents count (file rec ∷ es) k =
    load_entries-IsKeyed (insert rec.config.id rec agents) (suc count) es
      (insert-IsKeyed rec.config.id rec agents refl k)

module _ (st : Storage) (P : Map AgentRecord → Type 0) where
  open st use {Disk}

  -- What each operation does to the map of agents, as a rule for a predicate of it.
  create_cases :
      (r : Registry Disk) (config : AgentConfig) (now : ℕ)
      → P r.agents
      → P (insert config.id (new_record config now) r.agents)
      → P (create_agent st r config now).0.agents
  unfolding create_agent
  create_cases r config now same put = ground arith

  register_cases :
      (r : Registry Disk) (config : AgentConfig) (now : ℕ)
      → P r.agents
      → P (insert config.id (new_record (with_admin_role st config) now) r.agents)
      → P (register_system_agent st r config now).0.agents
  unfolding register_system_agent
  register_cases r config now same put = ground arith

  module _ (r : Registry Disk) (id : String) (same : P r.agents)
      (put : (entry rec : AgentRecord)
        → lookup id r.agents ≡ some entry
        → (rec.config ≡ entry.config) ⊎ (rec.config.id ≡ id)
        → P (insert id rec r.agents)) where
    transition_cases : (s : LifecycleState) (now : ℕ) → P (transition st r id s now).0.agents
    unfolding transition
    transition_cases s now = elim (Option-cases (lookup id r.agents)) [
      | inl e ↦ rw (e, transition) same
      | inr (entry, e) ↦
          let changed = put entry (record entry { state = s; updated_at = now }) e (inl refl) in
          rw (e, transition) (ground arith)
    ]

    force_cases : (s : LifecycleState) (now : ℕ) → P (force_state st r id s now).0.agents
    unfolding force_state
    force_cases s now = elim (Option-cases (lookup id r.agents)) [
      | inl e ↦ rw (e, force_state) same
      | inr (entry, e) ↦
          rw (e, force_state)
            (put entry (record entry { state = s; updated_at = now }) e (inl refl))
    ]

    update_cases : (config : AgentConfig) (now : ℕ) → P (update_config st r id config now).0.agents
    unfolding update_config
    update_cases config now = elim (Option-cases (lookup id r.agents)) [
      | inl e ↦ rw (e, update_config) same
      | inr (entry, e) ↦
          rw (e, update_config)
            (elim (Bool-cases (str_eq config.id id)) [
              | inl v ↦ rw v (
                  put entry (record entry { config = config; updated_at = now }) e
                    (inr ((eq_iff config.id id).0 v)))
              | inr v ↦ rw v same
            ])
    ]

    delete_cases : P (remove id r.agents) → P (delete st r id).0.agents
    unfolding delete
    delete_cases dropped = ground arith

  load_from_cases :
      (r : Registry Disk)
      → P r.agents
      → ((es : List Entry) → P (load_entries r.agents 0 es).0)
      → (found : Option (Option (List Entry))) → P (load_from st r found).0.agents
  load_from_cases r same loaded none = same
  load_from_cases r same loaded (some none) = same
  load_from_cases r same loaded (some (some es)) = loaded es

module _ (st : Storage) where
  open st use {Disk}

  entry_put :
      (r : Registry Disk) (id : String)
      → IsKeyed r.agents
      → (entry rec : AgentRecord) → lookup id r.agents ≡ some entry
      → (rec.config ≡ entry.config) ⊎ (rec.config.id ≡ id)
      → IsKeyed (insert id rec r.agents)
  entry_put r id k entry rec e (inl c) =
      insert-IsKeyed id rec r.agents (ap (λ c. c.id) c ∙ k.keyed id entry e) k
  entry_put r id k entry rec e (inr c) = insert-IsKeyed id rec r.agents c k

  -- Every call, on every branch, keeps each agent under the id of its own config, once.
  pub perform-IsKeyed :
      (r : Registry Disk) (c : Call) → IsKeyed r.agents → IsKeyed (perform st r c).0.agents
  unfolding perform load_from_disk
  perform-IsKeyed r (creates config now) k =
      create_cases st IsKeyed r config now k (insert-IsKeyed config.id _ r.agents refl k)
  perform-IsKeyed r (registers_system config now) k =
      register_cases st IsKeyed r config now k (insert-IsKeyed config.id _ r.agents refl k)
  perform-IsKeyed r (transitions id s now) k =
      transition_cases st IsKeyed r id k (entry_put r id k) s now
  perform-IsKeyed r (forces id s now) k = force_cases st IsKeyed r id k (entry_put r id k) s now
  perform-IsKeyed r (updates id config now) k =
      update_cases st IsKeyed r id k (entry_put r id k) config now
  perform-IsKeyed r (deletes id) k =
      delete_cases st IsKeyed r id k (entry_put r id k) (remove-IsKeyed id r.agents k)
  perform-IsKeyed r loads k =
      load_from_cases st IsKeyed r k (λ es. load_entries-IsKeyed r.agents 0 es k)
        (st.read_dir r.disk)

  run-IsKeyed :
      (r : Registry Disk) (cs : List Call) → IsKeyed r.agents → IsKeyed (run st r cs).agents
  unfolding run
  run-IsKeyed r [] k = k
  run-IsKeyed r (c ∷ cs) k = run-IsKeyed (perform st r c).0 cs (perform-IsKeyed r c k)

  -- After any sequence of calls on a new registry, whatever the file system does and whatever its
  -- files hold, every agent is held once, under the id that its own config states.
  pub run-new-IsKeyed : (d : Disk) (cs : List Call) → IsKeyed (run st (new st d) cs).agents
  unfolding new lookup
  run-new-IsKeyed d cs = run-IsKeyed (new st d) cs (record { unique = tt; keyed = λ id rec h. cc })
