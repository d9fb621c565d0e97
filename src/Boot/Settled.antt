-- ===== src/Boot/Settled.antt =====
-- The loop of gateway_state.rs that settles stale lifecycle states.
use adk_gateway.Common.{
  ℕ, String, [], ◌∷◌, Option, none, some, Bool, true, not, if◌then◌else◌, str_eq, ◌≡◌, ◌⊎◌, inl,
  inr, arith, eq_iff, Option-cases, ◌≢◌, Bool-cases, subst,
}
use adk_gateway.Common.Map.{Map, lookup, lookup-insert}
use adk_gateway.AgentConfig.{AgentConfig, LifecycleState, running, stopped}
use adk_gateway.Registry.{Storage, AgentRecord, Registry, force_state, load_from_disk}
use adk_gateway.Registry
use adk_gateway.Rbac.{AccessControl}
use adk_gateway.Boot.{is_running, is_transitioning, settle_one, settle, boot}

-- The states that an agent may be in after the start: the system agent runs, and no other agent is
-- between two states.
abbrev pub settled : String → LifecycleState → Bool
settled id s = if str_eq id "system" then is_running s else not (is_transitioning s)

abbrev forced : LifecycleState → ℕ → Option AgentRecord → Option AgentRecord
forced s now none = none
forced s now (some rec) = some (record rec { state = s; updated_at = now })

module _ (st : Storage) where
  open st use {Disk}

  lookup-force_state :
      (r : Registry Disk) (id j : String) (s : LifecycleState) (now : ℕ)
      → lookup j (force_state st r id s now).0.agents
        ≡ (if str_eq id j then forced s now (lookup id r.agents) else lookup j r.agents)
  unfolding force_state
  lookup-force_state r id j s now = elim (Option-cases (lookup id r.agents)) [
    | inl e ↦ ground (arith, eq_iff id j)
    | inr (rec, e) ↦
        ground (arith, lookup-insert id j (record rec { state = s; updated_at = now }) r.agents)
  ]

  settle_one_ne :
      (r : Registry Disk) (id j : String) (rec : AgentRecord) (now : ℕ)
      → id ≢ j
      → lookup j (settle_one st r id rec now).agents ≡ lookup j r.agents
  unfolding settle_one
  settle_one_ne r id j rec now n = ground (
    arith,
    eq_iff id j,
    lookup-force_state r id j running now,
    lookup-force_state r id j stopped now,
  )

  settle_one_self :
      (r : Registry Disk) (id : String) (rec old new : AgentRecord) (now : ℕ)
      → lookup id r.agents ≡ some old
      → (settled id old.state ≡ true) ⊎ (some rec ≡ some old)
      → lookup id (settle_one st r id rec now).agents ≡ some new
      → settled id new.state ≡ true
  unfolding settle_one
  settle_one_self r id rec old new now found pending found' = ground (
    arith,
    eq_iff id id,
    lookup-force_state r id id running now,
    lookup-force_state r id id stopped now,
  )

  settle_one-none :
      (r : Registry Disk) (id : String) (rec : AgentRecord) (now : ℕ)
      → lookup id r.agents ≡ none
      → lookup id (settle_one st r id rec now).agents ≡ none
  unfolding settle_one
  settle_one-none r id rec now found =
      ground (arith, lookup-force_state r id id running now, lookup-force_state r id id stopped now)

  -- Every agent is settled, or still ahead of the loop with the record that the loop will see.
  abbrev Pending : Registry Disk → Map AgentRecord → Type 0
  Pending r rest =
      (j : String) (rec : AgentRecord)
      → lookup j r.agents ≡ some rec
      → (settled j rec.state ≡ true) ⊎ (lookup j rest ≡ some rec)

  settle_one-Pending :
      (r : Registry Disk) (id : String) (rec : AgentRecord) (rest : Map AgentRecord) (now : ℕ)
      → Pending r ((id, rec) ∷ rest)
      → Pending (settle_one st r id rec now) rest
  unfolding lookup
  settle_one-Pending r id rec rest now p j new found = elim (Bool-cases (str_eq id j)) [
    | inl e ↦
        let same : id ≡ j = (eq_iff id j).0 e in
        inl (
          subst
            (λ j.
              lookup j (settle_one st r id rec now).agents ≡ some new → settled j new.state ≡ true)
            same
            (λ h. elim (Option-cases (lookup id r.agents)) [
              | inl n ↦ cc (settle_one-none r id rec now n)
              | inr (old, o) ↦
                  settle_one_self r id rec old new now o (ground (arith, p id old o, eq_iff id id))
                    h
            ])
            found)
    | inr n ↦ ground (arith, p j new (ground (arith, settle_one_ne r id j rec now, eq_iff id j)))
  ]

  settle-settled :
      (r : Registry Disk) (rest : Map AgentRecord) (now : ℕ)
      → Pending r rest
      → (j : String) (rec : AgentRecord) → lookup j (settle st r rest now).agents ≡ some rec
      → settled j rec.state ≡ true
  unfolding settle lookup
  settle-settled r [] now p j rec found = ground (arith, p j rec found)
  settle-settled r ((id, old) ∷ rest) now p j rec found =
      settle-settled (settle_one st r id old now) rest now (settle_one-Pending r id old rest now p)
        j rec found

  -- After the gateway has started, from any state and whatever the file system does, the system
  -- agent runs if it is registered, and no agent is starting or stopping.
  pub boot-settled :
      (r : Registry Disk) (ac : AccessControl) (config : AgentConfig) (now : ℕ) (j : String)
      (rec : AgentRecord)
      → lookup j (boot st r ac config now).0.agents ≡ some rec
      → settled j rec.state ≡ true
  unfolding boot
  boot-settled r ac config now j rec found =
      let loaded = (load_from_disk st (Registry.register_system_agent st r config now).0).0 in
      settle-settled loaded loaded.agents now (λ j rec h. inr h) j rec found
