-- ===== src/Registry/Lifecycle.antt =====
-- The lifecycle state machine of agent_registry.rs (`is_valid_transition`, `transition`) against
-- the table in its documentation.
use adk_gateway.Common.{
  ℕ, String, none, some, true, ◌≡◌, refl, ◌↔◌, ◌⊎◌, inl, inr, arith, Option-cases, if◌then◌else◌,
  str_eq,
}
use adk_gateway.Common.Map.{lookup, lookup-remove}
use adk_gateway.AgentConfig.{LifecycleState, created, starting, running, stopping, stopped, error}
use adk_gateway.Registry.{
  Storage, AgentRecord, Registry, ok, is_valid_transition, is_deletable, transition, delete,
}

-- The list of valid transitions in the documentation.
infix 40 ◌⟶◌ ◌⟶*◌
pub data ◌⟶◌ : LifecycleState → LifecycleState → Type 0 where
  start : created ⟶ starting
  started : starting ⟶ running
  start_fails : {m : String} → starting ⟶ error m
  stop : running ⟶ stopping
  crash : {m : String} → running ⟶ error m
  stops : stopping ⟶ stopped
  restart : stopped ⟶ starting
  recover : {m : String} → error m ⟶ starting

pub data ◌⟶*◌ (s : LifecycleState) : LifecycleState → Type 0 where
  here : s ⟶* s
  next : {t u : LifecycleState} → s ⟶* t → t ⟶ u → s ⟶* u

valid-⟶ : (s t : LifecycleState) → is_valid_transition s t ≡ true → s ⟶ t
unfolding is_valid_transition
valid-⟶ created starting h = start
valid-⟶ starting running h = started
valid-⟶ starting (error m) h = start_fails
valid-⟶ running stopping h = stop
valid-⟶ running (error m) h = crash
valid-⟶ stopping stopped h = stops
valid-⟶ stopped starting h = restart
valid-⟶ (error m) starting h = recover
valid-⟶ _ _ h = cc

⟶-valid : {s t : LifecycleState} → s ⟶ t → is_valid_transition s t ≡ true
unfolding is_valid_transition
⟶-valid start = refl
⟶-valid started = refl
⟶-valid start_fails = refl
⟶-valid stop = refl
⟶-valid crash = refl
⟶-valid stops = refl
⟶-valid restart = refl
⟶-valid recover = refl

module _ (st : Storage) where
  open st use {Disk}

  -- Where the file system accepts every write, `transition` succeeds exactly when the agent is
  -- registered and the documented table has the edge from its state.
  pub transition_ok_iff :
      (r : Registry Disk) (id : String) (s : LifecycleState) (now : ℕ)
      → ((rec : AgentRecord) → (st.write id rec r.disk).1 ≡ true)
      → ((transition st r id s now).1 ≡ ok tt)
        ↔ ((entry : AgentRecord) × (lookup id r.agents ≡ some entry) × (entry.state ⟶ s))
  unfolding transition
  transition_ok_iff r id s now accepts = elim (Option-cases (lookup id r.agents)) [
    | inl e ↦ (λ h. ground arith, λ (entry, found, edge). ground arith)
    | inr (entry, e) ↦ (
      λ h. (entry, e, valid-⟶ entry.state s (ground arith)),
      λ (entry', found, edge).
          ground (arith, ⟶-valid edge, accepts (record entry { state = s; updated_at = now })),
    )
  ]

-- From every state the table leads to one in which the agent may be deleted.
⟶*-deletable : (s : LifecycleState) → (t : LifecycleState) × (s ⟶* t) × (is_deletable t ≡ true)
⟶*-deletable created = (error "", next (next here start) start_fails, refl)
⟶*-deletable starting = (error "", next here start_fails, refl)
⟶*-deletable running = (error "", next here crash, refl)
⟶*-deletable stopping = (stopped, next here stops, refl)
⟶*-deletable stopped = (stopped, here, refl)
⟶*-deletable (error m) = (error m, here, refl)

-- Stopped, or failed with some message.
abbrev pub AtRest : LifecycleState → Type 0
AtRest state = (state ≡ stopped) ⊎ ((m : String) × (state ≡ error m))

is_deletable_iff : (state : LifecycleState) → (is_deletable state ≡ true) ↔ AtRest state
is_deletable_iff created = (λ h. ground arith, λ h. ground arith)
is_deletable_iff starting = (λ h. ground arith, λ h. ground arith)
is_deletable_iff running = (λ h. ground arith, λ h. ground arith)
is_deletable_iff stopping = (λ h. ground arith, λ h. ground arith)
is_deletable_iff stopped = (λ h. inl refl, λ h. refl)
is_deletable_iff (error m) = (λ h. inr (m, refl), λ h. refl)

module _ (st : Storage) where
  open st use {Disk}

  delete_if_deletable :
      (r : Registry Disk) (id : String) (rec : AgentRecord)
      → (((delete st r id).1 ≡ ok rec)
          ↔ (lookup id r.agents ≡ some rec) × (is_deletable rec.state ≡ true))
        × ((delete st r id).1 ≡ ok rec
            → (j : String)
            → lookup j (delete st r id).0.agents
              ≡ (if str_eq id j then none else lookup j r.agents))
  unfolding delete
  delete_if_deletable r id rec = elim (Option-cases (lookup id r.agents)) [
    | inl e ↦ ((λ h. ground arith, λ h. ground arith), λ h j. ground arith)
    | inr (entry, e) ↦
        ((λ h. ground arith, λ h. ground arith), λ h j. ground (arith, lookup-remove id j r.agents))
  ]

  -- `delete` returns a record exactly when the agent is registered with it and is stopped or has
  -- failed; the agent is then gone, and every other agent is as it was.
  pub delete_lem :
      (r : Registry Disk) (id : String) (rec : AgentRecord)
      → (((delete st r id).1 ≡ ok rec) ↔ (lookup id r.agents ≡ some rec) × AtRest rec.state)
        × ((delete st r id).1 ≡ ok rec
            → (j : String)
            → lookup j (delete st r id).0.agents
              ≡ (if str_eq id j then none else lookup j r.agents))
  delete_lem r id rec =
      let (found, others) = delete_if_deletable r id rec in
      let at_rest = is_deletable_iff rec.state in
      ((λ h. ((found.0 h).0, at_rest.0 (found.0 h).1), λ h. found.1 (h.0, at_rest.1 h.1)), others)
