-- ===== src/Boot/Safety.antt =====
-- Who holds which permissions once gateway_state.rs has brought up the agents.
use adk_gateway.Common.{
  ℕ, String, [], ◌∷◌, Option, none, some, true, false, ◌≡◌, refl, ◌≢◌, inl, inr, arith, eq_iff,
  Option-cases, Bool-cases, List, ◌∙◌, sym,
}
use adk_gateway.Common.Map.{lookup}
use adk_gateway.AgentConfig.{AgentConfig}
use adk_gateway.Registry.{Storage, Entry, Registry, new, is_system_agent, load_from, load_from_disk}
use adk_gateway.Registry
use adk_gateway.Registry.Keyed.{IsKeyed, run, run-new-IsKeyed, registers_system, loads, perform}
use adk_gateway.Rbac
use adk_gateway.Rbac.{tool, ok, check, check_tool, is_system_tool, rebuild_from_registry}
use adk_gateway.Rbac.Checks.{check_tool-register_agent, register_system_agent_lem}
use adk_gateway.Rbac.Rebuild.{check-rebuild}
use adk_gateway.Boot.{boot, loaded_any}

fresh_no_tools :
    (id t : String) → id ≢ "system" → check_tool (Rbac.register_system_agent [] "system") id t ≢ ok
unfolding check_tool Rbac.check lookup
fresh_no_tools id t n h =
    cc ((register_system_agent_lem [] "system" t).2 id (tool t) (λ p. n (sym p)))

module _ (st : Storage) where
  open st use {Disk}

  -- The registry of a new gateway after the registration of the system agent and the load.
  loaded : Disk → AgentConfig → ℕ → Registry Disk
  loaded d config now =
      (load_from_disk st (Registry.register_system_agent st (new st d) config now).0).0

  loaded-IsKeyed :
      (d : Disk) (config : AgentConfig) (now : ℕ) → IsKeyed (loaded d config now).agents
  unfolding loaded run perform
  loaded-IsKeyed d config now = run-new-IsKeyed st d (registers_system config now ∷ loads ∷ [])

  load_from_system :
      (r : Registry Disk) (id : String) (found : Option (Option (List Entry)))
      → is_system_agent (load_from st r found).0 id ≡ is_system_agent r id
  unfolding is_system_agent
  load_from_system r id none = refl
  load_from_system r id (some none) = refl
  load_from_system r id (some (some es)) = refl

  registered_system :
      (d : Disk) (config : AgentConfig) (now : ℕ) (id : String)
      → is_system_agent (Registry.register_system_agent st (new st d) config now).0 id ≡ true
      → config.id ≡ id
  unfolding is_system_agent new Registry.register_system_agent
  registered_system d config now id h = ground (arith, eq_iff config.id id)

  loaded_system :
      (d : Disk) (config : AgentConfig) (now : ℕ) (id : String)
      → config.id ≢ id
      → is_system_agent (loaded d config now) id ≡ false
  unfolding loaded load_from_disk
  loaded_system d config now id n =
      let registered = (Registry.register_system_agent st (new st d) config now).0 in
      ground (
        arith,
        load_from_system registered id (st.read_dir registered.disk),
        registered_system d config now id,
      )

  rebuilt_no_system_tools :
      (d : Disk) (config : AgentConfig) (now : ℕ) (id t : String)
      → config.id ≢ id
      → is_system_tool t ≡ true
      → check_tool (rebuild_from_registry (loaded d config now)) id t ≢ ok
  unfolding check_tool
  rebuilt_no_system_tools d config now id t n sys h =
      let reg = loaded d config now in
      let (user, _, missing) =
        check-rebuild reg [] id (tool t) (loaded-IsKeyed d config now).unique in
      elim (Option-cases (lookup id reg.agents)) [
        | inl e ↦ cc (missing e)
        | inr (rec, e) ↦
            let granted =
              (check_tool-register_agent [] id rec.config.role t).0
                (unfold check_tool in (sym (user rec e (loaded_system d config now id n)) ∙ h)) in
            ground arith
      ]

  -- When a new gateway has started, no agent but the system agent may use a system tool, whatever
  -- the persisted files hold and whether or not they could be loaded.
  pub boot_no_system_tools :
      (d : Disk) (config : AgentConfig) (now : ℕ) (id t : String)
      → config.id ≡ "system"
      → id ≢ "system"
      → is_system_tool t ≡ true
      → check_tool (boot st (new st d) [] config now).1 id t ≢ ok
  unfolding boot
  boot_no_system_tools d config now id t e n sys =
      let registered = (Registry.register_system_agent st (new st d) config now).0 in
      elim (Bool-cases (loaded_any (load_from_disk st registered).1)) [
        | inl found ↦
            rw found (
              unfold loaded in (rebuilt_no_system_tools d config now id t (λ p. n (sym p ∙ e)) sys))
        | inr missing ↦ rw missing (fresh_no_tools id t n)
      ]
