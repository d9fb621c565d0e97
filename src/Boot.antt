-- ===== src/Boot.antt =====
-- The part of gateway_state.rs that brings up the agents when the gateway starts: it registers the
-- system agent, loads the persisted agents, rebuilds their roles, and settles stale states.
pub mod Settled
pub mod Safety
pub mod Examples
use adk_gateway.Common.{
  ℕ, zero, suc, String, [], ◌∷◌, Bool, true, false, ◌&&◌, not, if◌then◌else◌, str_eq,
}
use adk_gateway.Common.Map.{Map}
use adk_gateway.AgentConfig.{AgentConfig, LifecycleState, starting, running, stopping, stopped}
use adk_gateway.Registry
use adk_gateway.Registry.{
  Storage, AgentRecord, Registry, Result, ok, err, force_state, load_from_disk,
}
use adk_gateway.Rbac
use adk_gateway.Rbac.{AccessControl, rebuild_from_registry}

abbrev pub is_running : LifecycleState → Bool
is_running running = true
is_running _ = false

abbrev pub is_transitioning : LifecycleState → Bool
is_transitioning starting = true
is_transitioning stopping = true
is_transitioning _ = false

-- `count > 0` of a load that succeeded.
abbrev pub loaded_any : Result ℕ → Bool
loaded_any (ok zero) = false
loaded_any (ok (suc n)) = true
loaded_any (err e) = false

module _ (st : Storage) where
  open st use {Disk}

  -- The body of the loop, with the record as it was when the loop began.
  unfoldable pub settle_one : Registry Disk → String → AgentRecord → ℕ → Registry Disk
  settle_one r id rec now =
      if str_eq id "system" && not (is_running rec.state)
      then (force_state st r id running now).0
      else if is_transitioning rec.state
      then (force_state st r id stopped now).0
      else r

  unfoldable pub settle : Registry Disk → Map AgentRecord → ℕ → Registry Disk
  settle r [] now = r
  settle r ((id, rec) ∷ rest) now = settle (settle_one r id rec now) rest now

  unfoldable pub boot :
      Registry Disk → AccessControl → AgentConfig → ℕ → Registry Disk × AccessControl
  boot r ac config now =
      let registered = (Registry.register_system_agent st r config now).0 in
      let (loaded, res) = load_from_disk st registered in
      (
        settle loaded loaded.agents now,
        if loaded_any res
            then rebuild_from_registry loaded
            else Rbac.register_system_agent ac "system",
      )
