-- ===== src/Rbac/Rebuild.antt =====
-- `rebuild_from_registry` of rbac_bridge.rs against the registration of single agents.
use adk_gateway.Common.{
  String, [], ◌∷◌, Option, none, some, true, false, ◌≡◌, refl, arith, eq_iff, ◌∙◌, ℕ,
}
use adk_gateway.Common.Map.{
  Map, lookup, insert, lookup-insert, lookup-insert_self, Unique, insert-Unique, remove-Unique,
}
use adk_gateway.AgentConfig.{AgentConfig}
use adk_gateway.Registry.{
  Storage, AgentRecord, Registry, is_system_agent, create_agent, delete, new_record,
}
use adk_gateway.Registry.Keyed.{outcome}
use adk_gateway.Registry.Synced.{create_ok}
use adk_gateway.Rbac.{
  Permission, tool, Role, ok, check, admin_role, user_role, AccessControl, register_system_agent,
  register_agent, check_tool, role_for, rebuild_loop, rebuild_from_registry, no_role_registered,
  denied,
}
use adk_gateway.Rbac.Checks.{register_system_agent_lem}

module _ {D : Type 0} (reg : Registry D) where
  -- The role of an agent after a rebuild: that of its record, or else the role it had before.
  abbrev role_after : String → Option AgentRecord → Option Role → Option Role
  role_after id none old = old
  role_after id (some rec) old = some (role_for reg id rec)

  lookup-rebuild_loop :
      (id : String) (ac : AccessControl) (agents : Map AgentRecord)
      → Unique agents
      → lookup id (rebuild_loop reg ac agents) ≡ role_after id (lookup id agents) (lookup id ac)
  unfolding rebuild_loop lookup
  lookup-rebuild_loop id ac [] u = refl
  lookup-rebuild_loop id ac ((j, rec) ∷ agents) u = ground (
    arith,
    lookup-rebuild_loop id (insert j (role_for reg j rec) ac) agents u.1,
    lookup-insert j id (role_for reg j rec) ac,
    eq_iff j id,
  )

  lookup-rebuild :
      (id : String)
      → Unique reg.agents
      → lookup id (rebuild_from_registry reg) ≡ role_after id (lookup id reg.agents) none
  unfolding rebuild_from_registry lookup
  lookup-rebuild id u = lookup-rebuild_loop id [] reg.agents u

  -- A rebuild gives every agent of the registry the permissions that its own registration would
  -- give it: those of its configured role, or, for the system agent, those of the admin role. An
  -- agent that the registry does not hold has no role.
  pub check-rebuild :
      (ac : AccessControl) (id : String) (p : Permission)
      → Unique reg.agents
      → ((rec : AgentRecord)
          → lookup id reg.agents ≡ some rec
          → is_system_agent reg id ≡ false
          → check (rebuild_from_registry reg) id p
            ≡ check (register_agent ac id rec.config.role).0 id p)
        × ((rec : AgentRecord)
            → lookup id reg.agents ≡ some rec
            → is_system_agent reg id ≡ true
            → check (rebuild_from_registry reg) id p ≡ check (register_system_agent ac id) id p)
        × (lookup id reg.agents ≡ none
            → check (rebuild_from_registry reg) id p ≡ denied id p no_role_registered)
  unfolding check register_agent register_system_agent
  check-rebuild ac id p u = (
    λ rec e s.
        ground
          (arith, lookup-rebuild id u, lookup-insert_self id (user_role id rec.config.role) ac),
    λ rec e s. ground (arith, lookup-rebuild id u, lookup-insert_self id (admin_role id) ac),
    λ e. ground (arith, lookup-rebuild id u),
  )

  admin_after_rebuild :
      (id : String) (rec : AgentRecord) (t : String)
      → Unique reg.agents
      → is_system_agent reg id ≡ true
      → lookup id reg.agents ≡ some rec
      → check_tool (rebuild_from_registry reg) id t ≡ ok
  unfolding check_tool
  admin_after_rebuild id rec t u sys found =
      (check-rebuild [] id (tool t) u).1 rec found sys ∙ (register_system_agent_lem [] id t).0

module _ (st : Storage) where
  open st use {Disk}

  deleted_facts :
      (reg : Registry Disk) (id : String)
      → Unique reg.agents
      → Unique (delete st reg id).0.agents
        × (is_system_agent (delete st reg id).0 id ≡ is_system_agent reg id)
  unfolding delete is_system_agent
  deleted_facts reg id u = ground (arith, remove-Unique id reg.agents u)

  -- The privilege that outlives its agent: when the system agent is deleted and any agent is then
  -- created under its id, the new agent may use every tool after the next rebuild, whatever its
  -- config says.
  pub deleted_system_id_escalates :
      (reg : Registry Disk) (config : AgentConfig) (now : ℕ) (t : String)
      → Unique reg.agents
      → is_system_agent reg config.id ≡ true
      → let recreated = create_agent st (delete st reg config.id).0 config now in
        (outcome recreated).1 ≡ none
        → check_tool (rebuild_from_registry recreated.0) config.id t ≡ ok
  deleted_system_id_escalates reg config now t u sys created =
      let (unique, same) = deleted_facts reg config.id u in
      let deleted : Registry Disk = (delete st reg config.id).0 in
      create_ok st (λ r. check_tool (rebuild_from_registry r) config.id t ≡ ok) deleted config now
        created
        (λ written.
          admin_after_rebuild
            (record deleted {
              agents = insert config.id (new_record config now) deleted.agents;
              disk = (st.write config.id (new_record config now) deleted.disk).0;
            })
            config.id (new_record config now) t
            (insert-Unique config.id (new_record config now) deleted.agents unique)
            (unfold is_system_agent in (same ∙ sys))
            (lookup-insert_self config.id (new_record config now) deleted.agents))
