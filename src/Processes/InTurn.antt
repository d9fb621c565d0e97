-- ===== src/Processes/InTurn.antt =====
-- `spawn` of process_manager.rs without anybody in between, as a run of its concurrent steps.
use adk_gateway.Common.{
  ℕ, zero, suc, ◌+◌, ◌-◌, String, List, [], ◌∷◌, Option, none, some, Bool, true, false, not, ◌&&◌,
  ltb, refl, inl, inr, arith, Bool-cases,
}
use adk_gateway.Common.Map.{contains_key}
use adk_gateway.Processes.{
  ProcessManager, Free, as_u16, is_port_active, allocate_from, allocate_port, start_on, spawn,
}
use adk_gateway.Processes.Concurrent.{
  Spawning, allocating, allocated, System, with_next, begins, finds_none, passes_end, wraps, takes,
  finds_active, finds_inactive, cannot_bind, binds, starts, cannot_start, Steps, here, next,
}

abbrev state : ProcessManager → ℕ → List Spawning → System
state manager next_port spawning = record {
  manager = with_next manager next_port;
  spawning = spawning;
}

abbrev given : String → Option ℕ → List Spawning
given id none = []
given id (some port) = allocated id port ∷ []

abbrev is_usable : ProcessManager → Free → ℕ → Bool
is_usable manager free port = not (is_port_active manager port) && free port

-- The rounds of the loop, after the steps so far.
allocate_from-Steps :
    (manager : ProcessManager) (free : Free) (id : String) (rounds port : ℕ) (s : System)
    → Steps 1 s (state manager port (allocating id rounds ∷ []))
    → let result =
        allocate_from (is_usable manager free) manager.first_port manager.last_port rounds port in
      Steps 1 s (state manager result.0 (given id result.1))
unfolding allocate_from is_port_active
allocate_from-Steps manager free id zero port s so_far =
    next so_far (finds_none id [] refl) (omega arith)
allocate_from-Steps manager free id (suc rounds) port s so_far =
    elim (Bool-cases (ltb manager.last_port port)) [
      | inl over ↦ rw over (
          allocate_from-Steps manager free id rounds manager.first_port s (
            next (next so_far (passes_end id rounds [] refl over) (omega arith))
              (wraps id rounds [] refl) (omega arith)))
      | inr within ↦
          let taken = next so_far (takes id rounds [] refl within) (omega arith) in
          elim (Bool-cases (is_port_active manager port)) [
            | inl active ↦
                rw (within, active)
                  (allocate_from-Steps manager free id rounds (as_u16 (port + 1)) s
                    (next taken (finds_active id rounds port [] refl active) (omega arith)))
            | inr inactive ↦
                let open_ =
                  next taken (finds_inactive id rounds port [] refl inactive) (omega arith) in
                elim (Bool-cases (free port)) [
                  | inl bindable ↦
                      rw (within, inactive, bindable)
                        (next open_ (binds id rounds port [] refl) (omega arith))
                  | inr bound ↦
                      rw (within, inactive, bound)
                        (allocate_from-Steps manager free id rounds (as_u16 (port + 1)) s
                          (next open_ (cannot_bind id rounds port [] refl) (omega arith)))
                ]
          ]
    ]

abbrev at_rest : ProcessManager → System
at_rest manager = record { manager = manager; spawning = [] }

start_on-Steps :
    (manager : ProcessManager) (id : String) (starts_up : Bool) (now : ℕ) (port : Option ℕ)
    (s : System)
    → Steps 1 s (record { manager = manager; spawning = given id port })
    → Steps 1 s (at_rest (start_on manager id starts_up now port).0)
unfolding start_on
start_on-Steps manager id starts_up now none s so_far = so_far
start_on-Steps manager id true now (some port) s so_far =
    next so_far (starts id port now [] refl) (omega arith)
start_on-Steps manager id false now (some port) s so_far =
    next so_far (cannot_start id port [] refl) (omega arith)

-- A call of `spawn` that nobody interrupts is a run of the steps, one caller at a time: so the ports
-- stay distinct when it is called again and again.
pub spawn-Steps :
    (manager : ProcessManager) (free : Free) (id : String) (starts_up : Bool) (now : ℕ)
    → Steps 1 (at_rest manager) (at_rest (spawn manager free id starts_up now).0)
unfolding spawn allocate_port
spawn-Steps manager free id starts_up now = elim (Bool-cases (contains_key id manager.processes)) [
  | inl held ↦ rw held here
  | inr missing ↦ rw missing (
      start_on-Steps (allocate_port manager free).0 id starts_up now (allocate_port manager free).1
        (at_rest manager)
        (allocate_from-Steps manager free id (as_u16 (manager.last_port - manager.first_port + 1))
          manager.next_port (at_rest manager) (next here (begins id missing) (omega arith))))
]
