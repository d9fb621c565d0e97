-- ===== src/Processes/Examples.antt =====
-- Runs of process_manager.rs at concrete ranges, and the instances of its theorems.
use adk_gateway.Common.{ℕ, ◌+◌, String, [], ◌∷◌, none, some, true, ◌≡◌, refl, ◌↔◌, arith}
use adk_gateway.Common.Map.{lookup, insert, remove}
use adk_gateway.Processes.{
  ManagedProcess, ProcessManager, unknown, new, spawn, stop, start_on, allocate_port, allocate_from,
  is_port_active, no_port,
}
use adk_gateway.Processes.Allocation.{InRange, InBounds, Usable, allocate_port-Usable}
use adk_gateway.Processes.Concurrent.{
  System, initial, allocated, begins, takes, finds_inactive, binds, starts, passes_end, wraps,
  Steps, here, next,
}
use adk_gateway.Processes.Distinct.{ports_stay_distinct}

abbrev after_two : ProcessManager
after_two = (spawn (spawn (new 7 8) (λ p. true) "a" true 0).0 (λ p. true) "b" true 1).0

-- With "b" stopped, its port 8 is free, next to the next port 9, and is not tried.
last_port_is_missed : (spawn (stop after_two "b").0 (λ p. true) "c" true 2).1 ≡ no_port
unfolding new spawn stop allocate_port allocate_from is_port_active start_on lookup insert remove
last_port_is_missed = refl

abbrev bounds : InBounds (new 7 8)
unfolding new
bounds = record {
  ordered = omega arith;
  fits = omega arith;
  next_above = omega arith;
  next_below = omega arith;
}

allocate_port-Usable_example :
    ((port : ℕ)
      → (allocate_port (new 7 8) (λ p. true)).1 ≡ some port
      → Usable (new 7 8) (λ p. true) port)
    × ((allocate_port (new 7 8) (λ p. true)).1 ≡ none
        ↔ ((port : ℕ) → Usable (new 7 8) (λ p. true) port → port + 1 ≡ (new 7 8).next_port))
allocate_port-Usable_example = allocate_port-Usable (new 7 8) (λ p. true) bounds

abbrev one_child : System
one_child = record {
  manager = record {
    processes = ("a", record { agent_id = "a"; port = 7; started_at = 2; health = unknown }) ∷ [];
    first_port = 7;
    last_port = 8;
    next_port = 8;
  };
  spawning = [];
}

until_one_child : Steps 1 (initial 7 8) one_child
unfolding initial new lookup insert is_port_active
until_one_child =
    (next
      (next
        (next
          (next (next here (begins "a" refl) (omega arith)) (takes "a" 1 [] refl refl)
            (omega arith))
          (finds_inactive "a" 1 7 [] refl refl) (omega arith))
        (binds "a" 1 7 [] refl) (omega arith))
      (starts "a" 7 2 [] refl) (omega arith))

ports_stay_distinct_example :
    ((id : String) (process : ManagedProcess)
      → lookup id one_child.manager.processes ≡ some process
      → InRange 7 8 process.port)
    × ((id other : String) (process found : ManagedProcess)
        → lookup id one_child.manager.processes ≡ some process
        → lookup other one_child.manager.processes ≡ some found
        → process.port ≡ found.port
        → id ≡ other)
ports_stay_distinct_example =
    ports_stay_distinct 7 8 one_child (omega arith) (omega arith) until_one_child

abbrev shared_port : System
shared_port = record {
  manager = record {
    processes =
        ("c", record { agent_id = "c"; port = 8; started_at = 0; health = unknown })
        ∷ ("b", record { agent_id = "b"; port = 7; started_at = 1; health = unknown })
        ∷ ("a", record { agent_id = "a"; port = 7; started_at = 2; health = unknown })
        ∷ [];
    first_port = 7;
    last_port = 8;
    next_port = 8;
  };
  spawning = [];
}

-- With two calls of `spawn` at a time, two children get one port.
overlapping_spawns_share : Steps 2 (initial 7 8) shared_port
unfolding initial new lookup insert is_port_active
overlapping_spawns_share =
    (next
      (next
        (next
          (next
            (next
              (next
                (next
                  (next
                    (next
                      (next
                        (next
                          (next
                            (next
                              (next
                                (next
                                  (next (next here (begins "a" refl) (omega arith))
                                    (takes "a" 1 [] refl refl) (omega arith))
                                  (finds_inactive "a" 1 7 [] refl refl) (omega arith))
                                (binds "a" 1 7 [] refl) (omega arith))
                              (begins "c" refl) (omega arith))
                            (takes "c" 1 (allocated "a" 7 ∷ []) refl refl) (omega arith))
                          (finds_inactive "c" 1 8 (allocated "a" 7 ∷ []) refl refl) (omega arith))
                        (binds "c" 1 8 (allocated "a" 7 ∷ []) refl) (omega arith))
                      (starts "c" 8 0 (allocated "a" 7 ∷ []) refl) (omega arith))
                    (begins "b" refl) (omega arith))
                  (passes_end "b" 1 (allocated "a" 7 ∷ []) refl refl) (omega arith))
                (wraps "b" 1 (allocated "a" 7 ∷ []) refl) (omega arith))
              (takes "b" 0 (allocated "a" 7 ∷ []) refl refl) (omega arith))
            (finds_inactive "b" 0 7 (allocated "a" 7 ∷ []) refl refl) (omega arith))
          (binds "b" 0 7 (allocated "a" 7 ∷ []) refl) (omega arith))
        (starts "b" 7 1 (allocated "a" 7 ∷ []) refl) (omega arith))
      (starts "a" 7 2 [] refl) (omega arith))

second_port :
    (lookup "b" after_two.processes)
    ≡ some (record { agent_id = "b"; port = 8; started_at = 1; health = unknown })
unfolding new spawn allocate_port allocate_from is_port_active start_on lookup insert remove
second_port = refl
