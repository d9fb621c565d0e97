-- ===== src/Processes/Sound.antt =====
-- The ports of the children that process_manager.rs holds.
use adk_gateway.Common.{
  ℕ, String, [], ◌∷◌, some, false, ◌≡◌, ◌≢◌, refl, inl, inr, arith, Bool-cases, eq_iff, ◌∙◌,
}
use adk_gateway.Common.Map.{Map, lookup, insert, remove, contains_key, lookup-insert, lookup-remove}
use adk_gateway.Processes.{ManagedProcess, ProcessManager, new, stop, is_port_active, port_in_use}
use adk_gateway.Processes.Allocation.{InRange}

pub record IsSound (first last : ℕ) (manager : ProcessManager) : Type 0 where
  pub starts_at : manager.first_port ≡ first
  pub ends_at : manager.last_port ≡ last
  pub within :
      (id : String) (process : ManagedProcess)
      → lookup id manager.processes ≡ some process
      → InRange first last process.port
  pub apart :
      (id other : String) (process found : ManagedProcess)
      → lookup id manager.processes ≡ some process
      → lookup other manager.processes ≡ some found
      → process.port ≡ found.port
      → id ≡ other

pub lookup-port_in_use :
    (processes : Map ManagedProcess) (id : String) (process : ManagedProcess) (port : ℕ)
    → lookup id processes ≡ some process
    → port_in_use port processes ≡ false
    → process.port ≢ port
unfolding lookup
lookup-port_in_use [] id process port h free = ground arith
lookup-port_in_use ((held, first) ∷ rest) id process port h free =
    ground (arith, lookup-port_in_use rest id process port)

-- A child that starts on a port of the range that none has.
pub insert-IsSound :
    (first last : ℕ) (manager : ProcessManager) (id : String) (process : ManagedProcess)
    → IsSound first last manager
    → InRange first last process.port
    → is_port_active manager process.port ≡ false
    → IsSound first last (record manager { processes = insert id process manager.processes })
unfolding is_port_active
insert-IsSound first last manager id process v within free = record {
  starts_at = v.starts_at;
  ends_at = v.ends_at;
  within = λ a p h. ground (arith, lookup-insert id a process manager.processes, v.within a p);
  apart = λ a b p q h i e. ground (
    arith,
    lookup-insert id a process manager.processes,
    lookup-insert id b process manager.processes,
    eq_iff id a,
    eq_iff id b,
    v.apart a b p q,
    lookup-port_in_use manager.processes a p process.port,
    lookup-port_in_use manager.processes b q process.port,
  );
}

-- A child that is held and keeps its port.
pub update-IsSound :
    (first last : ℕ) (manager : ProcessManager) (id : String) (old process : ManagedProcess)
    → IsSound first last manager
    → lookup id manager.processes ≡ some old
    → process.port ≡ old.port
    → IsSound first last (record manager { processes = insert id process manager.processes })
update-IsSound first last manager id old process v held e = record {
  starts_at = v.starts_at;
  ends_at = v.ends_at;
  within = λ a p h. ground (
    arith,
    lookup-insert id a process manager.processes,
    eq_iff id a,
    v.within a p,
    v.within id old held,
  );
  apart = λ a b p q h i same. ground (
    arith,
    lookup-insert id a process manager.processes,
    lookup-insert id b process manager.processes,
    eq_iff id a,
    eq_iff id b,
    v.apart a b p q,
    v.apart id b old q,
    v.apart a id p old,
  );
}

pub stop-IsSound :
    (first last : ℕ) (manager : ProcessManager) (id : String)
    → IsSound first last manager
    → IsSound first last (stop manager id).0
unfolding stop
stop-IsSound first last manager id v = elim (Bool-cases (contains_key id manager.processes)) [
  | inl e ↦ rw e (record {
    starts_at = v.starts_at;
    ends_at = v.ends_at;
    within = λ a p h. ground (arith, lookup-remove id a manager.processes, v.within a p);
    apart = λ a b p q h i same. ground (
      arith,
      lookup-remove id a manager.processes,
      lookup-remove id b manager.processes,
      v.apart a b p q,
    );
  })
  | inr e ↦ rw e v
]

-- A port that no child has stays so when a child is stopped, or keeps its port.
pub remove-port_in_use :
    (port : ℕ) (id : String) (processes : Map ManagedProcess)
    → port_in_use port processes ≡ false
    → port_in_use port (remove id processes) ≡ false
unfolding remove
remove-port_in_use port id [] free = refl
remove-port_in_use port id ((held, first) ∷ rest) free =
    ground (arith, free, remove-port_in_use port id rest)

pub insert-port_in_use :
    (port : ℕ) (id : String) (process : ManagedProcess) (processes : Map ManagedProcess)
    → process.port ≢ port
    → port_in_use port processes ≡ false
    → port_in_use port (insert id process processes) ≡ false
unfolding insert
insert-port_in_use port id process [] other free = ground arith
insert-port_in_use port id process ((held, first) ∷ rest) other free =
    ground (arith, free, insert-port_in_use port id process rest other)

-- Only the next port has changed.
pub moved-IsSound :
    (first last : ℕ) (manager after : ProcessManager)
    → IsSound first last manager
    → after.first_port ≡ manager.first_port
    → after.last_port ≡ manager.last_port
    → after.processes ≡ manager.processes
    → IsSound first last after
moved-IsSound first last manager after v f l p = record {
  starts_at = f ∙ v.starts_at;
  ends_at = l ∙ v.ends_at;
  within = λ a q h. v.within a q (rw p at h);
  apart = λ a b q r h i same. v.apart a b q r (rw p at h) (rw p at i) same;
}

pub new-IsSound : (first last : ℕ) → IsSound first last (new first last)
unfolding new lookup
new-IsSound first last = record {
  starts_at = refl;
  ends_at = refl;
  within = λ id p h. ground arith;
  apart = λ id o p q h i e. ground arith;
}
