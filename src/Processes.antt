-- ===== src/Processes.antt =====
-- process_manager.rs: the child processes of the agents, each on a port of its own. The operating
-- system answers by arguments: which ports can be bound, whether a child starts, whether it replies.
-- The child itself, the waiting and the signals are not modelled; a port is a `u16`.
pub mod Allocation
pub mod Sound
pub mod Concurrent
pub mod Callers
pub mod Distinct
pub mod InTurn
pub mod Examples
use adk_gateway.Common.{
  ℕ, zero, suc, ◌+◌, ◌-◌, ◌%◌, String, List, [], ◌∷◌, Option, none, some, Bool, true, false, not,
  ◌&&◌, ◌||◌, map, length, if◌then◌else◌, ltb, ◌==◌,
}
use adk_gateway.Common.Map.{Map, lookup, insert, remove, contains_key, values}

pub data HealthStatus : Type 0 where
  healthy : HealthStatus
  unhealthy : (consecutive_failures : ℕ) → HealthStatus
  unknown : HealthStatus

pub record ManagedProcess : Type 0 where
  pub agent_id : String
  pub port : ℕ
  pub started_at : ℕ
  pub health : HealthStatus

pub record ProcessManager : Type 0 where
  pub processes : Map ManagedProcess
  pub first_port : ℕ
  pub last_port : ℕ
  pub next_port : ℕ

unfoldable pub new : ℕ → ℕ → ProcessManager
new first last = record { processes = []; first_port = first; last_port = last; next_port = first }

unfoldable pub with_defaults : ProcessManager
unfolding new
with_defaults = new 19_001 19_100

abbrev pub as_u16 : ℕ → ℕ
as_u16 n = n % 65_536

abbrev pub port_in_use : ℕ → Map ManagedProcess → Bool
port_in_use port [] = false
port_in_use port ((id, process) ∷ rest) = process.port == port || port_in_use port rest

unfoldable pub is_port_active : ProcessManager → ℕ → Bool
is_port_active manager port = port_in_use port manager.processes

abbrev pub Free : Type 0
Free = ℕ → Bool

-- The rounds of the loop of `allocate_port`, from a value of `next_port`; its new value comes first.
unfoldable pub allocate_from : (ℕ → Bool) → ℕ → ℕ → ℕ → ℕ → ℕ × Option ℕ
allocate_from usable first last zero port = (port, none)
allocate_from usable first last (suc rounds) port =
    let later =
      allocate_from usable first last rounds (if ltb last port then first else as_u16 (port + 1)) in
    if not (ltb last port) && usable port then (as_u16 (port + 1), some port) else later

-- As one caller runs it alone.
unfoldable pub allocate_port : ProcessManager → Free → ProcessManager × Option ℕ
unfolding allocate_from is_port_active
allocate_port manager free =
    let (next, port) =
      allocate_from (λ p. not (is_port_active manager p) && free p) manager.first_port
        manager.last_port (as_u16 (manager.last_port - manager.first_port + 1)) manager.next_port in
    (record manager { next_port = next }, port)

pub data SpawnResult : Type 0 where
  spawned : (port : ℕ) → SpawnResult
  already_running no_port start_failed : SpawnResult

-- The end of `spawn`, with the port that was allocated.
unfoldable pub start_on :
    ProcessManager → String → Bool → ℕ → Option ℕ → ProcessManager × SpawnResult
start_on manager id starts now none = (manager, no_port)
start_on manager id starts now (some port) =
    if starts
    then (
      record manager {
        processes =
            insert id (record { agent_id = id; port = port; started_at = now; health = unknown })
              manager.processes;
      },
      spawned port,
    )
    else (manager, start_failed)

-- `spawn` when nobody comes in between: it holds no lock, and neither does `allocate_port`, so
-- Processes/Concurrent has their operations as steps of concurrent callers.
unfoldable pub spawn : ProcessManager → Free → String → Bool → ℕ → ProcessManager × SpawnResult
unfolding allocate_port start_on
spawn manager free id starts now =
    if contains_key id manager.processes
    then (manager, already_running)
    else let (allocated, port) = allocate_port manager free in start_on allocated id starts now port

-- The wait for the child to exit changes nothing here: the process is removed in every case.
unfoldable pub stop : ProcessManager → String → ProcessManager × Bool
stop manager id =
    if contains_key id manager.processes
    then (record manager { processes = remove id manager.processes }, true)
    else (manager, false)

unfoldable pub remove_process : ProcessManager → String → ProcessManager × Bool
unfolding stop
remove_process manager id = stop manager id

unfoldable pub insert_process : ProcessManager → ManagedProcess → ProcessManager
insert_process manager process = record manager {
  processes = insert process.agent_id process manager.processes;
}

abbrev pub failures_before : HealthStatus → ℕ
failures_before healthy = 0
failures_before (unhealthy n) = n
failures_before unknown = 0

abbrev pub health_after : HealthStatus → Bool → HealthStatus
health_after before true = healthy
health_after before false = unhealthy (failures_before before + 1)

unfoldable pub health_check : ProcessManager → String → Bool → ProcessManager × HealthStatus
health_check manager id replies = elim (lookup id manager.processes) [
  | none ↦ (manager, unknown)
  | some process ↦ (
    record manager {
      processes =
          insert id (record process { health = health_after process.health replies })
            manager.processes;
    },
    health_after process.health replies,
  )
]

unfoldable pub process_count : ProcessManager → ℕ
process_count manager = length manager.processes

unfoldable pub has_agent : ProcessManager → String → Bool
has_agent manager id = contains_key id manager.processes

unfoldable pub active_ports : ProcessManager → List ℕ
active_ports manager = map (λ process. process.port) (values manager.processes)
