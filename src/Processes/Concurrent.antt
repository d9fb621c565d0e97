-- ===== src/Processes/Concurrent.antt =====
-- Concurrent callers of `spawn` in process_manager.rs, which holds no lock from its first test to the
-- insertion of the child. Each step here is one operation on the shared state: a test of the map, a
-- `fetch_add` or a `store` of `next_port`, an insertion. The walk of `is_port_active` is one read.
use adk_gateway.Common.{
  ℕ, suc, ◌+◌, ◌-◌, ◌≤◌, String, List, [], ◌∷◌, ◌++◌, some, true, false, ltb, length, ◌≡◌,
}
use adk_gateway.Common.Map.{lookup, insert, contains_key}
use adk_gateway.Processes.{
  HealthStatus, ManagedProcess, ProcessManager, as_u16, is_port_active, stop, unknown, new,
}

-- How far a call of `spawn` is: at the head of the loop of `allocate_port` with the rounds that are
-- left; past the end of the range, before it stores its beginning; with a port to test; with a port
-- that no child has, to bind it; with the port that it was given.
pub data Spawning : Type 0 where
  allocating wrapping : (id : String) (rounds : ℕ) → Spawning
  looking binding : (id : String) (rounds port : ℕ) → Spawning
  allocated : (id : String) (port : ℕ) → Spawning

pub record System : Type 0 where
  pub manager : ProcessManager
  pub spawning : List Spawning

unfoldable pub initial : ℕ → ℕ → System
unfolding new
initial first last = record { manager = new first last; spawning = [] }

abbrev pub with_next : ProcessManager → ℕ → ProcessManager
with_next manager next = record manager { next_port = next }

-- The first of the callers moves; `turns` says that any of them may be the first.
pub data Step (s : System) : System → Type 0 where
  turns :
      (before after : List Spawning) (caller : Spawning)
      → s.spawning ≡ before ++ (caller ∷ after)
      → Step s (record s { spawning = caller ∷ (before ++ after) })
  begins :
      (id : String)
      → contains_key id s.manager.processes ≡ false
      → Step s (record s {
        spawning =
            allocating id (as_u16 (s.manager.last_port - s.manager.first_port + 1)) ∷ s.spawning;
      })
  finds_none :
      (id : String) (rest : List Spawning)
      → s.spawning ≡ allocating id 0 ∷ rest
      → Step s (record s { spawning = rest })
  -- The `fetch_add`, beyond the range and within it.
  passes_end :
      (id : String) (rounds : ℕ) (rest : List Spawning)
      → s.spawning ≡ allocating id (suc rounds) ∷ rest
      → ltb s.manager.last_port s.manager.next_port ≡ true
      → Step s (record {
        manager = with_next s.manager (as_u16 (s.manager.next_port + 1));
        spawning = wrapping id rounds ∷ rest;
      })
  wraps :
      (id : String) (rounds : ℕ) (rest : List Spawning)
      → s.spawning ≡ wrapping id rounds ∷ rest
      → Step s (record {
        manager = with_next s.manager s.manager.first_port;
        spawning = allocating id rounds ∷ rest;
      })
  takes :
      (id : String) (rounds : ℕ) (rest : List Spawning)
      → s.spawning ≡ allocating id (suc rounds) ∷ rest
      → ltb s.manager.last_port s.manager.next_port ≡ false
      → Step s (record {
        manager = with_next s.manager (as_u16 (s.manager.next_port + 1));
        spawning = looking id rounds s.manager.next_port ∷ rest;
      })
  -- A child has the port, or the system does not give it: the next round.
  finds_active :
      (id : String) (rounds port : ℕ) (rest : List Spawning)
      → s.spawning ≡ looking id rounds port ∷ rest
      → is_port_active s.manager port ≡ true
      → Step s (record s { spawning = allocating id rounds ∷ rest })
  finds_inactive :
      (id : String) (rounds port : ℕ) (rest : List Spawning)
      → s.spawning ≡ looking id rounds port ∷ rest
      → is_port_active s.manager port ≡ false
      → Step s (record s { spawning = binding id rounds port ∷ rest })
  cannot_bind :
      (id : String) (rounds port : ℕ) (rest : List Spawning)
      → s.spawning ≡ binding id rounds port ∷ rest
      → Step s (record s { spawning = allocating id rounds ∷ rest })
  -- The listener is dropped at once, so the system does not keep the port for the caller.
  binds :
      (id : String) (rounds port : ℕ) (rest : List Spawning)
      → s.spawning ≡ binding id rounds port ∷ rest
      → Step s (record s { spawning = allocated id port ∷ rest })
  starts :
      (id : String) (port now : ℕ) (rest : List Spawning)
      → s.spawning ≡ allocated id port ∷ rest
      → Step s (record {
        manager = record (s.manager) {
          processes =
              insert id
                (record { agent_id = id; port = port; started_at = now; health = unknown })
                s.manager.processes;
        };
        spawning = rest;
      })
  cannot_start :
      (id : String) (port : ℕ) (rest : List Spawning)
      → s.spawning ≡ allocated id port ∷ rest
      → Step s (record s { spawning = rest })
  -- Other calls come in between anywhere.
  stops : (id : String) → Step s (record s { manager = (stop s.manager id).0 })
  -- The write at the end of `health_check` or of `wait_ready`.
  records_health :
      (id : String) (process : ManagedProcess) (health : HealthStatus)
      → lookup id s.manager.processes ≡ some process
      → Step s (record s {
        manager = record (s.manager) {
          processes = insert id (record process { health = health }) s.manager.processes;
        };
      })

-- Steps during which at most so many calls of `spawn` are under way at a time.
pub data Steps (limit : ℕ) (s : System) : System → Type 0 where
  here : Steps limit s s
  next : {t u : System} → Steps limit s t → Step t u → length u.spawning ≤ limit → Steps limit s u
