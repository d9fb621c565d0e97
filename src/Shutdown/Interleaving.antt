-- ===== src/Shutdown/Interleaving.antt =====
-- Concurrent callers of shutdown.rs, one atomic operation at a time.
use adk_gateway.Common.{ℕ, zero, suc, Bool, true, false, ◌≡◌}
use adk_gateway.Shutdown.{
  ShutdownCoordinator, with_drain_timeout, enter, leave, mark_restart, stop_accepting, cancel,
}

-- How many callers of `acquire` are how far, how many guards are held, and how many callers of
-- `initiate_shutdown` and `initiate_restart` have stored that it is a restart (`restarting`), wait for
-- the counter (`draining`), have seen it at 0 (`settled`) or met the timeout (`expired`). `drained`
-- says whether one of them that had seen it at 0 has cancelled the token.
pub record System : Type 0 where
  pub coordinator : ShutdownCoordinator
  pub checked : ℕ
  pub counted : ℕ
  pub refused : ℕ
  pub holding : ℕ
  pub restarting : ℕ
  pub draining : ℕ
  pub settled : ℕ
  pub expired : ℕ
  pub drained : Bool

unfoldable pub initial : ℕ → System
unfolding with_drain_timeout
initial timeout = record {
  coordinator = with_drain_timeout timeout;
  checked = 0;
  counted = 0;
  refused = 0;
  holding = 0;
  restarting = 0;
  draining = 0;
  settled = 0;
  expired = 0;
  drained = false;
}

pub data Step (s : System) : System → Type 0 where
  -- `acquire`: the first test, the addition, the second test, and the undoing.
  tests : s.coordinator.accepting ≡ true → Step s (record s { checked = suc s.checked })
  adds :
      (n : ℕ)
      → s.checked ≡ suc n
      → Step s
          (record s { coordinator = enter s.coordinator; checked = n; counted = suc s.counted })
  admits :
      (n : ℕ)
      → s.counted ≡ suc n
      → s.coordinator.accepting ≡ true
      → Step s (record s { counted = n; holding = suc s.holding })
  refuses :
      (n : ℕ)
      → s.counted ≡ suc n
      → s.coordinator.accepting ≡ false
      → Step s (record s { counted = n; refused = suc s.refused })
  undoes :
      (n : ℕ)
      → s.refused ≡ suc n
      → Step s (record s { coordinator = leave s.coordinator; refused = n })
  -- The drop of a guard.
  drops :
      (n : ℕ)
      → s.holding ≡ suc n
      → Step s (record s { coordinator = leave s.coordinator; holding = n })
  -- `initiate_restart` stores that it is one; then it, and `initiate_shutdown` at once, stops new
  -- messages.
  marks :
      Step s (record s { coordinator = mark_restart s.coordinator; restarting = suc s.restarting })
  restarts :
      (n : ℕ)
      → s.restarting ≡ suc n
      → Step s (record s {
        coordinator = stop_accepting s.coordinator;
        restarting = n;
        draining = suc s.draining;
      })
  stops :
      Step s (record s { coordinator = stop_accepting s.coordinator; draining = suc s.draining })
  -- A poll that finds the counter at 0, the timeout, and what follows each. A poll that finds
  -- another number changes nothing.
  sees_zero :
      (n : ℕ)
      → s.draining ≡ suc n
      → s.coordinator.in_flight ≡ 0
      → Step s (record s { draining = n; settled = suc s.settled })
  times_out :
      (n : ℕ) → s.draining ≡ suc n → Step s (record s { draining = n; expired = suc s.expired })
  finishes :
      (n : ℕ)
      → s.settled ≡ suc n
      → Step s (record s { coordinator = cancel s.coordinator; settled = n; drained = true })
  gives_up :
      (n : ℕ)
      → s.expired ≡ suc n
      → Step s (record s { coordinator = cancel s.coordinator; expired = n })

pub data Steps (s : System) : System → Type 0 where
  here : Steps s s
  then_step : {t u : System} → Steps s t → Step t u → Steps s u

-- Only those who hold the counter up move: a caller of `acquire` that has added itself is refused or
-- undoes its addition, or a guard is dropped. Nobody calls `acquire` anew, and no drain times out.
pub data Settles : System → ℕ → System → Type 0 where
  still : {s : System} → Settles s zero s
  refused_next :
      {s t : System} {left : ℕ} (n : ℕ)
      → s.counted ≡ suc n
      → s.coordinator.accepting ≡ false
      → Settles (record s { counted = n; refused = suc s.refused }) left t
      → Settles s (suc left) t
  undone_next :
      {s t : System} {left : ℕ} (n : ℕ)
      → s.refused ≡ suc n
      → Settles (record s { coordinator = leave s.coordinator; refused = n }) left t
      → Settles s (suc left) t
  dropped_next :
      {s t : System} {left : ℕ} (n : ℕ)
      → s.holding ≡ suc n
      → Settles (record s { coordinator = leave s.coordinator; holding = n }) left t
      → Settles s (suc left) t
