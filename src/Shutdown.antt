-- ===== src/Shutdown.antt =====
-- shutdown.rs: the coordinator of a graceful shutdown. A message is handled while a guard is held; a
-- shutdown or a restart stops new guards, waits for the others and cancels the token. The counter is
-- a natural number (`fetch_sub` follows a `fetch_add` of its own). The log lines are left out.
pub mod Interleaving
pub mod Drained
pub mod Examples
use adk_gateway.Common.{ℕ, ◌+◌, ◌-◌, Bool, true, false, not, if◌then◌else◌}

pub record ShutdownCoordinator : Type 0 where
  pub in_flight : ℕ
  pub accepting : Bool
  pub cancelled : Bool
  pub drain_timeout : ℕ
  pub restart_initiated : Bool

-- 30 seconds, in milliseconds.
abbrev pub default_drain_timeout : ℕ
default_drain_timeout = 30_000

unfoldable pub with_drain_timeout : ℕ → ShutdownCoordinator
with_drain_timeout timeout = record {
  in_flight = 0;
  accepting = true;
  cancelled = false;
  drain_timeout = timeout;
  restart_initiated = false;
}

unfoldable pub new : ShutdownCoordinator
unfolding with_drain_timeout
new = with_drain_timeout default_drain_timeout

-- The two halves of `acquire` and the drop of a guard, each one atomic operation on the counter.
unfoldable pub enter : ShutdownCoordinator → ShutdownCoordinator
enter c = record c { in_flight = c.in_flight + 1 }

unfoldable pub leave : ShutdownCoordinator → ShutdownCoordinator
leave c = record c { in_flight = c.in_flight - 1 }

-- `acquire` when nobody comes in between: whether a guard is given.
unfoldable pub acquire : ShutdownCoordinator → ShutdownCoordinator × Bool
unfolding enter leave
acquire c =
    if not c.accepting
    then (c, false)
    else let entered : ShutdownCoordinator = enter c in
      if not entered.accepting then (leave entered, false) else (entered, true)

-- The first store of `initiate_restart`, and the one with which it and `initiate_shutdown` begin to
-- drain.
unfoldable pub mark_restart : ShutdownCoordinator → ShutdownCoordinator
mark_restart c = record c { restart_initiated = true }

unfoldable pub stop_accepting : ShutdownCoordinator → ShutdownCoordinator
stop_accepting c = record c { accepting = false }

-- Their end, after the drain or its timeout.
unfoldable pub cancel : ShutdownCoordinator → ShutdownCoordinator
cancel c = record c { cancelled = true }

unfoldable pub is_accepting : ShutdownCoordinator → Bool
is_accepting c = c.accepting

unfoldable pub in_flight_count : ShutdownCoordinator → ℕ
in_flight_count c = c.in_flight

unfoldable pub is_restart : ShutdownCoordinator → Bool
is_restart c = c.restart_initiated
