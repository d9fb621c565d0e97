-- ===== src/Reconnect/Backoff.antt =====
-- The delays and the status of reconnect.rs, told by the failures since the last reset.
use adk_gateway.Common.{ℕ, zero, suc, ◌*◌, ◌^◌, min, List, [], ◌∷◌, ◌≡◌}
use adk_gateway.Reconnect.{ReconnectPolicy, ReconnectState, next_delay, reset}

pub data Event : Type 0 where
  fails : (now : ℕ) → Event
  succeeds : Event

unfoldable pub run : ReconnectState → List Event → ReconnectState
run state [] = state
run state (fails now ∷ es) = run (next_delay state now).0 es
run state (succeeds ∷ es) = run (reset state) es

-- The failures in a row at the end of the events, `k` before them.
abbrev pub failures_from : ℕ → List Event → ℕ
failures_from k [] = k
failures_from k (fails now ∷ es) = failures_from (suc k) es
failures_from k (succeeds ∷ es) = failures_from 0 es

-- The delay after `k` failures in a row: the first is the initial delay, whatever the longest one is.
abbrev pub backoff : ReconnectPolicy → ℕ → ℕ
backoff policy zero = policy.initial_delay
backoff policy (suc k) = min (policy.initial_delay * 2 ^ suc k) policy.max_delay

record Tells (policy : ReconnectPolicy) (k : ℕ) (state : ReconnectState) : Type 0 where
  pub configured : state.policy ≡ policy
  pub counted : state.attempts ≡ k
  pub delayed : state.current_delay ≡ backoff policy k
