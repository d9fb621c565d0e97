-- ===== src/Reconnect.antt =====
-- reconnect.rs: the delays between the attempts to reconnect a channel, and the status they give it.
-- Delays are in nanoseconds and `saturating_mul` stops at the longest `Duration`; the instant of the
-- last attempt is an argument. The attempts are a natural number: the `u32` overflows after 2^32 - 1.
pub mod Backoff
pub mod Examples
use adk_gateway.Common.{ℕ, ◌+◌, ◌*◌, min, Option, none, some, Bool, if◌then◌else◌, ltb, leb}

pub record ReconnectPolicy : Type 0 where
  pub initial_delay : ℕ
  pub max_delay : ℕ
  pub max_attempts : ℕ

pub data ChannelStatus : Type 0 where
  connected reconnecting failed disconnected : ChannelStatus

pub record ReconnectState : Type 0 where
  pub attempts : ℕ
  pub last_attempt : Option ℕ
  pub current_delay : ℕ
  pub policy : ReconnectPolicy

-- `Duration::MAX`: 2^64 - 1 seconds and 999999999 nanoseconds.
abbrev pub duration_max : ℕ
duration_max = 18_446_744_073_709_551_615_999_999_999

abbrev pub saturating_mul : ℕ → ℕ → ℕ
saturating_mul delay factor = min (delay * factor) duration_max

unfoldable pub new : ReconnectPolicy → ReconnectState
new policy = record {
  attempts = 0;
  last_attempt = none;
  current_delay = policy.initial_delay;
  policy = policy;
}

unfoldable pub next_delay : ReconnectState → ℕ → ReconnectState × ℕ
next_delay state now = (
  record state {
    attempts = state.attempts + 1;
    last_attempt = some now;
    current_delay = min (saturating_mul state.current_delay 2) state.policy.max_delay;
  },
  state.current_delay,
)

unfoldable pub should_mark_failed : ReconnectState → Bool
should_mark_failed state = leb state.policy.max_attempts state.attempts

unfoldable pub reset : ReconnectState → ReconnectState
reset state = record state {
  attempts = 0;
  last_attempt = none;
  current_delay = state.policy.initial_delay;
}

unfoldable pub channel_status : ReconnectState → ChannelStatus
unfolding should_mark_failed
channel_status state =
    if should_mark_failed state
    then failed
    else if ltb 0 state.attempts
    then reconnecting
    else connected
