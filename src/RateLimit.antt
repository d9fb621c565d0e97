-- ===== src/RateLimit.antt =====
-- rate_limiter.rs: a sliding window over the tool calls of one request. Times are in milliseconds;
-- `duration_since` is 0 for a later time, as the subtraction of natural numbers is. The count is cut
-- to 32 bits as in the source; the trigger count is a natural number, and its `u32` would overflow at
-- 2^32 over-limit calls of one request. The reason of a termination stands for what it prints.
pub mod Window
pub mod Decisions
pub mod Examples
use adk_gateway.Common.{
  ℕ, ◌+◌, ◌-◌, ◌*◌, ◌%◌, String, List, [], ◌∷◌, ◌++◌, Bool, if◌then◌else◌, ltb, leb, length, filter,
}

pub record RateLimitConfig : Type 0 where
  pub max_calls : ℕ
  pub window_secs : ℕ
  pub cooldown_secs : ℕ
  pub max_triggers : ℕ

pub data RateLimitDecision : Type 0 where
  allow : RateLimitDecision
  pause : (duration : ℕ) → RateLimitDecision
  terminate : (triggers : ℕ) (tool_name : String) (count window_secs : ℕ) → RateLimitDecision

pub record RateLimiter : Type 0 where
  pub window : List ℕ
  pub trigger_count : ℕ
  pub config : RateLimitConfig

unfoldable pub new : RateLimitConfig → RateLimiter
new config = record { window = []; trigger_count = 0; config = config }

abbrev pub window_duration : RateLimitConfig → ℕ
window_duration config = config.window_secs * 1000

-- The loop that takes expired entries off the front.
unfoldable pub pop_expired : ℕ → ℕ → List ℕ → List ℕ
pop_expired duration now [] = []
pop_expired duration now (front ∷ rest) =
    let popped = pop_expired duration now rest in
    if ltb duration (now - front) then popped else front ∷ rest

abbrev pub as_u32 : ℕ → ℕ
as_u32 n = n % 4_294_967_296

-- The decision on a count, by the trigger count before it.
unfoldable pub decide : RateLimitConfig → ℕ → String → ℕ → RateLimitDecision × ℕ
decide config triggers tool_name count =
    if ltb config.max_calls count
    then (
      if leb config.max_triggers (triggers + 1)
          then terminate (triggers + 1) tool_name count config.window_secs
          else pause (config.cooldown_secs * 1000),
      triggers + 1,
    )
    else (allow, triggers)

unfoldable pub record_invocation : RateLimiter → String → ℕ → RateLimiter × RateLimitDecision
unfolding pop_expired decide
record_invocation limiter tool_name now =
    let window = pop_expired (window_duration limiter.config) now limiter.window ++ now ∷ [] in
    let (decision, triggers) =
      decide limiter.config limiter.trigger_count tool_name (as_u32 (length window)) in
    (record limiter { window = window; trigger_count = triggers }, decision)

abbrev pub in_window : ℕ → ℕ → ℕ → Bool
in_window duration now ts = leb (now - ts) duration

unfoldable pub window_count : RateLimiter → ℕ → ℕ
window_count limiter now =
    as_u32 (length (filter (in_window (window_duration limiter.config) now) limiter.window))

unfoldable pub reset : RateLimiter → RateLimiter
reset limiter = record limiter { window = []; trigger_count = 0 }
