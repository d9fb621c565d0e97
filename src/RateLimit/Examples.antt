-- ===== src/RateLimit/Examples.antt =====
-- The theorems on rate_limiter.rs at concrete calls.
use adk_gateway.Common.{List, [], ◌∷◌, ◌≡◌, arith}
use adk_gateway.RateLimit.{RateLimitConfig, new, record_invocation, as_u32}
use adk_gateway.RateLimit.Window.{Invocation, run, times}
use adk_gateway.RateLimit.Decisions.{decision_for, over_limits, calls_within, record_invocation-run}

abbrev two_calls : RateLimitConfig
two_calls = record { max_calls = 2; window_secs = 5; cooldown_secs = 1; max_triggers = 2 }

abbrev burst : List Invocation
burst =
    record { tool_name = "read"; at = 0 }
    ∷ record { tool_name = "read"; at = 1_000 }
    ∷ record { tool_name = "write"; at = 2_000 }
    ∷ []

record_invocation-run_example :
    (record_invocation (run (new two_calls) burst) "write" 5_500).1
    ≡ decision_for two_calls
        (over_limits two_calls [] burst)
        "write"
        (as_u32 (calls_within two_calls (times burst) 5_500))
record_invocation-run_example =
    record_invocation-run two_calls burst "write" 5_500
      (omega arith, (omega arith, (omega arith, omega arith)))
