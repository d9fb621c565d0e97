-- ===== src/Reconnect/Examples.antt =====
-- The theorem on reconnect.rs at concrete events.
use adk_gateway.Common.{List, [], ◌∷◌}
use adk_gateway.Reconnect.{ReconnectPolicy}
use adk_gateway.Reconnect.Backoff.{Event, fails, succeeds}

abbrev short : ReconnectPolicy
short = record { initial_delay = 1_000_000_000; max_delay = 10_000_000_000; max_attempts = 3 }

abbrev drops : List Event
drops = fails 1 ∷ succeeds ∷ fails 2 ∷ fails 3 ∷ []
