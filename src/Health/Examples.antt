-- ===== src/Health/Examples.antt =====
-- The theorems on health_monitor.rs at concrete checks.
use adk_gateway.Common.{List, [], ◌∷◌, true, false, ◌≡◌}
use adk_gateway.Health.{new, record_check}
use adk_gateway.Health.Alerts.{Check, run, streak_from, event_for, record_check-run}

abbrev two_down : List Check
two_down =
    record { component = "slack"; ok = true; at = 1 }
    ∷ record { component = "slack"; ok = false; at = 2 }
    ∷ record { component = "model"; ok = true; at = 2 }
    ∷ record { component = "slack"; ok = false; at = 3 }
    ∷ []

record_check-run_example :
    (record_check (run (new 3) two_down) "slack" false 4).1
    ≡ event_for 3 (streak_from 0 "slack" two_down) false "slack"
record_check-run_example = record_check-run 3 two_down "slack" false 4
