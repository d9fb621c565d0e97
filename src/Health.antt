-- ===== src/Health.antt =====
-- health_monitor.rs: the health of each component, with one alert for each streak of failures and one
-- recovery after an alert. The text of a reason stands for the numbers it prints, and
-- the counter is a natural number: the `u32` overflows after 2^32 - 1 failures in a row.
pub mod Alerts
pub mod Examples
use adk_gateway.Common.{
  ℕ, ◌+◌, String, List, [], Option, none, some, Bool, true, false, not, ◌&&◌, if◌then◌else◌, leb,
  length,
}
use adk_gateway.Common.Map.{Map, lookup, insert, values}

-- The reason is told by the numbers it prints: the failures, and below the threshold the threshold.
pub data HealthStatus : Type 0 where
  healthy : HealthStatus
  degraded : (failures threshold : ℕ) → HealthStatus
  unhealthy : (failures : ℕ) → HealthStatus

unfoldable pub is_healthy : HealthStatus → Bool
is_healthy healthy = true
is_healthy (degraded failures threshold) = false
is_healthy (unhealthy failures) = false

pub record ComponentHealth : Type 0 where
  pub name : String
  pub status : HealthStatus
  pub consecutive_failures : ℕ
  pub last_check : ℕ
  pub alerted : Bool

pub data HealthEvent : Type 0 where
  alert : (component : String) (failures : ℕ) → HealthEvent
  recovery : (component : String) → HealthEvent

pub record HealthMonitor : Type 0 where
  pub components : Map ComponentHealth
  pub failure_threshold : ℕ

unfoldable pub new : ℕ → HealthMonitor
new threshold = record { components = []; failure_threshold = threshold }

abbrev pub fresh : String → ℕ → ComponentHealth
fresh component now = record {
  name = component;
  status = healthy;
  consecutive_failures = 0;
  last_check = now;
  alerted = false;
}

abbrev pub or_fresh : Option ComponentHealth → String → ℕ → ComponentHealth
or_fresh none component now = fresh component now
or_fresh (some health) component now = health

abbrev pub failed_status : ℕ → ℕ → HealthStatus
failed_status failures threshold =
    if leb threshold failures then unhealthy failures else degraded failures threshold

-- The entry and the event after one check.
unfoldable pub checked :
    ComponentHealth → ℕ → Bool → String → ℕ → ComponentHealth × Option HealthEvent
checked health threshold true component now = (
  record health { status = healthy; consecutive_failures = 0; last_check = now; alerted = false },
  if health.alerted then some (recovery component) else none,
)
checked health threshold false component now =
    let failures : ℕ = health.consecutive_failures + 1 in
    let updated : ComponentHealth = record health {
      status = failed_status failures threshold;
      consecutive_failures = failures;
      last_check = now;
    } in
    if leb threshold failures && not health.alerted
    then (record updated { alerted = true }, some (alert component failures))
    else (updated, none)

unfoldable pub record_check : HealthMonitor → String → Bool → ℕ → HealthMonitor × Option HealthEvent
unfolding checked
record_check monitor component ok now =
    let (health, event) =
      checked (or_fresh (lookup component monitor.components) component now)
        monitor.failure_threshold ok component now in
    (record monitor { components = insert component health monitor.components }, event)

unfoldable pub status : HealthMonitor → List ComponentHealth
status monitor = values monitor.components

unfoldable pub component_status : HealthMonitor → String → Option ComponentHealth
component_status monitor component = lookup component monitor.components

unfoldable pub component_count : HealthMonitor → ℕ
component_count monitor = length monitor.components
