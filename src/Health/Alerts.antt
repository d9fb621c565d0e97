-- ===== src/Health/Alerts.antt =====
-- The events of health_monitor.rs, told by the checks made so far.
use adk_gateway.Common.{
  ℕ, suc, String, List, [], ◌∷◌, Option, none, some, Bool, true, false, if◌then◌else◌, leb, ◌==◌,
  str_eq, ◌≡◌, refl, arith, eq_iff, Bool-cases, inl, inr, subst, sym,
}
use adk_gateway.Common.Map.{lookup, lookup-insert}
use adk_gateway.Health.{
  HealthStatus, healthy, ComponentHealth, HealthEvent, alert, recovery, HealthMonitor, new,
  or_fresh, failed_status, checked, record_check, component_status,
}

pub record Check : Type 0 where
  pub component : String
  pub ok : Bool
  pub at : ℕ

unfoldable pub run : HealthMonitor → List Check → HealthMonitor
run monitor [] = monitor
run monitor (c ∷ cs) = run (record_check monitor c.component c.ok c.at).0 cs

-- The failures in a row at the end of the component's checks, `k` before them.
abbrev pub streak_from : ℕ → String → List Check → ℕ
streak_from k component [] = k
streak_from k component (c ∷ cs) =
    streak_from (if str_eq c.component component then (if c.ok then 0 else suc k) else k) component
      cs

-- A threshold of 0 alerts at the first failure, as 1 does.
abbrev pub alert_at : ℕ → ℕ
alert_at threshold = if leb 1 threshold then threshold else 1

abbrev pub status_of : ℕ → ℕ → HealthStatus
status_of k threshold = if k == 0 then healthy else failed_status k threshold

-- An entry tells a streak of `k` failures.
record Tells (threshold k : ℕ) (health : ComponentHealth) : Type 0 where
  pub counted : health.consecutive_failures ≡ k
  pub flagged : health.alerted ≡ leb (alert_at threshold) k
  pub told : health.status ≡ status_of k threshold

checked-Tells :
    (health : ComponentHealth) (component : String) (threshold k now : ℕ) (ok : Bool)
    → Tells threshold k health
    → Tells threshold (if ok then 0 else suc k) (checked health threshold ok component now).0
unfolding checked
checked-Tells health component threshold k now true t = record {
  counted = refl;
  flagged = ground arith;
  told = refl;
}
checked-Tells health component threshold k now false t = record {
  counted = ground (arith, t.counted);
  flagged = ground (arith, t.counted, t.flagged);
  told = ground (arith, t.counted);
}

-- What the entry of a component tells, a component without an entry being fresh.
TellsOf : ℕ → ℕ → Option ComponentHealth → String → Type 0
TellsOf threshold k o component = (now : ℕ) → Tells threshold k (or_fresh o component now)

record_check-TellsOf :
    (m : HealthMonitor) (c other : String) (k now : ℕ) (ok : Bool)
    → TellsOf m.failure_threshold k (lookup other m.components) other
    → TellsOf m.failure_threshold
        (if str_eq c other then (if ok then 0 else suc k) else k)
        (lookup other (record_check m c ok now).0.components)
        other
unfolding record_check TellsOf new
record_check-TellsOf m c other k now ok t at =
    let before = or_fresh (lookup c m.components) c now in
    let health = (checked before m.failure_threshold ok c now).0 in
    rw (lookup-insert c other health m.components) (elim (Bool-cases (str_eq c other)) [
      | inl e ↦ rw e (
          checked-Tells before c m.failure_threshold k now ok (
            subst (λ name. TellsOf m.failure_threshold k (lookup name m.components) name)
              (sym ((eq_iff c other).0 e)) t now))
      | inr e ↦ rw e (t at)
    ])

run-TellsOf :
    (threshold : ℕ) (m : HealthMonitor) (cs : List Check) (component : String) (k : ℕ)
    → m.failure_threshold ≡ threshold
    → TellsOf threshold k (lookup component m.components) component
    → TellsOf threshold
        (streak_from k component cs)
        (lookup component (run m cs).components)
        component
unfolding run record_check
run-TellsOf threshold m [] component k e t = t
run-TellsOf threshold m (c ∷ cs) component k e t =
    run-TellsOf threshold (record_check m c.component c.ok c.at).0 cs component
      (if str_eq c.component component then (if c.ok then 0 else suc k) else k) e
      (subst
        (λ n.
          TellsOf n (if str_eq c.component component then (if c.ok then 0 else suc k) else k)
            (lookup component (record_check m c.component c.ok c.at).0.components) component)
        e
        (record_check-TellsOf m c.component component k c.at c.ok
          (subst (λ n. TellsOf n k (lookup component m.components) component) (sym e) t)))

run_threshold :
    (m : HealthMonitor) (cs : List Check) → (run m cs).failure_threshold ≡ m.failure_threshold
unfolding run record_check
run_threshold m [] = refl
run_threshold m (c ∷ cs) = run_threshold (record_check m c.component c.ok c.at).0 cs

run-new-TellsOf :
    (threshold : ℕ) (cs : List Check) (component : String)
    → TellsOf threshold
        (streak_from 0 component cs)
        (lookup component (run (new threshold) cs).components)
        component
unfolding new lookup TellsOf
run-new-TellsOf threshold cs component =
    run-TellsOf threshold (new threshold) cs component 0 refl
      (λ now. record { counted = refl; flagged = ground arith; told = refl })

-- The event of a check, by the failures in a row before it.
abbrev pub event_for : ℕ → ℕ → Bool → String → Option HealthEvent
event_for threshold k true component =
    if leb (alert_at threshold) k then some (recovery component) else none
event_for threshold k false component =
    if suc k == alert_at threshold then some (alert component (suc k)) else none

checked_event :
    (health : ComponentHealth) (component : String) (threshold k now : ℕ) (ok : Bool)
    → Tells threshold k health
    → (checked health threshold ok component now).1 ≡ event_for threshold k ok component
unfolding checked
checked_event health component threshold k now true t = ground (arith, t.flagged)
checked_event health component threshold k now false t = ground (arith, t.counted, t.flagged)

-- After any checks of any components, a failed check emits an alert exactly when it is the one that
-- brings the component's failures in a row to the threshold (to 1 for a threshold of 0), and a
-- healthy one emits a recovery exactly when the streak that it ends had reached it: one alert and at
-- most one recovery for each streak, whatever happens to the other components.
pub record_check-run :
    (threshold : ℕ) (cs : List Check) (component : String) (ok : Bool) (now : ℕ)
    → (record_check (run (new threshold) cs) component ok now).1
      ≡ event_for threshold (streak_from 0 component cs) ok component
unfolding record_check TellsOf new
record_check-run threshold cs component ok now =
    let monitor = run (new threshold) cs in
    let health = or_fresh (lookup component monitor.components) component now in
    let told = run-new-TellsOf threshold cs component now in
    let same : monitor.failure_threshold ≡ threshold = run_threshold (new threshold) cs in
    rw same (checked_event health component threshold (streak_from 0 component cs) now ok told)

-- The health reported for a component is that of its failures in a row: healthy for none, degraded
-- below the threshold and unhealthy from it on, and a component without an entry has had no failure.
pub component_status-run :
    (threshold : ℕ) (cs : List Check) (component : String) (now : ℕ)
    → ((or_fresh
          (component_status (run (new threshold) cs) component)
          component
          now).consecutive_failures
        ≡ streak_from 0 component cs)
      × ((or_fresh (component_status (run (new threshold) cs) component) component now).status
          ≡ status_of (streak_from 0 component cs) threshold)
unfolding component_status TellsOf
component_status-run threshold cs component now =
    let told = run-new-TellsOf threshold cs component now in (told.counted, told.told)
