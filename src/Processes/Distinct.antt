-- ===== src/Processes/Distinct.antt =====
-- The ports of the children of process_manager.rs, while no two calls of `spawn` overlap.
use adk_gateway.Common.{ℕ, ◌≤◌, ◌<◌, String, some, length, ◌≡◌, refl, arith}
use adk_gateway.Common.Map.{lookup}
use adk_gateway.Processes.{ManagedProcess, is_port_active, stop, new}
use adk_gateway.Processes.Allocation.{InRange}
use adk_gateway.Processes.Sound.{
  insert-IsSound, stop-IsSound, update-IsSound, new-IsSound, lookup-port_in_use, remove-port_in_use,
  insert-port_in_use,
}
use adk_gateway.Processes.Concurrent.{
  System, initial, Step, turns, begins, finds_none, passes_end, wraps, takes, finds_active,
  finds_inactive, cannot_bind, binds, starts, cannot_start, stops, records_health, Steps, here,
  next,
}
use adk_gateway.Processes.Callers.{
  NextInRange, IsRunning, alone, turned, nobody, alone-IsRunning, idle-IsRunning, kept-AreCallers,
  moved_next, fetched,
}

Step-IsRunning :
    {first last : ℕ} (s t : System)
    → first ≤ last
    → last < 65_535
    → Step s t
    → length t.spawning ≤ 1
    → IsRunning first last s
    → IsRunning first last t
unfolding is_port_active stop
Step-IsRunning s t a b (turns before after caller e) few v =
    let (none_other, is) =
      alone s.manager {caller = caller} (turned before after caller few e) v.callers in
    alone-IsRunning v.sound is none_other refl
Step-IsRunning s t a b (begins id missing) few v =
    let none_before = nobody few in
    let in_range : NextInRange s.manager = rw none_before at v.callers in
    alone-IsRunning v.sound in_range none_before refl
Step-IsRunning s t a b (finds_none id rest e) few v =
    let (none_other, is) = alone s.manager e v.callers in idle-IsRunning v.sound is none_other
Step-IsRunning s t a b (passes_end id rounds rest e over) few v =
    let (none_other, is) = alone s.manager e v.callers in
    alone-IsRunning (moved_next _ v.sound) tt none_other refl
Step-IsRunning s t a b (wraps id rounds rest e) few v =
    let (none_other, is) = alone s.manager e v.callers in
    alone-IsRunning (moved_next _ v.sound)
      (record { above = omega arith; below = omega (arith, v.sound.starts_at, v.sound.ends_at) })
      none_other refl
Step-IsRunning s t a b (takes id rounds rest e within) few v =
    let (none_other, is) = alone s.manager e v.callers in
    alone-IsRunning (moved_next _ v.sound)
      (
        fetched s.manager (omega (arith, v.sound.ends_at)) is within,
        record { above = is.above; below = ground (arith, within) },
      )
      none_other refl
Step-IsRunning s t a b (finds_active id rounds port rest e active) few v =
    let (none_other, is) = alone s.manager e v.callers in
    alone-IsRunning v.sound is.0 none_other refl
Step-IsRunning s t a b (finds_inactive id rounds port rest e inactive) few v =
    let (none_other, is) = alone s.manager e v.callers in
    alone-IsRunning v.sound (is.0, record { range = is.1; inactive = inactive }) none_other refl
Step-IsRunning s t a b (cannot_bind id rounds port rest e) few v =
    let (none_other, is) = alone s.manager e v.callers in
    alone-IsRunning v.sound is.0 none_other refl
Step-IsRunning s t a b (binds id rounds port rest e) few v =
    let (none_other, is) = alone s.manager e v.callers in alone-IsRunning v.sound is none_other refl
Step-IsRunning s t a b (starts id port now rest e) few v =
    let (none_other, is) = alone s.manager e v.callers in
    idle-IsRunning
      (insert-IsSound _ _ s.manager id _ v.sound
        (record {
          above = omega (arith, is.1.range.above, v.sound.starts_at);
          below = omega (arith, is.1.range.below, v.sound.ends_at);
        })
        is.1.inactive)
      (record { above = is.0.above; below = is.0.below }) none_other
Step-IsRunning s t a b (cannot_start id port rest e) few v =
    let (none_other, is) = alone s.manager e v.callers in idle-IsRunning v.sound is.0 none_other
Step-IsRunning s t a b (stops id) few v = record {
  sound = stop-IsSound _ _ s.manager id v.sound;
  callers =
      kept-AreCallers s.manager (stop s.manager id).0 s.spawning (ground arith) (ground arith)
        (ground arith)
        (λ port free. ground (arith, free, remove-port_in_use port id s.manager.processes free))
        v.callers;
}
Step-IsRunning s t a b (records_health id process health held) few v = record {
  sound = update-IsSound _ _ s.manager id process _ v.sound held refl;
  callers =
      kept-AreCallers s.manager _ s.spawning refl refl refl
        (λ port free.
          insert-port_in_use port id (record process { health = health }) s.manager.processes
            (lookup-port_in_use s.manager.processes id process port held free) free)
        v.callers;
}

Steps-IsRunning :
    (first last : ℕ) (s : System)
    → first ≤ last
    → last < 65_535
    → Steps 1 (initial first last) s
    → IsRunning first last s
unfolding initial new
Steps-IsRunning first last s a b here = record {
  sound = new-IsSound first last;
  callers = record { above = omega arith; below = omega arith };
}
Steps-IsRunning first last s a b (next {t = before} steps step few) =
    Step-IsRunning before s a b step few (Steps-IsRunning first last before a b steps)

-- From a new manager over a range that ends before the last `u16`, while at most one call of `spawn`
-- is under way at a time and children are stopped and checked at any moment of it: every child's port
-- lies in the range, and no two agents' children have the same port.
pub ports_stay_distinct :
    (first last : ℕ) (s : System)
    → first ≤ last
    → last < 65_535
    → Steps 1 (initial first last) s
    → ((id : String) (process : ManagedProcess)
        → lookup id s.manager.processes ≡ some process
        → InRange first last process.port)
      × ((id other : String) (process found : ManagedProcess)
          → lookup id s.manager.processes ≡ some process
          → lookup other s.manager.processes ≡ some found
          → process.port ≡ found.port
          → id ≡ other)
ports_stay_distinct first last s a b steps =
    let v = (Steps-IsRunning first last s a b steps).sound in (v.within, v.apart)
