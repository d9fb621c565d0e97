-- ===== src/Shutdown/Examples.antt =====
-- The theorems on shutdown.rs at a concrete run: one message is handled while the shutdown drains.
use adk_gateway.Common.{◌⊎◌, ◌<◌, ◌-◌, ◌+◌, true, false, ◌≡◌, refl, arith}
use adk_gateway.Shutdown.{with_drain_timeout, enter, leave, stop_accepting, cancel}
use adk_gateway.Shutdown.Interleaving.{
  System, initial, tests, adds, admits, drops, stops, sees_zero, finishes, Steps, here, then_step,
  Settles, still, dropped_next,
}
use adk_gateway.Shutdown.Drained.{drained_holds_none, drain_can_finish, steps_left}

abbrev stopping : System
stopping = record {
  coordinator = record {
    in_flight = 1;
    accepting = false;
    cancelled = false;
    drain_timeout = 30_000;
    restart_initiated = false;
  };
  checked = 0;
  counted = 0;
  refused = 0;
  holding = 1;
  restarting = 0;
  draining = 1;
  settled = 0;
  expired = 0;
  drained = false;
}

abbrev drained : System
drained = record {
  coordinator = record {
    in_flight = 0;
    accepting = false;
    cancelled = true;
    drain_timeout = 30_000;
    restart_initiated = false;
  };
  checked = 0;
  counted = 0;
  refused = 0;
  holding = 0;
  restarting = 0;
  draining = 0;
  settled = 0;
  expired = 0;
  drained = true;
}

until_stopping : Steps (initial 30_000) stopping
unfolding initial with_drain_timeout enter stop_accepting
until_stopping =
    then_step
      (then_step (then_step (then_step here (tests refl)) (adds 0 refl)) (admits 0 refl refl)) stops

until_drained : Steps (initial 30_000) drained
unfolding leave cancel
until_drained =
    then_step (then_step (then_step until_stopping (drops 0 refl)) (sees_zero 0 refl refl))
      (finishes 0 refl)

drained_holds_none_example :
    (drained.coordinator.in_flight ≡ drained.counted + drained.refused + drained.holding)
    × (drained.drained ≡ true
        → (drained.holding ≡ 0)
          × (drained.coordinator.accepting ≡ false)
          × (drained.coordinator.cancelled ≡ true))
drained_holds_none_example = drained_holds_none 30_000 drained until_drained

abbrev emptied : System
emptied = record stopping { coordinator = leave stopping.coordinator; holding = 0 }

until_emptied : Settles stopping 1 emptied
until_emptied = dropped_next 0 refl still

drain_can_finish_example :
    (emptied.draining ≡ 1)
    × (((1 ≡ steps_left stopping)
          × (emptied.coordinator.in_flight ≡ 0)
          × (emptied.coordinator.accepting ≡ false))
        ⊎ ((1 < steps_left stopping)
            × ((u : System) × Settles emptied (steps_left stopping - 1) u)))
drain_can_finish_example =
    drain_can_finish 30_000 stopping 1 emptied until_stopping (omega arith) until_emptied
