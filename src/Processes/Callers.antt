-- ===== src/Processes/Callers.antt =====
-- The one caller of `spawn` in process_manager.rs that is under way, by how far it is.
use adk_gateway.Common.{
  ℕ, suc, ◌+◌, ◌≤◌, ◌<◌, List, [], ◌∷◌, ◌++◌, false, ltb, length, ◌≡◌, refl, arith,
}
use adk_gateway.Processes.{ProcessManager, as_u16, is_port_active}
use adk_gateway.Processes.Allocation.{InRange}
use adk_gateway.Processes.Sound.{IsSound, moved-IsSound}
use adk_gateway.Processes.Concurrent.{
  Spawning, allocating, wrapping, looking, binding, allocated, System, with_next,
}

pub record NextInRange (manager : ProcessManager) : Type 0 where
  pub above : manager.first_port ≤ manager.next_port
  pub below : manager.next_port ≤ manager.last_port + 1

pub record IsOpen (manager : ProcessManager) (port : ℕ) : Type 0 where
  pub range : InRange manager.first_port manager.last_port port
  pub inactive : is_port_active manager port ≡ false

-- What holds of the one caller, and of the next port meanwhile.
abbrev pub IsCaller : ProcessManager → Spawning → Type 0
IsCaller manager (allocating id rounds) = NextInRange manager
IsCaller manager (wrapping id rounds) = Unit
IsCaller manager (looking id rounds port) =
    NextInRange manager × InRange manager.first_port manager.last_port port
IsCaller manager (binding id rounds port) = NextInRange manager × IsOpen manager port
IsCaller manager (allocated id port) = NextInRange manager × IsOpen manager port

abbrev pub AreCallers : ProcessManager → List Spawning → Type 0
AreCallers manager [] = NextInRange manager
AreCallers manager (caller ∷ []) = IsCaller manager caller
AreCallers manager (caller ∷ other ∷ rest) = ⊥

pub record IsRunning (first last : ℕ) (s : System) : Type 0 where
  pub sound : IsSound first last s.manager
  pub callers : AreCallers s.manager s.spawning

-- The caller that moves is the only one.
pub alone :
    (manager : ProcessManager) {spawning rest : List Spawning} {caller : Spawning}
    → spawning ≡ caller ∷ rest
    → AreCallers manager spawning
    → (rest ≡ []) × IsCaller manager caller
alone manager {rest = []} e c = (refl, rw e at c)
alone manager {rest = other ∷ rest} e c = absurd (rw e at c)

-- The caller that takes its turn has been the first before.
pub turned :
    (before after : List Spawning) (caller : Spawning) {spawning : List Spawning}
    → length (caller ∷ (before ++ after)) ≤ 1
    → spawning ≡ before ++ (caller ∷ after)
    → spawning ≡ caller ∷ (before ++ after)
turned [] after caller few e = e
turned (first ∷ before) after caller few e = absurd (omega (arith, few))

pub nobody : {spawning : List Spawning} → suc (length spawning) ≤ 1 → spawning ≡ []
nobody {spawning = []} few = refl
nobody {spawning = first ∷ rest} few = absurd (omega (arith, few))

pub alone-IsRunning :
    {first last : ℕ} {t : System} {caller : Spawning} {rest : List Spawning}
    → IsSound first last t.manager
    → IsCaller t.manager caller
    → rest ≡ []
    → t.spawning ≡ caller ∷ rest
    → IsRunning first last t
alone-IsRunning sound is none_other e = record { sound = sound; callers = rw (e, none_other) is }

pub idle-IsRunning :
    {first last : ℕ} {t : System}
    → IsSound first last t.manager
    → NextInRange t.manager
    → t.spawning ≡ []
    → IsRunning first last t
idle-IsRunning sound in_range e = record { sound = sound; callers = rw e in_range }

-- What another call does to the map keeps the bounds, and the port that the caller has open.
pub kept-AreCallers :
    (manager after : ProcessManager) (spawning : List Spawning)
    → after.first_port ≡ manager.first_port
    → after.last_port ≡ manager.last_port
    → after.next_port ≡ manager.next_port
    → ((port : ℕ) → is_port_active manager port ≡ false → is_port_active after port ≡ false)
    → AreCallers manager spawning
    → AreCallers after spawning
kept-AreCallers manager after [] f l n k c = record {
  above = omega (arith, f, l, n, c.above);
  below = omega (arith, f, l, n, c.below);
}
kept-AreCallers manager after (allocating id rounds ∷ []) f l n k c = record {
  above = omega (arith, f, l, n, c.above);
  below = omega (arith, f, l, n, c.below);
}
kept-AreCallers manager after (wrapping id rounds ∷ []) f l n k c = tt
kept-AreCallers manager after (looking id rounds port ∷ []) f l n k (c, r) = (
  record { above = omega (arith, f, l, n, c.above); below = omega (arith, f, l, n, c.below) },
  record { above = omega (arith, f, r.above); below = omega (arith, l, r.below) },
)
kept-AreCallers manager after (binding id rounds port ∷ []) f l n k (c, o) = (
  record { above = omega (arith, f, l, n, c.above); below = omega (arith, f, l, n, c.below) },
  record {
    range = record {
      above = omega (arith, f, o.range.above);
      below = omega (arith, l, o.range.below);
    };
    inactive = k port o.inactive;
  },
)
kept-AreCallers manager after (allocated id port ∷ []) f l n k (c, o) = (
  record { above = omega (arith, f, l, n, c.above); below = omega (arith, f, l, n, c.below) },
  record {
    range = record {
      above = omega (arith, f, o.range.above);
      below = omega (arith, l, o.range.below);
    };
    inactive = k port o.inactive;
  },
)
kept-AreCallers manager after (caller ∷ other ∷ rest) f l n k c = absurd c

pub moved_next :
    {first last : ℕ} {manager : ProcessManager} (next_port : ℕ)
    → IsSound first last manager
    → IsSound first last (with_next manager next_port)
moved_next {manager} next_port v =
    moved-IsSound _ _ manager (with_next manager next_port) v refl refl refl

pub fetched :
    (manager : ProcessManager)
    → manager.last_port < 65_535
    → NextInRange manager
    → ltb manager.last_port manager.next_port ≡ false
    → NextInRange (with_next manager (as_u16 (manager.next_port + 1)))
fetched manager fits n within = record {
  above = ground (arith, n.above, within);
  below = ground (arith, n.below, within);
}
