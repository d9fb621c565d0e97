-- ===== src/Processes/Allocation.antt =====
-- Which port process_manager.rs allocates, and when it finds none.
use adk_gateway.Common.{
  ℕ, zero, suc, ◌+◌, ◌-◌, ◌%◌, ◌≤◌, ◌<◌, Option, none, some, Bool, true, false, not, ◌&&◌,
  if◌then◌else◌, leb, ltb, ◌≡◌, refl, ◌↔◌, inl, inr, arith, Bool-cases, Option-cases,
}
use adk_gateway.Processes.{ProcessManager, Free, allocate_from, allocate_port, is_port_active}

-- The round in which the loop tries a port of the range, counted from 0: those from the next port to
-- the end first, then one round that only goes back to the beginning, then those from there.
abbrev pub round_of : ℕ → ℕ → ℕ → ℕ → ℕ
round_of first last next port =
    if leb next port then port - next else (last + 1 - next) + 1 + (port - first)

pub record InRange (first last port : ℕ) : Type 0 where
  pub above : first ≤ port
  pub below : port ≤ last

-- What one call of the loop leaves and finds.
record Allocates (usable : ℕ → Bool) (first last rounds next : ℕ) (result : ℕ × Option ℕ)
    : Type 0 where
  pub next_above : first ≤ result.0
  pub next_below : result.0 ≤ last + 1
  pub found :
      (port : ℕ)
      → result.1 ≡ some port
      → InRange first last port × (usable port ≡ true) × (round_of first last next port < rounds)
  pub missed :
      (port : ℕ)
      → result.1 ≡ none
      → InRange first last port
      → usable port ≡ true
      → rounds ≤ round_of first last next port

allocate_from-Allocates :
    (usable : ℕ → Bool) (first last rounds next : ℕ)
    → first ≤ last
    → last < 65_535
    → first ≤ next
    → next ≤ last + 1
    → Allocates usable first last rounds next (allocate_from usable first last rounds next)
unfolding allocate_from
allocate_from-Allocates usable first last zero next a b c d = record {
  next_above = c;
  next_below = d;
  found = λ port h. absurd (ground arith);
  missed = λ port h i u. omega arith;
}
allocate_from-Allocates usable first last (suc rounds) next a b c d =
    elim (Bool-cases (ltb last next)) [
      | inl over ↦
          let rest =
            allocate_from-Allocates usable first last rounds first a b (omega arith)
              (omega arith) in
          rw over (record {
            next_above = rest.next_above;
            next_below = rest.next_below;
            found = λ port h. ground (arith, rest.found port h);
            missed = λ port h i u. ground (arith, rest.missed port h i u, i.above, i.below);
          })
      | inr within ↦ elim (Bool-cases (usable next)) [
        | inl good ↦
            let e : (next + 1) % 65_536 ≡ next + 1 = ground arith in
            rw (within, good, e)
              (record {
                next_above = omega arith;
                next_below = ground arith;
                found = λ port h. ground arith;
                missed = λ port h i u. ground arith;
              })
        | inr bad ↦
            let e : (next + 1) % 65_536 ≡ next + 1 = ground arith in
            let rest =
              allocate_from-Allocates usable first last rounds (next + 1) a b (omega arith)
                (ground arith) in
            rw (within, bad, e)
              (record {
                next_above = rest.next_above;
                next_below = rest.next_below;
                found = λ port h. ground (arith, rest.found port h);
                missed = λ port h i u. ground (arith, rest.missed port h i u, i.above, i.below);
              })
      ]
    ]

-- A port of the range that no child has and that the system can bind.
abbrev pub Usable : ProcessManager → Free → ℕ → Type 0
Usable manager free port =
    InRange manager.first_port manager.last_port port
    × (is_port_active manager port ≡ false)
    × (free port ≡ true)

pub record InBounds (manager : ProcessManager) : Type 0 where
  pub ordered : manager.first_port ≤ manager.last_port
  pub fits : manager.last_port < 65_535
  pub next_above : manager.first_port ≤ manager.next_port
  pub next_below : manager.next_port ≤ manager.last_port + 1

allocate_port-Allocates :
    (manager : ProcessManager) (free : Free)
    → InBounds manager
    → Allocates
        (λ p. not (is_port_active manager p) && free p)
        manager.first_port
        manager.last_port
        (manager.last_port - manager.first_port + 1)
        manager.next_port
        ((allocate_port manager free).0.next_port, (allocate_port manager free).1)
unfolding allocate_port
allocate_port-Allocates manager free h =
    let e : (manager.last_port - manager.first_port + 1) % 65_536
        ≡ manager.last_port - manager.first_port + 1 =
      omega (arith, h.ordered, h.fits) in
    rw e (
      allocate_from-Allocates (λ p. not (is_port_active manager p) && free p) manager.first_port
        manager.last_port (manager.last_port - manager.first_port + 1) manager.next_port h.ordered
        h.fits h.next_above h.next_below)

-- allocate_port, for a range that ends before the last `u16`: a port that it finds lies in the range, is
-- no child's and can be bound; and it finds none exactly when every such port is the one just
-- before the next port, since the round that goes back to the beginning costs one try.
pub allocate_port-Usable :
    (manager : ProcessManager) (free : Free)
    → InBounds manager
    → ((port : ℕ) → (allocate_port manager free).1 ≡ some port → Usable manager free port)
      × ((allocate_port manager free).1 ≡ none
          ↔ ((port : ℕ) → Usable manager free port → port + 1 ≡ manager.next_port))
allocate_port-Usable manager free h =
    let result = allocate_port-Allocates manager free h in
    (
      λ port found. ground (arith, result.found port found),
      (
        λ missing port u.
            ground (arith, result.missed port missing, h.next_above, h.next_below, h.ordered),
        λ near. elim (Option-cases (allocate_port manager free).1) [
          | inl e ↦ e
          | inr (port, e) ↦
              ground (arith, result.found port e, near port, h.next_above, h.next_below, h.ordered)
        ],
      ),
    )

-- The call moves the next port alone, and keeps it in its bounds.
pub record Advances (before after : ProcessManager) : Type 0 where
  pub processes : after.processes ≡ before.processes
  pub first : after.first_port ≡ before.first_port
  pub last : after.last_port ≡ before.last_port
  pub above : before.first_port ≤ after.next_port
  pub below : after.next_port ≤ before.last_port + 1

pub allocate_port-Advances :
    (manager : ProcessManager) (free : Free)
    → InBounds manager
    → Advances manager (allocate_port manager free).0
unfolding allocate_port
allocate_port-Advances manager free h =
    let result = allocate_port-Allocates manager free h in
    record {
      processes = refl;
      first = refl;
      last = refl;
      above = result.next_above;
      below = result.next_below;
    }
