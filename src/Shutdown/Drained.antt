-- ===== src/Shutdown/Drained.antt =====
-- What a drain of shutdown.rs has waited for.
use adk_gateway.Common.{
  ℕ, zero, suc, ◌+◌, ◌-◌, ◌*◌, ◌<◌, true, false, if◌then◌else◌, ◌≡◌, refl, ◌⊎◌, inl, inr, arith,
  Bool-cases, subst,
}
use adk_gateway.Shutdown.{
  with_drain_timeout, enter, leave, mark_restart, stop_accepting, cancel, acquire,
}
use adk_gateway.Shutdown.Interleaving.{
  System, initial, Step, tests, adds, admits, refuses, undoes, drops, marks, restarts, stops,
  sees_zero, times_out, finishes, gives_up, Steps, here, then_step, Settles, still, refused_next,
  undone_next, dropped_next,
}

pub record IsCounted (s : System) : Type 0 where
  pub balanced : s.coordinator.in_flight ≡ s.counted + s.refused + s.holding
  pub closed :
      (0 < s.draining + s.settled + s.expired) ⊎ (s.coordinator.cancelled ≡ true)
      → s.coordinator.accepting ≡ false
  pub emptied : 0 < s.settled → s.holding ≡ 0
  pub ended : s.drained ≡ true → s.coordinator.cancelled ≡ true
  pub empty : s.drained ≡ true → s.holding ≡ 0

initial-IsCounted : (timeout : ℕ) → IsCounted (initial timeout)
unfolding initial with_drain_timeout
initial-IsCounted timeout = ground arith

Step-IsCounted : (s t : System) → Step s t → IsCounted s → IsCounted t
unfolding enter leave mark_restart stop_accepting cancel
Step-IsCounted s t (tests open_) v =
    ground (arith, v.balanced, v.closed, v.emptied, v.ended, v.empty)
Step-IsCounted s t (adds n e) v = ground (arith, v.balanced, v.closed, v.emptied, v.ended, v.empty)
Step-IsCounted s t (admits n e open_) v =
    ground (arith, v.balanced, v.closed, v.emptied, v.ended, v.empty)
Step-IsCounted s t (refuses n e shut) v =
    ground (arith, v.balanced, v.closed, v.emptied, v.ended, v.empty)
Step-IsCounted s t (undoes n e) v =
    ground (arith, v.balanced, v.closed, v.emptied, v.ended, v.empty)
Step-IsCounted s t (drops n e) v = ground (arith, v.balanced, v.closed, v.emptied, v.ended, v.empty)
Step-IsCounted s t marks v = ground (arith, v.balanced, v.closed, v.emptied, v.ended, v.empty)
Step-IsCounted s t (restarts n e) v =
    ground (arith, v.balanced, v.closed, v.emptied, v.ended, v.empty)
Step-IsCounted s t stops v = ground (arith, v.balanced, v.closed, v.emptied, v.ended, v.empty)
Step-IsCounted s t (sees_zero n e zero_left) v =
    ground (arith, v.balanced, v.closed, v.emptied, v.ended, v.empty)
Step-IsCounted s t (times_out n e) v =
    ground (arith, v.balanced, v.closed, v.emptied, v.ended, v.empty)
Step-IsCounted s t (finishes n e) v =
    ground (arith, v.balanced, v.closed, v.emptied, v.ended, v.empty)
Step-IsCounted s t (gives_up n e) v =
    ground (arith, v.balanced, v.closed, v.emptied, v.ended, v.empty)

Steps-IsCounted : {s t : System} → Steps s t → IsCounted s → IsCounted t
Steps-IsCounted here v = v
Steps-IsCounted (then_step {t} {u} steps step) v = Step-IsCounted t u step (Steps-IsCounted steps v)

-- However the callers interleave, the counter is the guards that are held and the callers of
-- `acquire` between its addition and its end. And once a shutdown or a restart has drained without
-- its timeout, no guard is held, none is ever given again, and the token is cancelled: no message is
-- being handled when the process goes down.
pub drained_holds_none :
    (timeout : ℕ) (s : System)
    → Steps (initial timeout) s
    → (s.coordinator.in_flight ≡ s.counted + s.refused + s.holding)
      × (s.drained ≡ true
          → (s.holding ≡ 0) × (s.coordinator.accepting ≡ false) × (s.coordinator.cancelled ≡ true))
drained_holds_none timeout s steps =
    let v = Steps-IsCounted steps (initial-IsCounted timeout) in
    (v.balanced, λ d. (v.empty d, v.closed (inr (v.ended d)), v.ended d))

ℕ-cases : (n : ℕ) → (n ≡ 0) ⊎ ((m : ℕ) × (n ≡ suc m))
ℕ-cases zero = inl refl
ℕ-cases (suc m) = inr (m, refl)

-- Each of these is a step of the whole relation, so they lead from a state that the callers reach to
-- another.
Settles-Steps : {s t u : System} {n : ℕ} → Steps s t → Settles t n u → Steps s u
Settles-Steps steps still = steps
Settles-Steps steps (refused_next n e shut rest) =
    Settles-Steps (then_step steps (refuses n e shut)) rest
Settles-Steps steps (undone_next n e rest) = Settles-Steps (then_step steps (undoes n e)) rest
Settles-Steps steps (dropped_next n e rest) = Settles-Steps (then_step steps (drops n e)) rest

-- A caller that has added itself has two steps to go, the others one.
abbrev pub steps_left : System → ℕ
steps_left s = 2 * s.counted + s.refused + s.holding

Settles-counts :
    {s t : System} {n : ℕ}
    → Settles s n t
    → (n + steps_left t ≡ steps_left s) × (t.draining ≡ s.draining)
Settles-counts still = (omega arith, refl)
Settles-counts (refused_next n e shut rest) =
    let (size, same) = Settles-counts rest in (omega (arith, size, e), same)
Settles-counts (undone_next n e rest) =
    let (size, same) = Settles-counts rest in (omega (arith, size, e), same)
Settles-counts (dropped_next n e rest) =
    let (size, same) = Settles-counts rest in (omega (arith, size, e), same)

settle_rest :
    (n : ℕ) (s : System)
    → s.coordinator.accepting ≡ false
    → steps_left s ≡ n
    → (t : System) × Settles s n t
unfolding leave
settle_rest zero s shut size = (s, still)
settle_rest (suc n) s shut size = elim (ℕ-cases s.counted) [
  | inr (k, e) ↦
      let (t, rest) =
        settle_rest n (record s { counted = k; refused = suc s.refused }) shut
          (omega (arith, size, e)) in
      (t, refused_next k e shut rest)
  | inl none_counted ↦ elim (ℕ-cases s.refused) [
    | inr (k, e) ↦
        let (t, rest) =
          settle_rest n (record s { coordinator = leave s.coordinator; refused = k }) shut
            (omega (arith, size, e)) in
        (t, undone_next k e rest)
    | inl none_refused ↦
        let e : s.holding ≡ suc (s.holding - 1) = omega arith in
        let (t, rest) =
          settle_rest n (record s { coordinator = leave s.coordinator; holding = s.holding - 1 })
            shut (omega (arith, size, e)) in
        (t, dropped_next (s.holding - 1) e rest)
  ]
]

-- A drain never gets stuck. From any state that the callers can reach while drains wait, let those move
-- who hold the counter up, in any order, with no new caller and no timeout. After any number of such
-- steps the same drains wait, and either that number is `steps_left`, the counter is 0 and no message
-- is accepted, so that the next poll ends the drain; or it is smaller, and they can take the rest.
pub drain_can_finish :
    (timeout : ℕ) (s : System) (n : ℕ) (t : System)
    → Steps (initial timeout) s
    → 0 < s.draining
    → Settles s n t
    → (t.draining ≡ s.draining)
      × (((n ≡ steps_left s) × (t.coordinator.in_flight ≡ 0) × (t.coordinator.accepting ≡ false))
          ⊎ ((n < steps_left s) × ((u : System) × Settles t (steps_left s - n) u)))
drain_can_finish timeout s n t steps some_drain settles =
    let (size, same) = Settles-counts settles in
    let v = Steps-IsCounted (Settles-Steps steps settles) (initial-IsCounted timeout) in
    let shut = v.closed (inl (omega (arith, same))) in
    (
      same,
      elim (ℕ-cases (steps_left t)) [
        | inl e ↦ inl (omega (arith, size, e), omega (arith, v.balanced, e), shut)
        | inr (k, e) ↦
            inr
              (omega (arith, size, e), settle_rest (steps_left s - n) t shut (omega (arith, size)))
      ],
    )

-- `acquire` without anybody in between is a run of the steps, and gives a guard while accepting.
pub acquire-Steps :
    (s : System)
    → Steps s (record s {
      coordinator = (acquire s.coordinator).0;
      holding = s.holding + (if (acquire s.coordinator).1 then 1 else 0);
    })
unfolding acquire enter leave
acquire-Steps s = elim (Bool-cases s.coordinator.accepting) [
  | inl e ↦
      let chain : Steps s
          (record s { coordinator = enter s.coordinator; holding = suc s.holding }) =
        then_step (then_step (then_step here (tests e)) (adds s.checked refl))
          (admits s.counted refl e) in
      subst (λ u. Steps s u) (ground arith) chain
  | inr e ↦ let rest : Steps s s = here in subst (λ u. Steps s u) (ground arith) rest
]
