-- ===== src/Pairing/InTurn.antt =====
-- `validate_code` of pairing.rs without anybody in between, as a run of its concurrent steps.
use adk_gateway.Common.{
  ℕ, String, List, [], ◌∷◌, Option, none, some, true, false, not, ◌||◌, ltb, if◌then◌else◌, ◌≡◌,
  refl, inl, inr, arith, Bool-cases, Option-cases,
}
use adk_gateway.Common.Map.{lookup}
use adk_gateway.Pairing.{
  PairingService, PairingResult, is_valid, accept, try_code, lock_of, validate_code,
}
use adk_gateway.Pairing.Codes.{is_success, record_failure_lem}
use adk_gateway.Pairing.Concurrent.{
  Attempt, at_rest, begins, misses, fails, refuses, passes, marks, pairs, returns, Steps, here,
  next,
}

-- The calls that have succeeded, after one more has returned.
abbrev pub with_outcome : PairingService × PairingResult → Attempt → List Attempt → List Attempt
with_outcome called attempt succeeded =
    if is_success called.1 then attempt ∷ succeeded else succeeded

abbrev nothing_generated : Option String
nothing_generated = none

-- A call that nobody interrupts is a run of the steps, and returns `Success` where they do: so what
-- holds of every interleaving holds of calls that follow one another.
pub validate_code-Steps :
    (other : String) (s : PairingService) (user code channel : String) (now : ℕ)
    (succeeded : List Attempt)
    → let attempt : Attempt = record { user = user; code = code; channel = channel } in
      Steps other (at_rest s succeeded) (
        at_rest
          (validate_code s user code channel now).0
          (with_outcome (validate_code s user code channel now) attempt succeeded))
unfolding validate_code try_code accept is_valid
validate_code-Steps other s user code channel now succeeded =
    let attempt : Attempt = record { user = user; code = code; channel = channel } in
    let q : nothing_generated ≡ some other → ⊥ = λ h. ground arith in
    elim (Option-cases (lock_of (lookup user s.lockouts) now)) [
      | inr (until, e) ↦ rw (e, validate_code) here
      | inl e ↦ elim (Option-cases (lookup code s.codes)) [
        | inl f ↦
            rw (e, f, validate_code, try_code, (record_failure_lem s user now).1)
              (next (next (next here (begins attempt now e) q) (misses [] [] attempt refl f) q)
                (fails [] [] attempt now refl) q)
        | inr (pc, f) ↦ elim (Bool-cases (pc.used || not (is_valid pc now))) [
          | inl bad ↦
              let run =
                next (next here (begins attempt now e) q) (refuses [] [] attempt pc now refl f bad)
                  q in
              elim (Bool-cases pc.used) [
                | inl u ↦ rw (e, f, validate_code, try_code, u) run
                | inr u ↦
                    let invalid : ltb now pc.expires_at ≡ false = ground (arith, bad, u) in
                    rw (e, f, validate_code, try_code, u, invalid) run
              ]
          | inr good ↦
              let u : pc.used ≡ false = ground (arith, good) in
              let valid : ltb now pc.expires_at ≡ true = ground (arith, good) in
              rw (e, f, validate_code, try_code, u, valid)
                (next
                  (next
                    (next
                      (next (next here (begins attempt now e) q)
                        (passes [] [] attempt pc now refl f good) q)
                      (marks [] [] attempt refl) q)
                    (pairs [] [] attempt now refl) q)
                  (returns [] [] attempt refl) q)
        ]
      ]
    ]
