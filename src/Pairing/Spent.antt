-- ===== src/Pairing/Spent.antt =====
-- A code of pairing.rs that has paired someone, in calls that follow one another.
use adk_gateway.Common.{ℕ, String, List, [], ◌∷◌, ◌≡◌, ◌≢◌, inl, inr, arith, eq_iff, All}
use adk_gateway.Common.Map.{lookup-insert, lookup-retain, Unique, insert-Unique, retain-Unique}
use adk_gateway.Pairing.{
  PairingService, success, is_valid, fresh_code, generate_code, validate_code, cleanup,
}
use adk_gateway.Pairing.Codes.{
  Call, generates, validates, restores, cleans, perform, run, IsSpent, mark_used-Unique,
  validate_code_codes, mark_used-IsSpent, restore_codes, validate_code-success,
}

abbrev pub DoesNotGenerate : String → Call → Type 0
DoesNotGenerate code (generates c now) = c ≢ code
DoesNotGenerate code (validates user c channel now) = Unit
DoesNotGenerate code (restores users) = Unit
DoesNotGenerate code (cleans now) = Unit

perform-IsSpent :
    (code : String) (s : PairingService) (c : Call)
    → DoesNotGenerate code c
    → IsSpent code s
    → IsSpent code (perform s c)
unfolding perform generate_code cleanup
perform-IsSpent code s (generates c now) n sp = record {
  unique = insert-Unique c (fresh_code c now) s.codes sp.unique;
  spent = λ pc h.
      ground (arith, lookup-insert c code (fresh_code c now) s.codes, eq_iff c code, sp.spent pc);
}
perform-IsSpent code s (validates user c channel now) n sp =
    elim (validate_code_codes s user c channel now) [
      | inl e ↦ record { unique = rw e sp.unique; spent = λ pc h. sp.spent pc (rw e at h) }
      | inr e ↦ mark_used-IsSpent s code c sp (validate_code s user c channel now).0 e
    ]
perform-IsSpent code s (restores users) n sp =
    let e = restore_codes s users in
    record { unique = rw e sp.unique; spent = λ pc h. sp.spent pc (rw e at h) }
perform-IsSpent code s (cleans now) n sp = record {
  unique = retain-Unique (λ pc. is_valid pc now) s.codes sp.unique;
  spent = λ pc h.
      ground (arith, lookup-retain (λ pc. is_valid pc now) code s.codes sp.unique, sp.spent pc);
}

run-IsSpent :
    (code : String) (s : PairingService) (cs : List Call)
    → All (DoesNotGenerate code) cs
    → IsSpent code s
    → IsSpent code (run s cs)
unfolding run
run-IsSpent code s [] n sp = sp
run-IsSpent code s (c ∷ cs) (n, ns) sp =
    run-IsSpent code (perform s c) cs ns (perform-IsSpent code s c n sp)

success-IsSpent :
    (s : PairingService) (user code channel : String) (now : ℕ)
    → Unique s.codes
    → (validate_code s user code channel now).1 ≡ success
    → IsSpent code (validate_code s user code channel now).0
success-IsSpent s user code channel now u h =
    let (usable, users, marked) = validate_code-success s user code channel now in
    record {
      unique = elim (validate_code_codes s user code channel now) [
        | inl e ↦ rw e u
        | inr e ↦ rw e (mark_used-Unique s code u)
      ];
      spent = λ pc' found. ground (arith, found, h, marked code, eq_iff code code);
    }

-- Calls that follow one another: after a code has paired someone, none that does not generate the
-- same code anew makes it pair anyone again.
pub code_pairs_once_in_turn :
    (s : PairingService) (user code channel : String) (now : ℕ) (cs : List Call)
    (user' channel' : String) (now' : ℕ)
    → Unique s.codes
    → (validate_code s user code channel now).1 ≡ success
    → All (DoesNotGenerate code) cs
    → (validate_code (run (validate_code s user code channel now).0 cs) user' code channel' now').1
      ≢ success
code_pairs_once_in_turn s user code channel now cs user' channel' now' u paired quiet again =
    let after =
      run-IsSpent code (validate_code s user code channel now).0 cs quiet
        (success-IsSpent s user code channel now u paired) in
    let (locked, (pc, found, fresh, early)) =
      (validate_code-success (run (validate_code s user code channel now).0 cs) user' code channel'
          now').0.0
        again in
    cc (after.spent pc found)
