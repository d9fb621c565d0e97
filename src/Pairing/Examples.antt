-- ===== src/Pairing/Examples.antt =====
-- The theorems on pairing.rs at concrete calls.
use adk_gateway.Common.{
  String, List, [], ◌∷◌, none, some, ◌≡◌, refl, ◌↔◌, ◌≤◌, ◌<◌, false, ◌||◌, ◌&&◌, str_eq,
  if◌then◌else◌, leb, ◌-◌, ◌+◌, arith,
}
use adk_gateway.Common.Map.{lookup, insert}
use adk_gateway.Pairing.{
  PairingCode, LockoutInfo, PairingService, success, locked, invalid_code, new, validate_code,
  is_paired, lock_of, fresh_code, used_of, is_valid, mark_used, pair_user, forget_lockout,
}
use adk_gateway.Pairing.Codes.{Call, validates, run, perform, is_success, validate_code-success}
use adk_gateway.Pairing.Concurrent.{
  Attempt, System, at_rest, begins, passes, marks, pairs, returns, Steps, here, next,
}
use adk_gateway.Pairing.Once.{marking, pairings, attempts, code_pairs_once}
use adk_gateway.Pairing.Lockout.{validate_code-wrong, standing_failures, after_failure}

abbrev with_code : PairingService
with_code = record {
  codes = ("123456", fresh_code "123456" 1_000) ∷ [];
  paired_users = [];
  lockouts = [];
}

abbrev held_lock : LockoutInfo
held_lock = record { failed_attempts = 3; locked_until = some 901_000 }

abbrev locked_out : PairingService
locked_out = record with_code { lockouts = ("mallory", held_lock) ∷ [] }

validate_code-success_example :
    (((validate_code with_code "alice" "123456" "telegram" 2_000).1 ≡ success) ↔ (
      (lock_of (lookup "alice" with_code.lockouts) 2_000 ≡ none)
      × ((pc : PairingCode) × (lookup "123456" with_code.codes ≡ some pc)
          × (pc.used ≡ false)
          × (2_000 < pc.expires_at))))
    × ((other : String)
        → is_paired (validate_code with_code "alice" "123456" "telegram" 2_000).0 other ≡ (
            is_paired with_code other
            || (is_success (validate_code with_code "alice" "123456" "telegram" 2_000).1
                && str_eq "alice" other)))
    × ((c : String)
        → lookup c (validate_code with_code "alice" "123456" "telegram" 2_000).0.codes ≡ (
            if is_success (validate_code with_code "alice" "123456" "telegram" 2_000).1
              && str_eq "123456" c
            then used_of (lookup c with_code.codes)
            else lookup c with_code.codes))
validate_code-success_example = validate_code-success with_code "alice" "123456" "telegram" 2_000

abbrev alice : Attempt
alice = record { user = "alice"; code = "123456"; channel = "telegram" }

abbrev bob : Attempt
bob = record { user = "bob"; code = "123456"; channel = "slack" }

-- Both have looked the code up before one of them marks it.
abbrev overlapping : System
overlapping = record (at_rest with_code []) { passed = bob ∷ alice ∷ [] }

until_overlapping : Steps "654321" (at_rest with_code []) overlapping
unfolding lookup is_valid
until_overlapping =
    next
      (next
        (next (next here (begins alice 2_000 refl) (λ h. ground arith)) (begins bob 2_001 refl)
          (λ h. ground arith))
        (passes (bob ∷ []) [] alice (fresh_code "123456" 1_000) 2_002 refl refl refl)
        (λ h. ground arith))
      (passes [] [] bob (fresh_code "123456" 1_000) 2_003 refl refl refl) (λ h. ground arith)

abbrev one_marked : System
one_marked = marking overlapping (bob ∷ []) [] alice

abbrev both_marked : System
both_marked = record {
  service = mark_used (mark_used with_code "123456") "123456";
  unlocked = [];
  failing = [];
  passed = [];
  marked = bob ∷ alice ∷ [];
  paired = [];
  succeeded = [];
}

until_both_marked : Steps "123456" one_marked both_marked
until_both_marked = next here (marks [] [] bob refl) (λ h. ground arith)

-- One code pairs two users whose calls overlap.
both_pair : Steps "123456" both_marked (record both_marked {
  service =
      forget_lockout
        (pair_user
          (forget_lockout (pair_user both_marked.service "alice" "telegram" 2_004) "alice")
          "bob"
          "slack"
          2_005)
        "bob";
  marked = [];
  succeeded = bob ∷ alice ∷ [];
})
both_pair =
    next
      (next
        (next (next here (pairs (bob ∷ []) [] alice 2_004 refl) (λ h. ground arith))
          (returns [] [] alice refl) (λ h. ground arith))
        (pairs [] [] bob 2_005 refl) (λ h. ground arith))
      (returns [] [] bob refl) (λ h. ground arith)

code_pairs_once_example :
    (pairings "123456" one_marked ≤ pairings "123456" both_marked)
    × (pairings "123456" both_marked ≤ pairings "123456" one_marked + attempts "123456" (bob ∷ []))
unfolding lookup
code_pairs_once_example =
    code_pairs_once overlapping both_marked (bob ∷ []) [] alice (refl, tt) refl until_both_marked

abbrev two_failures : List Call
two_failures = validates "eve" "000000" "telegram" 10 ∷ validates "eve" "000001" "telegram" 20 ∷ []

validate_code-wrong_example :
    (standing_failures (lookup "eve" (run new two_failures).lockouts) 30 ≤ 2)
    × (validate_code (run new two_failures) "eve" "000002" "telegram" 30 ≡ (
      record (run new two_failures) {
        lockouts =
            insert "eve"
              (after_failure (lookup "eve" (run new two_failures).lockouts) 30)
              (run new two_failures).lockouts;
      },
      if leb 2 (standing_failures (lookup "eve" (run new two_failures).lockouts) 30)
          then locked (30 + 900_000)
          else invalid_code
              (2 - standing_failures (lookup "eve" (run new two_failures).lockouts) 30),
    ))
unfolding run perform new lookup validate_code insert
validate_code-wrong_example =
    validate_code-wrong two_failures "eve" "000002" "telegram" 30 refl refl
