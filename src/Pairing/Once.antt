-- ===== src/Pairing/Once.antt =====
-- How often a code of pairing.rs pairs when its callers overlap.
use adk_gateway.Common.{
  ℕ, suc, ◌+◌, ◌≤◌, String, List, [], ◌∷◌, ◌++◌, Option, some, true, if◌then◌else◌, str_eq, ◌≡◌,
  refl, inl, inr, arith, Bool-cases, ap, ◌∙◌, eq_iff,
}
use adk_gateway.Common.Map.{Unique, insert-Unique, retain-Unique, lookup-insert, lookup-retain}
use adk_gateway.Pairing.{
  PairingService, is_valid, fresh_code, generate_code, mark_used, pair_user, forget_lockout,
}
use adk_gateway.Pairing.Codes.{
  IsSpent, mark_used-IsSpent, mark_used-Unique, lookup-mark_used, record_failure_codes,
  restore_codes,
}
use adk_gateway.Pairing.Concurrent.{
  Attempt, System, Step, generates, begins, misses, fails, refuses, passes, marks, pairs, returns,
  restores, cleans_codes, cleans_lockouts, Steps, here, next,
}

-- The attempts with a code.
unfoldable pub attempts : String → List Attempt → ℕ
attempts code [] = 0
attempts code (attempt ∷ rest) =
    let later = attempts code rest in if str_eq attempt.code code then suc later else later

attempts-middle :
    (code : String) (before after : List Attempt) (attempt : Attempt)
    → attempts code (before ++ (attempt ∷ after)) ≡ attempts code (attempt ∷ (before ++ after))
unfolding attempts
attempts-middle code [] after attempt = refl
attempts-middle code (first ∷ before) after attempt =
    ground (arith, attempts-middle code before after attempt)

attempts-taken :
    (code : String) (all before after : List Attempt) (attempt : Attempt)
    → all ≡ before ++ (attempt ∷ after)
    → attempts code all ≡ attempts code (attempt ∷ (before ++ after))
attempts-taken code all before after attempt e =
    ap (attempts code) e ∙ attempts-middle code before after attempt

-- The calls that found the code valid, and what they have come to.
abbrev pub accepted : String → System → ℕ
accepted code s =
    attempts code s.passed
    + attempts code s.marked
    + attempts code s.paired
    + attempts code s.succeeded

-- The calls with the code that have marked it, and so pair their user.
abbrev pub pairings : String → System → ℕ
pairings code s = attempts code s.marked + attempts code s.paired + attempts code s.succeeded

moves :
    (code : String) (all before after : List Attempt) (attempt : Attempt) (to : List Attempt)
    → all ≡ before ++ (attempt ∷ after)
    → attempts code all + attempts code to
      ≡ attempts code (before ++ after) + attempts code (attempt ∷ to)
unfolding attempts
moves code all before after attempt to e =
    ground (arith, attempts-taken code all before after attempt e)

-- A spent code stays spent, and no call comes to find it valid.
Step-accepted :
    (code : String) (s t : System) (generated : Option String)
    → Step s generated t
    → (generated ≡ some code → ⊥)
    → IsSpent code s.service
    → IsSpent code t.service
      × (accepted code t ≡ accepted code s)
      × (pairings code s ≤ pairings code t)
unfolding generate_code pair_user forget_lockout attempts
Step-accepted code s t _ (generates c now) quiet sp = (
  record {
    unique = insert-Unique c (fresh_code c now) s.service.codes sp.unique;
    spent = λ pc h. ground (
      arith,
      h,
      lookup-insert c code (fresh_code c now) s.service.codes,
      sp.spent pc,
      Bool-cases (str_eq c code),
      λ (e : str_eq c code ≡ true). quiet (ap some ((eq_iff c code).0 e)),
    );
  },
  refl,
  omega arith,
)
Step-accepted code s t _ (begins attempt now e) quiet sp = (sp, refl, omega arith)
Step-accepted code s t _ (misses before after attempt e f) quiet sp = (sp, refl, omega arith)
Step-accepted code s t _ (fails before after attempt now e) quiet sp =
    let same = record_failure_codes s.service attempt.user now in
    (
      record { unique = rw same sp.unique; spent = λ pc h. sp.spent pc (rw same at h) },
      refl,
      omega arith,
    )
Step-accepted code s t _ (refuses before after attempt pc now e f g) quiet sp =
    (sp, refl, omega arith)
Step-accepted code s t _ (passes before after attempt pc now e f g) quiet sp = (
  sp,
  elim (Bool-cases (str_eq attempt.code code)) [
    | inl same ↦
        let used = sp.spent pc (rw ((eq_iff attempt.code code).0 same) at f) in
        absurd (ground (arith, used, g))
    | inr other ↦ ground (arith, other)
  ],
  omega arith,
)
Step-accepted code s t _ (marks before after attempt e) quiet sp = (
  mark_used-IsSpent s.service code attempt.code sp (mark_used s.service attempt.code) refl,
  omega (arith, moves code s.passed before after attempt s.marked e),
  ground arith,
)
Step-accepted code s t _ (pairs before after attempt now e) quiet sp = (
  record { unique = sp.unique; spent = sp.spent },
  omega (arith, moves code s.marked before after attempt s.paired e),
  omega (arith, moves code s.marked before after attempt s.paired e),
)
Step-accepted code s t _ (returns before after attempt e) quiet sp = (
  record { unique = sp.unique; spent = sp.spent },
  omega (arith, moves code s.paired before after attempt s.succeeded e),
  omega (arith, moves code s.paired before after attempt s.succeeded e),
)
Step-accepted code s t _ (restores users) quiet sp =
    let same = restore_codes s.service users in
    (
      record { unique = rw same sp.unique; spent = λ pc h. sp.spent pc (rw same at h) },
      refl,
      omega arith,
    )
Step-accepted code s t _ (cleans_codes now) quiet sp = (
  record {
    unique = retain-Unique (λ pc. is_valid pc now) s.service.codes sp.unique;
    spent = λ pc h. ground (
      arith,
      h,
      lookup-retain (λ pc. is_valid pc now) code s.service.codes sp.unique,
      sp.spent pc,
    );
  },
  refl,
  omega arith,
)
Step-accepted code s t _ (cleans_lockouts now) quiet sp =
    (record { unique = sp.unique; spent = sp.spent }, refl, omega arith)

Steps-accepted :
    (code : String) (s t : System)
    → Steps code s t
    → IsSpent code s.service
    → IsSpent code t.service
      × (accepted code t ≡ accepted code s)
      × (pairings code s ≤ pairings code t)
Steps-accepted code s t here sp = (sp, refl, omega arith)
Steps-accepted code s t (next {t = before} {generated} steps step quiet) sp =
    let (spent, same, more) = Steps-accepted code s before steps sp in
    let (after, again, still_more) = Step-accepted code before t generated step quiet spent in
    (after, again ∙ same, omega (arith, more, still_more))

-- The state after a caller has marked its code.
abbrev pub marking : System → List Attempt → List Attempt → Attempt → System
marking s before after attempt = record s {
  service = mark_used s.service attempt.code;
  passed = before ++ after;
  marked = attempt ∷ s.marked;
}

marked-IsSpent :
    (s : PairingService) (code : String) → Unique s.codes → IsSpent code (mark_used s code)
marked-IsSpent s code u = record {
  unique = mark_used-Unique s code u;
  spent = λ pc h. ground (arith, h, lookup-mark_used s code code, eq_iff code code);
}

-- However callers overlap: from the moment that a caller marks its code as used, and while the same
-- code is not generated anew, no more callers pair with it than had looked it up before that moment
-- and not yet marked it; and a pairing is never taken back. Without any such caller, the code never
-- pairs again.
pub code_pairs_once :
    (s t : System) (before after : List Attempt) (attempt : Attempt)
    → Unique s.service.codes
    → s.passed ≡ before ++ (attempt ∷ after)
    → Steps attempt.code (marking s before after attempt) t
    → (pairings attempt.code (marking s before after attempt) ≤ pairings attempt.code t)
      × (pairings attempt.code t
          ≤ pairings attempt.code (marking s before after attempt)
            + attempts attempt.code (before ++ after))
code_pairs_once s t before after attempt u e steps =
    let (spent, same, more) =
      Steps-accepted attempt.code (marking s before after attempt) t steps
        (marked-IsSpent s.service attempt.code u) in
    (more, omega (arith, same))
