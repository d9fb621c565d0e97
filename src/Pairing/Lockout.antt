-- ===== src/Pairing/Lockout.antt =====
-- The lockout of pairing.rs: failed attempts are counted, and the third one locks the user out.
use adk_gateway.Common.{
  ℕ, ◌+◌, ◌-◌, ◌≤◌, ◌<◌, String, List, [], ◌∷◌, Option, none, some, Bool, not, ◌&&◌, if◌then◌else◌,
  leb, is_some, ◌≡◌, refl, inl, inr, arith, Option-cases, Bool-cases,
}
use adk_gateway.Common.Map.{
  Map, lookup, insert, remove, retain, lookup-insert, lookup-remove, lookup-retain, Unique,
  insert-Unique, remove-Unique, retain-Unique,
}
use adk_gateway.Pairing.{
  PairingCode, LockoutInfo, PairedUser, PairingService, invalid_code, locked, is_locked,
  generate_code, counted_failure, or_insert, record_failure, accept, try_code, lock_of, locked_at,
  validate_code, restore_paired_users, cleanup, new,
}
use adk_gateway.Pairing.Codes.{Call, generates, validates, restores, cleans, perform, run}

-- While a user is locked out, every code is answered with the end of the lockout, and nothing
-- changes, however often it is tried: the lockout is not prolonged, and no code is used up.
pub validate_code-locked :
    (s : PairingService) (user code channel : String) (now until : ℕ) (info : LockoutInfo)
    → lookup user s.lockouts ≡ some info
    → info.locked_until ≡ some until
    → now < until
    → validate_code s user code channel now ≡ (s, locked until)
unfolding validate_code
validate_code-locked s user code channel now until info found l early = ground arith

-- The failures that still count against a user: those of an expired lockout do not.
abbrev pub standing_failures : Option LockoutInfo → ℕ → ℕ
standing_failures none now = 0
standing_failures (some info) now =
    if not (locked_at info.locked_until now) && is_some info.locked_until
    then 0
    else info.failed_attempts

-- A lockout entry counts one to three failures, and locks exactly at three.
pub record IsCounted (info : LockoutInfo) : Type 0 where
  pub counts : (1 ≤ info.failed_attempts) × (info.failed_attempts ≤ 3)
  pub locks : is_some info.locked_until ≡ leb 3 info.failed_attempts

abbrev pub AllCounted : Map LockoutInfo → Type 0
AllCounted m =
    Unique m × ((user : String) (info : LockoutInfo) → lookup user m ≡ some info → IsCounted info)

insert-AllCounted :
    (user : String) (info : LockoutInfo) (m : Map LockoutInfo)
    → IsCounted info
    → AllCounted m
    → AllCounted (insert user info m)
insert-AllCounted user info m c (u, all) = (
  insert-Unique user info m u,
  λ other held h. ground (arith, lookup-insert user other info m, all other held),
)

remove-AllCounted :
    (user : String) (m : Map LockoutInfo) → AllCounted m → AllCounted (remove user m)
remove-AllCounted user m (u, all) = (
  remove-Unique user m u,
  λ other held h. ground (arith, lookup-remove user other m, all other held),
)

retain-AllCounted :
    (keep : LockoutInfo → Bool) (m : Map LockoutInfo) → AllCounted m → AllCounted (retain keep m)
retain-AllCounted keep m (u, all) = (
  retain-Unique keep m u,
  λ other held h. ground (arith, lookup-retain keep other m u, all other held),
)

-- The entry that a failure leaves.
abbrev pub after_failure : Option LockoutInfo → ℕ → LockoutInfo
after_failure o now = record {
  failed_attempts = standing_failures o now + 1;
  locked_until = if leb 2 (standing_failures o now) then some (now + 900_000) else none;
}

standing_le :
    (o : Option LockoutInfo) (now : ℕ)
    → ((info : LockoutInfo) → o ≡ some info → IsCounted info)
    → lock_of o now ≡ none
    → standing_failures o now ≤ 2
standing_le none now c l = omega arith
standing_le (some info) now c l =
    let counted : IsCounted info = c info refl in ground (arith, counted.counts, counted.locks)

-- A failure is counted on top of those that stand, and clears a lock that has expired.
counted_failure_lem :
    (o : Option LockoutInfo) (now : ℕ)
    → ((info : LockoutInfo) → o ≡ some info → IsCounted info)
    → lock_of o now ≡ none
    → counted_failure (or_insert o) now
      ≡ record { failed_attempts = standing_failures o now + 1; locked_until = none }
unfolding counted_failure is_locked
counted_failure_lem none now c l = refl
counted_failure_lem (some info) now c l = elim (Option-cases info.locked_until) [
  | inl e ↦ ground arith
  | inr (until, e) ↦ ground arith
]

record_failure_entry :
    (s : PairingService) (user : String) (now : ℕ)
    → AllCounted s.lockouts
    → lock_of (lookup user s.lockouts) now ≡ none
    → record_failure s user now ≡ (
      record s { lockouts = insert user (after_failure (lookup user s.lockouts) now) s.lockouts },
      if leb 2 (standing_failures (lookup user s.lockouts) now)
          then locked (now + 900_000)
          else invalid_code (2 - standing_failures (lookup user s.lockouts) now),
    )
unfolding record_failure
record_failure_entry s user now (u, all) l =
    let count = counted_failure_lem (lookup user s.lockouts) now (all user) l in
    rw count (elim (Bool-cases (leb 2 (standing_failures (lookup user s.lockouts) now))) [
      | inl e ↦ ground arith
      | inr e ↦ ground arith
    ])

after_failure-IsCounted :
    (o : Option LockoutInfo) (now : ℕ)
    → ((info : LockoutInfo) → o ≡ some info → IsCounted info)
    → lock_of o now ≡ none
    → IsCounted (after_failure o now)
after_failure-IsCounted o now c l = record {
  counts = ground (arith, standing_le o now c l);
  locks = ground (arith, standing_le o now c l);
}

record_failure-AllCounted :
    (s : PairingService) (user : String) (now : ℕ)
    → AllCounted s.lockouts
    → lock_of (lookup user s.lockouts) now ≡ none
    → AllCounted (record_failure s user now).0.lockouts
record_failure-AllCounted s user now c l = rw (record_failure_entry s user now c l) (
    insert-AllCounted user (after_failure (lookup user s.lockouts) now) s.lockouts
      (after_failure-IsCounted (lookup user s.lockouts) now (c.1 user) l) c)

try_code-AllCounted :
    (s : PairingService) (user code : String) (o : Option PairingCode) (channel : String) (now : ℕ)
    → AllCounted s.lockouts
    → lock_of (lookup user s.lockouts) now ≡ none
    → AllCounted (try_code s user code o channel now).0.lockouts
unfolding try_code accept
try_code-AllCounted s user code none channel now c l = record_failure-AllCounted s user now c l
try_code-AllCounted s user code (some pc) channel now c l =
    let gone = remove-AllCounted user s.lockouts c in ground arith

validate_code-AllCounted :
    (s : PairingService) (user code channel : String) (now : ℕ)
    → AllCounted s.lockouts
    → AllCounted (validate_code s user code channel now).0.lockouts
unfolding validate_code
validate_code-AllCounted s user code channel now c =
    elim (Option-cases (lock_of (lookup user s.lockouts) now)) [
      | inl e ↦
          rw (e, validate_code)
            (try_code-AllCounted s user code (lookup code s.codes) channel now c e)
      | inr (until, e) ↦ rw (e, validate_code) c
    ]

restore_lockouts :
    (s : PairingService) (users : List PairedUser)
    → (restore_paired_users s users).lockouts ≡ s.lockouts
unfolding restore_paired_users
restore_lockouts s [] = refl
restore_lockouts s (u ∷ us) =
    restore_lockouts (record s { paired_users = insert u.user_id u s.paired_users }) us

perform-AllCounted :
    (s : PairingService) (c : Call) → AllCounted s.lockouts → AllCounted (perform s c).lockouts
unfolding perform generate_code cleanup
perform-AllCounted s (generates code now) all = all
perform-AllCounted s (validates user code channel now) all =
    validate_code-AllCounted s user code channel now all
perform-AllCounted s (restores users) all = rw (restore_lockouts s users) all
perform-AllCounted s (cleans now) all =
    retain-AllCounted (λ info. is_locked info now) s.lockouts all

run-AllCounted :
    (s : PairingService) (cs : List Call) → AllCounted s.lockouts → AllCounted (run s cs).lockouts
unfolding run
run-AllCounted s [] all = all
run-AllCounted s (c ∷ cs) all = run-AllCounted (perform s c) cs (perform-AllCounted s c all)

run-new-AllCounted : (cs : List Call) → AllCounted (run new cs).lockouts
unfolding new lookup
run-new-AllCounted cs = run-AllCounted new cs (tt, λ user info h. ground arith)

-- After any calls, a code the service does not hold, from a user who is not locked out, counts one
-- failure on top of those that stand (an expired lockout's do not), which are at most two: the third
-- locks the user out for 15 minutes, an earlier one is answered with the attempts that remain, and
-- nothing but the user's lockout entry changes.
pub validate_code-wrong :
    (cs : List Call) (user code channel : String) (now : ℕ)
    → lookup code (run new cs).codes ≡ none
    → lock_of (lookup user (run new cs).lockouts) now ≡ none
    → (standing_failures (lookup user (run new cs).lockouts) now ≤ 2)
      × (validate_code (run new cs) user code channel now ≡ (
        record (run new cs) {
          lockouts =
              insert user
                (after_failure (lookup user (run new cs).lockouts) now)
                (run new cs).lockouts;
        },
        if leb 2 (standing_failures (lookup user (run new cs).lockouts) now)
            then locked (now + 900_000)
            else invalid_code (2 - standing_failures (lookup user (run new cs).lockouts) now),
      ))
unfolding validate_code try_code
validate_code-wrong cs user code channel now missing l =
    let all = run-new-AllCounted cs in
    (
      standing_le (lookup user (run new cs).lockouts) now (all.1 user) l,
      rw (l, missing, validate_code, try_code) (record_failure_entry (run new cs) user now all l),
    )
