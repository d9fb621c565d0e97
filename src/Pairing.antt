-- ===== src/Pairing.antt =====
-- pairing.rs: pairing of users by single-use codes, with a lockout after failed attempts. Times are
-- in milliseconds; no time passes within one call, and a poisoned lock is not modelled. The random
-- code of `generate_code` is an argument. A result is read with the state that follows it.
pub mod Codes
pub mod Spent
pub mod Concurrent
pub mod Once
pub mod InTurn
pub mod Lockout
pub mod Examples
use adk_gateway.Common.{
  ℕ, ◌+◌, ◌-◌, ◌*◌, String, List, [], ◌∷◌, Option, none, some, Bool, true, false, not, ◌&&◌,
  if◌then◌else◌, ltb, leb, is_some,
}
use adk_gateway.Common.Map.{Map, lookup, insert, remove, retain, contains_key}

pub record PairingCode : Type 0 where
  pub code : String
  pub created_at : ℕ
  pub expires_at : ℕ
  pub used : Bool

unfoldable pub is_valid : PairingCode → ℕ → Bool
is_valid pc now = not pc.used && ltb now pc.expires_at

pub record LockoutInfo : Type 0 where
  pub failed_attempts : ℕ
  pub locked_until : Option ℕ

abbrev pub new_lockout : LockoutInfo
new_lockout = record { failed_attempts = 0; locked_until = none }

abbrev pub locked_at : Option ℕ → ℕ → Bool
locked_at none now = false
locked_at (some until) now = ltb now until

unfoldable pub is_locked : LockoutInfo → ℕ → Bool
is_locked info now = locked_at info.locked_until now

pub record PairedUser : Type 0 where
  pub user_id : String
  pub paired_at : ℕ
  pub channel_type : String

pub data PairingResult : Type 0 where
  success : PairingResult
  invalid_code : (attempts_remaining : ℕ) → PairingResult
  locked : (locked_until : ℕ) → PairingResult
  already_used expired : PairingResult

abbrev pub max_attempts : ℕ
max_attempts = 3

abbrev pub lockout_minutes : ℕ
lockout_minutes = 15

abbrev pub code_expiry_hours : ℕ
code_expiry_hours = 24

-- `ChronoDuration::minutes` and `hours`.
abbrev pub minutes : ℕ → ℕ
minutes n = n * 60_000

abbrev pub hours : ℕ → ℕ
hours n = n * 3_600_000

pub record PairingService : Type 0 where
  pub codes : Map PairingCode
  pub paired_users : Map PairedUser
  pub lockouts : Map LockoutInfo

unfoldable pub new : PairingService
new = record { codes = []; paired_users = []; lockouts = [] }

abbrev pub fresh_code : String → ℕ → PairingCode
fresh_code code now = record {
  code = code;
  created_at = now;
  expires_at = now + hours code_expiry_hours;
  used = false;
}

unfoldable pub generate_code : PairingService → String → ℕ → PairingService
generate_code s code now = record s { codes = insert code (fresh_code code now) s.codes }

unfoldable pub is_paired : PairingService → String → Bool
is_paired s user = contains_key user s.paired_users

abbrev pub or_insert : Option LockoutInfo → LockoutInfo
or_insert none = new_lockout
or_insert (some info) = info

-- A lock that has expired is reset before the failure is counted.
unfoldable pub counted_failure : LockoutInfo → ℕ → LockoutInfo
unfolding is_locked
counted_failure info now =
    if not (is_locked info now) && is_some info.locked_until
    then record { failed_attempts = 1; locked_until = none }
    else record info { failed_attempts = info.failed_attempts + 1 }

unfoldable pub record_failure : PairingService → String → ℕ → PairingService × PairingResult
unfolding counted_failure
record_failure s user now =
    let info : LockoutInfo = counted_failure (or_insert (lookup user s.lockouts)) now in
    let until : ℕ = now + minutes lockout_minutes in
    if leb max_attempts info.failed_attempts
    then (
      record s { lockouts = insert user (record info { locked_until = some until }) s.lockouts },
      locked until,
    )
    else (
      record s { lockouts = insert user info s.lockouts },
      invalid_code (max_attempts - info.failed_attempts),
    )

abbrev pub used_of : Option PairingCode → Option PairingCode
used_of none = none
used_of (some pc) = some (record pc { used = true })

-- The three writes of a caller whose code was valid, each under a lock of its own: the code becomes
-- used if it is still there, the user is paired, and the user's lockout is forgotten.
unfoldable pub mark_used : PairingService → String → PairingService
mark_used s code = elim (lookup code s.codes) [
  | none ↦ s
  | some pc ↦ record s { codes = insert code (record pc { used = true }) s.codes }
]

unfoldable pub pair_user : PairingService → String → String → ℕ → PairingService
pair_user s user channel now = record s {
  paired_users =
      insert user (record { user_id = user; paired_at = now; channel_type = channel })
        s.paired_users;
}

unfoldable pub forget_lockout : PairingService → String → PairingService
forget_lockout s user = record s { lockouts = remove user s.lockouts }

-- The three of them when nobody comes in between.
unfoldable pub accept : PairingService → String → String → String → ℕ → PairingService
unfolding mark_used pair_user forget_lockout
accept s user code channel now = forget_lockout (pair_user (mark_used s code) user channel now) user

-- The match on the code's entry.
unfoldable pub try_code :
    PairingService
    → String
    → String
    → Option PairingCode
    → String
    → ℕ
    → PairingService × PairingResult
unfolding record_failure accept is_valid
try_code s user code none channel now = record_failure s user now
try_code s user code (some pc) channel now =
    if pc.used
    then (s, already_used)
    else if not (is_valid pc now)
    then (s, expired)
    else (accept s user code channel now, success)

-- `info.is_locked()` holds only with a `locked_until`, so its `unwrap` does not fail.
abbrev pub lock_of : Option LockoutInfo → ℕ → Option ℕ
lock_of none now = none
lock_of (some info) now = if locked_at info.locked_until now then info.locked_until else none

-- `validate_code` when nobody comes in between. It takes each lock on its own: Pairing/Concurrent has
-- its reads and writes as steps of concurrent callers.
unfoldable pub validate_code :
    PairingService → String → String → String → ℕ → PairingService × PairingResult
unfolding try_code
validate_code s user code channel now = elim (lock_of (lookup user s.lockouts) now) [
  | some until ↦ (s, locked until)
  | none ↦ try_code s user code (lookup code s.codes) channel now
]

unfoldable pub restore_paired_users : PairingService → List PairedUser → PairingService
restore_paired_users s [] = s
restore_paired_users s (u ∷ us) =
    restore_paired_users (record s { paired_users = insert u.user_id u s.paired_users }) us

unfoldable pub cleanup : PairingService → ℕ → PairingService
unfolding is_valid is_locked
cleanup s now = record s {
  codes = retain (λ pc. is_valid pc now) s.codes;
  lockouts = retain (λ info. is_locked info now) s.lockouts;
}
