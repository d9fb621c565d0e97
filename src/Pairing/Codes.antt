-- ===== src/Pairing/Codes.antt =====
-- The codes of pairing.rs: who is paired, and that a code pairs once.
use adk_gateway.Common.{
  ℕ, ◌<◌, if◌then◌else◌, String, List, [], ◌∷◌, Option, none, some, Bool, true, false, not, ◌&&◌,
  ◌||◌, str_eq, ◌≡◌, refl, ◌≢◌, ◌↔◌, ◌⊎◌, inl, inr, arith, eq_iff, Option-cases, Bool-cases,
}
use adk_gateway.Common.Map.{lookup, insert, lookup-insert, Unique, insert-Unique}
use adk_gateway.Pairing.{
  PairingCode, PairedUser, PairingService, PairingResult, success, is_valid, generate_code,
  is_paired, record_failure, used_of, mark_used, pair_user, forget_lockout, accept, try_code,
  lock_of, validate_code, restore_paired_users, cleanup,
}

abbrev pub is_success : PairingResult → Bool
is_success success = true
is_success _ = false

pub data Call : Type 0 where
  generates : (code : String) (now : ℕ) → Call
  validates : (user code channel : String) (now : ℕ) → Call
  restores : List PairedUser → Call
  cleans : (now : ℕ) → Call

unfoldable pub perform : PairingService → Call → PairingService
perform s (generates code now) = generate_code s code now
perform s (validates user code channel now) = (validate_code s user code channel now).0
perform s (restores users) = restore_paired_users s users
perform s (cleans now) = cleanup s now

unfoldable pub run : PairingService → List Call → PairingService
run s [] = s
run s (c ∷ cs) = run (perform s c) cs

-- No entry of the code can be accepted any more.
pub record IsSpent (code : String) (s : PairingService) : Type 0 where
  pub unique : Unique s.codes
  pub spent : (pc : PairingCode) → lookup code s.codes ≡ some pc → pc.used ≡ true

pub record_failure_codes :
    (s : PairingService) (user : String) (now : ℕ) → (record_failure s user now).0.codes ≡ s.codes
unfolding record_failure
record_failure_codes s user now = ground arith

pub lookup-mark_used :
    (s : PairingService) (code c : String)
    → lookup c (mark_used s code).codes
      ≡ (if str_eq code c then used_of (lookup c s.codes) else lookup c s.codes)
unfolding mark_used
lookup-mark_used s code c = elim (Option-cases (lookup code s.codes)) [
  | inl e ↦ ground (arith, eq_iff code c)
  | inr (pc, e) ↦
      ground (arith, eq_iff code c, lookup-insert code c (record pc { used = true }) s.codes)
]

pub mark_used-Unique :
    (s : PairingService) (code : String) → Unique s.codes → Unique (mark_used s code).codes
unfolding mark_used
mark_used-Unique s code u = elim (Option-cases (lookup code s.codes)) [
  | inl e ↦ rw (e, mark_used) u
  | inr (pc, e) ↦ rw (e, mark_used) (insert-Unique code (record pc { used = true }) s.codes u)
]

pub mark_used_others :
    (s : PairingService) (code : String)
    → ((mark_used s code).paired_users ≡ s.paired_users)
      × ((mark_used s code).lockouts ≡ s.lockouts)
unfolding mark_used
mark_used_others s code = (ground arith, ground arith)

try_code_codes :
    (s : PairingService) (user code : String) (o : Option PairingCode) (channel : String) (now : ℕ)
    → ((try_code s user code o channel now).0.codes ≡ s.codes)
      ⊎ ((try_code s user code o channel now).0.codes ≡ (mark_used s code).codes)
unfolding try_code accept pair_user forget_lockout
try_code_codes s user code none channel now = inl (record_failure_codes s user now)
try_code_codes s user code (some pc) channel now =
    elim (Bool-cases (pc.used || not (is_valid pc now))) [
      | inl e ↦ inl (ground arith)
      | inr e ↦ inr (ground arith)
    ]

pub validate_code_codes :
    (s : PairingService) (user code channel : String) (now : ℕ)
    → ((validate_code s user code channel now).0.codes ≡ s.codes)
      ⊎ ((validate_code s user code channel now).0.codes ≡ (mark_used s code).codes)
unfolding validate_code
validate_code_codes s user code channel now =
    elim (Option-cases (lock_of (lookup user s.lockouts) now)) [
      | inl e ↦ rw (e, validate_code) (try_code_codes s user code (lookup code s.codes) channel now)
      | inr (until, e) ↦ rw (e, validate_code) (inl refl)
    ]

pub mark_used-IsSpent :
    (s : PairingService) (code c : String)
    → IsSpent code s
    → (s' : PairingService) → s'.codes ≡ (mark_used s c).codes
    → IsSpent code s'
mark_used-IsSpent s code c sp s' e = record {
  unique = rw e (mark_used-Unique s c sp.unique);
  spent = λ pc' h. elim (Option-cases (lookup code s.codes)) [
    | inl missing ↦ ground (arith, h, e, missing, lookup-mark_used s c code)
    | inr (pc, found) ↦ ground (arith, h, e, found, lookup-mark_used s c code, sp.spent pc found)
  ];
}

pub restore_codes :
    (s : PairingService) (users : List PairedUser) → (restore_paired_users s users).codes ≡ s.codes
unfolding restore_paired_users
restore_codes s [] = refl
restore_codes s (u ∷ us) =
    restore_codes (record s { paired_users = insert u.user_id u s.paired_users }) us

abbrev Usable : Option PairingCode → ℕ → Type 0
Usable o now = (pc : PairingCode) × (o ≡ some pc) × (pc.used ≡ false) × (now < pc.expires_at)

pub record_failure_lem :
    (s : PairingService) (user : String) (now : ℕ)
    → ((record_failure s user now).1 ≢ success)
      × (is_success (record_failure s user now).1 ≡ false)
      × ((record_failure s user now).0.paired_users ≡ s.paired_users)
unfolding record_failure
record_failure_lem s user now = (λ h. ground arith, ground arith, ground arith)

try_code-success :
    (s : PairingService) (user code : String) (o : Option PairingCode) (channel : String) (now : ℕ)
    → (((try_code s user code o channel now).1 ≡ success) ↔ Usable o now)
      × ((other : String)
          → is_paired (try_code s user code o channel now).0 other ≡ (
              is_paired s other
              || (is_success (try_code s user code o channel now).1 && str_eq user other)))
unfolding try_code accept pair_user forget_lockout is_paired is_valid
try_code-success s user code none channel now =
    let (fails, not_success, same) = record_failure_lem s user now in
    ((λ h. absurd (fails h), λ u. ground arith), λ other. ground arith)
try_code-success s user code (some pc) channel now = (
  (λ h. (pc, refl, ground arith, ground arith), λ u. ground arith),
  λ other. ground (
    arith,
    mark_used_others s code,
    lookup-insert user other (record { user_id = user; paired_at = now; channel_type = channel })
        (mark_used s code).paired_users,
  ),
)

-- What a code pairs it marks, and nothing else touches the codes.
lookup-try_code :
    (s : PairingService) (user code : String) (o : Option PairingCode) (channel : String) (now : ℕ)
    (c : String)
    → lookup c (try_code s user code o channel now).0.codes ≡ (
        if is_success (try_code s user code o channel now).1 && str_eq code c
        then used_of (lookup c s.codes)
        else lookup c s.codes)
unfolding try_code accept pair_user forget_lockout
lookup-try_code s user code none channel now c =
    ground (arith, record_failure_lem s user now, record_failure_codes s user now)
lookup-try_code s user code (some pc) channel now c =
    elim (Bool-cases (pc.used || not (is_valid pc now))) [
      | inl e ↦ ground arith
      | inr e ↦ ground (arith, lookup-mark_used s code c)
    ]

-- A code pairs exactly when the user is not locked out and the service holds it, unused and before
-- its expiry; then the user is paired and the code is marked as used. Every other user and every other
-- code is as before, and when the call does not pair, all of them are.
pub validate_code-success :
    (s : PairingService) (user code channel : String) (now : ℕ)
    → (((validate_code s user code channel now).1 ≡ success) ↔ (
        (lock_of (lookup user s.lockouts) now ≡ none)
        × ((pc : PairingCode) × (lookup code s.codes ≡ some pc)
            × (pc.used ≡ false)
            × (now < pc.expires_at))))
      × ((other : String)
          → is_paired (validate_code s user code channel now).0 other ≡ (
              is_paired s other
              || (is_success (validate_code s user code channel now).1 && str_eq user other)))
      × ((c : String)
          → lookup c (validate_code s user code channel now).0.codes ≡ (
              if is_success (validate_code s user code channel now).1 && str_eq code c
              then used_of (lookup c s.codes)
              else lookup c s.codes))
unfolding validate_code is_paired
validate_code-success s user code channel now =
    let (usable, paired) = try_code-success s user code (lookup code s.codes) channel now in
    let marked = lookup-try_code s user code (lookup code s.codes) channel now in
    elim (Option-cases (lock_of (lookup user s.lockouts) now)) [
      | inl e ↦ (
        rw (e, validate_code) ((λ h. (refl, usable.0 h), λ u. usable.1 u.1)),
        rw (e, validate_code) paired,
        rw (e, validate_code) marked,
      )
      | inr (until, e) ↦
          ((λ h. ground arith, λ h. ground arith), λ other. ground arith, λ c. ground arith)
    ]
