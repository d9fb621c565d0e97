-- ===== src/Pairing/Concurrent.antt =====
-- Concurrent callers of pairing.rs. `validate_code` takes the lock of each map on its own, so between
-- its reads and its writes others may come; each step here is what is done under one lock.
use adk_gateway.Common.{
  ℕ, String, List, [], ◌∷◌, ◌++◌, Option, none, some, true, false, not, ◌||◌, ◌≡◌,
}
use adk_gateway.Common.Map.{lookup, retain}
use adk_gateway.Pairing.{
  PairingCode, PairedUser, PairingService, is_valid, is_locked, generate_code, record_failure,
  mark_used, pair_user, forget_lockout, lock_of, restore_paired_users,
}

-- A call of `validate_code` that is under way.
pub record Attempt : Type 0 where
  pub user : String
  pub code : String
  pub channel : String

-- The calls by what they have behind them: the user was not locked out; the code was not found, or
-- was found and valid; it is marked; the user is paired; the call has returned `Success`.
pub record System : Type 0 where
  pub service : PairingService
  pub unlocked : List Attempt
  pub failing : List Attempt
  pub passed : List Attempt
  pub marked : List Attempt
  pub paired : List Attempt
  pub succeeded : List Attempt

abbrev pub at_rest : PairingService → List Attempt → System
at_rest service succeeded = record {
  service = service;
  unlocked = [];
  failing = [];
  passed = [];
  marked = [];
  paired = [];
  succeeded = succeeded;
}

-- A step, with the code that it generates. A caller who is locked out changes nothing.
pub data Step (s : System) : Option String → System → Type 0 where
  generates :
      (code : String) (now : ℕ)
      → Step s (some code) (record s { service = generate_code s.service code now })
  begins :
      (attempt : Attempt) (now : ℕ)
      → lock_of (lookup attempt.user s.service.lockouts) now ≡ none
      → Step s none (record s { unlocked = attempt ∷ s.unlocked })
  misses :
      (before after : List Attempt) (attempt : Attempt)
      → s.unlocked ≡ before ++ (attempt ∷ after)
      → lookup attempt.code s.service.codes ≡ none
      → Step s none (record s { unlocked = before ++ after; failing = attempt ∷ s.failing })
  fails :
      (before after : List Attempt) (attempt : Attempt) (now : ℕ)
      → s.failing ≡ before ++ (attempt ∷ after)
      → Step s none (record s {
        service = (record_failure s.service attempt.user now).0;
        failing = before ++ after;
      })
  -- The code is used or has expired.
  refuses :
      (before after : List Attempt) (attempt : Attempt) (pc : PairingCode) (now : ℕ)
      → s.unlocked ≡ before ++ (attempt ∷ after)
      → lookup attempt.code s.service.codes ≡ some pc
      → (pc.used || not (is_valid pc now)) ≡ true
      → Step s none (record s { unlocked = before ++ after })
  passes :
      (before after : List Attempt) (attempt : Attempt) (pc : PairingCode) (now : ℕ)
      → s.unlocked ≡ before ++ (attempt ∷ after)
      → lookup attempt.code s.service.codes ≡ some pc
      → (pc.used || not (is_valid pc now)) ≡ false
      → Step s none (record s { unlocked = before ++ after; passed = attempt ∷ s.passed })
  marks :
      (before after : List Attempt) (attempt : Attempt)
      → s.passed ≡ before ++ (attempt ∷ after)
      → Step s none (record s {
        service = mark_used s.service attempt.code;
        passed = before ++ after;
        marked = attempt ∷ s.marked;
      })
  pairs :
      (before after : List Attempt) (attempt : Attempt) (now : ℕ)
      → s.marked ≡ before ++ (attempt ∷ after)
      → Step s none (record s {
        service = pair_user s.service attempt.user attempt.channel now;
        marked = before ++ after;
        paired = attempt ∷ s.paired;
      })
  returns :
      (before after : List Attempt) (attempt : Attempt)
      → s.paired ≡ before ++ (attempt ∷ after)
      → Step s none (record s {
        service = forget_lockout s.service attempt.user;
        paired = before ++ after;
        succeeded = attempt ∷ s.succeeded;
      })
  restores :
      (users : List PairedUser)
      → Step s none (record s { service = restore_paired_users s.service users })
  -- The two halves of `cleanup`.
  cleans_codes :
      (now : ℕ)
      → Step s none (record s {
        service = record (s.service) { codes = retain (λ pc. is_valid pc now) s.service.codes };
      })
  cleans_lockouts :
      (now : ℕ)
      → Step s none (record s {
        service = record (s.service) {
          lockouts = retain (λ info. is_locked info now) s.service.lockouts;
        };
      })

-- Steps none of which generates the code.
pub data Steps (code : String) (s : System) : System → Type 0 where
  here : Steps code s s
  next :
      {t u : System} {generated : Option String}
      → Steps code s t
      → Step t generated u
      → (generated ≡ some code → ⊥)
      → Steps code s u
