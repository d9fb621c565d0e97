-- ===== src/Approval/Once.antt =====
-- Requests, callbacks, timeouts and sweeps of tool_approval.rs in any order.
use adk_gateway.Common.{
  ℕ, ◌+◌, ◌≤◌, String, List, [], ◌∷◌, ◌++◌, some, Bool, true, false, ◌&&◌, ◌||◌, any, any-append,
  if◌then◌else◌, str_eq, ◌≡◌, refl, arith, eq_iff, Option-cases, Bool-cases, inl, inr,
}
use adk_gateway.Common.Map.{lookup, remove, contains_key, lookup-insert, lookup-remove}
use adk_gateway.Approval.{
  ApprovalState, approved, timed_out, PendingApproval, ToolApprovalService, new, request_approval,
  time_out, expired_ids, time_out_all, expire_stale, answer, handle_callback, is_pending,
}

pub data Call : Type 0 where
  requests : (id tool user : String) (now : ℕ) → Call
  calls_back : (id : String) (approves alive : Bool) → Call
  times_out : (id : String) → Call
  sweeps : (now : ℕ) → Call

unfoldable pub perform : ToolApprovalService → Call → ToolApprovalService
perform s (requests id tool user now) = request_approval s id tool user now
perform s (calls_back id approves alive) = (handle_callback s id approves alive).0
perform s (times_out id) = time_out s id
perform s (sweeps now) = expire_stale s now

unfoldable pub run : ToolApprovalService → List Call → ToolApprovalService
run s [] = s
run s (c ∷ cs) = run (perform s c) cs

abbrev pub one_if : Bool → ℕ
one_if true = 1
one_if false = 0

-- How often the calls request the id, and how often the senders of the id have sent a state.
abbrev pub requested : String → List Call → ℕ
requested id [] = 0
requested id (requests j tool user now ∷ cs) = one_if (str_eq j id) + requested id cs
requested id (calls_back j approves alive ∷ cs) = requested id cs
requested id (times_out j ∷ cs) = requested id cs
requested id (sweeps now ∷ cs) = requested id cs

abbrev pub answers : String → List (String × ApprovalState) → ℕ
answers id [] = 0
answers id ((tx, state) ∷ rest) = one_if (str_eq tx id) + answers id rest

-- Whether a callback of the calls approves the id.
abbrev pub user_approves : String → List Call → Bool
user_approves id [] = false
user_approves id (requests j tool user now ∷ cs) = user_approves id cs
user_approves id (calls_back j approves alive ∷ cs) = str_eq j id && approves || user_approves id cs
user_approves id (times_out j ∷ cs) = user_approves id cs
user_approves id (sweeps now ∷ cs) = user_approves id cs

abbrev pub is_approved : ApprovalState → Bool
is_approved approved = true
is_approved _ = false

abbrev pub approval_sent : String → List (String × ApprovalState) → Bool
approval_sent id = any λ x. str_eq x.0 id && is_approved x.1

answers-append :
    (id : String) (xs ys : List (String × ApprovalState))
    → answers id (xs ++ ys) ≡ answers id xs + answers id ys
answers-append id [] ys = omega arith
answers-append id ((tx, state) ∷ xs) ys = omega (arith, answers-append id xs ys)

record Sound (asked : String → ℕ) (granted : String → Bool) (s : ToolApprovalService) : Type 0 where
  pub keyed :
      (id : String) (a : PendingApproval)
      → lookup id s.pending_map ≡ some a
      → a.callback_tx ≡ some id
  pub counted :
      (id : String) → answers id s.sent + one_if (contains_key id s.pending_map) ≤ asked id
  pub honest : (id : String) → approval_sent id s.sent ≡ true → granted id ≡ true

-- An entry is taken out and at most one state is sent, to its own sender.
resolve-Sound :
    (asked : String → ℕ) (granted allowed : String → Bool) (s : ToolApprovalService) (id : String)
    (a : PendingApproval) (sends : Bool) (state : ApprovalState)
    → Sound asked granted s
    → lookup id s.pending_map ≡ some a
    → ((j : String) → granted j || str_eq id j && is_approved state ≡ allowed j)
    → Sound asked allowed (record s {
      pending_map = remove id s.pending_map;
      sent = s.sent ++ (if sends then (id, state) ∷ [] else []);
    })
resolve-Sound asked granted allowed s id a true state sound found same = record {
  keyed = λ j b h. ground (arith, lookup-remove id j s.pending_map, sound.keyed j b);
  counted = λ j. ground (
    arith,
    eq_iff id j,
    sound.counted j,
    lookup-remove id j s.pending_map,
    answers-append j s.sent ((id, state) ∷ []),
  );
  honest = λ j h. ground (
    arith,
    same j,
    sound.honest j,
    any-append (λ x. str_eq x.0 j && is_approved x.1) s.sent ((id, state) ∷ []),
  );
}
resolve-Sound asked granted allowed s id a false state sound found same = record {
  keyed = λ j b h. ground (arith, lookup-remove id j s.pending_map, sound.keyed j b);
  counted = λ j. ground (
    arith,
    eq_iff id j,
    sound.counted j,
    lookup-remove id j s.pending_map,
    answers-append j s.sent [],
  );
  honest = λ j h.
      ground (
        arith,
        same j,
        sound.honest j,
        any-append (λ x. str_eq x.0 j && is_approved x.1) s.sent [],
      );
}

Sound-same :
    (asked asked' : String → ℕ) (granted granted' : String → Bool) (s : ToolApprovalService)
    → ((j : String) → asked j ≡ asked' j)
    → ((j : String) → granted j ≡ granted' j)
    → Sound asked granted s
    → Sound asked' granted' s
Sound-same asked asked' granted granted' s a g sound = record {
  keyed = sound.keyed;
  counted = λ j. ground (arith, a j, sound.counted j);
  honest = λ j h. ground (arith, g j, sound.honest j);
}

time_out-Sound :
    (asked : String → ℕ) (granted : String → Bool) (s : ToolApprovalService) (id : String)
    → Sound asked granted s
    → Sound asked granted (time_out s id)
unfolding time_out
time_out-Sound asked granted s id sound = elim (Option-cases (lookup id s.pending_map)) [
  | inl e ↦ rw (e, time_out) sound
  | inr (a, e) ↦
      let own = sound.keyed id a e in
      rw (e, time_out, own)
        (resolve-Sound asked granted granted s id a true timed_out sound e (λ j. ground arith))
]

time_out_all-Sound :
    (asked : String → ℕ) (granted : String → Bool) (ids : List String) (s : ToolApprovalService)
    → Sound asked granted s
    → Sound asked granted (time_out_all ids s)
unfolding time_out_all
time_out_all-Sound asked granted [] s sound = sound
time_out_all-Sound asked granted (id ∷ ids) s sound =
    time_out_all-Sound asked granted ids (time_out s id) (time_out-Sound asked granted s id sound)

handle_callback-Sound :
    (asked : String → ℕ) (granted : String → Bool) (s : ToolApprovalService) (id : String)
    (approves alive : Bool)
    → Sound asked granted s
    → Sound asked
        (λ j. granted j || str_eq id j && approves)
        (handle_callback s id approves alive).0
unfolding handle_callback
handle_callback-Sound asked granted s id approves alive sound =
    elim (Option-cases (lookup id s.pending_map)) [
      | inl e ↦
          rw (e, handle_callback)
            (record {
              keyed = sound.keyed;
              counted = sound.counted;
              honest = λ j h. ground (arith, sound.honest j);
            })
      | inr (a, e) ↦
          let own = sound.keyed id a e in
          rw (e, handle_callback, own)
            (resolve-Sound asked granted (λ j. granted j || str_eq id j && approves) s id a alive
              (answer approves) sound e
              (λ j. elim (Bool-cases approves) [ inl e' ↦ rw e' refl | inr e' ↦ rw e' refl ]))
    ]

request_approval-Sound :
    (asked : String → ℕ) (granted : String → Bool) (s : ToolApprovalService) (id tool user : String)
    (now : ℕ)
    → Sound asked granted s
    → Sound (λ j. asked j + one_if (str_eq id j)) granted (request_approval s id tool user now)
unfolding request_approval
request_approval-Sound asked granted s id tool user now sound =
    let fresh : PendingApproval = record {
      id = id;
      tool_name = tool;
      user_id = user;
      requested_at = now;
      expires_at = now + s.timeout;
      callback_tx = some id;
    } in
    record {
      keyed = λ j a h.
          ground (arith, eq_iff id j, lookup-insert id j fresh s.pending_map, sound.keyed j a);
      counted =
          λ j. ground (arith, eq_iff id j, lookup-insert id j fresh s.pending_map, sound.counted j);
      honest = sound.honest;
    }

run-Sound :
    (asked : String → ℕ) (granted : String → Bool) (s : ToolApprovalService) (cs : List Call)
    → Sound asked granted s
    → Sound (λ j. asked j + requested j cs) (λ j. granted j || user_approves j cs) (run s cs)
unfolding run perform expire_stale
run-Sound asked granted s [] sound =
    Sound-same asked (λ j. asked j + 0) granted (λ j. granted j || false) s (λ j. omega arith)
      (λ j. ground arith) sound
run-Sound asked granted s (requests id tool user now ∷ cs) sound =
    Sound-same (λ j. asked j + one_if (str_eq id j) + requested j cs)
      (λ j. asked j + requested j (requests id tool user now ∷ cs))
      (λ j. granted j || user_approves j cs) (λ j. granted j || user_approves j cs)
      (run (request_approval s id tool user now) cs) (λ j. omega arith) (λ j. refl)
      (run-Sound (λ j. asked j + one_if (str_eq id j)) granted (request_approval s id tool user now)
        cs (request_approval-Sound asked granted s id tool user now sound))
run-Sound asked granted s (calls_back id approves alive ∷ cs) sound =
    Sound-same (λ j. asked j + requested j cs) (λ j. asked j + requested j cs)
      (λ j. (granted j || str_eq id j && approves) || user_approves j cs)
      (λ j. granted j || user_approves j (calls_back id approves alive ∷ cs))
      (run (handle_callback s id approves alive).0 cs) (λ j. refl) (λ j. ground arith)
      (run-Sound asked (λ j. granted j || str_eq id j && approves)
        (handle_callback s id approves alive).0 cs
        (handle_callback-Sound asked granted s id approves alive sound))
run-Sound asked granted s (times_out id ∷ cs) sound =
    run-Sound asked granted (time_out s id) cs (time_out-Sound asked granted s id sound)
run-Sound asked granted s (sweeps now ∷ cs) sound =
    run-Sound asked granted (expire_stale s now) cs
      (time_out_all-Sound asked granted (expired_ids now s.pending_map) s sound)

new-Sound : (timeout : ℕ) → Sound (λ j. 0) (λ j. false) (new timeout)
unfolding new lookup
new-Sound timeout = record {
  keyed = λ id a h. ground arith;
  counted = λ id. omega arith;
  honest = λ id h. h;
}

-- After any requests, callbacks, timeouts and sweeps, the senders of an id have sent at most as many
-- states as it was requested, a request that is still pending counting as one: with ids that are never
-- given twice, a request is resolved at most once, and not while it is pending. And an approval was
-- sent only if a callback approved that id.
pub run-resolved_once :
    (timeout : ℕ) (cs : List Call) (id : String)
    → (answers id (run (new timeout) cs).sent + one_if (is_pending (run (new timeout) cs) id)
        ≤ requested id cs)
      × (approval_sent id (run (new timeout) cs).sent ≡ true → user_approves id cs ≡ true)
unfolding is_pending
run-resolved_once timeout cs id =
    let sound = run-Sound (λ j. 0) (λ j. false) (new timeout) cs (new-Sound timeout) in
    (omega (arith, sound.counted id), sound.honest id)
