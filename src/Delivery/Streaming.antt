-- ===== src/Delivery/Streaming.antt =====
-- What streaming delivery does to the message that it edits.
use adk_gateway.Common.{
  ℕ, ◌+◌, ◌-◌, ◌≤◌, ◌<◌, String, List, [], ◌∷◌, ◌++◌, map, All, Option, none, some, true, false,
  if◌then◌else◌, ltb, str_eq, ◌≡◌, refl, inl, inr, arith, Bool-cases, eq_refl,
}
use adk_gateway.Delivery.{
  MessageRef, Answers, StreamingState, ChannelCall, sends, edits, on_partial, on_complete, try_edit,
  deliver_chunks, run_partials, Partial, edit_of,
}

-- What a message shows after calls that succeed: the text of its last edit.
unfoldable pub shown : String → List ChannelCall → Option String
shown id [] = none
shown id (sends at message ∷ rest) = shown id rest
shown id (edits at edit ∷ rest) = elim (shown id rest) [
  | some later ↦ some later
  | none ↦ if str_eq edit.message_id id then some edit.text else none
]

-- What a call writes over the message with the id, if it edits it.
abbrev pub edit_text : String → ChannelCall → Option String
edit_text id (sends at message) = none
edit_text id (edits at edit) = if str_eq edit.message_id id then some edit.text else none

-- A step with a placeholder, and an edit that succeeds.
on_complete-edits :
    (state : StreamingState) (msg_ref : MessageRef) (text id : String) (now : ℕ) (answers : Answers)
    → state.sent_message_id ≡ some id
    → answers.edited ≡ none
    → on_complete state msg_ref text now answers ≡ record {
      state = record state { latest_text = text };
      calls = edits now (edit_of msg_ref id text) ∷ [];
      error = none;
    }
unfolding on_complete try_edit
on_complete-edits state msg_ref text id now answers s ok = ground arith

-- Once a placeholder was sent, and where its edits succeed, the chunks of a response are no messages of
-- their own: the calls of the channel are one edit of the placeholder for each chunk, in their order,
-- and the placeholder in the end shows the last chunk.
pub deliver_chunks-shown :
    (state : StreamingState) (msg_ref : MessageRef) (chunks : List String) (last id : String)
    (at : ℕ → ℕ) (answers : ℕ → Answers) (round : ℕ)
    → state.sent_message_id ≡ some id
    → ((k : ℕ) → (answers k).edited ≡ none)
    → (map
          (edit_text id)
          (deliver_chunks state msg_ref (chunks ++ last ∷ []) at answers round).calls
        ≡ map some (chunks ++ last ∷ []))
      × (shown id (deliver_chunks state msg_ref (chunks ++ last ∷ []) at answers round).calls
          ≡ some last)
unfolding deliver_chunks on_complete try_edit shown
deliver_chunks-shown state msg_ref [] last id at answers round s ok =
    let step = on_complete-edits state msg_ref last id (at round) (answers round) s (ok round) in
    (ground (arith, step, eq_refl id), ground (arith, step, eq_refl id))
deliver_chunks-shown state msg_ref (chunk ∷ chunks) last id at answers round s ok =
    let later =
      deliver_chunks-shown (record state { latest_text = chunk }) msg_ref chunks last id at answers
        (round + 1) s ok in
    let step = on_complete-edits state msg_ref chunk id (at round) (answers round) s (ok round) in
    (ground (arith, later.0, step, eq_refl id), ground (arith, later.1, step))

-- Edits of one message, each one an interval or more after the one before.
abbrev pub Spaced : ℕ → ℕ → List ChannelCall → Type 0
Spaced last interval [] = Unit
Spaced last interval (sends at message ∷ rest) = ⊥
Spaced last interval (edits at edit ∷ rest) = (last + interval ≤ at) × Spaced at interval rest

on_partial-throttled :
    (state : StreamingState) (msg_ref : MessageRef) (text id : String) (last now : ℕ)
    (answers : Answers)
    → state.sent_message_id ≡ some id
    → state.last_edit ≡ some last
    → ltb (now - last) state.edit_interval ≡ true
    → on_partial state msg_ref text now answers
      ≡ record { state = record state { latest_text = text }; calls = []; error = none }
unfolding on_partial
on_partial-throttled state msg_ref text id last now answers s l e = ground arith

on_partial-edits :
    (state : StreamingState) (msg_ref : MessageRef) (text id : String) (last now : ℕ)
    (answers : Answers)
    → state.sent_message_id ≡ some id
    → state.last_edit ≡ some last
    → ltb (now - last) state.edit_interval ≡ false
    → answers.edited ≡ none
    → on_partial state msg_ref text now answers ≡ record {
      state = record state { latest_text = text; last_edit = some now };
      calls = edits now (edit_of msg_ref id text) ∷ [];
      error = none;
    }
unfolding on_partial try_edit
on_partial-edits state msg_ref text id last now answers s l e ok = ground arith

-- From a placeholder on, and where the edits succeed, the partial texts of a response, at any times,
-- send no further message, and two edits in a row are an interval or more apart.
pub run_partials-Spaced :
    (state : StreamingState) (msg_ref : MessageRef) (events : List Partial) (id : String) (last : ℕ)
    → state.sent_message_id ≡ some id
    → state.last_edit ≡ some last
    → 0 < state.edit_interval
    → All (λ event. event.answers.edited ≡ none) events
    → Spaced last state.edit_interval (run_partials state msg_ref events).calls
unfolding run_partials
run_partials-Spaced state msg_ref [] id last s l i ok = tt
run_partials-Spaced state msg_ref (event ∷ rest) id last s l i ok =
    elim (Bool-cases (ltb (event.at - last) state.edit_interval)) [
      | inl e ↦
          rw (on_partial-throttled state msg_ref event.text id last event.at event.answers s l e) (
            run_partials-Spaced (record state { latest_text = event.text }) msg_ref rest id last s l
              i ok.1)
      | inr e ↦
          rw (on_partial-edits state msg_ref event.text id last event.at event.answers s l e ok.0) (
            ground arith,
            run_partials-Spaced
                (record state { latest_text = event.text; last_edit = some event.at }) msg_ref rest
                id event.at s refl i ok.1,
          )
    ]
