-- ===== src/Delivery/Examples.antt =====
-- Runs of delivery.rs at concrete texts, and the instances of its theorems.
use adk_gateway.Common.{◌+◌, List, [], ◌∷◌, ◌++◌, map, none, some, ◌≡◌, refl, arith}
use adk_gateway.Router.{telegram}
use adk_gateway.Delivery.{
  MessageRef, Answers, StreamingState, new, accepted, deliver_chunks, run_partials, Partial,
  on_partial, send_placeholder,
}
use adk_gateway.Delivery.Split.{
  chunks, panicked, split_message, split_from, cut, cut_position, split_at, rfind, trim_start,
}
use adk_gateway.Delivery.Chunks.{IsSplit, split_message-IsSplit}
use adk_gateway.Delivery.Ascii.{Returns, split_message-Returns}
use adk_gateway.Delivery.Streaming.{
  shown, edit_text, Spaced, deliver_chunks-shown, run_partials-Spaced,
}

words_split : split_message "hello world  foo" 7 ≡ chunks ("hello" ∷ "world " ∷ "foo" ∷ [])
unfolding split_message split_from cut cut_position split_at rfind trim_start
words_split = refl

-- The limit lies inside the second character, which takes two bytes.
accent_panics : split_message "héllo" 2 ≡ panicked
unfolding split_message split_from cut cut_position split_at rfind trim_start
accent_panics = refl

split_message-IsSplit_example : IsSplit 7 "hello world  foo" (split_message "hello world  foo" 7)
split_message-IsSplit_example = split_message-IsSplit "hello world  foo" 7 (omega arith)

split_message-Returns_example : Returns (split_message "a b" 1)
split_message-Returns_example = split_message-Returns "a b" 1 (refl, (refl, (refl, tt)))

abbrev msg_ref : MessageRef
msg_ref = record {
  channel_type = telegram;
  account_id = "bot";
  recipient_id = "7";
  message_id = none;
  reply_to = none;
}

abbrev all_accepted : Answers
all_accepted = record {
  sent = accepted (some "m1");
  edited = none;
  retried = none;
  latest_then = "";
}

-- After the first partial text.
abbrev with_placeholder : StreamingState
unfolding on_partial send_placeholder new
with_placeholder = (on_partial new msg_ref "he" 0 all_accepted).state

deliver_chunks-shown_example :
    (map
        (edit_text "m1")
        (deliver_chunks with_placeholder msg_ref
          (("hello" ∷ []) ++ "world" ∷ [])
          (λ k. 5_000 + k)
          (λ k. all_accepted)
          0).calls
      ≡ map some (("hello" ∷ []) ++ "world" ∷ []))
    × (shown "m1"
          (deliver_chunks with_placeholder msg_ref
            (("hello" ∷ []) ++ "world" ∷ [])
            (λ k. 5_000 + k)
            (λ k. all_accepted)
            0).calls
        ≡ some "world")
unfolding with_placeholder
deliver_chunks-shown_example =
    deliver_chunks-shown with_placeholder msg_ref ("hello" ∷ []) "world" "m1" (λ k. 5_000 + k)
      (λ k. all_accepted) 0 refl (λ k. refl)

abbrev partial_texts : List Partial
partial_texts =
    record { text = "hel"; at = 400; answers = all_accepted }
    ∷ record { text = "hello"; at = 1_100; answers = all_accepted }
    ∷ []

run_partials-Spaced_example :
    Spaced 0 with_placeholder.edit_interval
      (run_partials with_placeholder msg_ref partial_texts).calls
unfolding with_placeholder
run_partials-Spaced_example =
    run_partials-Spaced with_placeholder msg_ref partial_texts "m1" 0 refl refl (omega arith)
      (refl, (refl, tt))
