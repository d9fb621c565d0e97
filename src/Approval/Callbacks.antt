-- ===== src/Approval/Callbacks.antt =====
-- The data of the buttons of tool_approval.rs, written for an approval and read back.
use Prim.Native.Char.{Char, code}
use Prim.Native.String.{[], ◌∷◌}
use Prim.Native.String.append
use text.Mathlib.TextEquality.{Char-path}
use adk_gateway.Common.{
  String, Option, none, some, Bool, true, false, if◌then◌else◌, ◌==◌, concat, ◌≡◌, refl, arith,
  Bool-cases, Option-cases, inl, inr, ap, ◌↔◌,
}

-- `str::strip_prefix`.
unfoldable pub strip_prefix : String → String → Option String
strip_prefix [] text = some text
strip_prefix (c ∷ prefix) [] = none
strip_prefix (c ∷ prefix) (d ∷ text) =
    let later = strip_prefix prefix text in if code c == code d then later else none

pub record Callback : Type 0 where
  pub approval_id : String
  pub approved : Bool

abbrev as_callback : Bool → Option String → Option Callback
as_callback approved none = none
as_callback approved (some id) = some (record { approval_id = id; approved = approved })

abbrev or_callback : Option Callback → Option Callback → Option Callback
or_callback none later = later
or_callback (some callback) later = some callback

unfoldable pub parse_callback_data : String → Option Callback
unfolding strip_prefix
parse_callback_data text =
    or_callback (as_callback true (strip_prefix "approve:" text))
      (as_callback false (strip_prefix "reject:" text))

-- What the buttons of an approval carry.
unfoldable pub callback_data : Callback → String
callback_data callback =
    concat (if callback.approved then "approve:" else "reject:") callback.approval_id

strip_prefix-concat : (prefix text : String) → strip_prefix prefix (concat prefix text) ≡ some text
unfolding strip_prefix
strip_prefix-concat [] text = ap some (append.nil text)
strip_prefix-concat (c ∷ prefix) text =
    rw (append.cons c prefix text) (ground (arith, strip_prefix-concat prefix text))

strip_prefix-differs :
    (c d : Char) (prefix other text : String)
    → (code c == code d) ≡ false
    → strip_prefix (c ∷ prefix) (concat (d ∷ other) text) ≡ none
unfolding strip_prefix
strip_prefix-differs c d prefix other text h = rw (append.cons d other text) (ground arith)

strip_prefix-some :
    (prefix text rest : String) → strip_prefix prefix text ≡ some rest → text ≡ concat prefix rest
unfolding strip_prefix
strip_prefix-some [] text rest h = ground (arith, append.nil rest)
strip_prefix-some (c ∷ prefix) [] rest h = ground arith
strip_prefix-some (c ∷ prefix) (d ∷ text) rest h = elim (Bool-cases (code c == code d)) [
  | inl e ↦
      let same : c ≡ d = Char-path c d (ground arith) in
      let later = strip_prefix-some prefix text rest (ground arith) in
      ground (arith, append.cons c prefix rest)
  | inr e ↦ ground arith
]

parse-callback :
    (callback : Callback) → parse_callback_data (callback_data callback) ≡ some callback
unfolding parse_callback_data callback_data
parse-callback callback =
    let id = callback.approval_id in
    let not_approved : strip_prefix "approve:" (concat "reject:" id) ≡ none =
      strip_prefix-differs "a" "r" "pprove:" "eject:" id refl in
    elim (Bool-cases callback.approved) [
      | inl e ↦ ground (arith, strip_prefix-concat "approve:" id)
      | inr e ↦ ground (arith, not_approved, strip_prefix-concat "reject:" id)
    ]

parsed_data :
    (text : String) (callback : Callback)
    → parse_callback_data text ≡ some callback
    → text ≡ callback_data callback
unfolding parse_callback_data callback_data
parsed_data text callback h = elim (Option-cases (strip_prefix "approve:" text)) [
  | inr (id, e) ↦ ground (arith, strip_prefix-some "approve:" text id e)
  | inl e ↦ elim (Option-cases (strip_prefix "reject:" text)) [
    | inr (id, f) ↦ ground (arith, strip_prefix-some "reject:" text id f)
    | inl f ↦ ground arith
  ]
]

-- Parsing the data of a button gives back its approval and its answer, whatever the id; and a text that
-- parses is the data of the button that it parses to, so that nothing else is taken for an answer.
pub parse_callback_data-callback_data :
    (text : String) (callback : Callback)
    → parse_callback_data text ≡ some callback ↔ (text ≡ callback_data callback)
parse_callback_data-callback_data text callback =
    (parsed_data text callback, λ e. rw e (parse-callback callback))
