-- ===== src/Approval/Matching.antt =====
-- What the patterns of tool_approval.rs match.
use Prim.Native.Char.{Char}
use Prim.Native.String.{[], ◌∷◌, len, slice}
use text.Mathlib.Text.{starts_with}
use text.Mathlib.TextEquality.{starts_with_iff}
use text.Mathlib.TextPositions.{
  len-append, slice-append_left, slice-append_middle, starts_with-append,
}
use text.Mathlib.TextLemmas.{
  nil-append, cons-append, append-nil, append-eq-nil_iff, tail-eq_of_cons-eq, head-eq_of_cons-eq,
  append_assoc, append_cancel_left, append_cancel_right, cons≢nil,
}
use adk_gateway.Common.{
  String, true, false, ◌-◌, ◌+◌, if◌then◌else◌, str_eq, concat, ◌≡◌, refl, sym, ap, ◌∙◌, ◌↔◌, arith,
  eq_iff, ◌≢◌, Bool-cases, inl, inr,
}
use adk_gateway.Approval.Patterns.{ends_with, contains_text, matches_starred, matches_pattern}
use adk_gateway.Approval.Search.{
  Contains, ends_with_of, of_ends_with, ends_with_iff, contains_text_of, of_contains_text,
}

-- A pattern by what it means: a text itself, all that begins or ends with it, all that contains it.
pub data Glob : Type 0 where
  exactly begins_with finishes_with holds : (text : String) → Glob

abbrev pub written : Glob → String
written (exactly text) = text
written (begins_with text) = concat text "*"
written (finishes_with text) = concat "*" text
written (holds text) = concat "*" (concat text "*")

-- A star at the end of the text would be read as one of the pattern's own.
abbrev pub Plain : Glob → Type 0
Plain (exactly text) = (starts_with text "*" ≡ false) × (ends_with text "*" ≡ false)
Plain (begins_with text) = starts_with text "*" ≡ false
Plain (finishes_with text) = ends_with text "*" ≡ false
Plain (holds text) = Unit

abbrev pub Matches : String → Glob → Type 0
Matches tool (exactly text) = tool ≡ text
Matches tool (begins_with text) = (rest : String) × (tool ≡ concat text rest)
Matches tool (finishes_with text) = (pre : String) × (tool ≡ concat pre text)
Matches tool (holds text) = (a b : String) × (tool ≡ concat a (concat text b))

slice_front : (text : String) → slice (concat text "*") 0 (len (concat text "*") - 1) ≡ text
slice_front text =
    let size : len (concat text "*") - 1 ≡ len text = omega (arith, len-append text "*") in
    rw size (slice-append_left text "*")

slice_back : (text : String) → slice (concat "*" text) 1 (len (concat "*" text)) ≡ text
slice_back text =
    ap (λ u. slice (concat "*" u) 1 (len (concat "*" text))) (sym (append-nil text))
    ∙ rw (len-append "*" text) (slice-append_middle "*" text "")

slice_middle :
    (text : String)
    → slice (concat "*" (concat text "*")) 1 (len (concat "*" (concat text "*")) - 1) ≡ text
slice_middle text =
    let size : len (concat "*" (concat text "*")) - 1 ≡ 1 + len text =
      omega (arith, len-append "*" (concat text "*"), len-append text "*") in
    rw size (slice-append_middle "*" text "*")

abbrev star : Char
star = "*"

star_first : (c : Char) (s rest : String) → concat "*" rest ≡ c ∷ s → starts_with (c ∷ s) "*" ≡ true
star_first c s rest e =
    let head = head-eq_of_cons-eq (sym (cons-append star "" rest) ∙ e) in
    (starts_with_iff (c ∷ s) "*").1
      (s, cons-append star "" s ∙ ap (λ u. star ∷ u) (nil-append s) ∙ ap (λ d. d ∷ s) head)

no_star_first :
    (text : String)
    → text ≢ ""
    → starts_with text "*" ≡ false
    → starts_with (concat text "*") "*" ≡ false
no_star_first [] filled h = absurd (filled refl)
no_star_first (c ∷ s) filled h = elim (Bool-cases (starts_with (concat (c ∷ s) "*") "*")) [
  | inr e ↦ e
  | inl e ↦
      let (rest, same) = (starts_with_iff (concat (c ∷ s) "*") "*").0 e in
      let head = head-eq_of_cons-eq (sym (cons-append star "" rest) ∙ same ∙ cons-append c s "*") in
      let found =
        star_first c s s
          (cons-append star "" s ∙ ap (λ u. star ∷ u) (nil-append s) ∙ ap (λ d. d ∷ s) head) in
      absurd (ground arith)
]

star_last :
    (text pre : String) → text ≢ "" → concat "*" text ≡ concat pre "*" → ends_with text "*" ≡ true
star_last text [] filled e = absurd (
    filled (
      sym (nil-append text)
      ∙ tail-eq_of_cons-eq (sym (cons-append star "" text) ∙ e ∙ nil-append "*")))
star_last text (d ∷ pre) filled e = of_ends_with text "*" pre (
    sym (nil-append text)
    ∙ tail-eq_of_cons-eq (sym (cons-append star "" text) ∙ e ∙ cons-append d pre "*"))

no_star_last :
    (text : String)
    → text ≢ ""
    → ends_with text "*" ≡ false
    → ends_with (concat "*" text) "*" ≡ false
no_star_last text filled h = elim (Bool-cases (ends_with (concat "*" text) "*")) [
  | inr e ↦ e
  | inl e ↦
      let (pre, same) = ends_with_of (concat "*" text) "*" e in
      let found = star_last text pre filled same in absurd (ground arith)
]

not_only_star : (text : String) → text ≢ "" → str_eq (concat text "*") "*" ≡ false
not_only_star text filled = elim (Bool-cases (str_eq (concat text "*") "*")) [
  | inr e ↦ e
  | inl e ↦ absurd (
      filled (
        append_cancel_right text "" "*"
          ((eq_iff (concat text "*") "*").0 e ∙ sym (nil-append "*"))))
]

not_only_star_front : (text : String) → text ≢ "" → str_eq (concat "*" text) "*" ≡ false
not_only_star_front text filled = elim (Bool-cases (str_eq (concat "*" text) "*")) [
  | inr e ↦ e
  | inl e ↦ absurd (
      filled (
        append_cancel_left "*" text "" ((eq_iff (concat "*" text) "*").0 e ∙ sym (append-nil "*"))))
]

matches_begins :
    (tool text : String)
    → text ≢ ""
    → starts_with text "*" ≡ false
    → matches_pattern tool (concat text "*") ≡ starts_with tool text
unfolding matches_pattern matches_starred
matches_begins tool text filled plain =
    rw
      (
        not_only_star text filled,
        no_star_first text filled plain,
        of_ends_with (concat text "*") "*" text refl,
      )
      (ap (λ u. starts_with tool u) (slice_front text))

matches_finishes :
    (tool text : String)
    → text ≢ ""
    → ends_with text "*" ≡ false
    → matches_pattern tool (concat "*" text) ≡ ends_with tool text
unfolding matches_pattern matches_starred
matches_finishes tool text filled plain =
    rw
      (not_only_star_front text filled, starts_with-append "*" text, no_star_last text filled plain)
      (ap (λ u. ends_with tool u) (slice_back text))

matches_holds :
    (tool text : String)
    → matches_pattern tool (concat "*" (concat text "*"))
      ≡ (if str_eq text "" then true else contains_text tool text)
unfolding matches_pattern matches_starred
matches_holds tool text =
    rw
      (
        not_only_star_front (concat text "*")
            (λ h. cons≢nil {x = star} {xs = ""} ((append-eq-nil_iff {p = text} {q = "*"}).0 h).1),
        starts_with-append "*" (concat text "*"),
        of_ends_with (concat "*" (concat text "*")) "*" (concat "*" text)
            (sym (append_assoc "*" text "*")),
        slice_middle text,
      )
      refl

not_star : (text : String) → starts_with text "*" ≡ false → str_eq text "*" ≡ false
not_star text front = elim (Bool-cases (str_eq text "*")) [
  | inr e ↦ e
  | inl e ↦
      let starred = ap (λ u. starts_with u "*") ((eq_iff text "*").0 e) in absurd (ground arith)
]

contains_text_iff :
    (tool text : String)
    → ((if str_eq text "" then true else contains_text tool text) ≡ true) ↔ Contains tool text
contains_text_iff tool text = elim (Bool-cases (str_eq text "")) [
  | inl e ↦
      let nothing : tool ≡ concat "" (concat text tool) = sym (
        nil-append (concat text tool)
        ∙ ap (λ u. concat u tool) ((eq_iff text "").0 e)
        ∙ nil-append tool) in
      rw e (λ h. ("", tool, nothing), λ h. refl)
  | inr e ↦ rw e (contains_text_of tool text, λ h. of_contains_text tool text h.0 h.1 h.2)
]

-- A pattern means what it is written for: a text without stars at its ends matches just itself, a star
-- behind a text that begins with none matches just what begins with the text, a star before a text
-- that ends with none what ends with it, and stars on both sides of any text what contains it.
pub matches_pattern-written :
    (tool : String) (glob : Glob)
    → Plain glob
    → (matches_pattern tool (written glob) ≡ true) ↔ Matches tool glob
unfolding matches_pattern matches_starred
matches_pattern-written tool (exactly text) (front, back) =
    rw (not_star text front, front, back) (eq_iff tool text)
matches_pattern-written tool (begins_with []) plain =
    (λ h. (tool, sym (nil-append tool)), λ h. refl)
matches_pattern-written tool (begins_with (c ∷ s)) plain =
    let prefix = starts_with_iff tool (c ∷ s) in
    rw (matches_begins tool (c ∷ s) (cons≢nil {x = c} {xs = s}) plain)
      (λ h. ((prefix.0 h).0, sym (prefix.0 h).1), λ h. prefix.1 (h.0, sym h.1))
matches_pattern-written tool (finishes_with []) plain =
    (λ h. (tool, sym (append-nil tool)), λ h. refl)
matches_pattern-written tool (finishes_with (c ∷ s)) plain =
    rw (matches_finishes tool (c ∷ s) (cons≢nil {x = c} {xs = s}) plain)
      (ends_with_iff tool (c ∷ s))
matches_pattern-written tool (holds text) plain =
    rw (matches_holds tool text) (contains_text_iff tool text)
