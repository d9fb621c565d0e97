-- ===== src/Approval/Search.antt =====
-- The searches in a text that the patterns of tool_approval.rs use: the end of a text and its parts.
use Prim.Native.String.{[], ◌∷◌}
use text.Mathlib.Text.{starts_with}
use text.Mathlib.TextEquality.{starts_with_iff}
use text.Mathlib.TextLemmas.{
  nil-append, cons-append, append-nil, append-eq-nil_iff, tail-eq_of_cons-eq,
}
use adk_gateway.Common.{
  String, true, str_eq, concat, ◌≡◌, sym, ap, ◌∙◌, ◌↔◌, arith, eq_iff, Bool-cases, inl, inr,
}
use adk_gateway.Approval.Patterns.{ends_with, contains_text}

abbrev pub EndsWith : String → String → Type 0
EndsWith s t = (pre : String) × (s ≡ concat pre t)

pub ends_with_of : (s t : String) → ends_with s t ≡ true → EndsWith s t
unfolding ends_with
ends_with_of [] t h = ("", sym ((eq_iff t "").0 h) ∙ sym (nil-append t))
ends_with_of (c ∷ s) t h = elim (Bool-cases (str_eq (c ∷ s) t)) [
  | inl e ↦ ("", (eq_iff (c ∷ s) t).0 e ∙ sym (nil-append t))
  | inr e ↦
      let (pre, same) = ends_with_of s t (ground arith) in
      (c ∷ pre, ap (λ u. c ∷ u) same ∙ sym (cons-append c pre t))
]

pub of_ends_with : (s t pre : String) → s ≡ concat pre t → ends_with s t ≡ true
unfolding ends_with
of_ends_with [] t pre e = (eq_iff t "").1 ((append-eq-nil_iff {p = pre} {q = t}).0 (sym e)).1
of_ends_with (c ∷ s) t [] e =
    let same : str_eq (c ∷ s) t ≡ true = (eq_iff (c ∷ s) t).1 (e ∙ nil-append t) in ground arith
of_ends_with (c ∷ s) t (d ∷ pre) e =
    let later = of_ends_with s t pre (tail-eq_of_cons-eq (e ∙ cons-append d pre t)) in ground arith

pub ends_with_iff : (s t : String) → (ends_with s t ≡ true) ↔ EndsWith s t
ends_with_iff s t = (ends_with_of s t, λ h. of_ends_with s t h.0 h.1)

abbrev pub Contains : String → String → Type 0
Contains s t = (a b : String) × (s ≡ concat a (concat t b))

pub contains_text_of : (s t : String) → contains_text s t ≡ true → Contains s t
unfolding contains_text
contains_text_of [] t h =
    ("", "", sym ((eq_iff t "").0 h) ∙ sym (append-nil t) ∙ sym (nil-append (concat t "")))
contains_text_of (c ∷ s) t h = elim (Bool-cases (starts_with (c ∷ s) t)) [
  | inl e ↦
      let (rest, same) = (starts_with_iff (c ∷ s) t).0 e in
      ("", rest, sym same ∙ sym (nil-append (concat t rest)))
  | inr e ↦
      let (a, b, same) = contains_text_of s t (ground arith) in
      (c ∷ a, b, ap (λ u. c ∷ u) same ∙ sym (cons-append c a (concat t b)))
]

pub of_contains_text : (s t a b : String) → s ≡ concat a (concat t b) → contains_text s t ≡ true
unfolding contains_text
of_contains_text [] t a b e =
    (eq_iff t "").1
      ((append-eq-nil_iff {p = t} {q = b}).0
        ((append-eq-nil_iff {p = a} {q = concat t b}).0 (sym e)).1).0
of_contains_text (c ∷ s) t [] b e =
    let first : starts_with (c ∷ s) t ≡ true =
      (starts_with_iff (c ∷ s) t).1 (b, sym (e ∙ nil-append (concat t b))) in
    ground arith
of_contains_text (c ∷ s) t (d ∷ a) b e =
    let later = of_contains_text s t a b (tail-eq_of_cons-eq (e ∙ cons-append d a (concat t b))) in
    ground arith
