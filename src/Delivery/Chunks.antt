-- ===== src/Delivery/Chunks.antt =====
-- What the chunks of split_message hold, for every text and limit.
use Prim.Native.String.{[], len}
use text.Mathlib.TextPositions.{len-append}
use text.Mathlib.TextLemmas.{append-nil as text_append-nil}
use adk_gateway.Common.{
  ℕ, zero, suc, ◌≤◌, ◌<◌, String, false, All, List, leb, ◌==◌, str_eq, concat, ◌≡◌, inl, inr, arith,
  Bool-cases, Option-cases, eq_iff, ap, ◌∙◌, sym, subst,
}
use adk_gateway.Delivery.Split.{
  Split, chunks, panicked, out_of_fuel, push_front, cut, trim_start, split_from, split_message,
}
use adk_gateway.Delivery.Cuts.{
  cut_lem, len-trim_start-le, visible, visible-trim_start, visible-concat,
}

abbrev pub joined : List String → String
joined List.[] = []
joined (List.◌∷◌ chunk rest) = concat chunk (joined rest)

-- The chunks fit, and hold the text but for white space; a panic says nothing, and the loop ends.
abbrev pub IsSplit : ℕ → String → Split → Type 0
IsSplit max text (chunks found) =
    All (λ chunk. len chunk ≤ max) found × (visible (joined found) ≡ visible text)
IsSplit max text panicked = Unit
IsSplit max text out_of_fuel = ⊥

push_front-IsSplit :
    (max : ℕ) (chunk rest : String) (later : Split)
    → len chunk ≤ max
    → IsSplit max (trim_start rest) later
    → IsSplit max (concat chunk rest) (push_front chunk later)
push_front-IsSplit max chunk rest (chunks found) fits h = (
  (fits, h.0),
  visible-concat chunk (joined found)
      ∙ ap (λ u. concat (visible chunk) u) (h.1 ∙ visible-trim_start rest)
      ∙ sym (visible-concat chunk rest),
)
push_front-IsSplit max chunk rest panicked fits h = tt
push_front-IsSplit max chunk rest out_of_fuel fits h = h

whole-IsSplit :
    (max : ℕ) (text : String) → len text ≤ max → IsSplit max text (chunks (List.◌∷◌ text List.[]))
whole-IsSplit max text h = ((h, tt), ap visible (text_append-nil text))

split_from-IsSplit :
    (fuel max : ℕ) (remaining : String)
    → 0 < max
    → len remaining < fuel
    → IsSplit max remaining (split_from fuel max remaining)
unfolding split_from
split_from-IsSplit zero max remaining a b = omega arith
split_from-IsSplit (suc fuel) max remaining a b = elim (Bool-cases (str_eq remaining [])) [
  | inl e ↦ rw e (tt, ground (arith, eq_iff remaining []))
  | inr e ↦ elim (Bool-cases (leb (len remaining) max)) [
    | inl f ↦ rw (e, f) (whole-IsSplit max remaining (ground arith))
    | inr f ↦ elim (Option-cases (cut max remaining)) [
      | inl g ↦ rw (e, f, g) tt
      | inr (pieces, g) ↦
          let (same, some_taken, fits) = cut_lem max remaining pieces a g in
          let shorter : len (trim_start pieces.after) < fuel =
            ground (
              arith,
              len-trim_start-le pieces.after,
              same,
              len-append pieces.before pieces.after,
            ) in
          rw (e, f, g)
            (subst
              (λ u.
                IsSplit max u
                  (push_front pieces.before (split_from fuel max (trim_start pieces.after))))
              (sym same)
              (push_front-IsSplit max pieces.before pieces.after _ fits
                (split_from-IsSplit fuel max (trim_start pieces.after) a shorter)))
    ]
  ]
]

-- For every text and every limit but 0, split_message ends within one round for each byte: it panics
-- at a slice or returns chunks, each of at most that many bytes, that together hold
-- every character of the text that is no white space, in its order.
pub split_message-IsSplit :
    (text : String) (max : ℕ) → 0 < max → IsSplit max text (split_message text max)
unfolding split_message
split_message-IsSplit text max a =
    let z : (max == 0) ≡ false = ground arith in
    elim (Bool-cases (leb (len text) max)) [
      | inl f ↦ rw (z, f) (whole-IsSplit max text (ground arith))
      | inr f ↦
          let loop = split_from-IsSplit (suc (len text)) max text a (omega arith) in
          rw (z, f) (rw (f, split_from) at loop)
    ]
