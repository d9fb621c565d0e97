-- ===== src/Delivery/Ascii.antt =====
-- A text of one byte to the character, which split_message cuts without a panic.
use Prim.Native.Char.{Char, len_utf8}
use Prim.Native.String.{[], ◌∷◌, len}
use Prim.Native.String.len as len_of
use adk_gateway.Common.{
  ℕ, zero, suc, ◌-◌, ◌≤◌, ◌<◌, String, Option, none, some, true, false, ltb, leb, ◌==◌, str_eq, ◌≡◌,
  inl, inr, arith, Bool-cases, Option-cases,
}
use text.Mathlib.TextPositions.{len-append}
use adk_gateway.Delivery.Split.{
  Pieces, first_longer, Split, chunks, panicked, out_of_fuel, push_front, split_at, cut,
  cut_position, is_whitespace, trim_start, split_from, split_message,
}
use adk_gateway.Delivery.Cuts.{cut_lem, cut_position-le, split_at-concat, len-trim_start-le}

abbrev pub IsAscii : String → Type 0
IsAscii [] = Unit
IsAscii (c ∷ rest) = (len_utf8 c ≡ 1) × IsAscii rest

-- There are pieces, and the second one is such a text again.
abbrev Cuts : Option Pieces → Type 0
Cuts none = ⊥
Cuts (some pieces) = IsAscii pieces.after

first_longer-Cuts : (c : Char) (later : Option Pieces) → Cuts later → Cuts (first_longer c later)
first_longer-Cuts c none h = h
first_longer-Cuts c (some pieces) h = h

split_at-Cuts : (at : ℕ) (text : String) → IsAscii text → at ≤ len text → Cuts (split_at at text)
unfolding split_at
split_at-Cuts at [] a h = let z : (at == 0) ≡ true = ground (arith, len_of.nil) in rw z tt
split_at-Cuts at (c ∷ rest) a h = elim (Bool-cases (at == 0)) [
  | inl e ↦ rw e a
  | inr e ↦
      let f : ltb at (len_utf8 c) ≡ false = ground (arith, a.0) in
      rw (e, f)
        (first_longer-Cuts c (split_at (at - len_utf8 c) rest)
          (split_at-Cuts (at - len_utf8 c) rest a.1 (ground (arith, a.0, len_of.cons c rest))))
]

cut-Cuts : (max : ℕ) (text : String) → 0 < max → IsAscii text → max ≤ len text → Cuts (cut max text)
unfolding cut
cut-Cuts max text p a h = elim (Option-cases (split_at max text)) [
  | inl e ↦ let c : ⊥ = rw e at (split_at-Cuts max text a h) in absurd c
  | inr (slice, e) ↦
      let size = (split_at-concat max text slice e).1 in
      rw (e, cut)
        (split_at-Cuts (cut_position max slice.before) text a
          (ground (arith, cut_position-le max slice.before p size)))
]

trim_start-IsAscii : (text : String) → IsAscii text → IsAscii (trim_start text)
unfolding trim_start
trim_start-IsAscii [] a = tt
trim_start-IsAscii (c ∷ rest) a = elim (Bool-cases (is_whitespace c)) [
  | inl e ↦ rw e (trim_start-IsAscii rest a.1)
  | inr e ↦ rw e a
]

abbrev pub Returns : Split → Type 0
Returns (chunks found) = Unit
Returns panicked = ⊥
Returns out_of_fuel = ⊥

push_front-Returns :
    (chunk : String) (later : Split) → Returns later → Returns (push_front chunk later)
push_front-Returns chunk (chunks found) h = tt
push_front-Returns chunk panicked h = h
push_front-Returns chunk out_of_fuel h = h

split_from-Returns :
    (fuel max : ℕ) (remaining : String)
    → 0 < max
    → IsAscii remaining
    → len remaining < fuel
    → Returns (split_from fuel max remaining)
unfolding split_from
split_from-Returns zero max remaining a i b = omega arith
split_from-Returns (suc fuel) max remaining a i b = elim (Bool-cases (str_eq remaining [])) [
  | inl e ↦ rw e tt
  | inr e ↦ elim (Bool-cases (leb (len remaining) max)) [
    | inl f ↦ rw (e, f) tt
    | inr f ↦ elim (Option-cases (cut max remaining)) [
      | inl g ↦ let c : ⊥ = rw g at (cut-Cuts max remaining a i (ground arith)) in absurd c
      | inr (pieces, g) ↦
          let (same, some_taken, fits) = cut_lem max remaining pieces a g in
          let shorter : len (trim_start pieces.after) < fuel =
            ground (
              arith,
              len-trim_start-le pieces.after,
              same,
              len-append pieces.before pieces.after,
            ) in
          let kept : IsAscii pieces.after = rw g at (cut-Cuts max remaining a i (ground arith)) in
          rw (e, f, g)
            (push_front-Returns pieces.before _ (
              split_from-Returns fuel max (trim_start pieces.after) a
                (trim_start-IsAscii pieces.after kept) shorter))
    ]
  ]
]

-- On a text of characters of one byte each, split_message returns chunks: no slice panics.
pub split_message-Returns :
    (text : String) (max : ℕ) → IsAscii text → Returns (split_message text max)
unfolding split_message
split_message-Returns text max i = elim (Bool-cases (max == 0)) [
  | inl z ↦ rw z tt
  | inr z ↦ elim (Bool-cases (leb (len text) max)) [
    | inl f ↦ rw (z, f) tt
    | inr f ↦
        let loop = split_from-Returns (suc (len text)) max text (ground arith) i (omega arith) in
        rw (z, f) (rw (f, split_from) at loop)
  ]
]
