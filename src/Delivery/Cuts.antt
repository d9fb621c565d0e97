-- ===== src/Delivery/Cuts.antt =====
-- Where one round of split_message cuts a text.
use Prim.Native.Char.{Char, len_utf8}
use Prim.Native.String.{[], ◌∷◌, len}
use Prim.Native.String.len as len_of
use Prim.Native.String.append
use text.Mathlib.TextPositions.{len_utf8-pos}
use adk_gateway.Common.{
  ℕ, ◌-◌, ◌≤◌, ◌<◌, String, Option, none, some, true, if◌then◌else◌, ltb, leb, ◌==◌, concat, ◌≡◌,
  refl, inl, inr, arith, Bool-cases, Option-cases,
}
use adk_gateway.Delivery.Split.{
  Pieces, first_longer, split_at, rfind, cut_position, cut, trim_start, is_whitespace, newline,
  space,
}

split_at-nil :
    (at : ℕ)
    → split_at at [] ≡ (if at == 0 then some (record { before = []; after = [] }) else none)
unfolding split_at
split_at-nil at = refl

abbrev IsCut : ℕ → String → Option Pieces → Type 0
IsCut at text none = Unit
IsCut at text (some pieces) = (text ≡ concat pieces.before pieces.after) × (len pieces.before ≡ at)

first_longer-IsCut :
    (at : ℕ) (c : Char) (rest : String) (later : Option Pieces)
    → leb (len_utf8 c) at ≡ true
    → IsCut (at - len_utf8 c) rest later
    → IsCut at (c ∷ rest) (first_longer c later)
first_longer-IsCut at c rest none fits h = tt
first_longer-IsCut at c rest (some pieces) fits h =
    ground (arith, h, append.cons c pieces.before pieces.after, len_of.cons c pieces.before)

split_at-IsCut : (at : ℕ) (text : String) → IsCut at text (split_at at text)
unfolding split_at
split_at-IsCut at [] = elim (Bool-cases (at == 0)) [
  | inl e ↦ rw e (ground (arith, append.nil [], len_of.nil))
  | inr e ↦ rw e tt
]
split_at-IsCut at (c ∷ rest) = elim (Bool-cases (at == 0)) [
  | inl e ↦ rw e (ground (arith, append.nil (c ∷ rest), len_of.nil))
  | inr e ↦ elim (Bool-cases (ltb at (len_utf8 c))) [
    | inl f ↦ rw (e, f) tt
    | inr f ↦
        rw (e, f)
          (first_longer-IsCut at c rest (split_at (at - len_utf8 c) rest) (ground arith)
            (split_at-IsCut (at - len_utf8 c) rest))
  ]
]

pub split_at-concat :
    (at : ℕ) (text : String) (pieces : Pieces)
    → split_at at text ≡ some pieces
    → (text ≡ concat pieces.before pieces.after) × (len pieces.before ≡ at)
split_at-concat at text pieces h = rw h at (split_at-IsCut at text)

rfind-lt : (wanted : Char) (text : String) (at : ℕ) → rfind wanted text ≡ some at → at < len text
unfolding rfind
rfind-lt wanted [] at h = ground arith
rfind-lt wanted (c ∷ rest) at h = elim (Option-cases (rfind wanted rest)) [
  | inl f ↦ ground (arith, len_of.cons c rest, len_utf8-pos c)
  | inr (later, f) ↦ ground (arith, rfind-lt wanted rest later f, len_of.cons c rest)
]

pub cut_position-le :
    (max : ℕ) (slice : String)
    → 0 < max
    → len slice ≡ max
    → (0 < cut_position max slice) × (cut_position max slice ≤ max)
unfolding cut_position
cut_position-le max slice a e = elim (Option-cases (rfind newline slice)) [
  | inl f ↦ elim (Option-cases (rfind space slice)) [
    | inl g ↦ ground (arith, f, g)
    | inr (at, g) ↦ ground (arith, rfind-lt space slice at g)
  ]
  | inr (at, f) ↦ ground (arith, rfind-lt newline slice at f)
]

pub cut_lem :
    (max : ℕ) (remaining : String) (pieces : Pieces)
    → 0 < max
    → cut max remaining ≡ some pieces
    → (remaining ≡ concat pieces.before pieces.after)
      × (0 < len pieces.before)
      × (len pieces.before ≤ max)
unfolding cut
cut_lem max remaining pieces a h = elim (Option-cases (split_at max remaining)) [
  | inl e ↦ ground (arith, rw (e, cut) at h)
  | inr (slice, e) ↦
      let f : split_at (cut_position max slice.before) remaining ≡ some pieces = rw (e, cut) at h in
      let (same, size) = split_at-concat (cut_position max slice.before) remaining pieces f in
      let (whole, slice_size) = split_at-concat max remaining slice e in
      ground (arith, same, size, cut_position-le max slice.before a slice_size)
]

pub len-trim_start-le : (text : String) → len (trim_start text) ≤ len text
unfolding trim_start
len-trim_start-le [] = ground arith
len-trim_start-le (c ∷ rest) =
    ground (arith, len_of.cons c rest, len_of.cons c (trim_start rest), len-trim_start-le rest)

-- The text without its white space.
unfoldable pub visible : String → String
visible [] = []
visible (c ∷ rest) = let later = visible rest in if is_whitespace c then later else c ∷ later

pub visible-trim_start : (text : String) → visible (trim_start text) ≡ visible text
unfolding trim_start visible
visible-trim_start [] = refl
visible-trim_start (c ∷ rest) = ground (arith, visible-trim_start rest)

pub visible-concat : (a b : String) → visible (concat a b) ≡ concat (visible a) (visible b)
unfolding visible
visible-concat [] b = ground (arith, append.nil b, append.nil (visible b))
visible-concat (c ∷ a) b =
    ground (arith, append.cons c a b, append.cons c (visible a) (visible b), visible-concat a b)
