-- ===== src/Delivery/Split.antt =====
-- split_message of delivery.rs: a response in pieces that a channel takes. Positions count the bytes of
-- UTF-8, as the source's do; a slice at a position inside a character panics.
use Prim.Native.Char.{Char, code, len_utf8}
use Prim.Native.String.{[], ◌∷◌, len}
use adk_gateway.Common.{
  ℕ, zero, suc, ◌+◌, ◌-◌, String, List, Option, none, some, Bool, ◌&&◌, ◌||◌, if◌then◌else◌, ltb,
  leb, ◌==◌, str_eq,
}
use adk_gateway.AgentConfig.{or_else}

pub record Pieces : Type 0 where
  pub before : String
  pub after : String

abbrev pub first_longer : Char → Option Pieces → Option Pieces
first_longer c none = none
first_longer c (some pieces) = some (record pieces { before = c ∷ pieces.before })

-- `&text[..at]` and `&text[at..]`: `none` is the panic.
unfoldable pub split_at : ℕ → String → Option Pieces
split_at at [] = if at == 0 then some (record { before = []; after = [] }) else none
split_at at (c ∷ rest) =
    let later = split_at (at - len_utf8 c) rest in
    if at == 0
    then some (record { before = []; after = c ∷ rest })
    else if ltb at (len_utf8 c)
    then none
    else first_longer c later

-- `rfind` of a character.
unfoldable pub rfind : Char → String → Option ℕ
rfind wanted [] = none
rfind wanted (c ∷ rest) = elim (rfind wanted rest) [
  | some at ↦ some (len_utf8 c + at)
  | none ↦ if code c == code wanted then some 0 else none
]

-- `char::is_whitespace`: the property White_Space of Unicode.
abbrev pub is_whitespace : Char → Bool
is_whitespace c =
    leb 9 (code c) && leb (code c) 13
    || code c == 32
    || code c == 133
    || code c == 160
    || code c == 5_760
    || leb 8_192 (code c) && leb (code c) 8_202
    || code c == 8_232
    || code c == 8_233
    || code c == 8_239
    || code c == 8_287
    || code c == 12_288

unfoldable pub trim_start : String → String
trim_start [] = []
trim_start (c ∷ rest) =
    let trimmed = trim_start rest in if is_whitespace c then trimmed else c ∷ rest

abbrev pub newline : Char
newline = "\n"

abbrev pub space : Char
space = " "

abbrev pub unwrap_or : Option ℕ → ℕ → ℕ
unwrap_or none fallback = fallback
unwrap_or (some at) fallback = at

-- Where the loop cuts a slice of `max` bytes.
unfoldable pub cut_position : ℕ → String → ℕ
unfolding rfind
cut_position max slice =
    let found = unwrap_or (or_else (rfind newline slice) (rfind space slice)) max in
    if found == 0 then max else found

-- A text in chunks, a panic at a slice, or a loop that has not ended.
pub data Split : Type 0 where
  chunks : List String → Split
  panicked : Split
  out_of_fuel : Split

abbrev pub push_front : String → Split → Split
push_front chunk (chunks rest) = chunks (List.◌∷◌ chunk rest)
push_front chunk panicked = panicked
push_front chunk out_of_fuel = out_of_fuel

-- The slice of `max` bytes with where it is cut, and the chunk with the text after it.
unfoldable pub cut : ℕ → String → Option Pieces
unfolding split_at cut_position
cut max remaining = elim (split_at max remaining) [
  | none ↦ none
  | some slice ↦ split_at (cut_position max slice.before) remaining
]

-- The rounds of the loop.
unfoldable pub split_from : ℕ → ℕ → String → Split
unfolding cut trim_start
split_from zero max remaining = out_of_fuel
split_from (suc fuel) max remaining =
    if str_eq remaining []
    then chunks List.[]
    else if leb (len remaining) max
    then chunks (List.◌∷◌ remaining List.[])
    else elim (cut max remaining) [
      | none ↦ panicked
      | some pieces ↦ push_front pieces.before (split_from fuel max (trim_start pieces.after))
    ]

unfoldable pub split_message : String → ℕ → Split
unfolding split_from
split_message text max =
    if max == 0
    then chunks (List.◌∷◌ text List.[])
    else if leb (len text) max
    then chunks (List.◌∷◌ text List.[])
    else split_from (suc (len text)) max text
