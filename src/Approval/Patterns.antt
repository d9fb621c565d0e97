-- ===== src/Approval/Patterns.antt =====
-- The patterns of tool_approval.rs. A text is the list of its characters; the tests are those of the
-- standard library, and a slice counts bytes.
use Prim.Native.String.{[], ◌∷◌, len, slice}
use text.Mathlib.Text.{starts_with}
use adk_gateway.Common.{String, Bool, true, false, ◌||◌, ◌-◌, if◌then◌else◌, str_eq}

-- `str::ends_with`.
unfoldable pub ends_with : String → String → Bool
ends_with [] suffix = str_eq suffix ""
ends_with (c ∷ rest) suffix = let later = ends_with rest suffix in str_eq (c ∷ rest) suffix || later

-- `str::contains` with a text.
unfoldable pub contains_text : String → String → Bool
contains_text [] inner = str_eq inner ""
contains_text (c ∷ rest) inner =
    let later = contains_text rest inner in starts_with (c ∷ rest) inner || later

-- The match on where the pattern has a star.
unfoldable pub matches_starred : Bool → Bool → String → String → Bool
unfolding ends_with contains_text
matches_starred true true tool pattern =
    let inner : String = slice pattern 1 (len pattern - 1) in
    if str_eq inner "" then true else contains_text tool inner
matches_starred true false tool pattern = ends_with tool (slice pattern 1 (len pattern))
matches_starred false true tool pattern = starts_with tool (slice pattern 0 (len pattern - 1))
matches_starred false false tool pattern = str_eq tool pattern

unfoldable pub matches_pattern : String → String → Bool
unfolding matches_starred ends_with
matches_pattern tool pattern =
    if str_eq pattern "*"
    then true
    else matches_starred (starts_with pattern "*") (ends_with pattern "*") tool pattern
