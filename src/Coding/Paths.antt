-- ===== src/Coding/Paths.antt =====
-- coding_agent/workspace.rs: the paths that an agent may use. A path is compared part by part, as
-- `Path::starts_with` does on Unix.
use Prim.Native.Char.{Char, code}
use Prim.Native.String.{[] as no_text, ◌∷◌}
use adk_gateway.Common.{
  String, List, Option, none, some, Bool, true, false, not, ◌&&◌, any, filter, if◌then◌else◌,
  str_eq, ◌==◌,
}
use adk_gateway.Coding.{Environment, CodingAgentError, workspace_violation}

abbrev prepend : Char → List String → List String
prepend c List.[] = List.◌∷◌ (c ∷ no_text) List.[]
prepend c (List.◌∷◌ part rest) = List.◌∷◌ (c ∷ part) rest

-- The texts between the slashes.
unfoldable pub split_slash : String → List String
split_slash no_text = List.◌∷◌ "" List.[]
split_slash (c ∷ rest) =
    let later = split_slash rest in if code c == 47 then List.◌∷◌ "" later else prepend c later

abbrev is_named : String → Bool
is_named part = not (str_eq part "") && not (str_eq part ".")

-- The root, or the "." that a relative path begins with, and then the parts but empty ones and ".".
abbrev rooted : List String → List String
rooted List.[] = List.[]
rooted (List.◌∷◌ first List.[]) = if str_eq first "" then List.[] else List.◌∷◌ first List.[]
rooted (List.◌∷◌ first (List.◌∷◌ second rest)) =
    if str_eq first ""
    then List.◌∷◌ "/" (filter is_named (List.◌∷◌ second rest))
    else List.◌∷◌ first (filter is_named (List.◌∷◌ second rest))

unfoldable pub components : String → List String
unfolding split_slash
components path = rooted (split_slash path)

unfoldable pub is_prefix : List String → List String → Bool
is_prefix List.[] parts = true
is_prefix (List.◌∷◌ first rest) List.[] = false
is_prefix (List.◌∷◌ first rest) (List.◌∷◌ part parts) =
    let later = is_prefix rest parts in str_eq first part && later

unfoldable pub path_starts_with : String → String → Bool
unfolding components is_prefix
path_starts_with path base = is_prefix (components base) (components path)

unfoldable pub is_within_workspace : List String → String → Bool
unfolding path_starts_with
is_within_workspace workspaces path = any (λ workspace. path_starts_with path workspace) workspaces

-- `from_canonical` keeps the workspaces as they are given.
unfoldable pub validate_path : Environment → List String → String → Option CodingAgentError
unfolding is_within_workspace
validate_path env workspaces path = elim (env.canonicalize path) [
  | none ↦ some (workspace_violation path)
  | some canonical ↦
      if is_within_workspace workspaces canonical then none else some (workspace_violation path)
]

unfoldable pub validate_paths : Environment → List String → List String → Option CodingAgentError
unfolding validate_path
validate_paths env workspaces List.[] = none
validate_paths env workspaces (List.◌∷◌ path rest) =
    let later = validate_paths env workspaces rest in
    elim (validate_path env workspaces path) [ some error ↦ some error | none ↦ later ]
