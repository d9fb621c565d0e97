-- ===== src/Coding/Workspaces.antt =====
-- What coding_agent/workspace.rs lets through: the paths that exist and lie in a workspace.
use adk_gateway.Common.{
  String, List, [], ◌∷◌, none, some, Bool, true, any, All, In, ◌≡◌, refl, ◌↔◌, inl, inr, arith,
  Bool-cases, Option-cases,
}
use adk_gateway.Coding.{Environment}
use adk_gateway.Coding.Paths.{path_starts_with, is_within_workspace, validate_path, validate_paths}

-- The path exists, and the parts of its canonical form begin with those of a workspace.
pub record Within (env : Environment) (workspaces : List String) (path : String) : Type 0 where
  pub canonical : String
  pub exists : env.canonicalize path ≡ some canonical
  pub workspace : String
  pub allowed : In workspace workspaces
  pub inside : path_starts_with canonical workspace ≡ true

-- A member of a list that passes a test.
Passes : (String → Bool) → List String → Type 0
Passes test list = (found : String) × In found list × (test found ≡ true)

any-Passes : (test : String → Bool) (list : List String) → any test list ≡ true → Passes test list
unfolding Passes
any-Passes test [] h = ground arith
any-Passes test (first ∷ rest) h = elim (Bool-cases (test first)) [
  | inl e ↦ (first, inl refl, e)
  | inr e ↦
      let (found, member, passes) = any-Passes test rest (ground arith) in
      (found, inr member, passes)
]

any-In :
    (test : String → Bool) (list : List String) (found : String)
    → In found list
    → test found ≡ true
    → any test list ≡ true
any-In test [] found member passes = ground arith
any-In test (first ∷ rest) found (inl e) passes = ground arith
any-In test (first ∷ rest) found (inr member) passes =
    ground (arith, any-In test rest found member passes)

passes_path :
    (env : Environment) (workspaces : List String) (path : String)
    → validate_path env workspaces path ≡ none
    → Within env workspaces path
unfolding validate_path is_within_workspace Passes
passes_path env workspaces path h = elim (Option-cases (env.canonicalize path)) [
  | inl e ↦ ground (arith, rw (e, validate_path) at h)
  | inr (canonical, e) ↦ elim (Bool-cases (any (λ w. path_starts_with canonical w) workspaces)) [
    | inl inside ↦
        let (workspace, member, begins) =
          any-Passes (λ w. path_starts_with canonical w) workspaces inside in
        record {
          canonical = canonical;
          exists = e;
          workspace = workspace;
          allowed = member;
          inside = begins;
        }
    | inr outside ↦ ground (arith, rw (e, outside, validate_path) at h)
  ]
]

within_passes :
    (env : Environment) (workspaces : List String) (path : String)
    → Within env workspaces path
    → validate_path env workspaces path ≡ none
unfolding validate_path is_within_workspace
within_passes env workspaces path v =
    let found =
      any-In (λ w. path_starts_with v.canonical w) workspaces v.workspace v.allowed v.inside in
    rw (v.exists, validate_path, found) refl

-- validate_path lets a path through exactly when it exists and its canonical form begins, part by
-- part, with one of the workspaces.
pub validate_path-Within :
    (env : Environment) (workspaces : List String) (path : String)
    → validate_path env workspaces path ≡ none ↔ Within env workspaces path
validate_path-Within env workspaces path =
    (passes_path env workspaces path, within_passes env workspaces path)

pub validate_paths-Within :
    (env : Environment) (workspaces paths : List String)
    → validate_paths env workspaces paths ≡ none ↔ All (Within env workspaces) paths
unfolding validate_paths
validate_paths-Within env workspaces [] = (λ h. tt, λ h. refl)
validate_paths-Within env workspaces (path ∷ rest) =
    let (passes, comes_back) = validate_paths-Within env workspaces rest in
    elim (Option-cases (validate_path env workspaces path)) [
      | inl e ↦
          rw (e, validate_paths)
            (λ h. (passes_path env workspaces path e, passes h), λ h. comes_back h.1)
      | inr (error, e) ↦
          rw (e, validate_paths)
            (λ h. ground arith, λ h. ground (arith, e, within_passes env workspaces path h.0))
    ]
