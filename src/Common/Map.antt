-- ===== src/Common/Map.antt =====
-- A map with text keys as an association list: the model of `HashMap` and `DashMap`. The order of
-- the entries is the model's own, and no statement about the program depends on it.
use Prim.Native.Nat.{suc}
use Prim.Native.String.{String}
use mathlib.Core.Path.{◌≡◌, refl}
use mathlib.Core.Bool.{Bool, true, false}
use mathlib.Core.Option.{Option, none, some}
use mathlib.Core.List.{List, [], ◌∷◌, map}
use native.Mathlib.Omega.{arith}
use text.Mathlib.TextEquality.{eq_iff}
use adk_gateway.Common.Lists.{length}
use adk_gateway.Common.Tests.{str_eq, if◌then◌else◌, is_some}

abbrev pub Map {ℓ} : Type ℓ → Type ℓ
Map V = List (String × V)

module _ {ℓ} {V : Type ℓ} where
  unfoldable pub lookup : String → Map V → Option V
  lookup key [] = none
  lookup key ((held, value) ∷ rest) = elim (str_eq held key) [
    | true ↦ some value
    | false ↦ lookup key rest
  ]

  -- A key that is there keeps its place.
  unfoldable pub insert : String → V → Map V → Map V
  insert key new [] = (key, new) ∷ []
  insert key new ((held, value) ∷ rest) = elim (str_eq held key) [
    | true ↦ (key, new) ∷ rest
    | false ↦ (held, value) ∷ insert key new rest
  ]

  unfoldable pub remove : String → Map V → Map V
  remove k [] = []
  remove k ((j, w) ∷ m) = let rest = remove k m in if str_eq j k then rest else (j, w) ∷ rest

  abbrev pub contains_key : String → Map V → Bool
  contains_key k m = is_some (lookup k m)

  abbrev pub keys : Map V → List String
  keys = map λ e. e.0

  abbrev pub values : Map V → List V
  values = map λ e. e.1

  pub lookup-insert :
      (key other : String) (new : V) (rest : Map V)
      → lookup other (insert key new rest)
        ≡ (if str_eq key other then some new else lookup other rest)
  unfolding lookup insert
  lookup-insert key other new [] = ground arith
  lookup-insert key other new ((held, value) ∷ rest) = ground (
    arith,
    lookup-insert key other new rest,
    eq_iff held key,
    eq_iff held other,
    eq_iff key other,
  )

  pub lookup-insert_self : (k : String) (v : V) (m : Map V) → lookup k (insert k v m) ≡ some v
  lookup-insert_self k v m = ground (arith, lookup-insert k k v m, eq_iff k k)

  pub lookup-remove :
      (k j : String) (m : Map V) → lookup j (remove k m) ≡ (if str_eq k j then none else lookup j m)
  unfolding lookup remove
  lookup-remove k j [] = ground arith
  lookup-remove k j ((i, w) ∷ m) =
      ground (arith, eq_iff k j, eq_iff i k, eq_iff i j, lookup-remove k j m)

  -- Every key stands once.
  abbrev pub Unique : Map V → Type ℓ
  Unique [] = Unit
  Unique ((k, v) ∷ m) = (lookup k m ≡ none) × Unique m

  pub insert-Unique : (k : String) (v : V) (m : Map V) → Unique m → Unique (insert k v m)
  unfolding lookup insert
  insert-Unique k v [] u = (refl, tt)
  insert-Unique k v ((j, w) ∷ m) u =
      ground (arith, eq_iff j k, eq_iff k j, insert-Unique k v m u.1, lookup-insert k j v m)

  pub remove-Unique : (k : String) (m : Map V) → Unique m → Unique (remove k m)
  unfolding lookup remove
  remove-Unique k [] u = tt
  remove-Unique k ((j, w) ∷ m) u =
      ground (arith, eq_iff j k, eq_iff k j, remove-Unique k m u.1, lookup-remove k j m)

  pub length-insert :
      (k : String) (v : V) (m : Map V)
      → length (insert k v m) ≡ (if contains_key k m then length m else suc (length m))
  unfolding lookup insert
  length-insert k v [] = refl
  length-insert k v ((j, w) ∷ m) = ground (arith, length-insert k v m)

  length-remove_missing :
      (k : String) (m : Map V) → lookup k m ≡ none → length (remove k m) ≡ length m
  unfolding lookup remove
  length-remove_missing k [] h = refl
  length-remove_missing k ((j, w) ∷ m) h = ground (arith, length-remove_missing k m)

  pub length-remove :
      (k : String) (m : Map V)
      → Unique m
      → contains_key k m ≡ true
      → suc (length (remove k m)) ≡ length m
  unfolding lookup remove
  length-remove k [] u h = cc
  length-remove k ((j, w) ∷ m) u h =
      ground (arith, eq_iff j k, length-remove k m u.1, length-remove_missing k m)

  -- `retain` of the source's maps.
  unfoldable pub retain : (V → Bool) → Map V → Map V
  retain keep [] = []
  retain keep ((held, value) ∷ rest) =
      let kept = retain keep rest in if keep value then (held, value) ∷ kept else kept

  abbrev pub kept_if : (V → Bool) → Option V → Option V
  kept_if keep none = none
  kept_if keep (some value) = if keep value then some value else none

  lookup-retain_missing :
      (keep : V → Bool) (key : String) (m : Map V)
      → lookup key m ≡ none
      → lookup key (retain keep m) ≡ none
  unfolding lookup retain
  lookup-retain_missing keep key [] h = refl
  lookup-retain_missing keep key ((held, value) ∷ rest) h =
      ground (arith, lookup-retain_missing keep key rest)

  pub lookup-retain :
      (keep : V → Bool) (key : String) (m : Map V)
      → Unique m
      → lookup key (retain keep m) ≡ kept_if keep (lookup key m)
  unfolding lookup retain
  lookup-retain keep key [] u = refl
  lookup-retain keep key ((held, value) ∷ rest) u = ground (
    arith,
    eq_iff held key,
    lookup-retain keep key rest u.1,
    lookup-retain_missing keep held rest,
  )

  pub retain-Unique : (keep : V → Bool) (m : Map V) → Unique m → Unique (retain keep m)
  unfolding lookup retain
  retain-Unique keep [] u = tt
  retain-Unique keep ((held, value) ∷ rest) u =
      ground (arith, retain-Unique keep rest u.1, lookup-retain_missing keep held rest)
