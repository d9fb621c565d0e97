-- ===== src/Access/Sets.antt =====
-- The sets of texts of access_control.rs (`HashSet<String>`), as lists.
use adk_gateway.Common.{
  String, List, [], ◌∷◌, ◌||◌, contains, if◌then◌else◌, str_eq, ◌≡◌, refl, arith, eq_iff,
}

unfoldable pub set_insert : String → List String → List String
set_insert x xs = if contains x xs then xs else x ∷ xs

unfoldable pub set_of : List String → List String
unfolding set_insert
set_of [] = []
set_of (x ∷ xs) = set_insert x (set_of xs)

unfoldable pub union : List String → List String → List String
unfolding set_insert
union [] ys = ys
union (x ∷ xs) ys = set_insert x (union xs ys)

pub contains-set_insert :
    (x y : String) (xs : List String) → contains y (set_insert x xs) ≡ (str_eq x y || contains y xs)
unfolding set_insert
contains-set_insert x y xs = ground (arith, eq_iff x y)

pub contains-set_of : (y : String) (xs : List String) → contains y (set_of xs) ≡ contains y xs
unfolding set_of
contains-set_of y [] = refl
contains-set_of y (x ∷ xs) =
    ground (arith, contains-set_insert x y (set_of xs), contains-set_of y xs)

pub contains-union :
    (y : String) (xs ys : List String) → contains y (union xs ys) ≡ (contains y xs || contains y ys)
unfolding union
contains-union y [] ys = refl
contains-union y (x ∷ xs) ys =
    ground (arith, contains-set_insert x y (union xs ys), contains-union y xs ys)
