-- ===== src/Base/Order.antt =====
-- Python's order on texts, by code points, and `sorted` on sets of texts.
use Prim.Native.String.{String, compare}
use mathlib.Core.Path.{◌≡◌, refl}
use mathlib.Core.Bool.{Bool, ◌||◌}
use mathlib.Core.List.{List, [], ◌∷◌}
use native.Mathlib.Omega.{arith}
use text.Mathlib.Text.{is_lt}
use openvair_rde_linter.Base.Equality.{◌==◌, contains, if◌then◌else◌, string_eq}

-- `s < t`
unfoldable pub str_ltb : String → String → Bool
str_ltb s t = is_lt (compare s t)

-- `a` into an ascending list with no duplicates
unfoldable pub add_sorted : String → List String → List String
unfolding str_ltb
add_sorted a [] = a ∷ []
add_sorted a (x ∷ xs) =
    if a == x then x ∷ xs else if str_ltb a x then a ∷ x ∷ xs else x ∷ add_sorted a xs

-- `sorted(set(xs))`
unfoldable pub sorted_set : List String → List String
unfolding add_sorted
sorted_set [] = []
sorted_set (x ∷ xs) = add_sorted x (sorted_set xs)

contains-add_sorted :
    (a : String) (xs : List String) (b : String)
    → contains (add_sorted a xs) b ≡ (b == a || contains xs b)
unfolding add_sorted
contains-add_sorted a [] b = refl
contains-add_sorted a (x ∷ xs) b = ground (arith, contains-add_sorted a xs b)

pub contains-sorted_set :
    (xs : List String) (b : String) → contains (sorted_set xs) b ≡ contains xs b
unfolding sorted_set
contains-sorted_set [] b = refl
contains-sorted_set (x ∷ xs) b =
    ground (arith, contains-add_sorted x (sorted_set xs) b, contains-sorted_set xs b)
