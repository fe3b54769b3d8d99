-- ===== src/Base/Words.antt =====
-- Words are texts that the program only compares; a list of words is searched by `includes`.
use Prim.Native.String.{String}
use mathlib.Core.Path.{◌≡◌, refl}
use mathlib.Core.Bool.{Bool, true, false, not, ◌&&◌, ◌||◌}
use mathlib.Core.List.{List, [], ◌∷◌, ◌++◌}
use native.Mathlib.Omega.{arith}
use text.Mathlib.Text.{◌==◌}
use text.Mathlib.TextEquality.{eq_iff}
use connections.Base.Lists.{filter, all}

-- `===` on strings
unfoldable pub str_eq : String → String → Bool
str_eq a b = a == b

pub str_eq→eq : (a b : String) → str_eq a b ≡ true → a ≡ b
unfolding str_eq
str_eq→eq a b = (eq_iff a b).0

pub str_eq_refl : (a : String) → str_eq a a ≡ true
unfolding str_eq
str_eq_refl a = (eq_iff a a).1 refl

-- `Array.prototype.includes` and `Set.prototype.has` on strings
abbrev pub includes : List String → String → Bool
includes [] w = false
includes (x ∷ xs) w = str_eq x w || includes xs w

-- The words of a list are pairwise different.
abbrev pub distinct : List String → Bool
distinct [] = true
distinct (x ∷ xs) = not (includes xs x) && distinct xs

-- Every word of the first list is in the second.
abbrev pub subset : List String → List String → Bool
subset xs ys = all (includes ys) xs

pub includes-append :
    (xs ys : List String) (w : String) → includes (xs ++ ys) w ≡ (includes xs w || includes ys w)
includes-append [] ys w = refl
includes-append (x ∷ xs) ys w = ground (arith, includes-append xs ys w)

-- Filtering by a test on the word's spelling keeps just the members that pass.
pub includes-filter :
    (p : String → Bool) (xs : List String) (w : String)
    → includes (filter p xs) w ≡ (includes xs w && p w)
includes-filter p [] w = refl
includes-filter p (x ∷ xs) w = ground (arith, str_eq→eq x w, includes-filter p xs w)
