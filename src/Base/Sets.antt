-- ===== src/Base/Sets.antt =====
-- Lists of words as sets: removal of one word, and the pigeonhole principle.
use Prim.Native.Nat.{suc, ◌≤◌}
use Prim.Native.String.{String}
use mathlib.Core.Path.{◌≡◌, refl}
use mathlib.Core.Logic.{inl, inr}
use mathlib.Core.Bool.{true, false}
use mathlib.Core.List.{List, [], ◌∷◌}
use native.Mathlib.Omega.{arith}
use connections.Base.Lists.{length}
use connections.Base.Tests.{if◌then◌else◌, Bool-cases}
use connections.Base.Words.{str_eq, str_eq→eq, str_eq_refl, includes, distinct, subset}

erase : String → List String → List String
erase x [] = []
erase x (y ∷ ys) = if str_eq y x then ys else y ∷ erase x ys

length-erase :
    (x : String) (ys : List String) → includes ys x ≡ true → suc (length (erase x ys)) ≡ length ys
unfolding erase
length-erase x [] h = cc
length-erase x (y ∷ ys) h = ground (arith, length-erase x ys)

-- A word other than the erased one is still there.
includes-erase :
    (x w : String) (ys : List String)
    → str_eq x w ≡ false
    → includes ys w ≡ true
    → includes (erase x ys) w ≡ true
unfolding erase
includes-erase x w [] n h = cc
includes-erase x w (y ∷ ys) n h =
    ground (arith, includes-erase x w ys n, str_eq→eq y x, str_eq→eq y w, str_eq_refl w)

includes_of_erase :
    (x w : String) (ys : List String) → includes (erase x ys) w ≡ true → includes ys w ≡ true
unfolding erase
includes_of_erase x w [] h = h
includes_of_erase x w (y ∷ ys) h = ground (arith, includes_of_erase x w ys)

pub subset→includes :
    (xs ys : List String) (w : String)
    → subset xs ys ≡ true
    → includes xs w ≡ true
    → includes ys w ≡ true
subset→includes [] ys w h k = cc
subset→includes (x ∷ xs) ys w h k = ground (arith, subset→includes xs ys w, str_eq→eq x w)

subset-erase :
    (x : String) (xs ys : List String)
    → includes xs x ≡ false
    → subset xs ys ≡ true
    → subset xs (erase x ys) ≡ true
subset-erase x [] ys n h = refl
subset-erase x (z ∷ xs) ys n h =
    ground (arith, subset-erase x xs ys, includes-erase x z ys, str_eq→eq x z, str_eq_refl z)

-- As many different words as `ys` has, all of `ys`, are all the words of `ys`.
pub pigeonhole :
    (xs ys : List String) (w : String)
    → distinct xs ≡ true
    → subset xs ys ≡ true
    → length ys ≤ length xs
    → includes ys w ≡ true
    → includes xs w ≡ true
pigeonhole [] [] w d s l h = h
pigeonhole [] (y ∷ ys) w d s l h = absurd (omega arith)
pigeonhole (x ∷ xs) ys w d s l h = elim (Bool-cases (str_eq x w)) [
  | inl same ↦ rw same refl
  | inr other ↦ rw other (
      pigeonhole xs (erase x ys) w (ground arith)
        (subset-erase x xs ys (ground arith) (ground arith))
        (omega (arith, length-erase x ys (ground arith))) (includes-erase x w ys other h))
]

-- A list of different words of `ys` is no longer than `ys`.
pub distinct-length :
    (xs ys : List String) → distinct xs ≡ true → subset xs ys ≡ true → length xs ≤ length ys
distinct-length [] ys d s = omega arith
distinct-length (x ∷ xs) ys d s =
    let rest =
      distinct-length xs (erase x ys) (ground arith)
        (subset-erase x xs ys (ground arith) (ground arith)) in
    omega (arith, length-erase x ys (ground arith))
