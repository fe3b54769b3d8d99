-- ===== src/Combinatorics/Structure.antt =====
-- The loops of `nextCombination` (backend/src/modules/strategy/combinatorics.ts) as one recursion
-- on the list of indices.
use connections.Base.{
  ℕ, zero, suc, ◌+◌, ◌-◌, ◌≡◌, refl, ap, ◌∙◌, Option, none, some, List, [], ◌∷◌, arith, ◌==◌,
  if◌then◌else◌, length, get_or, set,
}
use connections.Combinatorics.{pivot, refill, next_combination, count_up}

-- Advance the tail if it can be advanced, else the head.
unfoldable pub advance : ℕ → List ℕ → Option (List ℕ)
advance n [] = none
advance n (x ∷ xs) = elim (advance n xs) [
  | some ys ↦ some (x ∷ ys)
  | none ↦ if x + suc (length xs) == n then none else some (count_up (x + 1) (suc (length xs)))
]

abbrev shift : ℕ → ℕ → ℕ → ℕ → ℕ
shift x n k zero = if x + suc k == n then zero else suc zero
shift x n k (suc i) = suc (suc i)

pivot-cons :
    (x : ℕ) (xs : List ℕ) (n k m : ℕ)
    → pivot (x ∷ xs) n (suc k) (suc m) ≡ shift x n k (pivot xs n k m)
unfolding pivot
pivot-cons x xs n k zero = ground arith
pivot-cons x xs n k (suc m) = ground (arith, pivot-cons x xs n k m)

refill-cons : (c i x : ℕ) (xs : List ℕ) → refill c (suc i) (x ∷ xs) ≡ x ∷ refill c i xs
unfolding refill
refill-cons zero i x xs = refl
refill-cons (suc c) i x xs = refill-cons c (suc i) x (set xs (suc i) (get_or xs i 0 + 1))

refill-head : (a : ℕ) (xs : List ℕ) → refill (length xs) 0 (a ∷ xs) ≡ count_up a (suc (length xs))
unfolding refill
refill-head a [] = refl
refill-head a (x ∷ xs) =
    refill-cons (length xs) 0 a ((a + 1) ∷ xs) ∙ ap (◌∷◌ a) (refill-head (a + 1) xs)

advance_step :
    (n x : ℕ) (xs : List ℕ) (p : ℕ)
    → pivot xs n (length xs) (length xs) ≡ p
    → next_combination xs n ≡ advance n xs
    → next_combination (x ∷ xs) n ≡ advance n (x ∷ xs)
unfolding next_combination advance
advance_step n x xs zero e ih =
    let l : suc (length xs) - 1 ≡ length xs = omega arith in
    ground (arith, l, pivot-cons x xs n (length xs) (length xs), refill-head (x + 1) xs)
advance_step n x xs (suc i) e ih =
    let l : suc (length xs) - suc (suc i) ≡ length xs - suc i = omega arith in
    ground (
      arith,
      l,
      pivot-cons x xs n (length xs) (length xs),
      refill-cons (length xs - suc i) i x (set xs i (get_or xs i 0 + 1)),
    )

pub next_combination-advance : (n : ℕ) (xs : List ℕ) → next_combination xs n ≡ advance n xs
next_combination-advance n [] = unfold next_combination pivot advance in refl
next_combination-advance n (x ∷ xs) =
    advance_step n x xs (pivot xs n (length xs) (length xs)) refl (next_combination-advance n xs)
