-- ===== src/Combinatorics/Order.antt =====
-- `nextCombination` (backend/src/modules/strategy/combinatorics.ts) against the lexicographic order.
use connections.Base.{
  ℕ, zero, suc, ◌+◌, ◌≤◌, ◌<◌, ◌≡◌, refl, sym, ap, ◌∙◌, subst, ◌≢◌, ◌⊎◌, inl, inr, some, List, [],
  ◌∷◌, arith, ◌==◌, Bool-cases, Option-cases, length,
}
use mathlib.Core.Path.{ap₂}
use connections.Combinatorics.{next_combination, first_combination, count_up}
use connections.Combinatorics.Structure.{advance, next_combination-advance}

-- Strictly increasing indices from `low` on, below `n`.
abbrev pub Increasing : ℕ → ℕ → List ℕ → Type 0
Increasing low n [] = low ≤ n
Increasing low n (x ∷ xs) = (low ≤ x) × Increasing (suc x) n xs

-- A k-combination of a pool of n.
abbrev pub IsCombination : ℕ → ℕ → List ℕ → Type 0
IsCombination n k xs = Increasing 0 n xs × (length xs ≡ k)

abbrev pub LexLt : List ℕ → List ℕ → Type 0
LexLt [] ys = ⊥
LexLt (x ∷ xs) [] = ⊥
LexLt (x ∷ xs) (y ∷ ys) = (x < y) ⊎ ((x ≡ y) × LexLt xs ys)

abbrev pub LexLe : List ℕ → List ℕ → Type 0
LexLe xs ys = (xs ≡ ys) ⊎ LexLt xs ys

pub Increasing-length : (low n : ℕ) (xs : List ℕ) → Increasing low n xs → low + length xs ≤ n
Increasing-length low n [] h = omega arith
Increasing-length low n (x ∷ xs) (h, hs) = omega (arith, Increasing-length (suc x) n xs hs)

Increasing-mono :
    (low low' n : ℕ) (xs : List ℕ) → low' ≤ low → Increasing low n xs → Increasing low' n xs
Increasing-mono low low' n [] l h = omega arith
Increasing-mono low low' n (x ∷ xs) l (h, hs) = (omega arith, hs)

-- Counting up from the lower bound is the least choice.
count_up-Increasing : (low n k : ℕ) → low + k ≤ n → Increasing low n (count_up low k)
count_up-Increasing low n zero h = omega arith
count_up-Increasing low n (suc k) h = (
  omega arith,
  Increasing-mono (low + 1) (suc low) n (count_up (low + 1) k) (omega arith)
      (count_up-Increasing (low + 1) n k (omega arith)),
)

length-count_up : (low k : ℕ) → length (count_up low k) ≡ k
length-count_up low zero = refl
length-count_up low (suc k) = ap suc (length-count_up (low + 1) k)

count_up-least :
    (low low' n : ℕ) (zs : List ℕ)
    → low' ≡ low
    → Increasing low n zs
    → LexLe (count_up low' (length zs)) zs
count_up-least low low' n [] e h = inl refl
count_up-least low low' n (z ∷ zs) e (h, hs) = elim (Bool-cases (low' == z)) [
  | inl same ↦ elim (count_up-least (suc z) (low' + 1) n zs (ground arith) hs) [
    | inl eq ↦ inl (ground arith)
    | inr lt ↦ inr (inr (ground arith, lt))
  ]
  | inr other ↦ inr (inl (ground arith))
]

advance-Increasing :
    (low n : ℕ) (xs ys : List ℕ)
    → Increasing low n xs
    → advance n xs ≡ some ys
    → Increasing low n ys × (length ys ≡ length xs) × LexLt xs ys
unfolding advance
advance-Increasing low n [] ys h e = cc
advance-Increasing low n (x ∷ xs) ys (h, hs) e = elim (Option-cases (advance n xs)) [
  | inl stuck ↦
      let room = Increasing-length (suc x) n xs hs in
      let full : x + suc (length xs) ≢ n = ground (arith, stuck) in
      let out : count_up (x + 1) (suc (length xs)) ≡ ys = ground (arith, stuck) in
      subst (λ zs. Increasing low n zs × (length zs ≡ suc (length xs)) × LexLt (x ∷ xs) zs) out
        (
          (omega arith, (count_up-Increasing (x + 1) n (suc (length xs)) (omega arith)).1),
          length-count_up (x + 1) (suc (length xs)),
          inl (omega arith),
        )
  | inr (tl, moved) ↦
      let out : x ∷ tl ≡ ys = ground (arith, moved) in
      let (inc, len, lt) = advance-Increasing (suc x) n xs tl hs moved in
      subst (λ zs. Increasing low n zs × (length zs ≡ suc (length xs)) × LexLt (x ∷ xs) zs) out
        ((h, inc), ap suc len, inr (refl, lt))
]

LexLe-cons : (x z : ℕ) (ys zs : List ℕ) → x ≡ z → LexLe ys zs → LexLe (x ∷ ys) (z ∷ zs)
LexLe-cons x z ys zs e (inl same) = inl (ap₂ ◌∷◌ e same)
LexLe-cons x z ys zs e (inr lt) = inr (inr (e, lt))

advance-least :
    (low n : ℕ) (xs zs : List ℕ)
    → Increasing low n xs
    → Increasing low n zs
    → length xs ≡ length zs
    → LexLt xs zs
    → (ys : List ℕ) × (advance n xs ≡ some ys) × LexLe ys zs
unfolding advance
advance-least low n [] zs h k l lt = absurd lt
advance-least low n (x ∷ xs) [] h k l lt = absurd lt
advance-least low n (x ∷ xs) (z ∷ zs) (h, hs) (k, ks) l (inr (e, lt)) =
    let (ys, moved, le) =
      advance-least (suc x) n xs zs hs (subst (λ i. Increasing (suc i) n zs) (sym e) ks)
        (omega arith) lt in
    (x ∷ ys, ground (arith, moved), LexLe-cons x z ys zs e le)
advance-least low n (x ∷ xs) (z ∷ zs) (h, hs) (k, ks) l (inl lt) =
    elim (Option-cases (advance n xs)) [
      | inl stuck ↦
          let room = Increasing-length (suc z) n zs ks in
          (
            count_up (x + 1) (suc (length xs)),
            ground (arith, stuck, room),
            subst (λ m. LexLe (count_up (x + 1) m) (z ∷ zs)) (sym l)
                (count_up-least (x + 1) (x + 1) n (z ∷ zs) refl (omega arith, ks)),
          )
      | inr (tl, moved) ↦ (x ∷ tl, ground (arith, moved), inr (inl lt))
    ]

-- `nextCombination` gives the immediate successor: from a combination that is not the last it
-- gives a combination of the same size that comes after it, and none lies between.
pub next_combination-successor :
    (n k : ℕ) (xs zs : List ℕ)
    → IsCombination n k xs
    → IsCombination n k zs
    → LexLt xs zs
    → (ys : List ℕ) × (next_combination xs n ≡ some ys)
      × IsCombination n k ys
      × LexLt xs ys
      × LexLe ys zs
next_combination-successor n k xs zs (h, l) (g, m) lt =
    let (ys, e, le) = advance-least 0 n xs zs h g (l ∙ sym m) lt in
    let (inc, len, more) = advance-Increasing 0 n xs ys h e in
    (ys, next_combination-advance n xs ∙ e, (inc, len ∙ l), more, le)

-- Whatever `nextCombination` gives for a combination is a later combination of the same size.
pub next_combination-IsCombination :
    (n k : ℕ) (xs ys : List ℕ)
    → IsCombination n k xs
    → next_combination xs n ≡ some ys
    → IsCombination n k ys × LexLt xs ys
next_combination-IsCombination n k xs ys (h, l) e =
    let (inc, len, more) =
      advance-Increasing 0 n xs ys h (sym (next_combination-advance n xs) ∙ e) in
    ((inc, len ∙ l), more)

-- The first combination is one, if the pool is large enough, and no other comes before it.
pub first_combination-least :
    (n k : ℕ)
    → k ≤ n
    → IsCombination n k (first_combination k)
      × ((zs : List ℕ) → IsCombination n k zs → LexLe (first_combination k) zs)
unfolding first_combination
first_combination-least n k h = (
  (count_up-Increasing 0 n k (omega arith), length-count_up 0 k),
  λ zs (g, m). subst (λ j. LexLe (count_up 0 j) zs) m (count_up-least 0 0 n zs refl g),
)
