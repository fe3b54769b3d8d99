-- ===== src/Combinatorics/Rank.antt =====
-- How long the enumeration by `nextCombination` (backend/src/modules/strategy/combinatorics.ts)
-- takes: a combination read as a number in base n grows at each step.
use connections.Base.{
  ◌^◌, ℕ, zero, suc, ◌+◌, ◌*◌, ◌≤◌, ◌<◌, ◌≡◌, sym, ap, ◌∙◌, subst, ◌≢◌, inl, inr, Option, none,
  some, List, [], ◌∷◌, arith, Option-cases, length,
}
use mathlib.Core.Path.{ap₂}
use native.Mathlib.Nat.{pow-succ', pow-zero}
use connections.Combinatorics.{next_combination, first_combination}
use connections.Combinatorics.Order.{
  Increasing, Increasing-length, IsCombination, LexLt, LexLe, next_combination-successor,
  next_combination-IsCombination, first_combination-least,
}

abbrev pub rank : ℕ → List ℕ → ℕ
rank n [] = 0
rank n (x ∷ xs) = x * n ^ length xs + rank n xs

digit_lt : (x y p r : ℕ) → x < y → r < p → x * p + r < y * p
digit_lt x y p r h k = grind arith

rank-lt_from : (low n : ℕ) (xs : List ℕ) → Increasing low n xs → rank n xs < n ^ length xs
rank-lt_from low n [] h = rw (pow-zero n) (omega arith)
rank-lt_from low n (x ∷ xs) (h, hs) =
    let room = Increasing-length (suc x) n xs hs in
    rw (pow-succ' n (length xs))
      (digit_lt x n (n ^ length xs) (rank n xs) (omega arith) (rank-lt_from (suc x) n xs hs))

rank-mono_from :
    (low n : ℕ) (xs zs : List ℕ)
    → Increasing low n xs
    → Increasing low n zs
    → length xs ≡ length zs
    → LexLt xs zs
    → rank n xs < rank n zs
rank-mono_from low n [] zs h g l lt = absurd lt
rank-mono_from low n (x ∷ xs) [] h g l lt = absurd lt
rank-mono_from low n (x ∷ xs) (z ∷ zs) (h, hs) (g, gs) l (inl lt) =
    let same : length xs ≡ length zs = omega arith in
    let head = digit_lt x z (n ^ length xs) (rank n xs) lt (rank-lt_from (suc x) n xs hs) in
    omega (arith, subst (λ m. x * n ^ length xs + rank n xs < z * n ^ m) same head)
rank-mono_from low n (x ∷ xs) (z ∷ zs) (h, hs) (g, gs) l (inr (e, lt)) =
    let same : length xs ≡ length zs = omega arith in
    let tl =
      rank-mono_from (suc x) n xs zs hs (subst (λ i. Increasing (suc i) n zs) (sym e) gs) same lt in
    let head : x * n ^ length xs ≡ z * n ^ length zs = ap₂ (λ i m. i * n ^ m) e same in omega arith

pub rank-lt : (n k : ℕ) (xs : List ℕ) → IsCombination n k xs → rank n xs < n ^ k
rank-lt n k xs (h, l) = subst (λ j. rank n xs < n ^ j) l (rank-lt_from 0 n xs h)

pub rank_mono :
    (n k : ℕ) (xs zs : List ℕ)
    → IsCombination n k xs
    → IsCombination n k zs
    → LexLt xs zs
    → rank n xs < rank n zs
rank_mono n k xs zs (h, l) (g, m) lt = rank-mono_from 0 n xs zs h g (l ∙ sym m) lt

-- The combination after so many calls of `nextCombination`.
abbrev pub steps : ℕ → ℕ → List ℕ → Option (List ℕ)
steps n zero xs = some xs
steps n (suc m) xs = elim (next_combination xs n) [ none ↦ none | some ys ↦ steps n m ys ]

steps_reach :
    (n k d : ℕ) (xs zs : List ℕ)
    → IsCombination n k xs
    → IsCombination n k zs
    → LexLe xs zs
    → rank n zs ≤ rank n xs + d
    → (m : ℕ) × (m ≤ d) × (steps n m xs ≡ some zs)
steps_reach n k d xs zs h g (inl e) r = (0, omega arith, ap some e)
steps_reach n k zero xs zs h g (inr lt) r = absurd (omega (arith, rank_mono n k xs zs h g lt))
steps_reach n k (suc d) xs zs h g (inr lt) r =
    let (ys, e, c, more, le) = next_combination-successor n k xs zs h g lt in
    let (m, b, s) = steps_reach n k d ys zs c g le (omega (arith, rank_mono n k xs ys h c more)) in
    (suc m, omega arith, ground (arith, e, s))

-- Starting from the first combination, the calls of `nextCombination` come to every combination of
-- the pool, each after fewer than n ^ k calls.
pub steps_complete :
    (n k : ℕ) (zs : List ℕ)
    → k ≤ n
    → IsCombination n k zs
    → (m : ℕ) × (m < n ^ k) × (steps n m (first_combination k) ≡ some zs)
steps_complete n k zs h g =
    let (c, least) = first_combination-least n k h in
    let (m, b, s) =
      steps_reach n k (rank n zs) (first_combination k) zs c g (least zs g) (omega arith) in
    (m, omega (arith, rank-lt n k zs g), s)

steps-rank :
    (n k a : ℕ) (xs zs : List ℕ)
    → IsCombination n k xs
    → steps n a xs ≡ some zs
    → rank n xs + a ≤ rank n zs
steps-rank n k zero xs zs h e = let same : xs ≡ zs = cc in omega (arith, ap (rank n) same)
steps-rank n k (suc a) xs zs h e = elim (Option-cases (next_combination xs n)) [
  | inl last ↦ absurd (let wrong : ⊥ = ground (arith, last) in wrong)
  | inr (ys, s) ↦
      let (c, lt) = next_combination-IsCombination n k xs ys h s in
      let later : steps n a ys ≡ some zs = ground (arith, s) in
      omega (arith, rank_mono n k xs ys h c lt, steps-rank n k a ys zs c later)
]

steps-rank-lt :
    (n k a b : ℕ) (xs ys zs : List ℕ)
    → IsCombination n k xs
    → a < b
    → steps n a xs ≡ some ys
    → steps n b xs ≡ some zs
    → rank n ys < rank n zs
steps-rank-lt n k zero b xs ys zs h lt e g =
    let same : xs ≡ ys = cc in omega (arith, ap (rank n) same, steps-rank n k b xs zs h g)
steps-rank-lt n k (suc a) zero xs ys zs h lt e g = absurd (omega arith)
steps-rank-lt n k (suc a) (suc b) xs ys zs h lt e g = elim (Option-cases (next_combination xs n)) [
  | inl last ↦ absurd (let wrong : ⊥ = ground (arith, last) in wrong)
  | inr (us, s) ↦
      steps-rank-lt n k a b us ys zs (next_combination-IsCombination n k xs us h s).0 (omega arith)
        (ground (arith, s)) (ground (arith, s))
]

-- No combination is visited twice: after a larger number of calls stands another one.
pub steps-ne :
    (n k a b : ℕ) (xs ys zs : List ℕ)
    → IsCombination n k xs
    → a < b
    → steps n a xs ≡ some ys
    → steps n b xs ≡ some zs
    → ys ≢ zs
steps-ne n k a b xs ys zs h lt e g same =
    let less = steps-rank-lt n k a b xs ys zs h lt e g in omega (arith, ap (rank n) same)
