-- ===== src/Solver/Indices.antt =====
-- Words picked from a pool by indices, for the combinations of the deterministic solver
-- (backend/src/modules/strategy/deterministic-solver.service.ts).
use connections.Base.{
  ℕ, zero, suc, ◌+◌, ◌≤◌, ◌<◌, String, ◌≡◌, refl, sym, ap, ◌∙◌, inl, inr, Bool, true, List, [], ◌∷◌,
  ◌++◌, map, arith, append_assoc, if◌then◌else◌, Bool-cases, length, get_or, filter, length-append,
  length-map, str_eq_refl, includes, subset,
}
use mathlib.Core.Path.{ap₂}
use connections.Combinatorics.{combination_to_words}
use connections.Combinatorics.Order.{Increasing, IsCombination, Increasing-length}

pub positions : (String → Bool) → ℕ → List String → List ℕ
positions p i [] = []
positions p i (x ∷ xs) = if p x then i ∷ positions p (i + 1) xs else positions p (i + 1) xs

Increasing-mono :
    (low low' n : ℕ) (xs : List ℕ) → low' ≤ low → Increasing low n xs → Increasing low' n xs
Increasing-mono low low' n [] l h = omega arith
Increasing-mono low low' n (x ∷ xs) l (h, hs) = (omega arith, hs)

positions-Increasing :
    (p : String → Bool) (i j n : ℕ) (xs : List String)
    → j ≤ i
    → i + length xs ≡ n
    → Increasing j n (positions p i xs)
unfolding positions
positions-Increasing p i j n [] l e = omega arith
positions-Increasing p i j n (x ∷ xs) l e = elim (Bool-cases (p x)) [
  | inl here ↦ rw here (l, positions-Increasing p (i + 1) (suc i) n xs (omega arith) (omega arith))
  | inr there ↦ rw there (positions-Increasing p (i + 1) j n xs (omega arith) (omega arith))
]

get_or-append :
    (pre : List String) (x : String) (xs : List String) → get_or (pre ++ x ∷ xs) (length pre) "" ≡ x
get_or-append [] x xs = refl
get_or-append (y ∷ pre) x xs = get_or-append pre x xs

words_at :
    (p : String → Bool) (pre xs pool : List String) (i : ℕ)
    → pool ≡ pre ++ xs
    → i ≡ length pre
    → map (λ j. get_or pool j "") (positions p i xs) ≡ filter p xs
unfolding positions
words_at p pre [] pool i e l = refl
words_at p pre (x ∷ xs) pool i e l =
    let ih =
      words_at p (pre ++ x ∷ []) xs pool (i + 1) (e ∙ sym (append_assoc pre (x ∷ []) xs))
        (omega (arith, length-append pre (x ∷ []))) in
    let at : get_or pool i "" ≡ x =
      ap₂ (λ (ws : List String) (k : ℕ). get_or ws k "") e l ∙ get_or-append pre x xs in
    elim (Bool-cases (p x)) [ inl here ↦ rw here (ap₂ ◌∷◌ at ih) | inr there ↦ rw there ih ]

-- The words at the positions where a test passes are the words that pass it.
pub combination_to_words-positions :
    (p : String → Bool) (pool : List String)
    → combination_to_words (positions p 0 pool) pool ≡ filter p pool
unfolding combination_to_words
combination_to_words-positions p pool = words_at p [] pool pool 0 refl refl

pub positions-IsCombination :
    (p : String → Bool) (pool : List String) (k : ℕ)
    → length (filter p pool) ≡ k
    → IsCombination (length pool) k (positions p 0 pool)
positions-IsCombination p pool k e = (
  positions-Increasing p 0 0 (length pool) pool (omega arith) (omega arith),
  sym (length-map (λ i. get_or pool i "") (positions p 0 pool))
      ∙ (ap length (words_at p [] pool pool 0 refl refl) ∙ e),
)

get_or-includes :
    (pool : List String) (i : ℕ) → i < length pool → includes pool (get_or pool i "") ≡ true
get_or-includes [] i h = absurd (omega arith)
get_or-includes (x ∷ xs) zero h = ground (arith, str_eq_refl x)
get_or-includes (x ∷ xs) (suc i) h = ground (arith, get_or-includes xs i)

subset_at :
    (low : ℕ) (pool : List String) (zs : List ℕ)
    → Increasing low (length pool) zs
    → subset (map (λ j. get_or pool j "") zs) pool ≡ true
subset_at low pool [] h = refl
subset_at low pool (z ∷ zs) (h, hs) =
    rw (get_or-includes pool z (omega (arith, Increasing-length (suc z) (length pool) zs hs)))
      (subset_at (suc z) pool zs hs)

-- A combination picks words of the pool, as many as it has indices.
pub combination_to_words-subset :
    (pool : List String) (k : ℕ) (zs : List ℕ)
    → IsCombination (length pool) k zs
    → (subset (combination_to_words zs pool) pool ≡ true)
      × (length (combination_to_words zs pool) ≡ k)
unfolding combination_to_words
combination_to_words-subset pool k zs (h, l) =
    (subset_at 0 pool zs h, length-map (λ i. get_or pool i "") zs ∙ l)
