-- ===== src/Combinatorics/Tests.antt =====
-- The enumeration of combinations on small pools.
use connections.Base.{◌^◌, ℕ, ◌<◌, ◌≡◌, refl, inl, none, some, List, [], ◌∷◌, arith}
use connections.Combinatorics.{pivot, refill, next_combination, first_combination}
use connections.Combinatorics.Order.{IsCombination, LexLt, LexLe, next_combination-successor}
use connections.Combinatorics.Rank.{steps, steps_complete}

-- The example of the source's comment.
five_choose_four :
    (next_combination (0 ∷ 1 ∷ 2 ∷ 3 ∷ []) 5 ≡ some (0 ∷ 1 ∷ 2 ∷ 4 ∷ []))
    × (next_combination (0 ∷ 2 ∷ 3 ∷ 4 ∷ []) 5 ≡ some (1 ∷ 2 ∷ 3 ∷ 4 ∷ []))
    × (next_combination (1 ∷ 2 ∷ 3 ∷ 4 ∷ []) 5 ≡ none)
unfolding next_combination pivot refill
five_choose_four = (refl, refl, refl)

next_combination-successor_example :
    (ys : List ℕ) × (next_combination (0 ∷ 1 ∷ 3 ∷ 4 ∷ []) 5 ≡ some ys)
    × IsCombination 5 4 ys
    × LexLt (0 ∷ 1 ∷ 3 ∷ 4 ∷ []) ys
    × LexLe ys (1 ∷ 2 ∷ 3 ∷ 4 ∷ [])
next_combination-successor_example =
    next_combination-successor 5 4 (0 ∷ 1 ∷ 3 ∷ 4 ∷ []) (1 ∷ 2 ∷ 3 ∷ 4 ∷ []) (omega arith, refl)
      (omega arith, refl) (inl (omega arith))

steps_complete_example :
    (m : ℕ) × (m < 5 ^ 4) × (steps 5 m (first_combination 4) ≡ some (0 ∷ 2 ∷ 3 ∷ 4 ∷ []))
steps_complete_example = steps_complete 5 4 (0 ∷ 2 ∷ 3 ∷ 4 ∷ []) (omega arith) (omega arith, refl)
