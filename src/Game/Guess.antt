-- ===== src/Game/Guess.antt =====
-- frontend/src/lib/gameReducer.ts: the validation of a guess, shared by the player's Submit
-- button and by AI Assist.
use connections.Base.{
  ℕ, max, String, ◌≡◌, refl, ◌⊎◌, inl, inr, Bool, ◌&&◌, Option, none, some, List, [], ◌∷◌, map,
  ◌==◌, if◌then◌else◌, length, find?, count, includes, subset,
}
use connections.Game.{Category, Difficulty, GuessResult}

-- The test of `findMatchingCategory`.
unfoldable pub is_match : List String → Category → Bool
is_match selected cat = length cat.words == length selected && subset cat.words selected

unfoldable pub find_matching_category : List Category → List String → Option Category
find_matching_category categories selected = find? (is_match selected) categories

unfoldable pub overlap : List String → Category → ℕ
overlap selected cat = count (includes selected) cat.words

-- The `reduce` of `largestCategoryOverlap`, from an accumulator.
unfoldable pub overlap_from : ℕ → List String → List Category → ℕ
overlap_from m selected [] = m
overlap_from m selected (cat ∷ cats) = overlap_from (max m (overlap selected cat)) selected cats

unfoldable pub largest_category_overlap : List Category → List String → ℕ
largest_category_overlap categories selected = overlap_from 0 selected categories

pub data Outcome : Type 0 where
  correct : Category → Outcome
  wrong : GuessResult → Outcome

pub Outcome-cases :
    (o : Outcome) → ((c : Category) × (o ≡ correct c)) ⊎ ((r : GuessResult) × (o ≡ wrong r))
Outcome-cases (correct c) = inl (c, refl)
Outcome-cases (wrong r) = inr (r, refl)

unfoldable pub evaluate_guess : List Category → List String → Outcome
evaluate_guess categories words = elim (find_matching_category categories words) [
  | some category ↦ correct category
  | none ↦ wrong (
      if largest_category_overlap categories words == 3
      then GuessResult.one_away
      else GuessResult.incorrect)
]

-- `owner?.difficulty ?? "yellow"`
unfoldable pub difficulty_of : List Category → String → Difficulty
difficulty_of categories word = elim (find? (λ cat. includes cat.words word) categories) [
  | some owner ↦ owner.difficulty
  | none ↦ Difficulty.yellow
]

unfoldable pub difficulties_for_guess : List Category → List String → List Difficulty
difficulties_for_guess categories selected = map (difficulty_of categories) selected
