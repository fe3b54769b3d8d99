-- ===== src/Puzzle/Verdict.antt =====
-- The verdict of `GameService.evaluateGuessOnPuzzle` (backend/src/modules/game/game.service.ts).
use connections.Base.{
  String, ◌≡◌, refl, Bool, false, ◌&&◌, ◌||◌, List, [], ◌∷◌, map, arith, ◌==◌, if◌then◌else◌,
  length, any, count, count-le-length, includes, subset,
}
use connections.Puzzle.{
  AnswerGroup, Puzzle, GuessResult, TextOps, normalize, normal_words, matches, judge_from,
  evaluate_guess_on_puzzle,
}

-- The group has four words, and each is among the guessed ones.
abbrev pub is_full : TextOps → List String → AnswerGroup → Bool
is_full ops guessed group =
    length (normal_words ops group) == 4 && subset (normal_words ops group) guessed

abbrev pub is_near : TextOps → List String → AnswerGroup → Bool
is_near ops guessed group = matches ops guessed group == 3

abbrev CountsAll : List String → List String → Type 0
CountsAll xs ys = subset xs ys ≡ (count (includes ys) xs == length xs)

subset-eq-count : (xs ys : List String) → CountsAll xs ys
subset-eq-count [] ys = refl
subset-eq-count (x ∷ xs) ys =
    ground (arith, subset-eq-count xs ys, count-le-length (includes ys) xs)

full_test :
    (ops : TextOps) (guessed : List String) (g : AnswerGroup)
    → is_full ops guessed g ≡ (matches ops guessed g == 4 && length (normal_words ops g) == 4)
unfolding matches
full_test ops guessed g = ground (arith, subset-eq-count (normal_words ops g) guessed)

judge_from_lem :
    (ops : TextOps) (flag : Bool) (guessed : List String) (gs : List AnswerGroup)
    → judge_from ops flag guessed gs ≡ (
        if any (is_full ops guessed) gs
        then GuessResult.success
        else if flag || any (is_near ops guessed) gs
        then GuessResult.off_by_one
        else GuessResult.failure)
unfolding judge_from
judge_from_lem ops flag guessed [] = ground arith
judge_from_lem ops flag guessed (g ∷ gs) = ground (
  arith,
  full_test ops guessed g,
  judge_from_lem ops (flag || matches ops guessed g == 3) guessed gs,
)

-- A guess is a success exactly when some group of four has all its words, as normalised, in it; else
-- one away exactly when some group has three words in it; else a failure. Groups that come early
-- never hide a later success.
pub evaluate_guess_on_puzzle_lem :
    (ops : TextOps) (puzzle : Puzzle) (words : List String)
    → evaluate_guess_on_puzzle ops puzzle words ≡ (
        if any (is_full ops (map (normalize ops) words)) puzzle.answer_groups
        then GuessResult.success
        else if any (is_near ops (map (normalize ops) words)) puzzle.answer_groups
        then GuessResult.off_by_one
        else GuessResult.failure)
unfolding evaluate_guess_on_puzzle
evaluate_guess_on_puzzle_lem ops puzzle words =
    judge_from_lem ops false (map (normalize ops) words) puzzle.answer_groups
