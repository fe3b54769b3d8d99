-- ===== src/Puzzle/Tests.antt =====
-- The verdict on concrete guesses.
use connections.Base.{◌≡◌, refl, map, if◌then◌else◌, any, str_eq}
use connections.Puzzle.{GuessResult, evaluate_guess_on_puzzle, judge_from, matches, normalize}
use connections.Puzzle.Verdict.{is_full, is_near, evaluate_guess_on_puzzle_lem}
use connections.Examples.{plain, two_groups, mixed_words}

evaluate_guess_on_puzzle_lem_example : evaluate_guess_on_puzzle plain two_groups mixed_words ≡ (
    if any (is_full plain (map (normalize plain) mixed_words)) two_groups.answer_groups
    then GuessResult.success
    else if any (is_near plain (map (normalize plain) mixed_words)) two_groups.answer_groups
    then GuessResult.off_by_one
    else GuessResult.failure)
evaluate_guess_on_puzzle_lem_example = evaluate_guess_on_puzzle_lem plain two_groups mixed_words

near_miss : evaluate_guess_on_puzzle plain two_groups mixed_words ≡ GuessResult.off_by_one
unfolding evaluate_guess_on_puzzle judge_from matches str_eq
near_miss = refl
