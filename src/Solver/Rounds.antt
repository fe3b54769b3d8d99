-- ===== src/Solver/Rounds.antt =====
-- One round of the loop of `runDeterministicStrategy`
-- (backend/src/modules/strategy/deterministic-solver.service.ts) for a strategy that goes through the
-- combinations.
use connections.Base.{
  ℕ, suc, ◌+◌, String, ◌≡◌, refl, true, false, not, some, List, [], arith, ◌==◌, length, filter,
  includes,
}
use connections.Puzzle.{Puzzle, GuessResult, TextOps, evaluate_guess_on_puzzle}
use connections.Combinatorics.{first_combination, combination_to_words}
use connections.Strategy.{
  SupportedStrategy, StrategyRun, StrategyRunStatus, is_running, is_shuffle, is_llm_strategy,
  group_size,
}
use connections.Solver.{
  SolveState, guess, pick, is_success, take_group, next_group, judge, propose, flush_if_due,
  solve_loop,
}
use connections.Solver.Shuffle.{Random}

-- The strategies that go through the combinations in order.
abbrev pub IsSequential : SupportedStrategy → Type 0
IsSequential strategy = (is_shuffle strategy ≡ false) × (is_llm_strategy strategy ≡ false)

abbrev pub guessed : StrategyRun → List String
guessed run = combination_to_words run.current_combination run.available_words

abbrev pub counted : SolveState → SolveState
counted s = record s { guess_count = s.guess_count + 1; draws = s.draws }

abbrev pub shrink : List String → StrategyRun → StrategyRun
shrink words run = record run {
  available_words = filter (λ w. not (includes words w)) run.available_words;
  current_combination = first_combination group_size;
}

module _ (ops : TextOps) (puzzle : Puzzle) (random : Random) where
  pick_sequential :
      (s : SolveState) (strategy : SupportedStrategy)
      → IsSequential strategy
      → pick ops puzzle random s strategy ≡ guess (guessed s.run) false s.draws
  unfolding pick
  pick_sequential s SupportedStrategy.alphabetical q = refl
  pick_sequential s SupportedStrategy.reverse_alphabetical q = refl
  pick_sequential s SupportedStrategy.order q = refl
  pick_sequential s SupportedStrategy.reverse_order q = refl
  pick_sequential s SupportedStrategy.shuffle_smart q = cc
  pick_sequential s SupportedStrategy.shuffle_foolish q = cc
  pick_sequential s _ q = cc

  pub propose_sequential :
      (now : ℕ) (s : SolveState)
      → IsSequential s.run.strategy_name
      → propose ops puzzle random now s
        ≡ some (judge ops puzzle random now (guessed s.run) (counted s))
  unfolding propose
  propose_sequential now s q = ground (arith, pick_sequential s s.run.strategy_name q)

  pub judge-hit :
      (now : ℕ) (words : List String) (s : SolveState)
      → evaluate_guess_on_puzzle ops puzzle words ≡ GuessResult.success
      → (judge ops puzzle random now words s).run ≡ take_group ops puzzle random words now s.run
  unfolding judge
  judge-hit now words s e = ground arith

  pub judge-miss :
      (now : ℕ) (words : List String) (s : SolveState)
      → is_success (evaluate_guess_on_puzzle ops puzzle words) ≡ false
      → is_shuffle s.run.strategy_name ≡ false
      → (judge ops puzzle random now words s).run ≡ next_group ops puzzle random now s.run
  unfolding judge
  judge-miss now words s e q = ground arith

  pub flush_if_due-run : (s : SolveState) → (flush_if_due ops puzzle random s).run ≡ s.run
  unfolding flush_if_due
  flush_if_due-run s = ground arith

  pub loop_next :
      (m : ℕ) (clock : ℕ → ℕ) (s t : SolveState)
      → propose ops puzzle random (clock s.guess_count) s ≡ some t
      → is_running t.run.status ≡ true
      → solve_loop ops puzzle random (suc m) clock s
        ≡ solve_loop ops puzzle random m clock (flush_if_due ops puzzle random t)
  unfolding solve_loop
  loop_next m clock s t e r = ground (arith, flush_if_due-run t)

  pub loop_end :
      (m : ℕ) (clock : ℕ → ℕ) (s t : SolveState)
      → propose ops puzzle random (clock s.guess_count) s ≡ some t
      → is_running t.run.status ≡ false
      → solve_loop ops puzzle random (suc m) clock s ≡ some (flush_if_due ops puzzle random t)
  unfolding solve_loop
  loop_end m clock s t e r = ground (arith, flush_if_due-run t)

  pub take_group-over :
      (words : List String) (now : ℕ) (run : StrategyRun)
      → (length (filter (λ w. not (includes words w)) run.available_words) == 0) ≡ true
      → ((take_group ops puzzle random words now run).status ≡ StrategyRunStatus.completed)
        × ((take_group ops puzzle random words now run).available_words ≡ [])
  unfolding take_group
  take_group-over words now run h = ground arith

  pub take_group-more :
      (words : List String) (now : ℕ) (run : StrategyRun)
      → (length (filter (λ w. not (includes words w)) run.available_words) == 0) ≡ false
      → take_group ops puzzle random words now run ≡ shrink words run
  unfolding take_group
  take_group-more words now run h = rw h
