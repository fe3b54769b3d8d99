-- ===== src/Solver.antt =====
-- backend/src/modules/strategy/deterministic-solver.service.ts: the deterministic and the shuffled
-- runs. The database that the run store writes is part of the loop's state; `Math.random` is a
-- stream of numbers, of which a draw below `b` takes the next one modulo `b`.
pub mod Shuffle
mod Indices
pub mod Distinct
pub mod Progress
pub mod Rounds
pub mod Complete
mod Tests
use connections.Base.{
  ℕ, zero, suc, ◌+◌, ◌-◌, ◌*◌, ◌/◌, ◌%◌, ◌^◌, ◌≤◌, ◌<◌, max, min, String, ◌≡◌, refl, sym, ap, ◌∙◌,
  subst, ◌≢◌, ◌↔◌, ◌⊎◌, inl, inr, Bool, true, false, not, ◌&&◌, ◌||◌, Option, none, some, List, [],
  ◌∷◌, ◌++◌, map, arith, append_assoc, append-nil, ltb, leb, ◌==◌, if◌then◌else◌, leb→le, le→leb,
  ==_iff, Bool-cases, Option-cases, length, get_elem?, get_or, set, take, filter, find?, any, all,
  count, length-append, count-append, count-le-length, length-filter, All, All-append, length-map,
  str_eq, str_eq→eq, str_eq_refl, includes, distinct, subset, includes-append, includes-filter,
  subset→includes, pigeonhole,
}
use connections.Puzzle.{Puzzle, GuessResult, TextOps, evaluate_guess_on_puzzle}
use connections.Combinatorics.{next_combination, first_combination, combination_to_words}
use connections.Strategy.{
  SupportedStrategy, StrategyRun, StrategyRunStatus, Guess, GuessSource, is_running, group_size,
  finish, is_terminal, is_shuffle,
}
use Shuffle.{Random, sample_random, pick_random_group, group_key}

abbrev pub batch_size : ℕ
batch_size = 50

-- The variables of `runDeterministicStrategy` and the rows that it has flushed.
pub record SolveState : Type 0 where
  pub run : StrategyRun
  pub guess_count : ℕ
  pub tried_groups : List String
  pub pending_guesses : List Guess
  pub saved_guesses : List Guess
  pub saved_run : StrategyRun
  pub draws : ℕ

-- What the `switch` of a round decides: words to guess, whether they are a repeat and the draws
-- made so far; or no group is left; or the strategy is not one of this loop (an exception).
pub data Pick : Type 0 where
  guess : List String → Bool → ℕ → Pick
  no_more_groups : ℕ → Pick
  unsupported : Pick

abbrev pub is_success : GuessResult → Bool
is_success GuessResult.success = true
is_success _ = false

module _ (ops : TextOps) (puzzle : Puzzle) (random : Random) where
  unfoldable pub pick : SolveState → SupportedStrategy → Pick
  pick s SupportedStrategy.alphabetical =
      guess (combination_to_words s.run.current_combination s.run.available_words) false s.draws
  pick s SupportedStrategy.reverse_alphabetical =
      guess (combination_to_words s.run.current_combination s.run.available_words) false s.draws
  pick s SupportedStrategy.order =
      guess (combination_to_words s.run.current_combination s.run.available_words) false s.draws
  pick s SupportedStrategy.reverse_order =
      guess (combination_to_words s.run.current_combination s.run.available_words) false s.draws
  pick s SupportedStrategy.shuffle_smart =
      let (group, draws) = pick_random_group random s.draws s.run.available_words s.tried_groups in
      elim group [ none ↦ no_more_groups draws | some words ↦ guess words false draws ]
  pick s SupportedStrategy.shuffle_foolish =
      let (words, draws) = sample_random random s.draws s.run.available_words group_size in
      guess words (includes s.tried_groups (group_key words)) draws
  pick s _ = unsupported

  abbrev pub new_guess : SolveState → List String → GuessResult → Guess
  new_guess s words result = record {
    puzzle_id = puzzle.id;
    strategy_run_id = s.run.id;
    words = words;
    result = result;
    sequence_number = s.guess_count;
    source = GuessSource.strategy;
  }

  abbrev pub stage : List String → GuessResult → SolveState → SolveState
  stage words result s = record s {
    pending_guesses = s.pending_guesses ++ new_guess s words result ∷ [];
  }

  -- The run after a success: the group leaves the pool.
  unfoldable pub take_group : List String → ℕ → StrategyRun → StrategyRun
  take_group words now run =
      let left = filter (λ w. not (includes words w)) run.available_words in
      let shrunk = record run {
        available_words = left;
        current_combination = first_combination group_size;
      } in
      if length left == 0 then finish StrategyRunStatus.completed now shrunk else shrunk

  -- The run after a miss of a strategy that goes through the combinations.
  unfoldable pub next_group : ℕ → StrategyRun → StrategyRun
  next_group now run =
      elim (next_combination run.current_combination (length run.available_words)) [
        | none ↦ finish StrategyRunStatus.failed now run
        | some next ↦ record run { current_combination = next }
      ]

  unfoldable pub judge : ℕ → List String → SolveState → SolveState
  unfolding take_group next_group
  judge now words s =
      let result = evaluate_guess_on_puzzle ops puzzle words in
      let tried =
        if is_shuffle s.run.strategy_name
        then group_key words ∷ s.tried_groups
        else s.tried_groups in
      let t = stage words result (record s { tried_groups = tried }) in
      if is_success result
      then record t { run = take_group words now t.run }
      else if is_shuffle s.run.strategy_name
      then t
      else record t { run = next_group now t.run }

  -- One round up to the flush; `none` is the exception for a strategy that is not supported.
  unfoldable pub propose : ℕ → SolveState → Option SolveState
  unfolding judge
  propose now s = elim (pick s s.run.strategy_name) [
    | unsupported ↦ none
    | no_more_groups draws ↦
        some (record s { run = finish StrategyRunStatus.failed now s.run; draws = draws })
    | guess words is_duplicate draws ↦
        let t = record s { guess_count = s.guess_count + 1; draws = draws } in
        some (if is_duplicate then stage words GuessResult.duplicate t else judge now words t)
  ]

  -- `store.flushBatch` for guesses alone: the staged rows and the run become saved ones.
  abbrev pub flush_batch : SolveState → SolveState
  flush_batch s = record s {
    pending_guesses = [];
    saved_guesses = s.saved_guesses ++ s.pending_guesses;
    saved_run = s.run;
  }

  unfoldable pub flush_if_due : SolveState → SolveState
  flush_if_due s =
      if leb batch_size (length s.pending_guesses) || not (is_running s.run.status)
      then flush_batch s
      else s

  -- `while (true)`, with fuel; `clock` gives the time after so many guesses.
  unfoldable pub solve_loop : ℕ → (ℕ → ℕ) → SolveState → Option SolveState
  solve_loop zero clock s = none
  solve_loop (suc fuel) clock s = elim (propose (clock s.guess_count) s) [
    | none ↦ none
    | some t ↦ elim (is_running (flush_if_due t).run.status) [
      | false ↦ some (flush_if_due t)
      | true ↦ solve_loop fuel clock (flush_if_due t)
    ]
  ]

  -- The state that the loop starts from, by what `loadOrCreateRun` and the prior rows say.
  unfoldable pub start_solve : StrategyRun → List Guess → SolveState
  start_solve run prior = record {
    run = run;
    guess_count = length prior;
    tried_groups = if is_shuffle run.strategy_name then map (λ g. group_key g.words) prior else [];
    pending_guesses = [];
    saved_guesses = prior;
    saved_run = run;
    draws = 0;
  }

  -- `runDeterministicStrategy`: a finished run is returned as it is.
  unfoldable pub run_deterministic_strategy :
      ℕ → (ℕ → ℕ) → StrategyRun → List Guess → Option SolveState
  run_deterministic_strategy fuel clock run prior =
      if is_terminal run.status
      then some (start_solve run prior)
      else solve_loop fuel clock (start_solve run prior)
