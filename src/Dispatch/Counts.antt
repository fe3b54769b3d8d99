-- ===== src/Dispatch/Counts.antt =====
-- How much work a strategy has per model (backend/src/modules/strategy/strategy-dispatch.service.ts):
-- the jobs that wait in its queue with the rows of today, or with the rows that run. `started_today` says
-- of a row that its `startedAt` is not before the start of the UTC day.
use connections.Base.{
  ℕ, String, Bool, ◌&&◌, Option, none, some, List, [], ◌∷◌, map, ◌==◌, filter, count, any, not,
  take,
}
use connections.Strategy.{StrategyRun, SupportedStrategy, is_running}
use connections.Puzzle.{Puzzle}
use connections.RunStore.{same_strategy, same_model, is_errored}
use connections.RoundRobin.{Allocation, count_one}
use connections.Dispatch.Queue.{JobState, RunStrategyJob, JobQueue, collect, queue_page_size}
use connections.Dispatch.Runs.{has_model}

abbrev pub zero_counts : List String → Allocation
zero_counts [] = []
zero_counts (m ∷ ms) = (m, 0) ∷ zero_counts ms

-- One more for each model of a list; what has no model is left out before.
abbrev pub count_models : List (Option String) → Allocation → Allocation
count_models [] counts = counts
count_models (none ∷ ms) counts = count_models ms counts
count_models (some m ∷ ms) counts = count_models ms (count_one m counts)

abbrev pub queued_states : List JobState
queued_states = JobState.waiting ∷ JobState.delayed ∷ []

abbrev pub is_of_models : SupportedStrategy → List String → StrategyRun → Bool
is_of_models strategy models run =
    same_strategy run.strategy_name strategy && has_model models run.model_name

module _ {Q : Type 0} (queue : JobQueue Q) (fuel : ℕ) where
  unfoldable pub queued_counts_by_model : List String → Q → Allocation
  unfolding collect
  queued_counts_by_model models q =
      count_models
        (map (λ (job : RunStrategyJob). job.model)
          (collect queue queue_page_size (λ job. has_model models job.model) fuel queued_states 0
            q))
        (zero_counts models)

  abbrev pub add_rows : (StrategyRun → Bool) → List StrategyRun → Allocation → Allocation
  add_rows test runs counts =
      count_models (map (λ (r : StrategyRun). r.model_name) (filter test runs)) counts

  unfoldable pub count_today_dispatch_by_model :
      (StrategyRun → Bool) → SupportedStrategy → List String → List StrategyRun → Q → Allocation
  unfolding queued_counts_by_model
  count_today_dispatch_by_model started_today strategy models runs q =
      add_rows (λ r. is_of_models strategy models r && started_today r) runs
        (queued_counts_by_model models q)

  unfoldable pub count_in_flight_by_model :
      SupportedStrategy → List String → List StrategyRun → Q → Allocation
  unfolding queued_counts_by_model
  count_in_flight_by_model strategy models runs q =
      add_rows (λ r. is_of_models strategy models r && is_running r.status) runs
        (queued_counts_by_model models q)

-- `puzzles` stands for the rows in the random order that the database puts them in.
unfoldable pub find_unrun_puzzle_dates_for_model :
    SupportedStrategy → String → ℕ → List Puzzle → List StrategyRun → List (ℕ × String)
find_unrun_puzzle_dates_for_model strategy model limit puzzles runs = take limit (
    map (λ (p : Puzzle). (p.id, p.date))
      (filter
        (λ (p : Puzzle). not (
          any
            (λ (r : StrategyRun).
              (r.puzzle_id == p.id)
              && (same_strategy r.strategy_name strategy && same_model r.model_name (some model)))
            runs))
        puzzles))

unfoldable pub count_errored_runs : Option SupportedStrategy → Option String → List StrategyRun → ℕ
count_errored_runs strategy model runs = count (is_errored strategy model) runs
