-- ===== src/Dispatch/Runs.antt =====
-- The other dispatch operations of backend/src/modules/strategy/strategy-dispatch.service.ts:
-- queueing the runs of a strategy, retrying errored runs, resuming runs parked for lack of budget,
-- and counting a strategy's work per model. The rows stand in the order in which they were created,
-- which is the order of `startedAt`. `Date.now()` is an argument.
use connections.Base.{
  ℕ, ◌+◌, String, Bool, true, false, not, ◌&&◌, Option, none, some, List, [], ◌∷◌, ◌++◌, map, ◌==◌,
  if◌then◌else◌, filter, find?, take, includes,
}
use connections.Puzzle.{Puzzle}
use connections.Strategy.{
  StrategyRun, StrategyRunStatus, SupportedStrategy, FreeTierId, is_llm_strategy,
  strategy_trial_numbers,
}
use connections.RunStore.{Store, same_strategy, is_error, save_run, is_errored}
use connections.SupportedModel.{SupportedModel, assert_supported, has_tier}
use connections.Dispatch.Queue.{JobIdSuffix, RunStrategyJob, JobQueue}
use connections.Dispatch.Trials.{
  TrialReads, DispatchError, Response, returned, threw, trigger_next_llm_trial,
}

abbrev pub start_again : StrategyRun → StrategyRun
start_again run = record run { status = StrategyRunStatus.running; finished_at = none }

-- `run.puzzle.date`
abbrev pub date_of : StrategyRun → Store → String
date_of run store = elim (find? (λ (p : Puzzle). p.id == run.puzzle_id) store.puzzles) [
  | none ↦ ""
  | some puzzle ↦ puzzle.date
]

abbrev pub job_of : StrategyRun → String → Bool → JobIdSuffix → RunStrategyJob
job_of run date manual_retry suffix = record {
  puzzle_id = run.puzzle_id;
  strategy_name = run.strategy_name;
  date = date;
  trial_number = run.trial_number;
  model = run.model_name;
  manual_retry = manual_retry;
  budget_tier = none;
  id_suffix = suffix;
}

abbrev pub plain_job : ℕ → SupportedStrategy → String → Option String → ℕ → RunStrategyJob
plain_job puzzle_id strategy date model trial = record {
  puzzle_id = puzzle_id;
  strategy_name = strategy;
  date = date;
  trial_number = trial;
  model = model;
  manual_retry = false;
  budget_tier = none;
  id_suffix = JobIdSuffix.plain;
}

-- `where: { strategyName, budgetTier, status: RATE_LIMITED_DAILY, modelName: In(models) }`
abbrev pub is_parked_status : StrategyRunStatus → Bool
is_parked_status StrategyRunStatus.rate_limited_daily = true
is_parked_status _ = false

abbrev pub has_model : List String → Option String → Bool
has_model models none = false
has_model models (some model) = includes models model

abbrev pub is_budget_parked : SupportedStrategy → FreeTierId → List String → StrategyRun → Bool
is_budget_parked strategy tier models run =
    (same_strategy run.strategy_name strategy && has_tier tier run.budget_tier)
    && (is_parked_status run.status && has_model models run.model_name)

pub record RetryCounts : Type 0 where
  pub retried : ℕ
  pub skipped : ℕ
  pub failures : List ℕ

abbrev pub counted : ℕ → Response Unit → RetryCounts → RetryCounts
counted id (returned done) counts = record counts { retried = counts.retried + 1 }
counted id (threw DispatchError.not_errored) counts = record counts { skipped = counts.skipped + 1 }
counted id (threw other) counts = record counts { failures = counts.failures ++ id ∷ [] }

abbrev pub or_empty : Option String → String
or_empty none = ""
or_empty (some model) = model

module _ {Q : Type 0} (queue : JobQueue Q) where
  unfoldable pub trigger_run :
      List SupportedModel
      → ℕ
      → SupportedStrategy
      → String
      → ℕ
      → Option String
      → Q
      → Response Unit × Q
  unfolding assert_supported
  trigger_run models puzzle_id strategy date trial model q =
      if is_llm_strategy strategy && not (assert_supported models strategy model)
      then (threw DispatchError.unsupported_model, q)
      else (returned tt, queue.add (plain_job puzzle_id strategy date model trial) q)

  -- `addBulk`
  abbrev pub add_bulk : List RunStrategyJob → Q → Q
  add_bulk [] q = q
  add_bulk (job ∷ jobs) q = add_bulk jobs (queue.add job q)

  unfoldable pub trigger_strategy_runs :
      Option ℕ
      → Option ℕ
      → ℕ
      → List SupportedModel
      → ℕ
      → SupportedStrategy
      → String
      → Option String
      → Option FreeTierId
      → TrialReads
      → Q
      → Response Unit × Q
  unfolding assert_supported trigger_next_llm_trial strategy_trial_numbers
  trigger_strategy_runs shuffle_trials llm_trials limit models puzzle_id strategy date model tier
        reads q =
      if is_llm_strategy strategy
      then if assert_supported models strategy model
        then trigger_next_llm_trial queue limit puzzle_id strategy date (or_empty model) tier reads
            q
        else (threw DispatchError.unsupported_model, q)
      else (
        returned tt,
        add_bulk
            (map (plain_job puzzle_id strategy date model)
              (strategy_trial_numbers strategy shuffle_trials llm_trials))
            q,
      )

  unfoldable pub retry_run : ℕ → ℕ → Store → Q → Response Unit × (Store × Q)
  retry_run now id store q = elim (find? (λ (r : StrategyRun). r.id == id) store.runs) [
    | none ↦ (threw DispatchError.no_run, (store, q))
    | some run ↦
        if is_error run.status
        then (
          returned tt,
          (
            save_run (start_again run) store,
            queue.add (job_of run (date_of run store) true (JobIdSuffix.manual_retry now)) q,
          ),
        )
        else (threw DispatchError.not_errored, (store, q))
  ]

  -- The loop over the parked runs: each is queued and then flipped.
  unfoldable pub resume_each : ℕ → List StrategyRun → Store → Q → List (Option String) × (Store × Q)
  resume_each now [] store q = ([], (store, q))
  resume_each now (run ∷ runs) store q =
      let after : Q =
        queue.add (job_of run (date_of run store) false (JobIdSuffix.budget_resume now)) q in
      let rest = resume_each now runs (save_run (start_again run) store) after in
      (run.model_name ∷ rest.0, rest.1)

  unfoldable pub resume_budget_parked_runs :
      ℕ
      → SupportedStrategy
      → FreeTierId
      → List String
      → ℕ
      → Store
      → Q
      → List (Option String) × (Store × Q)
  unfolding resume_each
  resume_budget_parked_runs now strategy tier models limit store q =
      resume_each now (take limit (filter (is_budget_parked strategy tier models) store.runs)) store
        q

  unfoldable pub retry_each : ℕ → List ℕ → RetryCounts → Store → Q → RetryCounts × (Store × Q)
  unfolding retry_run
  retry_each now [] counts store q = (counts, (store, q))
  retry_each now (id ∷ ids) counts store q =
      let result = retry_run now id store q in
      retry_each now ids (counted id result.0 counts) result.1.0 result.1.1

  unfoldable pub retry_errored_runs :
      ℕ → SupportedStrategy → Option String → Store → Q → RetryCounts × (Store × Q)
  unfolding retry_each
  retry_errored_runs now strategy model store q =
      retry_each now
        (map (λ (r : StrategyRun). r.id) (filter (is_errored (some strategy) model) store.runs))
        (record { retried = 0; skipped = 0; failures = [] }) store q
