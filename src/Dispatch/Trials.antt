-- ===== src/Dispatch/Trials.antt =====
-- The trials of a puzzle that backend/src/modules/strategy/strategy-dispatch.service.ts counts: the
-- rows of its runs and the jobs in the queue, as a map from trial numbers to models, and what a
-- dispatch of one more trial does with it (`triggerNextLlmTrial`).
use connections.Base.{
  ℕ, ◌+◌, max, String, Bool, false, ◌&&◌, Option, some, List, [], ◌∷◌, ◌++◌, map, leb, ◌==◌,
  if◌then◌else◌, filter, any, count,
}
use connections.Strategy.{StrategyRun, SupportedStrategy, FreeTierId}
use connections.RunStore.{same_strategy, same_model}
use connections.Dispatch.Queue.{
  JobState, JobIdSuffix, RunStrategyJob, JobQueue, collect, queue_page_size,
}

pub record QueuedTrial : Type 0 where
  pub trial_number : ℕ
  pub model : Option String

abbrev pub is_trial_of : ℕ → SupportedStrategy → RunStrategyJob → Bool
is_trial_of puzzle_id strategy job =
    (job.puzzle_id == puzzle_id) && same_strategy job.strategy_name strategy

abbrev pub trial_of : RunStrategyJob → QueuedTrial
trial_of job = record { trial_number = job.trial_number; model = job.model }

abbrev pub pending_states : List JobState
pending_states = JobState.waiting ∷ JobState.delayed ∷ JobState.prioritized ∷ JobState.paused ∷ []

abbrev pub active_states : List JobState
active_states = JobState.active ∷ []

-- `where: { puzzleId, strategyName }`
abbrev pub is_row_of : ℕ → SupportedStrategy → StrategyRun → Bool
is_row_of puzzle_id strategy run =
    (run.puzzle_id == puzzle_id) && same_strategy run.strategy_name strategy

-- `trialModels`, a map that keeps the order in which its keys came.
abbrev pub TrialModels : Type 0
TrialModels = List (ℕ × Option String)

abbrev pub set_trial : ℕ → Option String → TrialModels → TrialModels
set_trial trial model [] = (trial, model) ∷ []
set_trial trial model ((t, m) ∷ trials) =
    if t == trial then (trial, model) ∷ trials else (t, m) ∷ set_trial trial model trials

abbrev pub add_runs : List StrategyRun → TrialModels → TrialModels
add_runs [] trials = trials
add_runs (run ∷ runs) trials = add_runs runs (set_trial run.trial_number run.model_name trials)

abbrev pub add_queued : List QueuedTrial → TrialModels → TrialModels
add_queued [] trials = trials
add_queued (t ∷ ts) trials = add_queued ts (set_trial t.trial_number t.model trials)

-- `Math.max(0, ...trialModels.keys()) + 1`
abbrev pub greatest_trial : TrialModels → ℕ
greatest_trial [] = 0
greatest_trial ((t, m) ∷ trials) = max t (greatest_trial trials)

abbrev pub model_run_count : String → TrialModels → ℕ
model_run_count model trials = count (λ (e : ℕ × Option String). same_model e.1 (some model)) trials

pub data DispatchError : Type 0 where
  unsupported_model trial_limit no_run not_errored : DispatchError

pub data Response (A : Type 0) : Type 0 where
  returned : A → Response A
  threw : DispatchError → Response A

abbrev pub llm_job :
    ℕ → SupportedStrategy → String → String → Option FreeTierId → ℕ → RunStrategyJob
llm_job puzzle_id strategy date model tier trial = record {
  puzzle_id = puzzle_id;
  strategy_name = strategy;
  date = date;
  trial_number = trial;
  model = some model;
  manual_retry = false;
  budget_tier = tier;
  id_suffix = JobIdSuffix.plain;
}

-- What a dispatch reads of the trials of its puzzle and strategy: the rows, and the trials whose jobs
-- have not started or are active.
pub record TrialReads : Type 0 where
  pub existing_runs : List StrategyRun
  pub pending : List QueuedTrial
  pub active : List QueuedTrial

unfoldable pub trial_models : TrialReads → TrialModels
trial_models reads = add_queued (reads.pending ++ reads.active) (add_runs reads.existing_runs [])

-- `fuel` bounds the pages that are read of the queue.
module _ {Q : Type 0} (queue : JobQueue Q) (fuel : ℕ) where
  unfoldable pub queued_trials : List JobState → ℕ → SupportedStrategy → Q → List QueuedTrial
  unfolding collect
  queued_trials states puzzle_id strategy q =
      map trial_of (collect queue queue_page_size (is_trial_of puzzle_id strategy) fuel states 0 q)

  -- The rows are read first, and then the two groups of jobs at once: workers, which do not take the
  -- lock, may change the rows and the queue between these reads.
  unfoldable pub read_trials : ℕ → SupportedStrategy → List StrategyRun → Q → Q → TrialReads
  unfolding queued_trials
  read_trials puzzle_id strategy runs pending_q active_q = record {
    existing_runs = filter (is_row_of puzzle_id strategy) runs;
    pending = queued_trials pending_states puzzle_id strategy pending_q;
    active = queued_trials active_states puzzle_id strategy active_q;
  }

module _ {Q : Type 0} (queue : JobQueue Q) where
  -- The transaction after its reads; `q` is the queue when the job is added.
  unfoldable pub trigger_next_llm_trial :
      ℕ
      → ℕ
      → SupportedStrategy
      → String
      → String
      → Option FreeTierId
      → TrialReads
      → Q
      → Response Unit × Q
  unfolding trial_models
  trigger_next_llm_trial limit puzzle_id strategy date model tier reads q =
      let trials = trial_models reads in
      if any (λ (t : QueuedTrial). same_model t.model (some model)) reads.pending
      then (returned tt, q)
      else if leb limit (model_run_count model trials)
      then (threw DispatchError.trial_limit, q)
      else (
        returned tt,
        queue.add (llm_job puzzle_id strategy date model tier (greatest_trial trials + 1)) q,
      )
