-- ===== src/StaleRunSweep/Tests.antt =====
-- Two stale runs of two owners.
use connections.Base.{ℕ, ◌+◌, ◌≡◌, refl, true, none, [], ◌∷◌, length, count}
use connections.Strategy.{StrategyRun, StrategyRunStatus, SupportedStrategy}
use connections.RunStore.{Store}
use connections.StaleRunSweep.{WorkerRole, StaleRunSweepResult, sweep}
use connections.StaleRunSweep.Owners.{sweep_lem}

abbrev stale_run : ℕ → SupportedStrategy → StrategyRun
stale_run id strategy = record {
  id = id;
  puzzle_id = 7;
  strategy_name = strategy;
  trial_number = id;
  status = StrategyRunStatus.running;
  available_words = [];
  current_combination = [];
  model_name = none;
  context_window = none;
  budget_tier = none;
  finished_at = none;
}

abbrev store : Store
store = record {
  puzzles = [];
  runs = stale_run 1 SupportedStrategy.llm_ollama ∷ stale_run 2 SupportedStrategy.order ∷ [];
  guesses = [];
  solve_prompts = [];
  llm_proposals = [];
  category_evaluations = [];
  next_run_id = 3;
}

abbrev swept : WorkerRole → StaleRunSweepResult
swept role = sweep (λ run. 100) 50 role 200 "2026-01-01" store

two_resumed : length (swept WorkerRole.all).resumed ≡ 2
unfolding sweep
two_resumed = refl

sweep_lem_example :
    count (λ job. true) (swept WorkerRole.cloud).resumed
      + count (λ job. true) (swept WorkerRole.ollama).resumed
    ≡ count (λ job. true) (swept WorkerRole.all).resumed
sweep_lem_example = (sweep_lem (λ run. 100) 50 200 "2026-01-01" store (λ job. true)).0
