-- ===== src/RpdResume/Tests.antt =====
-- A sweep with one run of a held model and one of a model that is free again.
use connections.Base.{ℕ, String, ◌≡◌, refl, none, some, List, [], ◌∷◌, str_eq, map}
use connections.Strategy.{StrategyRun, StrategyRunStatus, SupportedStrategy}
use connections.RunStore.{Store}
use connections.Hold.{RateLimitHold, RateLimitHoldReason, held_models}
use connections.ProviderPool.{ResetSchedule}
use connections.Dispatch.ListQueue.{list_queue}
use connections.RpdResume.{RpdResumeResult, resume_model_pool}
use connections.RpdResume.Sweep.{save_all, add_all, resume_job, resume_model_pool_lem}

abbrev parked_run : ℕ → String → StrategyRun
parked_run id model = record {
  id = id;
  puzzle_id = 7;
  strategy_name = SupportedStrategy.llm_groq;
  trial_number = id;
  status = StrategyRunStatus.rate_limited_daily;
  available_words = [];
  current_combination = [];
  model_name = some model;
  context_window = none;
  budget_tier = none;
  finished_at = none;
}

abbrev store : Store
store = record {
  puzzles = [];
  runs = parked_run 1 "a" ∷ parked_run 2 "b" ∷ [];
  guesses = [];
  solve_prompts = [];
  llm_proposals = [];
  category_evaluations = [];
  next_run_id = 3;
}

abbrev daily_hold : String → ℕ → RateLimitHold
daily_hold model reset_at = record {
  strategy_name = SupportedStrategy.llm_groq;
  model_name = some model;
  reason = some RateLimitHoldReason.daily;
  held_at = 0;
  reset_at = reset_at;
}

abbrev holds : List RateLimitHold
holds = daily_hold "a" 100 ∷ daily_hold "b" 900 ∷ []

abbrev schedule : ResetSchedule
schedule = ResetSchedule.self_rearm 900000

abbrev swept : RpdResumeResult
swept = (resume_model_pool list_queue "3" schedule SupportedStrategy.llm_groq 500 holds store []).0

one_queued : swept.redispatched ≡ 1
unfolding resume_model_pool str_eq
one_queued = refl

resume_model_pool_lem_example :
    (resume_model_pool list_queue "3" schedule SupportedStrategy.llm_groq 500 holds store []).1.1
    ≡ (
      save_all (parked_run 1 "a" ∷ []) store,
      add_all list_queue "3" (map (resume_job list_queue "3" store) (parked_run 1 "a" ∷ [])) [],
    )
unfolding resume_model_pool held_models str_eq
resume_model_pool_lem_example =
    (resume_model_pool_lem list_queue "3" schedule SupportedStrategy.llm_groq 500 holds store
      []).0.1
