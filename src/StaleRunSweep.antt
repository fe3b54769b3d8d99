-- ===== src/StaleRunSweep.antt =====
-- backend/src/modules/strategy/stale-run-sweep.service.ts, with `queueForStrategy` of
-- backend/src/modules/queue/strategy.queue.ts: at the start of a worker, the runs that it owns and that nothing
-- has touched for long are queued again. `updated_at` is the rows' column, and the host's date stamp
-- is an argument.
pub mod Owners
mod Tests
use connections.Base.{
  ℕ, zero, suc, ◌+◌, ◌-◌, String, Bool, true, false, not, ◌&&◌, Option, none, some, List, [], ◌∷◌,
  ltb, if◌then◌else◌, filter,
}
use connections.Strategy.{StrategyRun, SupportedStrategy, is_running}
use connections.RunStore.{Store}
use connections.ProviderPool.{ProviderPoolId, provider_pool}
use connections.Dispatch.Queue.{RunStrategyJob, JobIdSuffix}
use connections.Dispatch.Runs.{job_of, date_of}

pub data WorkerRole : Type 0 where
  all cloud ollama : WorkerRole

-- The queue of a strategy: a pool's own, or the shared one.
pub data RunQueue : Type 0 where
  of_pool : ProviderPoolId → RunQueue
  shared : RunQueue

unfoldable pub queue_for_strategy : SupportedStrategy → RunQueue
unfolding provider_pool
queue_for_strategy strategy = elim (provider_pool strategy) [
  | none ↦ shared
  | some pool ↦ of_pool pool
]

abbrev pub is_ollama : RunQueue → Bool
is_ollama (of_pool ProviderPoolId.ollama) = true
is_ollama _ = false

unfoldable pub owned : WorkerRole → SupportedStrategy → Bool
unfolding queue_for_strategy
owned WorkerRole.all strategy = true
owned WorkerRole.ollama strategy = is_ollama (queue_for_strategy strategy)
owned WorkerRole.cloud strategy = not (is_ollama (queue_for_strategy strategy))

-- The jobs that are added, each with its queue, and how many runs another role owns.
pub record StaleRunSweepResult : Type 0 where
  pub resumed : List (RunQueue × RunStrategyJob)
  pub skipped : ℕ

abbrev pub sweep_job : String → StrategyRun → Store → RunQueue × RunStrategyJob
sweep_job stamp run store = (
  queue_for_strategy run.strategy_name,
  job_of run (date_of run store) false (JobIdSuffix.sweep stamp),
)

abbrev pub count_run : Bool → RunQueue × RunStrategyJob → StaleRunSweepResult → StaleRunSweepResult
count_run true job rest = record rest { resumed = job ∷ rest.resumed }
count_run false job rest = record rest { skipped = suc rest.skipped }

unfoldable pub sweep_each : WorkerRole → String → List StrategyRun → Store → StaleRunSweepResult
unfolding owned
sweep_each role stamp [] store = record { resumed = []; skipped = 0 }
sweep_each role stamp (run ∷ runs) store =
    count_run (owned role run.strategy_name) (sweep_job stamp run store)
      (sweep_each role stamp runs store)

abbrev pub stale_runs : (StrategyRun → ℕ) → ℕ → Store → List StrategyRun
stale_runs updated_at cutoff store =
    filter (λ (r : StrategyRun). is_running r.status && ltb (updated_at r) cutoff) store.runs

unfoldable pub sweep : (StrategyRun → ℕ) → ℕ → WorkerRole → ℕ → String → Store → StaleRunSweepResult
unfolding sweep_each
sweep updated_at threshold_ms role now stamp store =
    sweep_each role stamp (stale_runs updated_at (now - threshold_ms) store) store
