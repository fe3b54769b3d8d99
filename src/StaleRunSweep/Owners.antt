-- ===== src/StaleRunSweep/Owners.antt =====
-- Each stale run has one owner (backend/src/modules/strategy/stale-run-sweep.service.ts).
use connections.Base.{
  ℕ, ◌+◌, ◌-◌, String, ◌≡◌, refl, sym, ap, ◌∙◌, inl, inr, Bool, not, List, [], ◌∷◌, map, arith,
  Bool-cases, length, count,
}
use connections.Strategy.{StrategyRun, SupportedStrategy}
use connections.RunStore.{Store}
use connections.Dispatch.Queue.{RunStrategyJob}
use connections.StaleRunSweep.{
  WorkerRole, RunQueue, owned, sweep_job, sweep_each, sweep, stale_runs,
}

owned-one :
    (strategy : SupportedStrategy)
    → owned WorkerRole.ollama strategy ≡ not (owned WorkerRole.cloud strategy)
unfolding owned
owned-one strategy = ground arith

all_resumed :
    (stamp : String) (runs : List StrategyRun) (store : Store)
    → ((sweep_each WorkerRole.all stamp runs store).resumed
        ≡ map (λ (r : StrategyRun). sweep_job stamp r store) runs)
      × ((sweep_each WorkerRole.all stamp runs store).skipped ≡ 0)
unfolding sweep_each owned
all_resumed stamp [] store = (refl, refl)
all_resumed stamp (run ∷ runs) store =
    let rest = all_resumed stamp runs store in
    (ap (λ l. sweep_job stamp run store ∷ l) rest.0, rest.1)

-- How often a list of jobs has one that passes a test.
split_resumed :
    (p : RunQueue × RunStrategyJob → Bool) (stamp : String) (runs : List StrategyRun)
    (store : Store)
    → (count p (sweep_each WorkerRole.cloud stamp runs store).resumed
          + count p (sweep_each WorkerRole.ollama stamp runs store).resumed
        ≡ count p (map (λ (r : StrategyRun). sweep_job stamp r store) runs))
      × ((sweep_each WorkerRole.cloud stamp runs store).skipped
          ≡ length (sweep_each WorkerRole.ollama stamp runs store).resumed)
      × ((sweep_each WorkerRole.ollama stamp runs store).skipped
          ≡ length (sweep_each WorkerRole.cloud stamp runs store).resumed)
unfolding sweep_each
split_resumed p stamp [] store = ground arith
split_resumed p stamp (run ∷ runs) store =
    elim (Bool-cases (owned WorkerRole.cloud run.strategy_name)) [
      | inl cloud ↦
          ground (arith, cloud, owned-one run.strategy_name, split_resumed p stamp runs store)
      | inr ollama ↦
          ground (arith, ollama, owned-one run.strategy_name, split_resumed p stamp runs store)
    ]

-- The sweeps of a cloud worker and of an Ollama worker over the same rows share the stale runs: every
-- job that the sweep of a worker of all roles adds is added by exactly one of them, as often as
-- there are runs for it, none adds another job, and each skips as many runs as the other resumes.
pub sweep_lem :
    (updated_at : StrategyRun → ℕ) (threshold_ms now : ℕ) (stamp : String) (store : Store)
    (p : RunQueue × RunStrategyJob → Bool)
    → (count p (sweep updated_at threshold_ms WorkerRole.cloud now stamp store).resumed
          + count p (sweep updated_at threshold_ms WorkerRole.ollama now stamp store).resumed
        ≡ count p (sweep updated_at threshold_ms WorkerRole.all now stamp store).resumed)
      × ((sweep updated_at threshold_ms WorkerRole.all now stamp store).resumed
          ≡ map
              (λ (r : StrategyRun). sweep_job stamp r store)
              (stale_runs updated_at (now - threshold_ms) store))
      × ((sweep updated_at threshold_ms WorkerRole.cloud now stamp store).skipped
          ≡ length (sweep updated_at threshold_ms WorkerRole.ollama now stamp store).resumed)
      × ((sweep updated_at threshold_ms WorkerRole.ollama now stamp store).skipped
          ≡ length (sweep updated_at threshold_ms WorkerRole.cloud now stamp store).resumed)
unfolding sweep
sweep_lem updated_at threshold_ms now stamp store p =
    let stale : List StrategyRun = stale_runs updated_at (now - threshold_ms) store in
    let (all_jobs, none_skipped) = all_resumed stamp stale store in
    let (jobs, cloud, ollama) = split_resumed p stamp stale store in
    (jobs ∙ ap (count p) (sym all_jobs), all_jobs, cloud, ollama)
