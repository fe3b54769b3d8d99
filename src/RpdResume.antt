-- ===== src/RpdResume.antt =====
-- backend/src/modules/provider-pool/rpd-resume.service.ts: the sweep that queues the runs of a pool
-- again that were parked for a daily limit which has lifted. The stamp of the jobs' ids is an argument,
-- and adding a job does not fail.
pub mod Sweep
mod Tests
use connections.Base.{
  ℕ, zero, suc, ◌+◌, ◌-◌, ◌≤◌, min, String, Bool, true, false, not, ◌&&◌, ◌||◌, Option, none, some,
  List, [], ◌∷◌, ◌==◌, if◌then◌else◌, length, filter, includes, str_eq,
}
use connections.Strategy.{StrategyRun, StrategyRunStatus, SupportedStrategy}
use connections.RunStore.{Store, same_strategy, save_run}
use connections.Hold.{RateLimitHold, clear_expired, held_models, is_held, next_reset_at}
use connections.ProviderPool.{ResetSchedule, self_rearm_max_delay_ms}
use connections.Dispatch.Queue.{JobQueue, JobIdSuffix}
use connections.Dispatch.Runs.{job_of, date_of, is_parked_status}

-- The models whose holds were cleared, or whether the account's was.
pub data Cleared : Type 0 where
  cleared_models : List String → Cleared
  cleared_account : Bool → Cleared

-- `skipped` is the loop's own count.
pub record RpdResumeResult : Type 0 where
  pub cleared : Cleared
  pub redispatched : ℕ
  pub skipped : ℕ
  pub rearmed_in_ms : Option ℕ

abbrev pub is_parked : SupportedStrategy → StrategyRun → Bool
is_parked strategy run = is_parked_status run.status && same_strategy run.strategy_name strategy

-- `!run.modelName || stillHeld.has(run.modelName)`
abbrev pub stays_parked : List String → Option String → Bool
stays_parked still_held none = true
stays_parked still_held (some model) = str_eq model "" || includes still_held model

abbrev pub rearm_cap : ResetSchedule → ℕ
rearm_cap (ResetSchedule.self_rearm max_delay_ms) = max_delay_ms
rearm_cap ResetSchedule.fixed_cron = self_rearm_max_delay_ms

abbrev pub until_reset : ℕ → ℕ → Option ℕ → ℕ
until_reset cap now none = cap
until_reset cap now (some soonest) = soonest - now

-- The delay of the next sweep.
unfoldable pub rearm : ResetSchedule → SupportedStrategy → ℕ → List RateLimitHold → ℕ
unfolding next_reset_at
rearm schedule strategy now holds =
    let cap = rearm_cap schedule in min (until_reset cap now (next_reset_at strategy now holds)) cap

-- The status alone is flipped; the run keeps its other fields.
abbrev pub running_again : StrategyRun → StrategyRun
running_again run = record run { status = StrategyRunStatus.running }

-- A sweep of an account skips no run, and schedules no other sweep.
abbrev pub account_result : Bool → ℕ → RpdResumeResult
account_result cleared redispatched = record {
  cleared = Cleared.cleared_account cleared;
  redispatched = redispatched;
  skipped = 0;
  rearmed_in_ms = none;
}

module _ {Q : Type 0} (queue : JobQueue Q) (stamp : String) where
  -- The loop over the parked runs: how many were queued and how many skipped.
  unfoldable pub redispatch : List String → List StrategyRun → Store → Q → (ℕ × ℕ) × (Store × Q)
  redispatch still_held [] store q = ((0, 0), (store, q))
  redispatch still_held (run ∷ runs) store q =
      let job = job_of run (date_of run store) false (JobIdSuffix.resume stamp) in
      let later = redispatch still_held runs store q in
      let rest =
        redispatch still_held runs (save_run (running_again run) store) (queue.add job q) in
      if stays_parked still_held run.model_name
      then ((later.0.0, suc later.0.1), later.1)
      else ((suc rest.0.0, rest.0.1), rest.1)

  unfoldable pub resume_model_pool :
      ResetSchedule
      → SupportedStrategy
      → ℕ
      → List RateLimitHold
      → Store
      → Q
      → RpdResumeResult × (List RateLimitHold × (Store × Q))
  unfolding clear_expired held_models redispatch rearm
  resume_model_pool schedule strategy now holds store q =
      let kept = (clear_expired (some strategy) now holds).1 in
      let swept =
        redispatch (held_models strategy now kept) (filter (is_parked strategy) store.runs) store
          q in
      (
        record {
          cleared =
              Cleared.cleared_models (clear_expired (some strategy) now holds).0.cleared_models;
          redispatched = swept.0.0;
          skipped = swept.0.1;
          rearmed_in_ms = if swept.0.1 == 0 then none else some (rearm schedule strategy now kept);
        },
        (kept, swept.1),
      )

  -- The loop over all the parked runs of an account that is no longer held.
  unfoldable pub redispatch_all : List StrategyRun → Store → Q → ℕ × (Store × Q)
  redispatch_all [] store q = (0, (store, q))
  redispatch_all (run ∷ runs) store q =
      let job = job_of run (date_of run store) false (JobIdSuffix.resume stamp) in
      let rest = redispatch_all runs (save_run (running_again run) store) (queue.add job q) in
      (suc rest.0, rest.1)

  unfoldable pub resume_account_pool :
      SupportedStrategy
      → ℕ
      → List RateLimitHold
      → Store
      → Q
      → RpdResumeResult × (List RateLimitHold × (Store × Q))
  unfolding clear_expired is_held redispatch_all
  resume_account_pool strategy now holds store q =
      let kept = (clear_expired (some strategy) now holds).1 in
      let swept = redispatch_all (filter (is_parked strategy) store.runs) store q in
      let result =
        account_result (clear_expired (some strategy) now holds).0.cleared_account_wide in
      if is_held strategy none now kept
      then (result 0, (kept, (store, q)))
      else (result swept.0, (kept, swept.1))
