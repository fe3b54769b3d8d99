-- ===== src/PoolDispatch.antt =====
-- backend/src/modules/provider-pool/free-dispatch.service.ts: the cycles that queue trials on the
-- free tiers of the provider pools. What a tick reads of the holds, the models and the queues is its
-- input; the clock is an argument.
pub mod Limits
pub mod Cycle
pub mod Chain
mod Tests
use connections.Base.{
  ℕ, zero, suc, ◌+◌, ◌-◌, ◌*◌, ◌/◌, ◌≤◌, min, String, Bool, true, false, not, ◌&&◌, ◌||◌, Option,
  none, some, List, [], ◌∷◌, ◌++◌, map, ltb, leb, ◌==◌, if◌then◌else◌, length, filter, find?, all,
  includes,
}
use connections.Budget.{sum}
use connections.Strategy.{SupportedStrategy}
use connections.Hold.{
  RateLimitHold, RateLimitHoldReason, held_models, held_reason, is_held, next_reset_at, is_daily,
  is_cooldown,
}
use connections.ProviderPool.{ProviderPoolId, Pacing, AccountBudget, DispatchSpec, strategy_of}
use connections.RoundRobin.{
  Allocation, Attempt, Round, LoopEnd, ended, threw, out_of_fuel, dispatch_loop,
}

pub data PoolStop : Type 0 where
  no_models all_held daily_held budget_reached out_of_puzzles : PoolStop

pub data PoolTick (W : Type 0) : Type 0 where
  inactive failed : PoolTick W
  -- The models of the trials that the tick queued before it stopped the cycle.
  stopped : PoolStop → List String → PoolTick W
  -- The next tick comes after a delay; the models of the trials that were queued.
  rescheduled : ℕ → List String → PoolTick W

-- What a tick reads: the holds at `now`, the models of the pool's strategy, the calls of today, the
-- trials in flight on some models.
pub record PoolInputs : Type 0 where
  pub strategy : SupportedStrategy
  pub holds : List RateLimitHold
  pub now : ℕ
  pub models : List String
  pub calls_today : ℕ
  pub in_flight : List String → Allocation

abbrev pub total_in_flight : PoolInputs → List String → ℕ
total_in_flight i models = sum (λ (e : String × ℕ). e.1) (i.in_flight models)

abbrev pub eligible_models : PoolInputs → List String
eligible_models i = filter (λ m. not (includes (held_models i.strategy i.now i.holds) m)) i.models

-- `isStartExhausted`
unfoldable pub is_start_exhausted : DispatchSpec → PoolInputs → Bool
unfolding is_held held_models
is_start_exhausted (DispatchSpec.account_budget b) i =
    if length i.models == 0
    then true
    else is_held i.strategy none i.now i.holds || leb b.budget i.calls_today
is_start_exhausted (DispatchSpec.until_held pacing) i =
    if length i.models == 0
    then true
    else all (includes (held_models i.strategy i.now i.holds)) i.models

-- `resetAt ? Math.max(0, resetAt - Date.now()) : rpmCooldownMs`
abbrev pub cooldown_delay : AccountBudget → PoolInputs → ℕ
cooldown_delay b i = elim (next_reset_at i.strategy i.now i.holds) [
  | none ↦ b.rpm_cooldown_seconds * 1000
  | some reset_at ↦ reset_at - i.now
]

module _ {W : Type 0} (allocation : List String → W → Allocation)
    (attempt : String → W → Attempt × W) where
  -- The loop stops for `exhausted.size` reaching the number of models, and nothing is skipped.
  unfoldable pub dispatch_round_robin : ℕ → List String → ℕ → W → LoopEnd W
  unfolding dispatch_loop
  dispatch_round_robin fuel models max_new_trials w =
      dispatch_loop models max_new_trials (λ queued model. true) attempt fuel
        (record {
          exhausted = [];
          skipped = [];
          queued = [];
          allocation = allocation models w;
          world = w;
        })

  abbrev pub after_round : Pacing → List String → LoopEnd W → PoolTick W
  after_round pacing models threw = PoolTick.failed
  after_round pacing models out_of_fuel = PoolTick.failed
  after_round pacing models (ended r) =
      if length r.exhausted == length models
      then PoolTick.stopped PoolStop.out_of_puzzles r.queued
      else PoolTick.rescheduled pacing.tick_ms r.queued

  unfoldable pub run_until_held_tick : ℕ → Pacing → PoolInputs → W → PoolTick W
  unfolding dispatch_round_robin held_models
  run_until_held_tick fuel pacing i w =
      let eligible = eligible_models i in
      let total = total_in_flight i eligible in
      if length i.models == 0
      then PoolTick.stopped PoolStop.no_models []
      else if length eligible == 0
      then PoolTick.stopped PoolStop.all_held []
      else if leb pacing.max_in_flight total
      then PoolTick.rescheduled pacing.tick_ms []
      else after_round pacing eligible (
          dispatch_round_robin fuel eligible (min pacing.max_batch (pacing.max_in_flight - total))
            w)

  -- `Math.max(0, Math.floor(callsRemaining / callsPerTrial))`, with the other limits.
  abbrev pub max_new_trials : AccountBudget → PoolInputs → ℕ
  max_new_trials b i =
      let total = total_in_flight i i.models in
      min (min b.pacing.max_batch (b.pacing.max_in_flight - total))
        ((b.budget - i.calls_today - total * b.calls_per_trial) / b.calls_per_trial)

  unfoldable pub run_account_budget_tick : ℕ → AccountBudget → PoolInputs → W → PoolTick W
  unfolding dispatch_round_robin held_reason next_reset_at
  run_account_budget_tick fuel b i w =
      let reason = held_reason i.strategy i.now i.holds in
      let total = total_in_flight i i.models in
      if is_daily reason
      then PoolTick.stopped PoolStop.daily_held []
      else if is_cooldown reason
      then PoolTick.rescheduled (cooldown_delay b i) []
      else if length i.models == 0
      then PoolTick.stopped PoolStop.no_models []
      else if leb b.budget (i.calls_today + total * b.calls_per_trial)
      then PoolTick.stopped PoolStop.budget_reached []
      else if leb b.pacing.max_in_flight total
      then PoolTick.rescheduled b.pacing.tick_ms []
      else if max_new_trials b i == 0
      then PoolTick.rescheduled b.pacing.tick_ms []
      else after_round b.pacing i.models (dispatch_round_robin fuel i.models (max_new_trials b i) w)

  unfoldable pub run_tick : ℕ → Bool → DispatchSpec → PoolInputs → W → PoolTick W
  unfolding run_until_held_tick run_account_budget_tick
  run_tick fuel active spec i w = if not active then PoolTick.inactive else elim spec [
    | DispatchSpec.until_held pacing ↦ run_until_held_tick fuel pacing i w
    | DispatchSpec.account_budget b ↦ run_account_budget_tick fuel b i w
  ]
