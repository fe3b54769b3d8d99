-- ===== src/PoolDispatch/Tests.antt =====
-- Ticks of two pools, with two models of which one is held.
use connections.Base.{
  ℕ, zero, suc, String, ◌≡◌, refl, true, some, List, [], ◌∷◌, arith, str_eq, str_eq_refl, subset,
  includes, ap, ◌++◌, none, false,
}
use connections.Strategy.{SupportedStrategy}
use connections.Hold.{RateLimitHoldReason, held_models}
use connections.ProviderPool.{Pacing, AccountBudget, DispatchSpec, ProviderPoolId, Knobs}
use connections.RoundRobin.{Allocation, Attempt}
use connections.RoundRobin.Names.{names}
use connections.PoolDispatch.{
  PoolInputs, run_until_held_tick, run_account_budget_tick, eligible_models, is_start_exhausted,
}
use connections.PoolDispatch.Cycle.{PoolCycles, PoolStart, is_active, start, tick}
use connections.PoolDispatch.Chain.{Continues, tick-Continues}
use connections.PoolDispatch.Limits.{
  Queues, WithinBudget, NotHeld, Counts, run_account_budget_tick-WithinBudget,
  run_until_held_tick-NotHeld,
}

abbrev pacing : Pacing
pacing = record { tick_ms = 60000; max_batch = 5; max_in_flight = 4 }

abbrev budget : AccountBudget
budget = record { budget = 50; calls_per_trial = 8; rpm_cooldown_seconds = 60; pacing = pacing }

abbrev knobs : Knobs
knobs = record { shared = pacing; sambanova_pacing = pacing; openrouter_budget = budget }

abbrev inputs : PoolInputs
inputs = record {
  strategy = SupportedStrategy.llm_groq;
  holds =
      record {
        strategy_name = SupportedStrategy.llm_groq;
        model_name = some "a";
        reason = some RateLimitHoldReason.daily;
        held_at = 0;
        reset_at = 500;
      }
      ∷ [];
  now = 100;
  models = "a" ∷ "b" ∷ [];
  calls_today = 20;
  in_flight = λ models. ("b", 1) ∷ [];
}

-- The number is how many puzzles are left.
abbrev attempt : String → ℕ → Attempt × ℕ
attempt model zero = (Attempt.no_puzzle, zero)
attempt model (suc n) = (Attempt.queued, n)

abbrev allocation : List String → ℕ → Allocation
allocation [] w = []
allocation (m ∷ ms) w = (m, 0) ∷ allocation ms w

subset-ext :
    (xs ys : List String)
    → ((w : String) → includes xs w ≡ true → includes ys w ≡ true)
    → subset xs ys ≡ true
subset-ext [] ys h = refl
subset-ext (x ∷ xs) ys h =
    ground (
      arith,
      h x (ground (arith, str_eq_refl x)),
      subset-ext xs ys (λ w k. h w (ground (arith, k))),
    )

names-allocation : (models : List String) (w : ℕ) → names (allocation models w) ≡ models
names-allocation [] w = refl
names-allocation (m ∷ ms) w = ap (λ l. m ∷ l) (names-allocation ms w)

counts : Counts allocation attempt
counts models w =
    rw (names-allocation models w)
      (subset-ext models models (λ w h. h), subset-ext models models (λ w h. h))

run_account_budget_tick-WithinBudget_example :
    Queues
      (WithinBudget budget inputs)
      (run_account_budget_tick allocation attempt 9 budget inputs 4)
unfolding str_eq
run_account_budget_tick-WithinBudget_example =
    run_account_budget_tick-WithinBudget allocation attempt 9 budget inputs 4 (omega arith) refl
      counts (omega arith)

only_b : eligible_models inputs ≡ "b" ∷ []
unfolding held_models str_eq
only_b = refl

run_until_held_tick-NotHeld_example :
    Queues (NotHeld pacing inputs) (run_until_held_tick allocation attempt 9 pacing inputs 4)
unfolding held_models str_eq
run_until_held_tick-NotHeld_example =
    run_until_held_tick-NotHeld allocation attempt 9 pacing inputs 4 refl counts (omega arith)

abbrev running : PoolCycles
running = record {
  states =
      record { id = ProviderPoolId.groq; active = true; started_at = some 50 }
      ∷ record { id = ProviderPoolId.google; active = false; started_at = none }
      ∷ [];
  ticks = record { pool = ProviderPoolId.groq; delay = 0 } ∷ [];
}

running-active : is_active ProviderPoolId.groq running ≡ true
unfolding is_active
running-active = refl

-- A running cycle is not started again, and one whose model is free starts.
started_twice : (start knobs ProviderPoolId.groq inputs running).0 ≡ PoolStart.already_running
unfolding start
started_twice = refl

started_google :
    (start knobs ProviderPoolId.google inputs running).1.ticks
    ≡ running.ticks ++ record { pool = ProviderPoolId.google; delay = 0 } ∷ []
unfolding start is_start_exhausted held_models str_eq
started_google = refl

tick-Continues_example :
    Continues ProviderPoolId.groq running
      (tick allocation attempt 9
        (DispatchSpec.until_held pacing)
        ProviderPoolId.groq
        inputs
        4
        running).1
unfolding held_models str_eq
tick-Continues_example =
    tick-Continues allocation attempt 9 (DispatchSpec.until_held pacing) ProviderPoolId.groq inputs
      4 running running-active tt refl refl counts (omega arith) (omega arith)
