-- ===== src/Llm/Calls.antt =====
-- A call that brought no reply: `classifyFailedCall` and `modelErrorBackoff` of
-- backend/src/modules/strategy/llm-strategy-runner.service.ts.
use connections.Base.{
  ℕ, zero, suc, ◌+◌, ◌-◌, ◌*◌, ◌^◌, ◌≤◌, min, ◌≡◌, refl, ap, inl, inr, ◌||◌, Option, none, some,
  arith, leb, if◌then◌else◌, Option-cases,
}
use native.Mathlib.Nat.{pow-succ'}
use connections.Strategy.{StrategyRun, StrategyRunStatus, finish}
use connections.Llm.{LlmRunLoopState, SolveErrorCode}

abbrev model_error_retry_base_delay_ms : ℕ
model_error_retry_base_delay_ms = 7500

abbrev model_error_retry_max_delay_ms : ℕ
model_error_retry_max_delay_ms = 60000

-- Only called with `consecutive_errors` > 0.
unfoldable pub model_error_backoff : ℕ → ℕ
model_error_backoff consecutive_errors =
    min model_error_retry_max_delay_ms
      (model_error_retry_base_delay_ms * 2 ^ (consecutive_errors - 1))

-- `persistentRateLimitPark` of a pool, its two settings read.
pub record RateLimitPark : Type 0 where
  pub attempts : ℕ
  pub elapsed_ms : ℕ

-- The limits that `runLlmStrategy` reads from the environment before its loop.
pub record RunLimits : Type 0 where
  pub max_duplicates : ℕ
  pub max_failed_guesses : ℕ
  pub max_malformed : ℕ
  pub max_model_errors : ℕ
  pub rate_limit_fallback_seconds : ℕ

pub record Classified : Type 0 where
  pub code : SolveErrorCode
  pub run : StrategyRun
  pub state : LlmRunLoopState

module _ (limits : RunLimits) (park : Option RateLimitPark) (now : ℕ) where
  -- `state.rateLimitStreak += 1`, and its start if it has none.
  abbrev pub streaked : LlmRunLoopState → LlmRunLoopState
  streaked state = record state {
    rate_limit_streak = state.rate_limit_streak + 1;
    rate_limit_streak_started_at = elim state.rate_limit_streak_started_at [
      | some start ↦ some start
      | none ↦ some now
    ];
  }

  abbrev pub streak_start : LlmRunLoopState → ℕ
  streak_start state = elim state.rate_limit_streak_started_at [ some start ↦ start | none ↦ now ]

  abbrev pub waiting : Option ℕ → LlmRunLoopState → LlmRunLoopState
  waiting retry_after state = record state {
    rate_limit_wait_ms = some (elim retry_after [
      | some seconds ↦ seconds * 1000
      | none ↦ limits.rate_limit_fallback_seconds * 1000
    ]);
  }

  unfoldable pub rate_limit : Option ℕ → StrategyRun → LlmRunLoopState → Classified
  rate_limit retry_after run state = elim park [
    | none ↦ record {
      code = SolveErrorCode.rate_limited;
      run = run;
      state = waiting retry_after state;
    }
    | some p ↦
        if leb p.attempts (state.rate_limit_streak + 1)
          || leb p.elapsed_ms (now - streak_start state)
        then record {
          code = SolveErrorCode.rate_limited_daily;
          run = finish StrategyRunStatus.rate_limited_daily now run;
          state = streaked state;
        }
        else record {
          code = SolveErrorCode.rate_limited;
          run = run;
          state = waiting retry_after (streaked state);
        }
  ]

  -- A counter at its limit ends the run.
  abbrev pub limited : ℕ → ℕ → StrategyRunStatus → StrategyRun → StrategyRun
  limited limit counter status run = if leb limit counter then finish status now run else run

  unfoldable pub classify_failed_call :
      SolveErrorCode → Option ℕ → StrategyRun → LlmRunLoopState → Classified
  unfolding rate_limit
  classify_failed_call SolveErrorCode.rate_limited_daily retry_after run state = record {
    code = SolveErrorCode.rate_limited_daily;
    run = finish StrategyRunStatus.rate_limited_daily now run;
    state = state;
  }
  classify_failed_call SolveErrorCode.rate_limited retry_after run state =
      rate_limit retry_after run state
  classify_failed_call SolveErrorCode.model_error retry_after run state = record {
    code = SolveErrorCode.model_error;
    run =
        limited limits.max_model_errors (state.consecutive_model_errors + 1) StrategyRunStatus.error
          run;
    state = record state { consecutive_model_errors = state.consecutive_model_errors + 1 };
  }
  classify_failed_call SolveErrorCode.duplicate_group retry_after run state = record {
    code = SolveErrorCode.duplicate_group;
    run = limited limits.max_duplicates (state.duplicate_count + 1) StrategyRunStatus.duplicate run;
    state = record state { duplicate_count = state.duplicate_count + 1 };
  }
  classify_failed_call SolveErrorCode.invalid_group retry_after run state = record {
    code = SolveErrorCode.invalid_group;
    run =
        limited limits.max_malformed (state.malformed_count + 1)
          StrategyRunStatus.malformed_response run;
    state = record state { malformed_count = state.malformed_count + 1 };
  }

pow-pos : (m : ℕ) → 1 ≤ 2 ^ m
pow-pos zero = omega arith
pow-pos (suc m) = rw (pow-succ' 2 m) (ground (arith, pow-pos m))

-- The pause after a model error is never shorter than 7.5 seconds nor longer than a minute, does
-- not shrink from one error to the next, and is the full minute from the fourth error on.
pub model_error_backoff-bounds :
    (n : ℕ)
    → (7500 ≤ model_error_backoff n)
      × (model_error_backoff n ≤ 60000)
      × (model_error_backoff n ≤ model_error_backoff (n + 1))
      × (model_error_backoff (n + 4) ≡ 60000)
unfolding model_error_backoff
model_error_backoff-bounds zero = (omega arith, omega arith, omega arith, refl)
model_error_backoff-bounds (suc m) =
    let now_at : 2 ^ (suc m - 1) ≡ 2 ^ m = ap (λ k. 2 ^ k) (omega arith) in
    let next_at : 2 ^ (suc m + 1 - 1) ≡ 2 ^ suc m = ap (λ k. 2 ^ k) (omega arith) in
    let last_at : 2 ^ (suc m + 4 - 1) ≡ 2 ^ suc (suc (suc (suc m))) =
      ap (λ k. 2 ^ k) (omega arith) in
    ground (
      arith,
      now_at,
      next_at,
      last_at,
      pow-pos m,
      pow-succ' 2 m,
      pow-succ' 2 (suc m),
      pow-succ' 2 (suc (suc m)),
      pow-succ' 2 (suc (suc (suc m))),
    )

module _ (limits : RunLimits) (park : Option RateLimitPark) (now : ℕ) where
  abbrev pub Counters : LlmRunLoopState → LlmRunLoopState → Type 0
  Counters s t =
      (t.guess_count ≡ s.guess_count)
      × (t.failed_guess_count ≡ s.failed_guess_count)
      × (t.duplicate_count ≡ s.duplicate_count)
      × (t.malformed_count ≡ s.malformed_count)
      × (t.consecutive_model_errors ≡ s.consecutive_model_errors)

  -- A failed call that counts as a rate limit leaves the run and its counters alone and sets how
  -- long to wait, whatever streak of rate limits came before.
  pub classify_failed_call-waits :
      (code : SolveErrorCode) (retry_after : Option ℕ) (run : StrategyRun) (state : LlmRunLoopState)
      → (classify_failed_call limits park now code retry_after run state).code
        ≡ SolveErrorCode.rate_limited
      → ((classify_failed_call limits park now code retry_after run state).run ≡ run)
        × Counters state (classify_failed_call limits park now code retry_after run state).state
        × ((classify_failed_call limits park now code retry_after run
              state).state.rate_limit_wait_ms
            ≡ some (elim retry_after [
              | some seconds ↦ seconds * 1000
              | none ↦ limits.rate_limit_fallback_seconds * 1000
            ]))
  unfolding classify_failed_call rate_limit
  classify_failed_call-waits SolveErrorCode.rate_limited retry_after run state h =
      elim (Option-cases park) [ inl o ↦ ground (arith, h, o) | inr (p, o) ↦ ground (arith, h, o) ]
  classify_failed_call-waits SolveErrorCode.rate_limited_daily retry_after run state h =
      ground (arith, h)
  classify_failed_call-waits SolveErrorCode.model_error retry_after run state h = ground (arith, h)
  classify_failed_call-waits SolveErrorCode.duplicate_group retry_after run state h =
      ground (arith, h)
  classify_failed_call-waits SolveErrorCode.invalid_group retry_after run state h =
      ground (arith, h)

  -- How many more failed calls that are no rate limits a run stands before it ends.
  pub headroom : LlmRunLoopState → ℕ
  headroom s =
      (limits.max_duplicates - s.duplicate_count) + (limits.max_malformed - s.malformed_count)
