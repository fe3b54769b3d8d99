-- ===== src/Llm/Limits.antt =====
-- The loop of `runLlmStrategy` ends (backend/src/modules/strategy/llm-strategy-runner.service.ts).
use connections.Base.{
  ℕ, zero, suc, ◌+◌, ◌<◌, ◌≡◌, refl, sym, subst, inl, inr, Bool, true, false, Option, some, List,
  arith, leb, if◌then◌else◌, le→leb, Bool-cases,
}
use connections.Strategy.{StrategyRun, StrategyRunStatus, FreeTierId, finish, is_running}
use connections.Llm.{LlmRunLoopState}
use connections.Llm.{SolveErrorCode}
use connections.Llm.Calls.{classify_failed_call}
use connections.Llm.Messages.{ChatMessage}
use connections.Llm.Loop.{
  Outcome, ok, failed, Setup, Session, pause, take_outcome, has_room, request_of, run_round,
  run_loop,
}
use connections.Llm.Advances.{chances, potential, Advances, fewer_same, read_reply-Advances}

module _ (setup : Setup) where
  abbrev pub is_rate_limit : Outcome → Bool
  is_rate_limit (ok reply) = false
  is_rate_limit (failed error) = elim error.code [ SolveErrorCode.rate_limited ↦ true | _ ↦ false ]

  limited-Advances :
      (limit counter now : ℕ) (status : StrategyRunStatus) (run : StrategyRun)
      (s t : LlmRunLoopState)
      → is_running status ≡ false
      → (counter < limit → potential setup run t < potential setup run s)
      → Advances setup run s (if leb limit counter then finish status now run else run) t
  limited-Advances limit counter now status run s t ends more =
      elim (Bool-cases (leb limit counter)) [
        | inl h ↦ inl (rw h ends)
        | inr h ↦ rw h (inr (more (ground (arith, h, le→leb limit counter))))
      ]

  failed-Advances :
      (now : ℕ) (code : SolveErrorCode) (retry_after : Option ℕ) (run : StrategyRun)
      (s : LlmRunLoopState)
      → (elim code [ SolveErrorCode.rate_limited ↦ true | _ ↦ false ]) ≡ false
      → Advances setup run s
          (classify_failed_call setup.limits setup.park now code retry_after run s).run
          (classify_failed_call setup.limits setup.park now code retry_after run s).state
  unfolding classify_failed_call
  failed-Advances now SolveErrorCode.rate_limited retry_after run s h = ground (arith, h)
  failed-Advances now SolveErrorCode.rate_limited_daily retry_after run s h = inl refl
  failed-Advances now SolveErrorCode.model_error retry_after run s h =
      limited-Advances setup.limits.max_model_errors (s.consecutive_model_errors + 1) now
        StrategyRunStatus.error run s
        (record s { consecutive_model_errors = s.consecutive_model_errors + 1 }) refl
        (λ below. omega arith)
  failed-Advances now SolveErrorCode.duplicate_group retry_after run s h =
      limited-Advances setup.limits.max_duplicates (s.duplicate_count + 1) now
        StrategyRunStatus.duplicate run s (record s { duplicate_count = s.duplicate_count + 1 })
        refl
        (λ below.
          fewer_same setup (chances setup run s)
            (chances setup run (record s { duplicate_count = s.duplicate_count + 1 }))
            s.consecutive_model_errors (omega arith))
  failed-Advances now SolveErrorCode.invalid_group retry_after run s h =
      limited-Advances setup.limits.max_malformed (s.malformed_count + 1) now
        StrategyRunStatus.malformed_response run s
        (record s { malformed_count = s.malformed_count + 1 }) refl
        (λ below.
          fewer_same setup (chances setup run s)
            (chances setup run (record s { malformed_count = s.malformed_count + 1 }))
            s.consecutive_model_errors (omega arith))

  -- A pause changes neither the run nor what the limits count.
  pause_keeps :
      (s : Session)
      → ((pause setup s).run ≡ s.run)
        × (potential setup (pause setup s).run (pause setup s).state
            ≡ potential setup s.run s.state)
  pause_keeps s = ground arith

  pause-Advances :
      (run : StrategyRun) (state : LlmRunLoopState) (s : Session)
      → Advances setup run state s.run s.state
      → Advances setup run state (pause setup s).run (pause setup s).state
  pause-Advances run state s (inl ended) =
      inl (subst (λ (r : StrategyRun). is_running r.status ≡ false) (sym (pause_keeps s).0) ended)
  pause-Advances run state s (inr less) =
      inr (subst (λ k. k < potential setup run state) (sym (pause_keeps s).1) less)

  take_outcome-Advances :
      (now : ℕ) (request : List ChatMessage) (outcome : Outcome) (s : Session)
      → is_rate_limit outcome ≡ false
      → Advances setup s.run s.state
          (pause setup (take_outcome setup now request outcome s)).run
          (pause setup (take_outcome setup now request outcome s)).state
  unfolding take_outcome
  take_outcome-Advances now request (ok reply) s h =
      pause-Advances s.run s.state (take_outcome setup now request (ok reply) s)
        (read_reply-Advances setup now reply s.run s.state)
  take_outcome-Advances now request (failed error) s h =
      pause-Advances s.run s.state (take_outcome setup now request (failed error) s)
        (failed-Advances now error.code error.retry_after_seconds s.run s.state h)

  module _ (reserve : ℕ → FreeTierId → ℕ → Option ℕ) (call : ℕ → List ChatMessage → Outcome)
      (clock : ℕ → ℕ) where
    run_round-Advances :
        (round : ℕ) (s : Session)
        → is_rate_limit (call round (request_of setup s)) ≡ false
        → Advances setup s.run s.state
            (run_round setup reserve call clock round s).run
            (run_round setup reserve call clock round s).state
    unfolding run_round
    run_round-Advances round s h = elim (Bool-cases (has_room setup reserve call clock round s)) [
      | inl room ↦ rw room (
          take_outcome-Advances (clock round) (request_of setup s) (call round (request_of setup s))
            s h)
      | inr full ↦ rw full (inl refl)
    ]

    -- A run none of whose calls fails as a rate limit ends: whatever the replies and the other
    -- errors are, with more fuel than the potential that the limits leave the run, the loop
    -- leaves with a run that is no longer running.
    pub run_loop-ends :
        ((round : ℕ) (request : List ChatMessage) → is_rate_limit (call round request) ≡ false)
        → (fuel round : ℕ) (s : Session) → potential setup s.run s.state < fuel
        → (t : Session) × (run_loop setup reserve call clock fuel round s ≡ some t)
          × (is_running t.run.status ≡ false)
    unfolding run_loop
    run_loop-ends answered zero round s h = let absurd : ⊥ = omega arith in elim absurd [ ]
    run_loop-ends answered (suc fuel) round s h =
        let next = run_round setup reserve call clock round s in
        elim (Bool-cases (is_running next.run.status)) [
          | inr ended ↦ (next, rw ended refl, ended)
          | inl going ↦
              let smaller : potential setup next.run next.state < fuel = ground (
                arith,
                going,
                h,
                run_round-Advances round s (answered round (request_of setup s)),
              ) in
              let (t, e, ended) = run_loop-ends answered fuel (round + 1) next smaller in
              (t, rw going e, ended)
        ]
