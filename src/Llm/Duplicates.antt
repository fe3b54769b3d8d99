-- ===== src/Llm/Duplicates.antt =====
-- The ending `duplicate` of a run (`evaluateProposals` of
-- backend/src/modules/strategy/llm-strategy-runner.service.ts).
use connections.Base.{ℕ, ◌+◌, ◌≤◌, String, ◌≡◌, Bool, true, false, List, arith, leb→le, le→leb}
use connections.Puzzle.{Puzzle, TextOps}
use connections.Strategy.{StrategyRun, StrategyRunStatus, Guess}
use connections.Llm.{LlmRunLoopState}
use connections.Llm.Proposals.{Proposal, Evaluation, record_guess, after_success, after_failure}
use connections.Base.{All-Unit}
use connections.Llm.Rounds.{evaluated, evaluated-Ends, hit, missed}

abbrev pub is_duplicate_end : StrategyRunStatus → Bool
is_duplicate_end StrategyRunStatus.duplicate = true
is_duplicate_end _ = false

module _ (ops : TextOps) (puzzle : Puzzle) (max_duplicates max_failed_guesses now : ℕ)
    (fewer : max_failed_guesses ≤ max_duplicates) where
  abbrev Undecided : StrategyRun → LlmRunLoopState → List Guess → Type 0
  Undecided run s pending =
      (is_duplicate_end run.status ≡ false) × (s.duplicate_count ≤ s.failed_guess_count)

  Undecided-hit :
      (p : Proposal) (e : Evaluation) (words : List String)
      → Undecided e.run e.state e.pending_guesses
      → Undecided
          (hit ops puzzle max_duplicates max_failed_guesses now words p e).run
          (hit ops puzzle max_duplicates max_failed_guesses now words p e).state
          (hit ops puzzle max_duplicates max_failed_guesses now words p e).pending_guesses
  unfolding after_success record_guess
  Undecided-hit p e words (status, counts) = (ground (arith, status), counts)

  Undecided-miss :
      (p : Proposal) (e : Evaluation) (words : List String)
      → Undecided e.run e.state e.pending_guesses
      → Undecided
          (missed ops puzzle max_duplicates max_failed_guesses now words p e).run
          (missed ops puzzle max_duplicates max_failed_guesses now words p e).state
          (missed ops puzzle max_duplicates max_failed_guesses now words p e).pending_guesses
  unfolding after_failure record_guess
  Undecided-miss p e words (status, counts) = (
    ground (
      arith,
      status,
      counts,
      fewer,
      leb→le max_duplicates (e.state.duplicate_count + 1),
      le→leb max_failed_guesses (e.state.failed_guess_count + 1),
    ),
    ground (arith, counts),
  )

  -- When the limit on duplicates is not below the limit on failed guesses, and no more
  -- duplicates than failures are on record, a reply never ends a run as `duplicate`,
  -- however often it repeats a guess.
  pub evaluated-no_duplicate_end :
      (ps : List Proposal) (e : Evaluation)
      → is_duplicate_end e.run.status ≡ false
      → e.state.duplicate_count ≤ e.state.failed_guess_count
      → (is_duplicate_end
            (evaluated ops puzzle max_duplicates max_failed_guesses now ps e).run.status
          ≡ false)
        × ((evaluated ops puzzle max_duplicates max_failed_guesses now ps e).state.duplicate_count
            ≤ (evaluated ops puzzle max_duplicates max_failed_guesses now ps
                e).state.failed_guess_count)
  evaluated-no_duplicate_end ps e status counts =
      evaluated-Ends ops puzzle max_duplicates max_failed_guesses now (λ p. Unit) Undecided
        Undecided (λ run s pending k. k) (λ q d words n c r m k. Undecided-hit q d words k)
        (λ q d words n c r m k. Undecided-miss q d words k) ps e (All-Unit ps) (status, counts)
