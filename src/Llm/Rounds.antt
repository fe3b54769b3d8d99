-- ===== src/Llm/Rounds.antt =====
-- The rounds of `evaluateProposals` (backend/src/modules/strategy/llm-strategy-runner.service.ts) as
-- equations, and the invariant rule of its loop.
use connections.Base.{
  ℕ, String, ◌≡◌, refl, sym, subst, ◌⊎◌, inl, inr, Bool, true, false, List, [], ◌∷◌, ◌++◌, arith,
  ◌==◌, if◌then◌else◌, Bool-cases, length, All,
}
use connections.Puzzle.{Puzzle, GuessResult, TextOps}
use connections.Strategy.{StrategyRun, Guess}
use connections.Llm.{IssueTag, LlmRunLoopState, is_success}
use connections.Llm.Proposals.{
  Proposal, Evaluation, Check, submit, pass, check, verdict, record_guess, after_success,
  after_failure, evaluate_proposals, add_tag,
}

Check-cases :
    (c : Check)
    → ((h : Bool) × (c ≡ pass h)) ⊎ ((words : List String) × (n : Bool) × (c ≡ submit words n))
Check-cases (pass h) = inl (h, refl)
Check-cases (submit words n) = inr (words, n, refl)

module _ (ops : TextOps) (puzzle : Puzzle) (max_duplicates max_failed_guesses now : ℕ) where
  abbrev pub evaluated : List Proposal → Evaluation → Evaluation
  evaluated = evaluate_proposals ops puzzle max_duplicates max_failed_guesses now

  abbrev pub tag_if : Bool → IssueTag → Evaluation → Evaluation
  tag_if b tag e = record e { issue_tags = if b then add_tag tag e.issue_tags else e.issue_tags }

  abbrev pub add_passed : List Proposal → Evaluation → Evaluation
  add_passed ps e = record e { passed = e.passed ++ ps }

  abbrev pub judged : Evaluation → List String → GuessResult
  judged e words =
      verdict ops puzzle max_duplicates max_failed_guesses now e.state.prior_guesses words

  abbrev pub recorded : List String → Proposal → Evaluation → Evaluation
  recorded words p e =
      record_guess ops puzzle max_duplicates max_failed_guesses now words (judged e words) p e

  abbrev pub missed : List String → Proposal → Evaluation → Evaluation
  missed words p e =
      after_failure ops puzzle max_duplicates max_failed_guesses now words (judged e words)
        (recorded words p e)

  abbrev pub hit : List String → Proposal → Evaluation → Evaluation
  hit words p e =
      after_success ops puzzle max_duplicates max_failed_guesses now words (recorded words p e)

  abbrev pub checked : Evaluation → Proposal → Check
  checked e p = check ops puzzle max_duplicates max_failed_guesses now e.run.available_words p.words

  module _ (p : Proposal) (ps : List Proposal) (e : Evaluation) where
    pub round_pass :
        (h : Bool)
        → checked e p ≡ pass h
        → evaluated (p ∷ ps) e
          ≡ evaluated ps (add_passed (p ∷ []) (tag_if h IssueTag.word_not_on_list e))
    unfolding evaluate_proposals
    round_pass h c = ground (arith, c)

    pub round_miss :
        (words : List String) (n : Bool)
        → checked e p ≡ submit words n
        → is_success (judged e words) ≡ false
        → evaluated (p ∷ ps) e ≡ add_passed ps (missed words p (tag_if n IssueTag.case_mismatch e))
    unfolding evaluate_proposals
    round_miss words n c m = ground (arith, c)

    pub round_last :
        (words : List String) (n : Bool)
        → checked e p ≡ submit words n
        → is_success (judged e words) ≡ true
        → (length (hit words p (tag_if n IssueTag.case_mismatch e)).run.available_words == 0) ≡ true
        → evaluated (p ∷ ps) e ≡ add_passed ps (hit words p (tag_if n IssueTag.case_mismatch e))
    unfolding evaluate_proposals
    round_last words n c m l = ground (arith, c)

    pub round_hit :
        (words : List String) (n : Bool)
        → checked e p ≡ submit words n
        → is_success (judged e words) ≡ true
        → (length (hit words p (tag_if n IssueTag.case_mismatch e)).run.available_words == 0)
          ≡ false
        → evaluated (p ∷ ps) e ≡ evaluated ps (hit words p (tag_if n IssueTag.case_mismatch e))
    unfolding evaluate_proposals
    round_hit words n c m l = ground (arith, c)

  -- What a hit keeps of the run, the state and the staged guesses holds when the reply ends, in the
  -- form that a miss leaves it in.
  module _ {ℓ} (R : Proposal → Type 0) (P Q : StrategyRun → LlmRunLoopState → List Guess → Type ℓ)
      (on_end : (run : StrategyRun) (s : LlmRunLoopState) (pending : List Guess)
        → P run s pending
        → Q run s pending)
      (on_hit : (p : Proposal) (e : Evaluation) (words : List String) (n : Bool)
        → checked e p ≡ submit words n
        → R p
        → is_success (judged e words) ≡ true
        → P e.run e.state e.pending_guesses
        → P (hit words p e).run (hit words p e).state (hit words p e).pending_guesses)
      (on_miss : (p : Proposal) (e : Evaluation) (words : List String) (n : Bool)
        → checked e p ≡ submit words n
        → R p
        → is_success (judged e words) ≡ false
        → P e.run e.state e.pending_guesses
        → Q
            (missed words p e).run
            (missed words p e).state
            (missed words p e).pending_guesses) where
    abbrev Holds : Evaluation → Type ℓ
    Holds e = P e.run e.state e.pending_guesses

    abbrev Ends : Evaluation → Type ℓ
    Ends e = Q e.run e.state e.pending_guesses

    pub evaluated-Ends :
        (ps : List Proposal) (e : Evaluation) → All R ps → Holds e → Ends (evaluated ps e)
    evaluated-Ends [] e r h = unfold evaluate_proposals in on_end e.run e.state e.pending_guesses h
    evaluated-Ends (p ∷ ps) e (rp, r) h = elim (Check-cases (checked e p)) [
      | inl (x, c) ↦
          subst Ends (sym (round_pass p ps e x c))
            (evaluated-Ends ps (add_passed (p ∷ []) (tag_if x IssueTag.word_not_on_list e)) r h)
      | inr (words, n, c) ↦ elim (Bool-cases (is_success (judged e words))) [
        | inr m ↦
            subst Ends (sym (round_miss p ps e words n c m))
              (on_miss p (tag_if n IssueTag.case_mismatch e) words n c rp m h)
        | inl m ↦
            let next = on_hit p (tag_if n IssueTag.case_mismatch e) words n c rp m h in
            elim (Bool-cases
              (length (hit words p (tag_if n IssueTag.case_mismatch e)).run.available_words == 0)) [
                | inl l ↦ subst Ends (sym (round_last p ps e words n c m l)) (
                    on_end (hit words p (tag_if n IssueTag.case_mismatch e)).run
                      (hit words p (tag_if n IssueTag.case_mismatch e)).state
                      (hit words p (tag_if n IssueTag.case_mismatch e)).pending_guesses next)
                | inr l ↦
                    subst Ends (sym (round_hit p ps e words n c m l))
                      (evaluated-Ends ps (hit words p (tag_if n IssueTag.case_mismatch e)) r next)
              ]
      ]
    ]
