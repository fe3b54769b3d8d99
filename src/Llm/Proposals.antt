-- ===== src/Llm/Proposals.antt =====
-- `buildProposalEntries` and `evaluateProposals` of
-- backend/src/modules/strategy/llm-strategy-runner.service.ts. All proposals of a reply share the
-- tag list of their prompt row, so the tags are one list beside them.
use connections.Base.{
  ℕ, ◌+◌, String, Bool, true, false, not, ◌&&◌, Option, none, some, List, [], ◌∷◌, ◌++◌, map, leb,
  ◌==◌, if◌then◌else◌, length, filter, any, includes, subset,
}
use connections.Puzzle.{Puzzle, GuessResult, TextOps, words_of, evaluate_guess_on_puzzle}
use connections.Combinatorics.{first_combination}
use connections.Strategy.{StrategyRun, StrategyRunStatus, Guess, GuessSource, group_size, finish}
use connections.Llm.{IssueTag, LlmRunLoopState, PriorGuess, is_success, is_duplicate, failed_guess}
use connections.Llm.CaseMatch.{find_case_insensitive_group_match}

pub data ProposalStatus : Type 0 where
  used rejected_duplicate not_selected superseded_by_retry invalid_items : ProposalStatus

pub record Proposal : Type 0 where
  pub words : List String
  pub category : String
  pub status : ProposalStatus
  pub guess : Option Guess

-- What `evaluateProposals` mutates, with the proposals already passed.
pub record Evaluation : Type 0 where
  pub run : StrategyRun
  pub state : LlmRunLoopState
  pub pending_guesses : List Guess
  pub issue_tags : List IssueTag
  pub passed : List Proposal

abbrev pub is_tag : IssueTag → IssueTag → Bool
is_tag IssueTag.word_not_on_list IssueTag.word_not_on_list = true
is_tag IssueTag.case_mismatch IssueTag.case_mismatch = true
is_tag IssueTag.parenthetical_stripped IssueTag.parenthetical_stripped = true
is_tag IssueTag.group_count_off IssueTag.group_count_off = true
is_tag IssueTag.unclassified IssueTag.unclassified = true
is_tag IssueTag.multiple_proposals IssueTag.multiple_proposals = true
is_tag _ _ = false

-- `if (!issueTags.includes(tag)) issueTags.push(tag)`
abbrev pub add_tag : IssueTag → List IssueTag → List IssueTag
add_tag tag tags = if any (is_tag tag) tags then tags else tags ++ tag ∷ []

-- One group of the reply: its words, if the parser found the group at all.
unfoldable pub build_proposal_entries :
    (ℕ → String) → (ℕ → Option String) → ℕ → List (Option (List String)) → List Proposal
build_proposal_entries unavailable category_map i [] = []
build_proposal_entries unavailable category_map i (none ∷ groups) =
    build_proposal_entries unavailable category_map (i + 1) groups
build_proposal_entries unavailable category_map i (some words ∷ groups) =
    let rest = build_proposal_entries unavailable category_map (i + 1) groups in
    let category : String = elim (category_map (i + 1)) [
      | some found ↦ found
      | none ↦ unavailable (i + 1)
    ] in
    if length words == group_size
    then record {
      words = words;
      category = category;
      status = ProposalStatus.not_selected;
      guess = none;
    }
      ∷ rest
    else rest

pub data Check : Type 0 where
  -- The words to submit, normalised to the board's casing or not.
  submit : List String → Bool → Check
  -- Passed over; whether a word is not the puzzle's at all.
  pass : Bool → Check

module _ (ops : TextOps) (puzzle : Puzzle) (max_duplicates max_failed_guesses now : ℕ) where
  abbrev pub answer_group_words : List (List String)
  answer_group_words = map words_of puzzle.answer_groups

  abbrev pub is_puzzle_word : String → Bool
  is_puzzle_word w = any (λ g. includes g w) answer_group_words

  -- The test of a proposal's words against the words still available.
  unfoldable pub check : List String → List String → Check
  check available guess_words =
      if subset guess_words available
      then submit guess_words false
      else elim (find_case_insensitive_group_match ops guess_words answer_group_words) [
        | some group ↦
            if subset group available
            then submit group true
            else pass (any (λ w. not (is_puzzle_word w)) guess_words)
        | none ↦ pass (any (λ w. not (is_puzzle_word w)) guess_words)
      ]

  abbrev pub repeats : List PriorGuess → List String → Bool
  repeats prior words = any (λ g. length g.words == length words && subset g.words words) prior

  unfoldable pub verdict : List PriorGuess → List String → GuessResult
  verdict prior words =
      if repeats prior words
      then GuessResult.duplicate
      else evaluate_guess_on_puzzle ops puzzle words

  -- The guess row, the used proposal and the guess on record.
  unfoldable pub record_guess : List String → GuessResult → Proposal → Evaluation → Evaluation
  record_guess words result proposal e =
      let row : Guess = record {
        puzzle_id = puzzle.id;
        strategy_run_id = e.run.id;
        words = words;
        result = result;
        sequence_number = e.state.guess_count + 1;
        source = GuessSource.strategy;
      } in
      record e {
        state = record (e.state) {
          guess_count = e.state.guess_count + 1;
          prior_guesses = e.state.prior_guesses ++ record { words = words; result = result } ∷ [];
        };
        pending_guesses = e.pending_guesses ++ row ∷ [];
        passed =
            e.passed
            ++ record proposal { words = words; status = ProposalStatus.used; guess = some row }
              ∷ [];
      }

  abbrev pub shrink : List String → StrategyRun → StrategyRun
  shrink words run = record run {
    available_words = filter (λ w. not (includes words w)) run.available_words;
    current_combination = first_combination group_size;
  }

  unfoldable pub after_success : List String → Evaluation → Evaluation
  after_success words e =
      let run = shrink words e.run in
      record e {
        run =
            if length run.available_words == 0
            then finish StrategyRunStatus.completed now run
            else run;
        state = record (e.state) {
          locked_in_groups = e.state.locked_in_groups ++ words ∷ [];
          last_failed_guess = none;
        };
      }

  -- The status checks after a miss, in the source's order: the failure limit has the last word.
  abbrev pub end_if_failed : ℕ → ℕ → Bool → StrategyRun → StrategyRun
  end_if_failed duplicates failed is_dup run =
      let ended =
        if is_dup && leb max_duplicates duplicates
        then finish StrategyRunStatus.duplicate now run
        else run in
      if leb max_failed_guesses failed then finish StrategyRunStatus.failed now ended else ended

  unfoldable pub after_failure : List String → GuessResult → Evaluation → Evaluation
  after_failure words result e =
      let duplicates =
        if is_duplicate result then e.state.duplicate_count + 1 else e.state.duplicate_count in
      let failed = e.state.failed_guess_count + 1 in
      record e {
        run = end_if_failed duplicates failed (is_duplicate result) e.run;
        state = record (e.state) {
          failed_guess_count = failed;
          last_failed_guess = some (failed_guess words result);
          duplicate_count = duplicates;
        };
      }

  -- `for (const currentProposal of proposalEntries)`
  unfoldable pub evaluate_proposals : List Proposal → Evaluation → Evaluation
  evaluate_proposals [] e = e
  evaluate_proposals (proposal ∷ proposals) e = elim (check e.run.available_words proposal.words) [
    | pass hallucinated ↦ evaluate_proposals proposals (record e {
      issue_tags =
          if hallucinated then add_tag IssueTag.word_not_on_list e.issue_tags else e.issue_tags;
      passed = e.passed ++ proposal ∷ [];
    })
    | submit words normalised ↦
        let tagged = record e {
          issue_tags =
              if normalised then add_tag IssueTag.case_mismatch e.issue_tags else e.issue_tags;
        } in
        let result = verdict e.state.prior_guesses words in
        let recorded = record_guess words result proposal tagged in
        elim (is_success result) [
          | false ↦
              let missed = after_failure words result recorded in
              record missed { passed = missed.passed ++ proposals }
          | true ↦
              let hit = after_success words recorded in
              elim (length hit.run.available_words == 0) [
                | true ↦ record hit { passed = hit.passed ++ proposals }
                | false ↦ evaluate_proposals proposals hit
              ]
        ]
  ]
