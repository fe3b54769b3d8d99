-- ===== src/Llm/Loop.antt =====
-- The loop of `runLlmStrategy` (backend/src/modules/strategy/llm-strategy-runner.service.ts): one
-- round is one call of the orchestrator. The orchestrator, the reservation of tokens and the clock
-- are functions of the round's number.
use connections.Base.{
  ◌/◌, ℕ, zero, suc, ◌+◌, String, Bool, true, false, not, ◌&&◌, Option, none, some, List, [], ◌∷◌,
  ◌++◌, ltb, leb, ◌==◌, if◌then◌else◌, length, any,
}
use connections.Puzzle.{Puzzle, TextOps}
use connections.Strategy.{
  StrategyRun, StrategyRunStatus, Guess, FreeTierId, group_size, finish, is_running,
}
use connections.Llm.{IssueTag, LlmRunLoopState}
use connections.Llm.Proposals.{Proposal, Evaluation, evaluate_proposals}
use connections.Llm.Proposals.{build_proposal_entries, is_tag}
use connections.Llm.{SolveErrorCode}
use connections.Llm.Calls.{RateLimitPark, RunLimits, classify_failed_call, model_error_backoff}
use connections.Llm.Messages.{ChatMessage, ChatRole}
use connections.Llm.Prompts.{build_initial_prompt, build_retry_prompt, format_compact_answer, ◌<>◌}
use connections.Llm.TokenBound.{KnownPrefix, input_token_upper_bound, known_prefix_after_reply}

-- `outcome.data`; the words of a group that the parser did not find are `none`.
pub record Reply : Type 0 where
  pub model : String
  pub context_window : Option ℕ
  pub response : String
  pub groups : List (List String)
  pub proposal_words : List (Option (List String))
  pub category_by_group : ℕ → Option String
  pub text_issues : List IssueTag
  pub prompt_tokens : Option ℕ
  pub total_tokens : Option ℕ

-- `outcome.error`
pub record CallError : Type 0 where
  pub code : SolveErrorCode
  pub retry_after_seconds : Option ℕ
  pub daily_reset_seconds : Option ℕ
  pub total_tokens : Option ℕ

pub data Outcome : Type 0 where
  ok : Reply → Outcome
  failed : CallError → Outcome

-- What is fixed for one execution of a run.
pub record Setup : Type 0 where
  pub ops : TextOps
  pub show : ℕ → String
  pub byte_length : String → ℕ
  pub puzzle : Puzzle
  pub limits : RunLimits
  pub park : Option RateLimitPark
  pub max_output_tokens : Option ℕ

-- What the loop changes: `saved` are the guess rows flushed, `delays` the pauses made.
pub record Session : Type 0 where
  pub run : StrategyRun
  pub state : LlmRunLoopState
  pub messages : List ChatMessage
  pub known_prefix : Option KnownPrefix
  pub saved : List Guess
  pub prompt_number : ℕ
  pub delays : List ℕ

module _ (setup : Setup) where
  abbrev pub next_prompt : StrategyRun → LlmRunLoopState → String
  next_prompt run state =
      let n = length run.available_words / group_size in
      elim state.last_failed_guess [
        | some guess ↦
            build_retry_prompt setup.ops setup.show run.available_words state.locked_in_groups guess
              n
        | none ↦ build_initial_prompt setup.ops setup.show run.available_words n
      ]

  -- `state.malformedCount++`, and the end of the run at the limit.
  abbrev pub count_malformed : ℕ → Evaluation → Evaluation
  count_malformed now e = record e {
    run =
        if leb setup.limits.max_malformed (e.state.malformed_count + 1)
        then finish StrategyRunStatus.malformed_response now e.run
        else e.run;
    state = record (e.state) { malformed_count = e.state.malformed_count + 1 };
  }

  -- The run and the state once a reply has come, before its groups are looked at.
  abbrev pub replied : Reply → StrategyRun → LlmRunLoopState → Evaluation
  replied reply run state = record {
    run = record run {
      model_name = elim run.model_name [ some name ↦ some name | none ↦ some reply.model ];
      context_window = elim reply.context_window [
        | some window ↦ some window
        | none ↦ run.context_window
      ];
    };
    state = record state {
      consecutive_model_errors = 0;
      rate_limit_streak = 0;
      rate_limit_streak_started_at = none;
    };
    pending_guesses = [];
    issue_tags = reply.text_issues;
    passed = [];
  }

  abbrev pub entries : Reply → List Proposal
  entries reply =
      build_proposal_entries (λ i. "Category unavailable for group " <> setup.show i)
        reply.category_by_group 0 reply.proposal_words

  abbrev pub evaluate_reply : ℕ → Reply → Evaluation → Evaluation
  evaluate_reply now reply e =
      evaluate_proposals setup.ops setup.puzzle setup.limits.max_duplicates
        setup.limits.max_failed_guesses now (entries reply) e

  -- A reply that staged no guess counts as malformed.
  abbrev pub count_unused : ℕ → ℕ → Evaluation → Evaluation
  count_unused now guess_count_before e =
      if is_running e.run.status && (e.state.guess_count == guess_count_before)
      then count_malformed now e
      else e

  unfoldable pub read_reply : ℕ → Reply → StrategyRun → LlmRunLoopState → Evaluation
  read_reply now reply run state =
      if length reply.groups == 0
      then count_malformed now (replied reply run state)
      else count_unused now state.guess_count (evaluate_reply now reply (replied reply run state))

  abbrev pub assistant_content : Reply → String
  assistant_content reply =
      if (not (length reply.groups == 0))
        && any (is_tag IssueTag.multiple_proposals) reply.text_issues
      then format_compact_answer setup.show reply.proposal_words reply.category_by_group
      else reply.response

  -- The call's worst case, if there is a cap to size it by.
  abbrev pub worst_case : List ChatMessage → Option KnownPrefix → Option ℕ
  worst_case request known = elim setup.max_output_tokens [
    | some cap ↦ some (cap + input_token_upper_bound setup.byte_length request known)
    | none ↦ none
  ]

  -- The pause before the next round.
  abbrev pub pause : Session → Session
  pause s =
      if is_running s.run.status
      then (elim s.state.rate_limit_wait_ms [
        | some wait ↦ record s {
          state = record (s.state) { rate_limit_wait_ms = none };
          delays = s.delays ++ wait ∷ [];
        }
        | none ↦
            if ltb 0 s.state.consecutive_model_errors
            then record s {
              delays = s.delays ++ model_error_backoff s.state.consecutive_model_errors ∷ [];
            }
            else s
      ])
      else s

  -- The part of a round after the call, up to the pause; `request` ends in the round's prompt.
  unfoldable pub take_outcome : ℕ → List ChatMessage → Outcome → Session → Session
  unfolding read_reply
  take_outcome now request (ok reply) s =
      let e = read_reply now reply s.run s.state in
      record s {
        run = e.run;
        state = e.state;
        messages =
            request ++ record { role = ChatRole.assistant; content = assistant_content reply } ∷ [];
        known_prefix = elim reply.prompt_tokens [
          | some tokens ↦ some (
              known_prefix_after_reply setup.byte_length (length request) tokens
                (assistant_content reply))
          | none ↦ s.known_prefix
        ];
        saved = s.saved ++ e.pending_guesses;
        prompt_number = s.prompt_number + 1;
      }
  take_outcome now request (failed error) s =
      let c =
        classify_failed_call setup.limits setup.park now error.code error.retry_after_seconds s.run
          s.state in
      record s { run = c.run; state = c.state; prompt_number = s.prompt_number + 1 }

  abbrev pub request_of : Session → List ChatMessage
  request_of s =
      s.messages ++ record { role = ChatRole.user; content = next_prompt s.run s.state } ∷ []

  module _ (reserve : ℕ → FreeTierId → ℕ → Option ℕ) (call : ℕ → List ChatMessage → Outcome)
      (clock : ℕ → ℕ) where
    -- Whether the round may call: an unbudgeted run always may.
    abbrev pub has_room : ℕ → Session → Bool
    has_room round s = elim s.run.budget_tier [
      | none ↦ true
      | some tier ↦ elim (worst_case (request_of s) s.known_prefix) [
        | none ↦ false
        | some tokens ↦ elim (reserve round tier tokens) [ some reservation ↦ true | none ↦ false ]
      ]
    ]

    unfoldable pub run_round : ℕ → Session → Session
    unfolding take_outcome
    run_round round s =
        if has_room round s
        then pause (take_outcome (clock round) (request_of s) (call round (request_of s)) s)
        else record s { run = finish StrategyRunStatus.rate_limited_daily (clock round) s.run }

    -- `while (true)`: `none` when the fuel is used up.
    unfoldable pub run_loop : ℕ → ℕ → Session → Option Session
    unfolding run_round
    run_loop zero round s = none
    run_loop (suc fuel) round s =
        let next = run_round round s in
        let rest = run_loop fuel (round + 1) next in
        if is_running next.run.status then rest else some next
