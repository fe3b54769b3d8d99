-- ===== src/Llm.antt =====
-- backend/src/modules/strategy/llm-strategy-runner.service.ts: the state of a run that a language
-- model plays, and its rebuilding from saved guesses.
mod CaseMatch
pub mod Proposals
pub mod Rounds
pub mod Replay
pub mod Board
pub mod Calls
pub mod Prompts
pub mod Fixups
pub mod Messages
pub mod TokenBound
pub mod Loop
pub mod Chances
pub mod Advances
pub mod Limits
pub mod Duplicates
mod Tests
use connections.Base.{
  ℕ, zero, suc, ◌+◌, ◌-◌, ◌*◌, ◌^◌, ◌≤◌, ◌<◌, max, min, String, ◌≡◌, refl, sym, ap, ◌∙◌, subst, ◌≢◌,
  ◌↔◌, ◌⊎◌, inl, inr, Bool, true, false, not, ◌&&◌, ◌||◌, Option, none, some, List, [], ◌∷◌, ◌++◌,
  map, arith, append_assoc, append-nil, ltb, leb, ◌==◌, if◌then◌else◌, leb→le, le→leb, ==_iff,
  Bool-cases, Option-cases, length, get_elem?, get_or, set, take, filter, find?, any, all, count,
  length-append, count-append, count-le-length, length-filter, All, All-append, length-map, str_eq,
  str_eq→eq, str_eq_refl, includes, distinct, subset, includes-append, includes-filter,
  subset→includes, pigeonhole,
}
use connections.Puzzle.{GuessResult}

-- Two of the tags are set by the runner, the others by the answer parser.
pub data IssueTag : Type 0 where
  parenthetical_stripped group_count_off unclassified multiple_proposals : IssueTag
  word_not_on_list case_mismatch : IssueTag

pub data SolveErrorCode : Type 0 where
  duplicate_group invalid_group model_error rate_limited rate_limited_daily : SolveErrorCode

pub record PriorGuess : Type 0 where
  pub words : List String
  pub result : GuessResult

pub record LastFailedGuess : Type 0 where
  pub items : List String
  pub result : String

pub record LlmRunLoopState : Type 0 where
  pub guess_count : ℕ
  pub duplicate_count : ℕ
  pub failed_guess_count : ℕ
  pub malformed_count : ℕ
  pub consecutive_model_errors : ℕ
  pub rate_limit_wait_ms : Option ℕ
  pub rate_limit_streak : ℕ
  pub rate_limit_streak_started_at : Option ℕ
  pub locked_in_groups : List (List String)
  pub last_failed_guess : Option LastFailedGuess
  pub prior_guesses : List PriorGuess

abbrev pub is_success : GuessResult → Bool
is_success GuessResult.success = true
is_success _ = false

abbrev pub is_duplicate : GuessResult → Bool
is_duplicate GuessResult.duplicate = true
is_duplicate _ = false

-- `result === OFF_BY_ONE ? "one away" : "incorrect"`
abbrev pub feedback_text : GuessResult → String
feedback_text GuessResult.off_by_one = "one away"
feedback_text _ = "incorrect"

abbrev pub failed_guess : List String → GuessResult → LastFailedGuess
failed_guess words result = record { items = words; result = feedback_text result }

-- The body of the loop that replays one prior guess.
unfoldable pub replay_one : PriorGuess → LlmRunLoopState → LlmRunLoopState
replay_one guess state =
    if is_success guess.result
    then record state {
      locked_in_groups = state.locked_in_groups ++ guess.words ∷ [];
      last_failed_guess = none;
    }
    else record state { last_failed_guess = some (failed_guess guess.words guess.result) }

unfoldable pub replay : List PriorGuess → LlmRunLoopState → LlmRunLoopState
replay [] state = state
replay (guess ∷ guesses) state = replay guesses (replay_one guess state)

abbrev pub counters : List PriorGuess → LlmRunLoopState
counters prior_guesses = record {
  guess_count = length prior_guesses;
  duplicate_count = length (filter (λ g. is_duplicate g.result) prior_guesses);
  failed_guess_count = length (filter (λ g. not (is_success g.result)) prior_guesses);
  malformed_count = 0;
  consecutive_model_errors = 0;
  rate_limit_wait_ms = none;
  rate_limit_streak = 0;
  rate_limit_streak_started_at = none;
  locked_in_groups = [];
  last_failed_guess = none;
  prior_guesses = prior_guesses;
}

-- The state that a run starts or resumes with.
unfoldable pub initial_state : List PriorGuess → LlmRunLoopState
unfolding replay replay_one
initial_state prior_guesses = replay prior_guesses (counters prior_guesses)
