-- ===== src/Strategy.antt =====
-- backend/src/strategies.ts and backend/src/modules/strategy/entities: the names of the strategies,
-- how many trials each has, and the rows of runs and guesses. Times are milliseconds; a clock
-- reading is an argument of what reads it.
use connections.Base.{
  ℕ, String, Bool, true, false, Option, none, some, List, [], ◌∷◌, ltb, ◌==◌, if◌then◌else◌,
}
use connections.Combinatorics.{count_up}
use connections.Puzzle.{GuessResult}

pub data SupportedStrategy : Type 0 where
  alphabetical reverse_alphabetical order reverse_order : SupportedStrategy
  shuffle_smart shuffle_foolish : SupportedStrategy
  llm_openai llm_ollama llm_google llm_groq llm_openrouter llm_mistral llm_sambanova llm_nvidia :
      SupportedStrategy

abbrev pub is_llm_strategy : SupportedStrategy → Bool
is_llm_strategy SupportedStrategy.alphabetical = false
is_llm_strategy SupportedStrategy.reverse_alphabetical = false
is_llm_strategy SupportedStrategy.order = false
is_llm_strategy SupportedStrategy.reverse_order = false
is_llm_strategy SupportedStrategy.shuffle_smart = false
is_llm_strategy SupportedStrategy.shuffle_foolish = false
is_llm_strategy _ = true

abbrev pub is_shuffle : SupportedStrategy → Bool
is_shuffle SupportedStrategy.shuffle_smart = true
is_shuffle SupportedStrategy.shuffle_foolish = true
is_shuffle _ = false

-- `Number(raw)` is the host's: `none` stands for what is no integer, and a negative integer is
-- refused like 0.
unfoldable pub positive_trial_count : Option ℕ → ℕ → ℕ
positive_trial_count none fallback = fallback
positive_trial_count (some parsed) fallback = if ltb 0 parsed then parsed else fallback

unfoldable pub strategy_trial_numbers : SupportedStrategy → Option ℕ → Option ℕ → List ℕ
unfolding positive_trial_count
strategy_trial_numbers strategy shuffle_trials llm_trials =
    let n =
      if is_shuffle strategy
      then positive_trial_count shuffle_trials 3
      else if is_llm_strategy strategy
      then positive_trial_count llm_trials 3
      else 0 in
    if n == 0 then 0 ∷ [] else count_up 1 n

pub data StrategyRunStatus : Type 0 where
  running completed failed duplicate malformed_response error rate_limited_daily : StrategyRunStatus

-- `TERMINAL_STATUSES.has`
abbrev pub is_terminal : StrategyRunStatus → Bool
is_terminal StrategyRunStatus.running = false
is_terminal StrategyRunStatus.rate_limited_daily = false
is_terminal _ = true

abbrev pub is_running : StrategyRunStatus → Bool
is_running StrategyRunStatus.running = true
is_running _ = false

pub data FreeTierId : Type 0 where
  flagship mini : FreeTierId

pub record StrategyRun : Type 0 where
  pub id : ℕ
  pub puzzle_id : ℕ
  pub strategy_name : SupportedStrategy
  pub trial_number : ℕ
  pub status : StrategyRunStatus
  pub available_words : List String
  pub current_combination : List ℕ
  pub model_name : Option String
  pub context_window : Option ℕ
  pub budget_tier : Option FreeTierId
  pub finished_at : Option ℕ

pub data GuessSource : Type 0 where
  user strategy : GuessSource

pub record Guess : Type 0 where
  pub puzzle_id : ℕ
  pub strategy_run_id : ℕ
  pub words : List String
  pub result : GuessResult
  pub sequence_number : ℕ
  pub source : GuessSource

abbrev pub group_size : ℕ
group_size = 4

-- `run.status = status; run.finishedAt = new Date()`
abbrev pub finish : StrategyRunStatus → ℕ → StrategyRun → StrategyRun
finish status now run = record run { status = status; finished_at = some now }
