-- ===== src/Game/Reducer.antt =====
-- frontend/src/lib/gameReducer.ts: `gameReducer`, one function for each action that does more
-- than set a field.
use connections.Base.{
  ℕ, ◌+◌, String, Bool, true, false, not, ◌||◌, Option, none, some, List, [], ◌∷◌, ◌++◌, ◌==◌, leb,
  if◌then◌else◌, length, filter, any, includes, str_eq,
}
use connections.Game.{
  Category, Difficulty, Feedback, GuessResult, PriorGuess, AiLastFailedGuess,
  AiAssistSuccessPayload, Status, GameState, GameAction, toggle_word, submit_guess, deselect_all,
  clear_feedback, ai_solve_start, ai_solve_success, ai_solve_failure, shuffle, confirm_solve,
  fresh_session,
}
use connections.Game.Guess.{Outcome, correct, wrong, evaluate_guess, difficulties_for_guess}

abbrev pub max_selected : ℕ
max_selected = 4

abbrev pub max_mistakes : ℕ
max_mistakes = 4

abbrev pub is_playing : Status → Bool
is_playing Status.playing = true
is_playing _ = false

abbrev pub is_some {ℓ} : {A : Type ℓ} → Option A → Bool
is_some none = false
is_some (some a) = true

-- `case "TOGGLE_WORD"`
unfoldable pub toggle : GameState → String → GameState
toggle state word =
    if not (is_playing state.status)
    then state
    else if includes state.selected word
    then record state { selected = filter (λ w. not (str_eq w word)) state.selected }
    else if leb max_selected (length state.selected)
    then state
    else record state { selected = state.selected ++ word ∷ [] }

-- `mistakes >= MAX_MISTAKES ? "lost" : "playing"`
abbrev pub status_after : ℕ → Status
status_after mistakes = if leb max_mistakes mistakes then Status.lost else Status.playing

-- `result === "oneAway" ? "one-away" : "incorrect"`
abbrev pub feedback_of : GuessResult → Feedback
feedback_of GuessResult.one_away = Feedback.one_away
feedback_of _ = Feedback.incorrect

abbrev pub guess : List String → GuessResult → PriorGuess
guess words result = record { words = words; result = result }

-- What `SUBMIT_GUESS` does once its guard has passed.
unfoldable pub settle : GameState → Outcome → GameState
settle state (correct category) = record state {
  pending_solve = some category;
  feedback = none;
  shake_words = [];
  guess_history =
      state.guess_history ++ difficulties_for_guess state.categories state.selected ∷ [];
  prior_guesses = state.prior_guesses ++ guess state.selected GuessResult.correct ∷ [];
}
settle state (wrong result) = record state {
  mistakes = state.mistakes + 1;
  shake_words = state.selected;
  selected = [];
  status = status_after (state.mistakes + 1);
  feedback = some (feedback_of result);
  guess_history =
      state.guess_history ++ difficulties_for_guess state.categories state.selected ∷ [];
  prior_guesses = state.prior_guesses ++ guess state.selected result ∷ [];
}

-- `case "SUBMIT_GUESS"`
unfoldable pub submit : GameState → GameState
unfolding settle
submit state =
    if not (is_playing state.status)
      || not (length state.selected == max_selected)
      || is_some state.pending_solve
    then state
    else settle state (evaluate_guess state.categories state.selected)

-- The local variables of `case "AI_SOLVE_SUCCESS"`.
pub record Batch : Type 0 where
  pub solved : List Category
  pub remaining_words : List String
  pub mistakes : ℕ
  pub guess_history : List (List Difficulty)
  pub prior_guesses : List PriorGuess
  pub last_failed_guess : Option AiLastFailedGuess
  pub status : Status
  pub feedback : Option Feedback
  pub shake_words : List String

abbrev pub start_batch : GameState → Batch
start_batch state = record {
  solved = state.solved;
  remaining_words = state.remaining_words;
  mistakes = state.mistakes;
  guess_history = state.guess_history;
  prior_guesses = state.prior_guesses;
  last_failed_guess = none;
  status = state.status;
  feedback = none;
  shake_words = [];
}

abbrev pub without : Category → List String → List String
without category words = filter (λ w. not (includes category.words w)) words

abbrev pub is_empty {ℓ} : {A : Type ℓ} → List A → Bool
is_empty [] = true
is_empty (x ∷ xs) = false

-- `if (!solved.some(…)) { solved.push(category); remainingWords = … }`
unfoldable pub lock_in : Category → Batch → Batch
lock_in category b = if any (λ cat. str_eq cat.id category.id) b.solved then b else record b {
  solved = b.solved ++ category ∷ [];
  remaining_words = without category b.remaining_words;
}

-- One round on a correct group.
unfoldable pub accept : List Category → List String → Category → Batch → Batch
unfolding lock_in
accept categories items category b =
    let c = lock_in category b in
    record c {
      last_failed_guess = none;
      guess_history = c.guess_history ++ difficulties_for_guess categories items ∷ [];
      prior_guesses = c.prior_guesses ++ guess items GuessResult.correct ∷ [];
      status = if is_empty c.remaining_words then Status.won else c.status;
    }

-- The round on the first wrong group, after which the loop breaks.
unfoldable pub reject : List Category → List String → GuessResult → Batch → Batch
reject categories items result b = record b {
  mistakes = b.mistakes + 1;
  last_failed_guess = some (record { items = items; result = result });
  status = status_after (b.mistakes + 1);
  feedback = some (feedback_of result);
  shake_words = items;
  guess_history = b.guess_history ++ difficulties_for_guess categories items ∷ [];
  prior_guesses = b.prior_guesses ++ guess items result ∷ [];
}

-- `for (const items of groups)`
unfoldable pub submit_groups : List Category → List (List String) → Batch → Batch
submit_groups categories [] b = b
submit_groups categories (items ∷ groups) b = elim (is_playing b.status) [
  | false ↦ b
  | true ↦ elim (evaluate_guess categories items) [
    | correct category ↦ submit_groups categories groups (accept categories items category b)
    | wrong result ↦ reject categories items result b
  ]
]

abbrev pub is_won : Status → Bool
is_won Status.won = true
is_won _ = false

-- The state returned by `case "AI_SOLVE_SUCCESS"`.
unfoldable pub finish_batch : GameState → AiAssistSuccessPayload → Batch → GameState
finish_batch state payload b = record state {
  loading = false;
  ai_solution = some payload.answer;
  error = none;
  solved = b.solved;
  remaining_words = b.remaining_words;
  mistakes = b.mistakes;
  status = b.status;
  feedback = b.feedback;
  shake_words = b.shake_words;
  guess_history = b.guess_history;
  prior_guesses = b.prior_guesses;
  ai_session =
      if is_won b.status || is_empty b.remaining_words
      then fresh_session
      else record { history = payload.history; last_failed_guess = b.last_failed_guess };
}

unfoldable pub ai_success : GameState → AiAssistSuccessPayload → GameState
unfolding finish_batch
ai_success state payload =
    finish_batch state payload
      (submit_groups state.categories payload.answer.groups (start_batch state))

-- `case "CONFIRM_SOLVE"`, by the pending category.
unfoldable pub confirm : Option Category → GameState → GameState
confirm none state = state
confirm (some match) state = record state {
  solved = state.solved ++ match ∷ [];
  remaining_words = without match state.remaining_words;
  selected = [];
  pending_solve = none;
  status =
      if length (state.solved ++ match ∷ []) == length state.categories
      then Status.won
      else Status.playing;
}

unfoldable pub game_reducer : GameState → GameAction → GameState
unfolding toggle submit ai_success confirm
game_reducer state (toggle_word word) = toggle state word
game_reducer state submit_guess = submit state
game_reducer state ai_solve_start = record state { loading = true; error = none }
game_reducer state (ai_solve_success payload) = ai_success state payload
game_reducer state (ai_solve_failure message) = record state {
  loading = false;
  ai_solution = none;
  error = some message;
}
game_reducer state deselect_all = record state { selected = [] }
game_reducer state clear_feedback = record state { feedback = none; shake_words = [] }
game_reducer state confirm_solve = confirm state.pending_solve state
game_reducer state (shuffle words) = record state { remaining_words = words }

-- The states that a list of dispatched actions leads to.
unfoldable pub play : GameState → List GameAction → GameState
play state [] = state
play state (action ∷ actions) = play (game_reducer state action) actions
