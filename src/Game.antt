-- ===== src/Game.antt =====
-- frontend/src/lib/gameReducer.ts and frontend/src/data/types.ts: the data of the playable board.
-- Optional fields (`pendingSolve`, `error`, `ai_solution`, …) are `Option`.
pub mod Assist
pub mod Guess
pub mod Match
pub mod Reducer
pub mod Batch
pub mod Accounts
pub mod Board
pub mod Endings
pub mod Replies
mod Tests
use connections.Base.{ℕ, String, Bool, true, false, Option, none, List, []}

pub data Difficulty : Type 0 where
  yellow green blue purple : Difficulty

pub record Category : Type 0 where
  pub id : String
  pub name : String
  pub difficulty : Difficulty
  pub words : List String

pub data Feedback : Type 0 where
  one_away incorrect : Feedback

-- `"correct" | "incorrect" | "oneAway"`
pub data GuessResult : Type 0 where
  correct : GuessResult
  incorrect : GuessResult
  one_away : GuessResult

pub record PriorGuess : Type 0 where
  pub words : List String
  pub result : GuessResult

pub data Role : Type 0 where
  user assistant : Role

pub record AiChatMessage : Type 0 where
  pub role : Role
  pub content : String

pub record AiLastFailedGuess : Type 0 where
  pub items : List String
  pub result : GuessResult

pub record AiSessionState : Type 0 where
  pub history : List AiChatMessage
  pub last_failed_guess : Option AiLastFailedGuess

pub record AiAssistData : Type 0 where
  pub response : String
  pub groups : List (List String)
  pub prompt : String
  pub model : Option String

pub record AiAssistSuccessPayload : Type 0 where
  pub answer : AiAssistData
  pub history : List AiChatMessage

pub data Status : Type 0 where
  playing won lost : Status

pub record GameState : Type 0 where
  pub categories : List Category
  pub remaining_words : List String
  pub selected : List String
  pub solved : List Category
  pub mistakes : ℕ
  pub status : Status
  pub feedback : Option Feedback
  pub shake_words : List String
  pub pending_solve : Option Category
  pub guess_history : List (List Difficulty)
  pub prior_guesses : List PriorGuess
  pub loading : Bool
  pub error : Option String
  pub ai_solution : Option AiAssistData
  pub ai_session : AiSessionState

pub data GameAction : Type 0 where
  toggle_word : String → GameAction
  submit_guess : GameAction
  deselect_all : GameAction
  clear_feedback : GameAction
  ai_solve_start : GameAction
  ai_solve_success : AiAssistSuccessPayload → GameAction
  ai_solve_failure : String → GameAction
  shuffle : List String → GameAction
  confirm_solve : GameAction

abbrev pub fresh_session : AiSessionState
fresh_session = record { history = []; last_failed_guess = none }

unfoldable pub init_game_state : List Category → List String → GameState
init_game_state categories remaining_words = record {
  categories = categories;
  remaining_words = remaining_words;
  selected = [];
  solved = [];
  mistakes = 0;
  status = Status.playing;
  feedback = none;
  shake_words = [];
  pending_solve = none;
  guess_history = [];
  prior_guesses = [];
  loading = false;
  error = none;
  ai_solution = none;
  ai_session = fresh_session;
}
