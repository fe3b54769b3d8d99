-- ===== src/Game/Endings.antt =====
-- frontend/src/lib/gameReducer.ts: how a game that only the player plays is lost and won, and how
-- many mistakes one reply of AI Assist can cost.
use connections.Base.{
  ◌≤◌, ◌<◌, String, ◌≡◌, refl, sym, ◌∙◌, ◌≢◌, ◌↔◌, inl, inr, Option, none, some, List, [], ◌∷◌,
  arith, Option-cases, All,
}
use connections.Game.{
  Category, Status, GameState, GameAction, toggle_word, submit_guess, ai_solve_success,
  confirm_solve, init_game_state,
}
use connections.Game.Guess.{Outcome, correct, wrong, evaluate_guess}
use connections.Game.Reducer.{settle, submit, max_mistakes, confirm, game_reducer, play}

-- The actions of a player who does not use AI Assist.
abbrev pub IsOwn : GameAction → Type 0
IsOwn (ai_solve_success p) = ⊥
IsOwn _ = Unit {0}

pub record Fair (s : GameState) : Type 0 where
  pub lost_at_four : s.status ≡ Status.lost → s.mistakes ≡ max_mistakes
  pub four_is_lost : s.status ≢ Status.lost → s.mistakes < max_mistakes
  pub pending_on : s.pending_solve ≢ none → s.status ≡ Status.playing

settle-Fair :
    (s : GameState) (o : Outcome)
    → s.status ≡ Status.playing
    → s.pending_solve ≡ none
    → Fair s
    → Fair (settle s o)
unfolding settle
settle-Fair s (correct c) e p h = ground arith
settle-Fair s (wrong r) e p h = ground (arith, h.four_is_lost)

submit-Fair : (s : GameState) → Fair s → Fair (submit s)
unfolding submit
submit-Fair s h = ground (arith, settle-Fair s (evaluate_guess s.categories s.selected))

confirm-Fair :
    (o : Option Category) (s : GameState) → o ≡ s.pending_solve → Fair s → Fair (confirm o s)
unfolding confirm
confirm-Fair none s e h = h
confirm-Fair (some c) s e h = ground (arith, h.four_is_lost, h.pending_on)

game_reducer-Fair : (s : GameState) (a : GameAction) → IsOwn a → Fair s → Fair (game_reducer s a)
unfolding game_reducer
game_reducer-Fair s (toggle_word w) o h =
    ground (arith, h.four_is_lost, h.lost_at_four, h.pending_on)
game_reducer-Fair s submit_guess o h = submit-Fair s h
game_reducer-Fair s (ai_solve_success p) o h = absurd o
game_reducer-Fair s confirm_solve o h = confirm-Fair s.pending_solve s refl h
game_reducer-Fair s _ o h = record {
  lost_at_four = h.lost_at_four;
  four_is_lost = h.four_is_lost;
  pending_on = h.pending_on;
}

play-Fair_from :
    (s : GameState) (actions : List GameAction) → All IsOwn actions → Fair s → Fair (play s actions)
unfolding play
play-Fair_from s [] o h = h
play-Fair_from s (a ∷ later) (o, os) h =
    play-Fair_from (game_reducer s a) later os (game_reducer-Fair s a o h)

Fair-bounds :
    (s : GameState)
    → Fair s
    → (s.mistakes ≤ max_mistakes)
      × ((s.status ≡ Status.lost) ↔ (s.mistakes ≡ max_mistakes))
      × (s.pending_solve ≢ none → s.status ≡ Status.playing)
Fair-bounds s h = ground (arith, h.four_is_lost, h.lost_at_four, h.pending_on)

-- In a new game without replies of AI Assist there are never more than four mistakes, the game is
-- lost exactly when there are four, and a solved group waits to be confirmed only while the game
-- is on.
pub play-Fair :
    (cats : List Category) (words : List String) (actions : List GameAction)
    → All IsOwn actions
    → let s = play (init_game_state cats words) actions in
      (s.mistakes ≤ max_mistakes)
      × ((s.status ≡ Status.lost) ↔ (s.mistakes ≡ max_mistakes))
      × (s.pending_solve ≢ none → s.status ≡ Status.playing)
unfolding init_game_state
play-Fair cats words actions o =
    let f = play-Fair_from (init_game_state cats words) actions o (record {
      lost_at_four = λ e. cc;
      four_is_lost = λ e. omega arith;
      pending_on = λ e. refl;
    }) in
    Fair-bounds (play (init_game_state cats words) actions) f

-- What a finished game keeps.
pub record SameResult (s t : GameState) : Type 0 where
  pub status : t.status ≡ s.status
  pub mistakes : t.mistakes ≡ s.mistakes
  pub solved : t.solved ≡ s.solved
  pub prior_guesses : t.prior_guesses ≡ s.prior_guesses
  pub guess_history : t.guess_history ≡ s.guess_history

SameResult-refl : (s : GameState) → SameResult s s
SameResult-refl s = record {
  status = refl;
  mistakes = refl;
  solved = refl;
  prior_guesses = refl;
  guess_history = refl;
}

confirm-SameResult :
    (o : Option Category) (s : GameState)
    → o ≡ none
    → s.pending_solve ≡ none
    → SameResult s (confirm o s) × ((confirm o s).pending_solve ≡ none)
unfolding confirm
confirm-SameResult none s e p = (SameResult-refl s, p)
confirm-SameResult (some c) s e p = cc

game_reducer-SameResult :
    (s : GameState) (a : GameAction)
    → IsOwn a
    → s.status ≢ Status.playing
    → s.pending_solve ≡ none
    → SameResult s (game_reducer s a) × ((game_reducer s a).pending_solve ≡ none)
unfolding game_reducer
game_reducer-SameResult s (toggle_word w) o n p = ground arith
game_reducer-SameResult s submit_guess o n p = ground arith
game_reducer-SameResult s (ai_solve_success x) o n p = absurd o
game_reducer-SameResult s confirm_solve o n p = confirm-SameResult s.pending_solve s p p
game_reducer-SameResult s _ o n p = (
  record {
    status = refl;
    mistakes = refl;
    solved = refl;
    prior_guesses = refl;
    guess_history = refl;
  },
  p,
)

play-SameResult_from :
    (s : GameState) (actions : List GameAction)
    → All IsOwn actions
    → s.status ≢ Status.playing
    → s.pending_solve ≡ none
    → SameResult s (play s actions)
unfolding play
play-SameResult_from s [] o n p = SameResult-refl s
play-SameResult_from s (a ∷ later) (o, os) n p =
    let (k, q) = game_reducer-SameResult s a o n p in
    let r = play-SameResult_from (game_reducer s a) later os (λ e. n (sym (k.status) ∙ e)) q in
    ground arith

-- A game that the player has won or lost without AI Assist stays so, with the same mistakes, solved
-- groups and guesses, whatever the player goes on to do.
pub play-SameResult :
    (cats : List Category) (words : List String) (actions later : List GameAction)
    → All IsOwn actions
    → All IsOwn later
    → (play (init_game_state cats words) actions).status ≢ Status.playing
    → SameResult
        (play (init_game_state cats words) actions)
        (play (play (init_game_state cats words) actions) later)
play-SameResult cats words actions later o os n =
    let s = play (init_game_state cats words) actions in
    let f = play-Fair cats words actions o in
    play-SameResult_from s later os n (elim (Option-cases s.pending_solve) [
      | inl idle ↦ idle
      | inr (c, e) ↦ absurd (n (f.2 (λ e'. cc)))
    ])
