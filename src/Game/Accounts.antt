-- ===== src/Game/Accounts.antt =====
-- frontend/src/lib/gameReducer.ts: how the mistakes, the share grid and the prior guesses that are
-- sent to the model are kept in step with one another.
use connections.Base.{
  String, ◌≡◌, refl, sym, ◌≢◌, Bool, true, false, Option, none, some, List, [], ◌∷◌, ◌++◌, map,
  arith, count, count-append,
}
use connections.Game.{
  Category, Difficulty, GuessResult, PriorGuess, AiAssistSuccessPayload, GameState, GameAction,
  toggle_word, submit_guess, ai_solve_success, confirm_solve, init_game_state,
}
use connections.Game.Guess.{Outcome, correct, wrong, evaluate_guess, difficulties_for_guess}
use connections.Game.Batch.{submit_groups_inv}
use connections.Game.Reducer.{
  guess, settle, submit, Batch, start_batch, accept, reject, submit_groups, ai_success, confirm,
  game_reducer, play,
}

abbrev pub is_wrong : PriorGuess → Bool
is_wrong p = elim (p.result) [ GuessResult.correct ↦ false | _ ↦ true ]

abbrev pub row : List Category → PriorGuess → List Difficulty
row cats p = difficulties_for_guess cats p.words

-- Each wrong guess on record is one mistake, and the share grid has one row for each guess on
-- record, with the colours of its words.
pub record Accounts (s : GameState) : Type 0 where
  pub mistakes_counted : s.mistakes ≡ count is_wrong s.prior_guesses
  pub rows : s.guess_history ≡ map (row s.categories) s.prior_guesses

evaluate_guess-wrong :
    (cats : List Category) (words : List String) (r : GuessResult)
    → evaluate_guess cats words ≡ wrong r
    → r ≢ GuessResult.correct
unfolding evaluate_guess
evaluate_guess-wrong cats words r h e = ground arith

map-append_one :
    {A B : Type 0} (f : A → B) (xs : List A) (x : A) → map f (xs ++ x ∷ []) ≡ map f xs ++ f x ∷ []
map-append_one f [] x = refl
map-append_one f (y ∷ xs) x = rw (map-append_one f xs x)

record Sound (cats : List Category) (b : Batch) : Type 0 where
  mistakes_counted : b.mistakes ≡ count is_wrong b.prior_guesses
  rows : b.guess_history ≡ map (row cats) b.prior_guesses

accept-Sound :
    (cats : List Category) (items : List String) (c : Category) (b : Batch)
    → Sound cats b
    → Sound cats (accept cats items c b)
unfolding accept
accept-Sound cats items c b h = ground (
  arith,
  map-append_one (row cats) b.prior_guesses (guess items GuessResult.correct),
  count-append is_wrong b.prior_guesses (guess items GuessResult.correct ∷ []),
)

reject-Sound :
    (cats : List Category) (items : List String) (r : GuessResult) (b : Batch)
    → r ≢ GuessResult.correct
    → Sound cats b
    → Sound cats (reject cats items r b)
unfolding reject
reject-Sound cats items r b n h = ground (
  arith,
  map-append_one (row cats) b.prior_guesses (guess items r),
  count-append is_wrong b.prior_guesses (guess items r ∷ []),
)

submit_groups-Sound :
    (cats : List Category) (groups : List (List String)) (b : Batch)
    → Sound cats b
    → Sound cats (submit_groups cats groups b)
submit_groups-Sound cats =
    submit_groups_inv cats (Sound cats) (λ items c b _ _ h. accept-Sound cats items c b h)
      (λ items r b _ e h. reject-Sound cats items r b (evaluate_guess-wrong cats items r e) h)

settle-Accounts :
    (s : GameState) (o : Outcome)
    → o ≡ evaluate_guess s.categories s.selected
    → Accounts s
    → Accounts (settle s o)
unfolding settle
settle-Accounts s (correct c) e h = ground (
  arith,
  map-append_one (row s.categories) s.prior_guesses (guess s.selected GuessResult.correct),
  count-append is_wrong s.prior_guesses (guess s.selected GuessResult.correct ∷ []),
)
settle-Accounts s (wrong r) e h = ground (
  arith,
  evaluate_guess-wrong s.categories s.selected r (sym e),
  map-append_one (row s.categories) s.prior_guesses (guess s.selected r),
  count-append is_wrong s.prior_guesses (guess s.selected r ∷ []),
)

submit-Accounts : (s : GameState) → Accounts s → Accounts (submit s)
unfolding submit
submit-Accounts s h =
    ground (arith, settle-Accounts s (evaluate_guess s.categories s.selected) refl h)

ai_success-Accounts :
    (s : GameState) (p : AiAssistSuccessPayload) → Accounts s → Accounts (ai_success s p)
unfolding ai_success
ai_success-Accounts s p h =
    let b =
      submit_groups-Sound s.categories p.answer.groups (start_batch s)
        (record { mistakes_counted = h.mistakes_counted; rows = h.rows }) in
    record { mistakes_counted = b.mistakes_counted; rows = b.rows }

confirm-Accounts : (o : Option Category) (s : GameState) → Accounts s → Accounts (confirm o s)
unfolding confirm
confirm-Accounts none s h = h
confirm-Accounts (some c) s h = record { mistakes_counted = h.mistakes_counted; rows = h.rows }

game_reducer-Accounts : (s : GameState) (a : GameAction) → Accounts s → Accounts (game_reducer s a)
unfolding game_reducer
game_reducer-Accounts s (toggle_word w) h = ground arith
game_reducer-Accounts s submit_guess h = submit-Accounts s h
game_reducer-Accounts s (ai_solve_success p) h = ai_success-Accounts s p h
game_reducer-Accounts s confirm_solve h = confirm-Accounts s.pending_solve s h
game_reducer-Accounts s _ h = record { mistakes_counted = h.mistakes_counted; rows = h.rows }

play-Accounts_from : (s : GameState) (as' : List GameAction) → Accounts s → Accounts (play s as')
unfolding play
play-Accounts_from s [] h = h
play-Accounts_from s (a ∷ later) h =
    play-Accounts_from (game_reducer s a) later (game_reducer-Accounts s a h)

-- Whatever is dispatched to a new game, in whatever order, the mistakes are the wrong guesses on
-- record, and the share grid has exactly the rows of the guesses on record.
pub play-Accounts :
    (cats : List Category) (words : List String) (actions : List GameAction)
    → Accounts (play (init_game_state cats words) actions)
unfolding init_game_state
play-Accounts cats words actions =
    play-Accounts_from (init_game_state cats words) actions
      (record { mistakes_counted = refl; rows = refl })
