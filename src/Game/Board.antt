-- ===== src/Game/Board.antt =====
-- frontend/src/lib/gameReducer.ts: which words are on the board, and which are selected.
use connections.Base.{
  String, ◌≡◌, ◌∙◌, inl, inr, Bool, not, ◌&&◌, ◌||◌, Option, none, some, List, [], ◌∷◌, ◌++◌, arith,
  Bool-cases, any, str_eq, includes, includes-filter,
}
use connections.Game.{
  Category, AiAssistSuccessPayload, GameState, GameAction, toggle_word, submit_guess,
  ai_solve_success, shuffle, confirm_solve, init_game_state,
}
use connections.Game.Guess.{Outcome-cases, evaluate_guess}
use connections.Game.Batch.{submit_groups_inv}
use connections.Game.Reducer.{
  toggle, submit, without, Batch, start_batch, lock_in, accept, reject, ai_success, confirm,
  game_reducer, play,
}

abbrev pub in_solved : List Category → String → Bool
in_solved solved w = any (λ c. includes c.words w) solved

-- The board shows the puzzle's words less those of the solved categories.
abbrev pub ShowsRest : List String → List Category → List String → Type 0
ShowsRest board solved words =
    (w : String) → includes words w ≡ (includes board w && not (in_solved solved w))

any-append_one :
    (p : Category → Bool) (xs : List Category) (c : Category)
    → any p (xs ++ c ∷ []) ≡ (any p xs || p c)
any-append_one p [] c = ground arith
any-append_one p (x ∷ xs) c = ground (arith, any-append_one p xs c)

ShowsRest-without :
    (board words : List String) (solved : List Category) (c : Category)
    → ShowsRest board solved words
    → ShowsRest board (solved ++ c ∷ []) (without c words)
ShowsRest-without board words solved c h w = ground (
  arith,
  h w,
  includes-filter (λ v. not (includes c.words v)) words w,
  any-append_one (λ k. includes k.words w) solved c,
)

ShowsRest-lock_in :
    (board : List String) (c : Category) (b : Batch)
    → ShowsRest board b.solved b.remaining_words
    → ShowsRest board (lock_in c b).solved (lock_in c b).remaining_words
unfolding lock_in
ShowsRest-lock_in board c b h = elim (Bool-cases (any (λ cat. str_eq cat.id c.id) b.solved)) [
  | inl old ↦ rw old h
  | inr new ↦ rw new (ShowsRest-without board b.remaining_words b.solved c h)
]

-- A shuffle shows the words that were shown.
abbrev pub IsFair : GameState → GameAction → Type 0
IsFair s (shuffle words) = (w : String) → includes words w ≡ includes s.remaining_words w
IsFair s _ = Unit {0}

abbrev pub AllFair : GameState → List GameAction → Type 0
AllFair s [] = Unit {0}
AllFair s (a ∷ later) = IsFair s a × AllFair (game_reducer s a) later

abbrev Shown : List String → GameState → Type 0
Shown board s = ShowsRest board s.solved s.remaining_words

toggle-same :
    (s : GameState) (w : String)
    → ((toggle s w).solved ≡ s.solved) × ((toggle s w).remaining_words ≡ s.remaining_words)
unfolding toggle
toggle-same s w = ground arith

submit-same :
    (s : GameState)
    → ((submit s).solved ≡ s.solved) × ((submit s).remaining_words ≡ s.remaining_words)
unfolding submit
submit-same s = ground (arith, Outcome-cases (evaluate_guess s.categories s.selected))

ai_success-Shown :
    (board : List String) (s : GameState) (p : AiAssistSuccessPayload)
    → Shown board s
    → Shown board (ai_success s p)
unfolding ai_success
ai_success-Shown board s p h =
    submit_groups_inv s.categories (λ b. ShowsRest board b.solved b.remaining_words)
      (λ items c b _ _ k. unfold accept in ShowsRest-lock_in board c b k)
      (λ items r b _ _ k. unfold reject in k) p.answer.groups (start_batch s) h

confirm-Shown :
    (board : List String) (o : Option Category) (s : GameState)
    → Shown board s
    → Shown board (confirm o s)
unfolding confirm
confirm-Shown board none s h = h
confirm-Shown board (some c) s h = ShowsRest-without board s.remaining_words s.solved c h

game_reducer-Shown :
    (board : List String) (s : GameState) (a : GameAction)
    → IsFair s a
    → Shown board s
    → Shown board (game_reducer s a)
unfolding game_reducer
game_reducer-Shown board s (toggle_word w) f h = let (e, e') = toggle-same s w in rw (e, e') h
game_reducer-Shown board s submit_guess f h = let (e, e') = submit-same s in rw (e, e') h
game_reducer-Shown board s (ai_solve_success p) f h = ai_success-Shown board s p h
game_reducer-Shown board s confirm_solve f h = confirm-Shown board s.pending_solve s h
game_reducer-Shown board s (shuffle words) f h = λ w. f w ∙ h w
game_reducer-Shown board s _ f h = h

play-Shown :
    (board : List String) (s : GameState) (actions : List GameAction)
    → AllFair s actions
    → Shown board s
    → Shown board (play s actions)
unfolding play
play-Shown board s [] f h = h
play-Shown board s (a ∷ later) (f, g) h =
    play-Shown board (game_reducer s a) later g (game_reducer-Shown board s a f h)

-- If every shuffle shows the words that were shown, then after any actions on a new game the board
-- shows a word exactly when it is one of the puzzle's and no solved category has it.
pub play-ShowsRest :
    (cats : List Category) (board : List String) (actions : List GameAction)
    → AllFair (init_game_state cats board) actions
    → ShowsRest board
        (play (init_game_state cats board) actions).solved
        (play (init_game_state cats board) actions).remaining_words
unfolding init_game_state
play-ShowsRest cats board actions f =
    play-Shown board (init_game_state cats board) actions f (λ w. ground arith)
