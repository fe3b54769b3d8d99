-- ===== src/Game/Tests.antt =====
-- The playable board on a small puzzle: runs of the reducer, and the theorems at inputs where their
-- hypotheses hold.
use connections.Base.{
  ℕ, zero, suc, ◌+◌, ◌≤◌, ◌<◌, String, ◌≡◌, refl, subst, ◌≢◌, ◌↔◌, ◌⊎◌, true, not, ◌&&◌, none, some,
  List, [], ◌∷◌, ◌++◌, map, length, take, All, str_eq, includes, distinct,
}
use connections.Game.{
  Category, Difficulty, Feedback, GuessResult, AiAssistSuccessPayload, Status, GameState,
  GameAction, toggle_word, submit_guess, ai_solve_success, confirm_solve, init_game_state,
}
use connections.Game.Assist.{build_share_text}
use connections.Solver.Shuffle.{join}
use connections.Game.Guess.{evaluate_guess, difficulties_for_guess}
use connections.Game.Reducer.{
  max_mistakes, accept, reject, submit_groups, ai_success, game_reducer, play,
}
use connections.Game.Guess.{
  is_match, find_matching_category, overlap, overlap_from, largest_category_overlap, difficulty_of,
}
use connections.Game.Match.{IsListed, evaluate_guess-correct}
use connections.Game.Accounts.{Accounts, play-Accounts}
use connections.Game.Board.{ShowsRest, play-ShowsRest}
use connections.Game.Endings.{IsOwn, SameResult, play-Fair, play-SameResult}
use connections.Game.Replies.{
  words_of, ai_success-Submitted, confirm-ai_success-revives, confirm-ai_success-doubles,
}

abbrev fish : Category
fish = record {
  id = "cat-1";
  name = "Fish";
  difficulty = Difficulty.yellow;
  words = "bass" ∷ "cod" ∷ "eel" ∷ "pike" ∷ [];
}

abbrev trees : Category
trees = record {
  id = "cat-2";
  name = "Trees";
  difficulty = Difficulty.green;
  words = "ash" ∷ "elm" ∷ "oak" ∷ "fir" ∷ [];
}

abbrev cats : List Category
cats = fish ∷ trees ∷ []

abbrev board : List String
board = "bass" ∷ "ash" ∷ "cod" ∷ "elm" ∷ "eel" ∷ "oak" ∷ "pike" ∷ "fir" ∷ []

abbrev select : List String → List GameAction
select ws = map toggle_word ws

abbrev three_fish : List String
three_fish = "bass" ∷ "cod" ∷ "eel" ∷ "ash" ∷ []

abbrev all_fish : List String
all_fish = "eel" ∷ "bass" ∷ "pike" ∷ "cod" ∷ []

-- The test's name for all that a run of the reducer computes with.
run : List GameAction → GameState
unfolding play game_reducer init_game_state evaluate_guess find_matching_category is_match
    largest_category_overlap overlap_from overlap difficulties_for_guess difficulty_of accept reject
    submit_groups str_eq
run actions = play (init_game_state cats board) actions

abbrev miss : List GameAction
miss = select three_fish ++ submit_guess ∷ []

miss_is_one_away : ((run miss).feedback ≡ some Feedback.one_away) × ((run miss).mistakes ≡ 1)
unfolding run
miss_is_one_away = (refl, refl)

cats-distinct : (k : Category) → IsListed k cats → distinct k.words ≡ true
unfolding str_eq
cats-distinct k (zero, p) = let e : fish ≡ k = cc in subst (λ x. distinct x.words ≡ true) e refl
cats-distinct k (suc zero, p) =
    let e : trees ≡ k = cc in subst (λ x. distinct x.words ≡ true) e refl
cats-distinct k (suc (suc i), p) = cc

abbrev lose : List GameAction
lose = miss ++ (miss ++ (miss ++ miss))

abbrev reply : List (List String) → AiAssistSuccessPayload
reply groups = record {
  answer = record { response = ""; groups = groups; prompt = ""; model = none };
  history = [];
}

evaluate_guess-correct_example :
    IsListed fish cats
    × (length all_fish ≡ length fish.words)
    × ((w : String) → includes all_fish w ≡ includes fish.words w)
unfolding run
evaluate_guess-correct_example = evaluate_guess-correct cats all_fish fish cats-distinct refl

play-Accounts_example : Accounts (play (init_game_state cats board) lose)
play-Accounts_example = play-Accounts cats board lose

play-ShowsRest_example :
    ShowsRest board
      (play
        (init_game_state cats board)
        (select all_fish ++ submit_guess ∷ confirm_solve ∷ [])).solved
      (play
        (init_game_state cats board)
        (select all_fish ++ submit_guess ∷ confirm_solve ∷ [])).remaining_words
play-ShowsRest_example =
    play-ShowsRest cats board (select all_fish ++ submit_guess ∷ confirm_solve ∷ [])
      (tt, (tt, (tt, (tt, (tt, (tt, tt))))))

lose-IsOwn : All IsOwn lose
lose-IsOwn = (
  tt,
  (
    tt,
    (
      tt,
      (
        tt,
        (
          tt,
          (
            tt,
            (tt, (tt, (tt, (tt, (tt, (tt, (tt, (tt, (tt, (tt, (tt, (tt, (tt, (tt, tt)))))))))))))),
          ),
        ),
      ),
    ),
  ),
)

play-Fair_example :
    let s = play (init_game_state cats board) lose in
    (s.mistakes ≤ max_mistakes)
    × ((s.status ≡ Status.lost) ↔ (s.mistakes ≡ max_mistakes))
    × (s.pending_solve ≢ none → s.status ≡ Status.playing)
play-Fair_example = play-Fair cats board lose lose-IsOwn

lost_status : (run lose).status ≡ Status.lost
unfolding run
lost_status = refl

play-SameResult_example :
    SameResult
      (play (init_game_state cats board) lose)
      (play (play (init_game_state cats board) lose) lose)
unfolding run
play-SameResult_example =
    play-SameResult cats board lose lose lose-IsOwn lose-IsOwn (λ e. cc (lost_status, e))

ai_success-Submitted_example :
    (k : ℕ) × (map words_of (ai_success (run miss) (reply (three_fish ∷ []))).prior_guesses
      ≡ map words_of (run miss).prior_guesses ++ take k (three_fish ∷ []))
    × (((ai_success (run miss) (reply (three_fish ∷ []))).mistakes ≡ (run miss).mistakes)
          × ((ai_success (run miss) (reply (three_fish ∷ []))).feedback ≡ none)
        ⊎ ((ai_success (run miss) (reply (three_fish ∷ []))).mistakes ≡ (run miss).mistakes + 1)
          × ((ai_success (run miss) (reply (three_fish ∷ []))).feedback ≢ none)
          × (0 < k))
ai_success-Submitted_example = ai_success-Submitted (run miss) (reply (three_fish ∷ []))

-- Three mistakes, then a right group that waits to be confirmed.
abbrev waiting : GameState
waiting = run (miss ++ (miss ++ (miss ++ (select all_fish ++ submit_guess ∷ []))))

confirm-ai_success-revives_example :
    let lost_game = game_reducer waiting (ai_solve_success (reply (three_fish ∷ []))) in
    let revived = game_reducer lost_game confirm_solve in
    (lost_game.status ≡ Status.lost)
    × (revived.status ≢ Status.lost)
    × (revived.mistakes ≡ max_mistakes)
unfolding run
confirm-ai_success-revives_example =
    confirm-ai_success-revives waiting fish (reply (three_fish ∷ [])) three_fish []
      GuessResult.one_away refl refl refl refl refl

abbrev first_right : GameState
first_right = run (select all_fish ++ submit_guess ∷ [])

confirm-ai_success-doubles_example :
    let t =
      game_reducer
        (game_reducer first_right (ai_solve_success (reply (all_fish ∷ []))))
        confirm_solve in
    (t.status ≡ Status.won)
    × (t.solved ≡ first_right.solved ++ fish ∷ fish ∷ [])
    × ((w : String)
        → includes t.remaining_words w
          ≡ (includes first_right.remaining_words w && not (includes fish.words w)))
unfolding run
confirm-ai_success-doubles_example =
    confirm-ai_success-doubles first_right fish (reply (all_fish ∷ [])) all_fish refl refl refl refl
      refl refl

-- The text that shares a game.
share_two_rows :
    build_share_text
      ((Difficulty.yellow ∷ Difficulty.blue ∷ []) ∷ (Difficulty.purple ∷ []) ∷ [])
      "2024-01-02"
    ≡ "Connections\n2024-01-02\n🟨🟦\n🟪"
unfolding build_share_text join
share_two_rows = refl
