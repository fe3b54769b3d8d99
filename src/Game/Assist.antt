-- ===== src/Game/Assist.antt =====
-- frontend/src/lib/aiAssistPrompts.ts and frontend/src/lib/shareResult.ts: the prompts of AI Assist, and
-- the text that shares a game. `show` writes a number in decimal; the number of groups is the number of
-- items divided by four, which is whole on the game's boards.
use connections.Base.{
  ℕ, ◌+◌, ◌/◌, String, ◌≡◌, refl, Option, none, some, List, [], ◌∷◌, ◌++◌, map, length,
  Option-cases, inl, inr,
}
use connections.Solver.Shuffle.{join}
use connections.Llm.Prompts.{◌<>◌, lines_from, answer_line}
use connections.Game.{Difficulty, GuessResult, AiChatMessage, AiLastFailedGuess, Role}

-- The string that a result is, in the code and in the prompt.
abbrev pub result_text : GuessResult → String
result_text GuessResult.correct = "correct"
result_text GuessResult.incorrect = "incorrect"
result_text GuessResult.one_away = "oneAway"

pub record AiAssistTurnContext : Type 0 where
  pub remaining_items : List String
  pub locked_in_groups : List (List String)
  pub last_failed_guess : Option AiLastFailedGuess
  pub history : List AiChatMessage

pub record AiAssistTurn : Type 0 where
  pub prompt : String
  pub messages : List AiChatMessage

module _ (show : ℕ → String) where
  abbrev assist_group_line : ℕ → String
  assist_group_line i =
      "#### Group "
      <> show (i + 1)
      <> "\nReasoning: <1-2 sentences>\nCategory: <short category name>\nWords: "
      <> answer_line
      <> "\n"

  abbrev assist_answer_form : ℕ → List String
  assist_answer_form n =
      "### GROUPS" ∷ lines_from assist_group_line 0 n
      ++ ("### ANSWER" ∷ lines_from (λ i. answer_line) 0 n)

  unfoldable pub build_assist_prompt : List String → ℕ → String
  unfolding lines_from join
  build_assist_prompt items n = join "\n" (
      ("You are playing NYT Connections. The items below form "
        <> show n
        <> " groups of four, where each group shares something in common. Propose your best guess for all "
        <> show n
        <> " groups.")
      ∷ ""
      ∷ ("Items: " <> join ", " items)
      ∷ ""
      ∷ "Use each item exactly once. Only use items from the list above — do not introduce new words."
      ∷ ""
      ∷ "Then produce your final answer using EXACTLY the format below — including a brief (1-2 sentence) Reasoning line for each group explaining why those four items belong together. Output nothing after the last line of ### ANSWER."
      ∷ ""
      ∷ assist_answer_form n)

  abbrev confirmed_part : List (List String) → List String
  confirmed_part [] = []
  confirmed_part (group ∷ groups) =
      ""
      ∷ ("The following group(s) are already confirmed correct and should not be changed: "
          <> join ", " (map (λ g. "[" <> join ", " g <> "]") (group ∷ groups))
          <> ".")
      ∷ []

  unfoldable pub build_assist_retry_prompt :
      List String → List (List String) → AiLastFailedGuess → ℕ → String
  unfolding lines_from join
  build_assist_retry_prompt remaining_items locked_in_groups last_failed_guess n = join "\n" (
      ("Feedback on your last guess: the group "
          <> join ", " last_failed_guess.items
          <> " was "
          <> result_text last_failed_guess.result
          <> ".")
        ∷ ""
        ∷ "- If the result is \"incorrect\": these four items are not all part of the same group."
        ∷ "- If the result is \"one away\": three of these four items belong together in a group, but one of them does not."
        ∷ confirmed_part locked_in_groups
      ++ (""
          ∷ ("The remaining items still to be grouped are: "
              <> join ", " remaining_items
              <> ", forming "
              <> show n
              <> " group(s) of four.")
          ∷ ""
          ∷ "Use each item exactly once. Only use items from the list above — do not introduce new words."
          ∷ ""
          ∷ "Considering this feedback, produce your final answer using EXACTLY the format below — including a brief (1-2 sentence) Reasoning line for each group. Output nothing after the last line of ### ANSWER."
          ∷ ""
          ∷ assist_answer_form n))

  abbrev user_message : String → AiChatMessage
  user_message prompt = record { role = Role.user; content = prompt }

  unfoldable pub build_ai_assist_turn : AiAssistTurnContext → AiAssistTurn
  unfolding build_assist_prompt build_assist_retry_prompt
  build_ai_assist_turn context =
      let n = length context.remaining_items / 4 in
      elim context.last_failed_guess [
        | some failed ↦
            let prompt =
              build_assist_retry_prompt context.remaining_items context.locked_in_groups failed n in
            record { prompt = prompt; messages = context.history ++ user_message prompt ∷ [] }
        | none ↦
            let prompt = build_assist_prompt context.remaining_items n in
            record { prompt = prompt; messages = user_message prompt ∷ [] }
      ]

abbrev emoji_by_difficulty : Difficulty → String
emoji_by_difficulty Difficulty.yellow = "🟨"
emoji_by_difficulty Difficulty.green = "🟩"
emoji_by_difficulty Difficulty.blue = "🟦"
emoji_by_difficulty Difficulty.purple = "🟪"

unfoldable pub build_share_text : List (List Difficulty) → String → String
unfolding join
build_share_text guess_history puzzle_date =
    "Connections\n"
    <> puzzle_date
    <> "\n"
    <> join "\n" (map (λ row. join "" (map emoji_by_difficulty row)) guess_history)

-- The turn's messages end with its prompt: after a failed guess they go on with the whole history, and
-- otherwise they are the prompt alone.
pub build_ai_assist_turn_lem :
    (show : ℕ → String) (context : AiAssistTurnContext)
    → (earlier : List AiChatMessage) × ((build_ai_assist_turn show context).messages
        ≡ earlier
          ++ record { role = Role.user; content = (build_ai_assist_turn show context).prompt } ∷ [])
unfolding build_ai_assist_turn
build_ai_assist_turn_lem show context = elim (Option-cases context.last_failed_guess) [
  | inl fresh ↦ rw fresh ([], refl)
  | inr (failed, there) ↦ rw there (context.history, refl)
]
