-- ===== src/Llm/Prompts.antt =====
-- `buildInitialPrompt` and `buildRetryPrompt` of
-- backend/src/modules/strategy/llm-strategy-runner.service.ts. `show` writes a number in decimal;
-- `n` is the number of groups left.
use connections.Base.{
  none, some, Option, map, ℕ, zero, suc, ◌+◌, ◌*◌, String, ◌||◌, List, [], ◌∷◌, ◌++◌, if◌then◌else◌,
  length, str_eq,
}
use Prim.Native.String
use connections.Llm.{LastFailedGuess}
use connections.Puzzle.{TextOps}
use connections.Solver.Shuffle.{join}

abbrev pub ◌<>◌ : String → String → String

infixr 50 ◌<>◌
x <> y = String.◌++◌ x y

abbrev pub answer_line : String
answer_line = "<ITEM1>, <ITEM2>, <ITEM3>, <ITEM4>"

-- `Array.from({ length }, (_, i) => ...)`, from `i`.
unfoldable pub lines_from : (ℕ → String) → ℕ → ℕ → List String
lines_from line i zero = []
lines_from line i (suc length) = line i ∷ lines_from line (i + 1) length

-- The groups found, with their numbers from `i`.
unfoldable pub numbered : ℕ → List (Option (List String)) → List (ℕ × List String)
numbered i [] = []
numbered i (none ∷ groups) = numbered (i + 1) groups
numbered i (some words ∷ groups) = (i, words) ∷ numbered (i + 1) groups

-- `category ? ... : ""`
abbrev category_line : Option String → String
category_line none = ""
category_line (some category) = if str_eq category "" then "" else "Category: " <> category <> "\n"

-- packages/answer-grammar/src/parse-answer.ts
unfoldable pub format_compact_answer :
    (ℕ → String) → List (Option (List String)) → (ℕ → Option String) → String
unfolding numbered
format_compact_answer show proposal_words category_by_group =
    let groups = numbered 1 proposal_words in
    let groups_section = join "\n\n" (
      map
        (λ (g : ℕ × List String).
          "Group "
          <> show g.0
          <> "\n"
          <> category_line (category_by_group g.0)
          <> "Words: "
          <> join ", " g.1)
        groups) in
    let answer_section = join "\n" (map (λ (g : ℕ × List String). join ", " g.1) groups) in
    "### GROUPS\n" <> groups_section <> "\n\n### ANSWER\n" <> answer_section

module _ (ops : TextOps) (show : ℕ → String) where
  abbrev group_line : ℕ → String
  group_line i =
      "#### Group "
      <> show (i + 1)
      <> "\nCategory: <short category name>\nWords: "
      <> answer_line
      <> "\n"

  abbrev final_format : String
  final_format =
      "Then produce your final answer using EXACTLY the format below. Output nothing before ### GROUPS and nothing after the last line of ### ANSWER."

  abbrev answer_form : ℕ → List String
  answer_form n =
      "### GROUPS" ∷ lines_from group_line 0 n ++ ("### ANSWER" ∷ lines_from (λ i. answer_line) 0 n)

  unfoldable pub build_initial_prompt : List String → ℕ → String
  unfolding lines_from
  build_initial_prompt items n = join "\n" (
      "You are an expert solver for the NYT Connections puzzle."
      ∷ ""
      ∷ "Task:"
      ∷ ("Analyze the "
          <> show (n * 4)
          <> " provided items and group them into exactly "
          <> show n
          <> " distinct sets of 4 items each, where every set shares a clear, logical category or connection.")
      ∷ ""
      ∷ "Items:"
      ∷ join ", " items
      ∷ ""
      ∷ "Rules:"
      ∷ "1. Use EVERY item from the list above EXACTLY ONCE."
      ∷ "2. Do NOT add new words, alter spellings, or substitute items."
      ∷ "3. Every group MUST contain EXACTLY 4 items."
      ∷ ""
      ∷ final_format
      ∷ ""
      ∷ answer_form n)

  abbrev guidance : String → String
  guidance result =
      if str_eq (ops.to_lower result) "one away" || str_eq (ops.to_lower result) "offby1"
      then "Exactly 3 of these 4 items belong together in a category, but 1 item does not belong."
      else "These 4 items do NOT all belong to the same category."

  -- `lockedInGroups.map((group, idx) => ...)`, from the index `i`.
  unfoldable pub solved_lines : ℕ → List (List String) → List String
  solved_lines i [] = []
  solved_lines i (group ∷ groups) =
      ("- Solved Group " <> show (i + 1) <> ": " <> join ", " group) ∷ solved_lines (i + 1) groups

  abbrev solved_part : List (List String) → List String
  solved_part [] = []
  solved_part (group ∷ groups) =
      ""
      ∷ "Already Solved Groups (Do NOT include these items in your proposals):"
      ∷ solved_lines 0 (group ∷ groups)

  unfoldable pub build_retry_prompt :
      List String → List (List String) → LastFailedGuess → ℕ → String
  unfolding lines_from solved_lines
  build_retry_prompt remaining_items locked_in_groups last_failed_guess n =
      let failed_items = join ", " last_failed_guess.items in
      join "\n" (
        "You are an expert solver for the NYT Connections puzzle."
          ∷ ""
          ∷ "Feedback on Previous Guess:"
          ∷ ("- Guess submitted: " <> failed_items)
          ∷ ("- Result: " <> last_failed_guess.result)
          ∷ ("- Guidance: " <> guidance last_failed_guess.result)
          ∷ solved_part locked_in_groups
        ++ (""
            ∷ "Task:"
            ∷ ("Analyze the remaining "
                <> show (n * 4)
                <> " items and group them into exactly "
                <> show n
                <> " distinct sets of 4 items each.")
            ∷ ""
            ∷ "Remaining Items:"
            ∷ join ", " remaining_items
            ∷ ""
            ∷ "Rules:"
            ∷ "1. Use EVERY item from the remaining list above EXACTLY ONCE."
            ∷ ("2. Do NOT re-submit the failed guess (" <> failed_items <> ").")
            ∷ "3. Do NOT use items from the already solved groups."
            ∷ "4. Every group MUST contain EXACTLY 4 items."
            ∷ ""
            ∷ final_format
            ∷ ""
            ∷ answer_form n))
