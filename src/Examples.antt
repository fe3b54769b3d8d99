-- ===== src/Examples.antt =====
-- A small puzzle and a run of it, on which the theorems are tried out.
use connections.Base.{ℕ, String, false, none, some, List, [], ◌∷◌, ◌++◌}
use connections.Puzzle.{Puzzle, AnswerGroup, GroupMember, TextOps}
use connections.Combinatorics.{first_combination}
use connections.Strategy.{StrategyRun, StrategyRunStatus, SupportedStrategy}
use connections.Llm.{counters}
use connections.Llm.Proposals.{Proposal, ProposalStatus, Evaluation}

-- Strings that are already in normal form.
abbrev pub plain : TextOps
plain = record { trim = λ w. w; to_lower = λ w. w }

abbrev member : String → ℕ → GroupMember
member word position = record { id = position; word = word; position = position; image_url = none }

abbrev pub fruits : AnswerGroup
fruits = record {
  id = 1;
  group_name = "FRUITS";
  level = 0;
  members = member "FIG" 0 ∷ member "KIWI" 3 ∷ member "LIME" 4 ∷ member "PEAR" 7 ∷ [];
}

abbrev pub metals : AnswerGroup
metals = record {
  id = 2;
  group_name = "METALS";
  level = 1;
  members = member "IRON" 1 ∷ member "LEAD" 2 ∷ member "TIN" 5 ∷ member "ZINC" 6 ∷ [];
}

abbrev pub two_groups : Puzzle
two_groups = record {
  id = 7;
  date = "2026-01-01";
  is_image_puzzle = false;
  answer_groups = fruits ∷ metals ∷ [];
}

abbrev pub fruit_words : List String
fruit_words = "FIG" ∷ "KIWI" ∷ "LIME" ∷ "PEAR" ∷ []

abbrev pub metal_words : List String
metal_words = "IRON" ∷ "LEAD" ∷ "TIN" ∷ "ZINC" ∷ []

abbrev pub mixed_words : List String
mixed_words = "IRON" ∷ "LEAD" ∷ "TIN" ∷ "PEAR" ∷ []

abbrev pub model_run : StrategyRun
model_run = record {
  id = 11;
  puzzle_id = 7;
  strategy_name = SupportedStrategy.llm_openai;
  trial_number = 1;
  status = StrategyRunStatus.running;
  available_words = fruit_words ++ metal_words;
  current_combination = first_combination 4;
  model_name = some "small";
  context_window = none;
  budget_tier = none;
  finished_at = none;
}

abbrev pub proposal : List String → Proposal
proposal words = record {
  words = words;
  category = "?";
  status = ProposalStatus.not_selected;
  guess = none;
}

-- A reply of a hit and a miss, and the run before it.
abbrev pub two_proposals : List Proposal
two_proposals = proposal fruit_words ∷ proposal mixed_words ∷ []

abbrev pub before_reply : Evaluation
before_reply = record {
  run = model_run;
  state = counters [];
  pending_guesses = [];
  issue_tags = [];
  passed = [];
}
