-- ===== src/RunStore.antt =====
-- backend/src/modules/strategy/strategy-run-store.service.ts: the rows of strategy runs. A row of a
-- table of a run's results is, for this, the id of the run it belongs to; a guess of a person
-- belongs to none. `LocaleCompare` says when the host's `a.localeCompare(b)` is at most 0.
pub mod Order
pub mod Deletion
pub mod Creation
mod Tests
use connections.Base.{
  ℕ, zero, suc, ◌+◌, ◌-◌, ◌*◌, ◌^◌, ◌≤◌, ◌<◌, max, min, String, ◌≡◌, refl, sym, ap, ◌∙◌, subst, ◌≢◌,
  ◌↔◌, ◌⊎◌, inl, inr, Bool, true, false, not, ◌&&◌, ◌||◌, Option, none, some, List, [], ◌∷◌, ◌++◌,
  map, arith, append_assoc, append-nil, ltb, leb, ◌==◌, if◌then◌else◌, leb→le, le→leb, ==_iff,
  Bool-cases, Option-cases, length, get_elem?, get_or, set, take, filter, find?, any, all, count,
  length-append, count-append, count-le-length, length-filter, All, All-append, length-map, str_eq,
  str_eq→eq, str_eq_refl, includes, distinct, subset, includes-append, includes-filter,
  subset→includes, pigeonhole,
}
use connections.Puzzle.{Puzzle, AnswerGroup, GroupMember, words_of}
use connections.Combinatorics.{first_combination}
use connections.Strategy.{
  StrategyRun, StrategyRunStatus, SupportedStrategy, FreeTierId, group_size, finish, is_running,
}

abbrev pub flat_map {ℓ κ} : {A : Type ℓ} {B : Type κ} → (A → List B) → List A → List B
flat_map f [] = []
flat_map f (x ∷ xs) = f x ++ flat_map f xs

-- The host's stable sort by a comparison, of which `at_most x y` says that it is not positive.
module _ {A : Type 0} (at_most : A → A → Bool) where
  unfoldable pub insert_by : A → List A → List A
  insert_by x [] = x ∷ []
  insert_by x (y ∷ ys) = let rest = insert_by x ys in if at_most x y then x ∷ y ∷ ys else y ∷ rest

  unfoldable pub sort_by : List A → List A
  unfolding insert_by
  sort_by [] = []
  sort_by (x ∷ xs) = insert_by x (sort_by xs)

abbrev pub LocaleCompare : Type 0
LocaleCompare = String → String → Bool

abbrev pub members_of : Puzzle → List GroupMember
members_of puzzle = flat_map (λ (g : AnswerGroup). g.members) puzzle.answer_groups

abbrev pub puzzle_words : Puzzle → List String
puzzle_words puzzle = flat_map words_of puzzle.answer_groups

abbrev pub by_position : Puzzle → List String
by_position puzzle =
    map (λ m. m.word) (sort_by (λ a b. leb a.position b.position) (members_of puzzle))

unfoldable pub compute_initial_word_order : LocaleCompare → Puzzle → SupportedStrategy → List String
unfolding sort_by
compute_initial_word_order locale puzzle SupportedStrategy.order = by_position puzzle
compute_initial_word_order locale puzzle SupportedStrategy.shuffle_smart = by_position puzzle
compute_initial_word_order locale puzzle SupportedStrategy.shuffle_foolish = by_position puzzle
compute_initial_word_order locale puzzle SupportedStrategy.llm_openai = by_position puzzle
compute_initial_word_order locale puzzle SupportedStrategy.llm_ollama = by_position puzzle
compute_initial_word_order locale puzzle SupportedStrategy.reverse_order =
    map (λ m. m.word) (sort_by (λ a b. leb b.position a.position) (members_of puzzle))
compute_initial_word_order locale puzzle SupportedStrategy.reverse_alphabetical =
    sort_by (λ a b. locale b a) (puzzle_words puzzle)
compute_initial_word_order locale puzzle _ = sort_by locale (puzzle_words puzzle)

pub record SolvePromptRow : Type 0 where
  pub strategy_run_id : ℕ
  pub prompt_number : ℕ

pub record Store : Type 0 where
  pub puzzles : List Puzzle
  pub runs : List StrategyRun
  pub guesses : List (Option ℕ)
  pub solve_prompts : List SolvePromptRow
  pub llm_proposals : List ℕ
  pub category_evaluations : List ℕ
  pub next_run_id : ℕ

pub data StoreError : Type 0 where
  not_found conflict wrong_model : StoreError

pub data Result {ℓ} (A : Type ℓ) : Type ℓ where
  ok : A → Result A
  err : StoreError → Result A

abbrev pub same_strategy : SupportedStrategy → SupportedStrategy → Bool
same_strategy SupportedStrategy.alphabetical SupportedStrategy.alphabetical = true
same_strategy SupportedStrategy.reverse_alphabetical SupportedStrategy.reverse_alphabetical = true
same_strategy SupportedStrategy.order SupportedStrategy.order = true
same_strategy SupportedStrategy.reverse_order SupportedStrategy.reverse_order = true
same_strategy SupportedStrategy.shuffle_smart SupportedStrategy.shuffle_smart = true
same_strategy SupportedStrategy.shuffle_foolish SupportedStrategy.shuffle_foolish = true
same_strategy SupportedStrategy.llm_openai SupportedStrategy.llm_openai = true
same_strategy SupportedStrategy.llm_ollama SupportedStrategy.llm_ollama = true
same_strategy SupportedStrategy.llm_google SupportedStrategy.llm_google = true
same_strategy SupportedStrategy.llm_groq SupportedStrategy.llm_groq = true
same_strategy SupportedStrategy.llm_openrouter SupportedStrategy.llm_openrouter = true
same_strategy SupportedStrategy.llm_mistral SupportedStrategy.llm_mistral = true
same_strategy SupportedStrategy.llm_sambanova SupportedStrategy.llm_sambanova = true
same_strategy SupportedStrategy.llm_nvidia SupportedStrategy.llm_nvidia = true
same_strategy _ _ = false

abbrev pub same_model : Option String → Option String → Bool
same_model none none = true
same_model (some a) (some b) = str_eq a b
same_model _ _ = false

-- `where: { puzzle, strategyName, trialNumber }`
abbrev pub is_run_of : ℕ → SupportedStrategy → ℕ → StrategyRun → Bool
is_run_of puzzle_id strategy trial run =
    (run.puzzle_id == puzzle_id)
    && (same_strategy run.strategy_name strategy && run.trial_number == trial)

abbrev pub new_run :
    LocaleCompare
    → Puzzle
    → SupportedStrategy
    → ℕ
    → Option String
    → Option ℕ
    → Option FreeTierId
    → ℕ
    → StrategyRun
new_run locale puzzle strategy trial model context_window budget_tier id = record {
  id = id;
  puzzle_id = puzzle.id;
  strategy_name = strategy;
  trial_number = trial;
  status = StrategyRunStatus.running;
  available_words = compute_initial_word_order locale puzzle strategy;
  current_combination = first_combination group_size;
  model_name = model;
  context_window = context_window;
  budget_tier = budget_tier;
  finished_at = none;
}

unfoldable pub load_or_create_run :
    LocaleCompare
    → ℕ
    → SupportedStrategy
    → ℕ
    → Option String
    → Option ℕ
    → Option FreeTierId
    → Store
    → Result (StrategyRun × Puzzle) × Store
load_or_create_run locale puzzle_id strategy trial model context_window budget_tier store =
    elim (find? (λ (p : Puzzle). p.id == puzzle_id) store.puzzles) [
      | none ↦ (err StoreError.not_found, store)
      | some puzzle ↦ elim (find? (is_run_of puzzle_id strategy trial) store.runs) [
        | some existing ↦
            if same_model existing.model_name model
            then (ok (existing, puzzle), store)
            else (err StoreError.wrong_model, store)
        | none ↦
            let run =
              new_run locale puzzle strategy trial model context_window budget_tier
                store.next_run_id in
            (
              ok (run, puzzle),
              record store { runs = store.runs ++ run ∷ []; next_run_id = store.next_run_id + 1 },
            )
      ]
    ]

abbrev pub is_of : ℕ → Option ℕ → Bool
is_of id none = false
is_of id (some run_id) = run_id == id

unfoldable pub count_guesses : ℕ → Store → ℕ
count_guesses id store = count (is_of id) store.guesses

-- `MAX(promptNumber)`, 0 without rows.
unfoldable pub max_of : List SolvePromptRow → ℕ → ℕ
max_of [] id = 0
max_of (p ∷ ps) id =
    let rest = max_of ps id in if p.strategy_run_id == id then max p.prompt_number rest else rest

unfoldable pub last_prompt_number : ℕ → Store → ℕ
unfolding max_of
last_prompt_number id store = max_of store.solve_prompts id

-- Replaces the row of a run.
abbrev pub save_run : StrategyRun → Store → Store
save_run run store = record store {
  runs = map (λ (r : StrategyRun). if r.id == run.id then run else r) store.runs;
}

unfoldable pub mark_failed_if_still_running : ℕ → SupportedStrategy → ℕ → ℕ → Store → Store
mark_failed_if_still_running puzzle_id strategy trial now store =
    elim (find? (is_run_of puzzle_id strategy trial) store.runs) [
      | none ↦ store
      | some run ↦
          if is_running run.status
          then save_run (finish StrategyRunStatus.failed now run) store
          else store
    ]

pub record DeletedRows : Type 0 where
  pub deleted_guesses : ℕ
  pub deleted_solve_prompts : ℕ
  pub deleted_llm_proposals : ℕ
  pub deleted_category_evaluations : ℕ

-- The database's delete of a run's row: it cascades to the prompts, the proposals and the
-- evaluations, and takes the run off its guesses.
abbrev pub delete_run_row : ℕ → Store → Store
delete_run_row id store = record store {
  runs = filter (λ (r : StrategyRun). not (r.id == id)) store.runs;
  guesses = map (λ g. if is_of id g then none else g) store.guesses;
  solve_prompts = filter (λ p. not (p.strategy_run_id == id)) store.solve_prompts;
  llm_proposals = filter (λ r. not (r == id)) store.llm_proposals;
  category_evaluations = filter (λ r. not (r == id)) store.category_evaluations;
}

unfoldable pub delete_run_tx : ℕ → Store → DeletedRows × Store
delete_run_tx id store =
    let counts : DeletedRows = record {
      deleted_guesses = count (is_of id) store.guesses;
      deleted_solve_prompts =
          count (λ (p : SolvePromptRow). p.strategy_run_id == id) store.solve_prompts;
      deleted_llm_proposals = count (λ r. r == id) store.llm_proposals;
      deleted_category_evaluations = count (λ r. r == id) store.category_evaluations;
    } in
    let no_evaluations : Store = record store {
      category_evaluations = filter (λ r. not (r == id)) store.category_evaluations;
    } in
    let no_guesses : Store = record no_evaluations {
      guesses = filter (λ g. not (is_of id g)) no_evaluations.guesses;
    } in
    (counts, delete_run_row id no_guesses)

unfoldable pub delete_run : ℕ → Store → Result DeletedRows × Store
unfolding delete_run_tx
delete_run id store = elim (find? (λ (r : StrategyRun). r.id == id) store.runs) [
  | none ↦ (err StoreError.not_found, store)
  | some run ↦
      if is_running run.status
      then (err StoreError.conflict, store)
      else (ok (delete_run_tx id store).0, (delete_run_tx id store).1)
]

pub record SweepTotals : Type 0 where
  pub deleted_runs : ℕ
  pub rows : DeletedRows

abbrev pub is_error : StrategyRunStatus → Bool
is_error StrategyRunStatus.error = true
is_error _ = false

-- `strategyName ? { strategyName } : {}`
abbrev pub matches_strategy : Option SupportedStrategy → SupportedStrategy → Bool
matches_strategy none name = true
matches_strategy (some wanted) name = same_strategy name wanted

-- An empty name does not narrow the sweep either.
abbrev pub matches_model : Option String → Option String → Bool
matches_model none name = true
matches_model (some wanted) name = str_eq wanted "" || same_model name (some wanted)

abbrev pub is_errored : Option SupportedStrategy → Option String → StrategyRun → Bool
is_errored strategy model run =
    is_error run.status
    && (matches_strategy strategy run.strategy_name && matches_model model run.model_name)

abbrev pub add_rows : DeletedRows → DeletedRows → DeletedRows
add_rows a b = record {
  deleted_guesses = a.deleted_guesses + b.deleted_guesses;
  deleted_solve_prompts = a.deleted_solve_prompts + b.deleted_solve_prompts;
  deleted_llm_proposals = a.deleted_llm_proposals + b.deleted_llm_proposals;
  deleted_category_evaluations = a.deleted_category_evaluations + b.deleted_category_evaluations;
}

unfoldable pub sweep : List StrategyRun → SweepTotals → Store → SweepTotals × Store
sweep [] totals store = (totals, store)
sweep (run ∷ runs) totals store =
    sweep runs
      (record {
        deleted_runs = totals.deleted_runs + 1;
        rows = add_rows totals.rows (delete_run_tx run.id store).0;
      })
      (delete_run_tx run.id store).1

abbrev pub no_rows : DeletedRows
no_rows = record {
  deleted_guesses = 0;
  deleted_solve_prompts = 0;
  deleted_llm_proposals = 0;
  deleted_category_evaluations = 0;
}

unfoldable pub delete_errored_runs :
    Option SupportedStrategy → Option String → Store → SweepTotals × Store
unfolding sweep
delete_errored_runs strategy model store =
    sweep (filter (is_errored strategy model) store.runs)
      (record { deleted_runs = 0; rows = no_rows }) store
