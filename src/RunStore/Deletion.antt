-- ===== src/RunStore/Deletion.antt =====
-- Deleting runs (backend/src/modules/strategy/strategy-run-store.service.ts).
use connections.Base.{
  filter-filter, filter-all, ℕ, ◌+◌, String, ◌≡◌, refl, ap, ◌∙◌, Bool, true, false, not, Option,
  none, some, List, [], ◌∷◌, map, arith, ◌==◌, if◌then◌else◌, length, filter, find?, any, count,
  length-filter,
}
use connections.Strategy.{StrategyRun, SupportedStrategy, is_running}
use connections.RunStore.{
  Store, StoreError, ok, err, DeletedRows, SolvePromptRow, SweepTotals, delete_run_tx, delete_run,
  delete_errored_runs, sweep, is_errored, is_of, no_rows, add_rows,
}

-- The tables without anything that belongs to the run.
abbrev pub without_run : ℕ → Store → Store
without_run id store = record store {
  runs = filter (λ (r : StrategyRun). not (r.id == id)) store.runs;
  guesses = filter (λ g. not (is_of id g)) store.guesses;
  solve_prompts =
      filter (λ (p : SolvePromptRow). not (p.strategy_run_id == id)) store.solve_prompts;
  llm_proposals = filter (λ r. not (r == id)) store.llm_proposals;
  category_evaluations = filter (λ r. not (r == id)) store.category_evaluations;
}

filter-twice : {A : Type 0} (p : A → Bool) (xs : List A) → filter p (filter p xs) ≡ filter p xs
filter-twice p [] = refl
filter-twice p (x ∷ xs) = ground (arith, filter-twice p xs)

map-filtered :
    (id : ℕ) (xs : List (Option ℕ))
    → map (λ g. if is_of id g then none else g) (filter (λ g. not (is_of id g)) xs)
      ≡ filter (λ g. not (is_of id g)) xs
map-filtered id [] = refl
map-filtered id (x ∷ xs) = ground (arith, map-filtered id xs)

count-filtered :
    {A : Type 0} (p : A → Bool) (xs : List A)
    → count p xs + length (filter (λ x. not (p x)) xs) ≡ length xs
count-filtered p [] = refl
count-filtered p (x ∷ xs) = ground (arith, count-filtered p xs)

pub delete_run_tx-without :
    (id : ℕ) (store : Store) → (delete_run_tx id store).1 ≡ without_run id store
unfolding delete_run_tx
delete_run_tx-without id store = ground (
  arith,
  map-filtered id store.guesses,
  filter-twice (λ r. not (r == id)) store.category_evaluations,
)

-- Deleting a run, told by the run the table has under the id: a missing or a running run is refused
-- and nothing changes; any other is gone with every row that belongs to it and no other row,
-- and the numbers reported are by how much each table shrank.
pub delete_run_lem :
    (id : ℕ) (store : Store)
    → ((find? (λ (r : StrategyRun). r.id == id) store.runs ≡ none)
        → delete_run id store ≡ (err StoreError.not_found, store))
      × ((run : StrategyRun)
          → find? (λ (r : StrategyRun). r.id == id) store.runs ≡ some run
          → (is_running run.status ≡ true → delete_run id store ≡ (err StoreError.conflict, store))
            × (is_running run.status ≡ false
                → (rows : DeletedRows) × (delete_run id store ≡ (ok rows, without_run id store))
                  × (rows.deleted_guesses + length (without_run id store).guesses
                      ≡ length store.guesses)
                  × (rows.deleted_solve_prompts + length (without_run id store).solve_prompts
                      ≡ length store.solve_prompts)
                  × (rows.deleted_llm_proposals + length (without_run id store).llm_proposals
                      ≡ length store.llm_proposals)
                  × (rows.deleted_category_evaluations
                        + length (without_run id store).category_evaluations
                      ≡ length store.category_evaluations)))
unfolding delete_run
delete_run_lem id store = (
  λ h. ground (arith, h),
  λ run h. (
    λ on. ground (arith, h, on),
    λ off. (
      (delete_run_tx id store).0,
      ground (arith, h, off, delete_run_tx-without id store),
      unfold delete_run_tx in count-filtered (is_of id) store.guesses,
      unfold delete_run_tx in
          count-filtered (λ (p : SolvePromptRow). p.strategy_run_id == id) store.solve_prompts,
      unfold delete_run_tx in count-filtered (λ r. r == id) store.llm_proposals,
      unfold delete_run_tx in count-filtered (λ r. r == id) store.category_evaluations,
    ),
  ),
)

-- The tables without anything that belongs to one of the runs.
abbrev pub among : List StrategyRun → ℕ → Bool
among runs id = any (λ (e : StrategyRun). id == e.id) runs

abbrev pub row_among : List StrategyRun → Option ℕ → Bool
row_among runs none = false
row_among runs (some id) = among runs id

abbrev pub without_runs : List StrategyRun → Store → Store
without_runs gone store = record store {
  runs = filter (λ (r : StrategyRun). not (among gone r.id)) store.runs;
  guesses = filter (λ g. not (row_among gone g)) store.guesses;
  solve_prompts =
      filter (λ (p : SolvePromptRow). not (among gone p.strategy_run_id)) store.solve_prompts;
  llm_proposals = filter (λ r. not (among gone r)) store.llm_proposals;
  category_evaluations = filter (λ r. not (among gone r)) store.category_evaluations;
}

without_runs-step :
    (run : StrategyRun) (gone : List StrategyRun) (store : Store)
    → without_runs gone (without_run run.id store) ≡ without_runs (run ∷ gone) store
without_runs-step run gone store = ground (
  arith,
  filter-filter (λ (r : StrategyRun). not (among gone r.id)) (λ r. not (r.id == run.id))
      (λ r. not (among (run ∷ gone) r.id)) (λ r. ground arith) store.runs,
  filter-filter (λ g. not (row_among gone g)) (λ g. not (is_of run.id g))
      (λ g. not (row_among (run ∷ gone) g)) (λ g. ground arith) store.guesses,
  filter-filter (λ (p : SolvePromptRow). not (among gone p.strategy_run_id))
      (λ p. not (p.strategy_run_id == run.id)) (λ p. not (among (run ∷ gone) p.strategy_run_id))
      (λ p. ground arith) store.solve_prompts,
  filter-filter (λ r. not (among gone r)) (λ r. not (r == run.id)) (λ r. not (among (run ∷ gone) r))
      (λ r. ground arith) store.llm_proposals,
  filter-filter (λ r. not (among gone r)) (λ r. not (r == run.id)) (λ r. not (among (run ∷ gone) r))
      (λ r. ground arith) store.category_evaluations,
)

without_runs-none : (store : Store) → store ≡ without_runs [] store
without_runs-none store = ground (
  arith,
  filter-all store.runs,
  filter-all store.guesses,
  filter-all store.solve_prompts,
  filter-all store.llm_proposals,
  filter-all store.category_evaluations,
)

sweep-without :
    (gone : List StrategyRun) (totals : SweepTotals) (store : Store)
    → ((sweep gone totals store).1 ≡ without_runs gone store)
      × ((sweep gone totals store).0.deleted_runs ≡ totals.deleted_runs + length gone)
unfolding sweep
sweep-without [] totals store = (without_runs-none store, omega arith)
sweep-without (run ∷ gone) totals store =
    let (tables, number) =
      sweep-without gone
        (record {
          deleted_runs = totals.deleted_runs + 1;
          rows = add_rows totals.rows (delete_run_tx run.id store).0;
        })
        (delete_run_tx run.id store).1 in
    (
      tables
          ∙ ap (without_runs gone) (delete_run_tx-without run.id store)
          ∙ without_runs-step run gone store,
      number ∙ omega arith,
    )

-- The sweep deletes just the runs whose status is `error` and that the strategy and the model
-- asked for select, with every row that belongs to them and no other row, and reports their number.
pub delete_errored_runs_lem :
    (strategy : Option SupportedStrategy) (model : Option String) (store : Store)
    → ((delete_errored_runs strategy model store).1
        ≡ without_runs (filter (is_errored strategy model) store.runs) store)
      × ((delete_errored_runs strategy model store).0.deleted_runs
          ≡ count (is_errored strategy model) store.runs)
unfolding delete_errored_runs
delete_errored_runs_lem strategy model store =
    let (tables, number) =
      sweep-without (filter (is_errored strategy model) store.runs)
        (record { deleted_runs = 0; rows = no_rows }) store in
    (tables, number ∙ ground (arith, length-filter (is_errored strategy model) store.runs))
