-- ===== src/RunStore/Tests.antt =====
-- The store on concrete tables.
use connections.Base.{◌+◌, ◌≡◌, refl, true, false, none, some, [], ◌∷◌, ◌==◌, length, find?}
use connections.Strategy.{StrategyRun, StrategyRunStatus, SupportedStrategy, is_running}
use connections.RunStore.{
  LocaleCompare, Store, StoreError, ok, err, DeletedRows, delete_run, load_or_create_run, new_run,
}
use connections.RunStore.Deletion.{delete_run_lem, without_run}
use connections.Examples.{two_groups, model_run}

abbrev errored_run : StrategyRun
errored_run = record model_run { id = 12; trial_number = 2; status = StrategyRunStatus.error }

abbrev store : Store
store = record {
  puzzles = two_groups ∷ [];
  runs = model_run ∷ errored_run ∷ [];
  guesses = some 11 ∷ some 12 ∷ none ∷ [];
  solve_prompts = record { strategy_run_id = 12; prompt_number = 1 } ∷ [];
  llm_proposals = 11 ∷ 12 ∷ 12 ∷ [];
  category_evaluations = [];
  next_run_id = 13;
}

delete_run_lem_example :
    ((find? (λ (r : StrategyRun). r.id == 12) store.runs ≡ none)
      → delete_run 12 store ≡ (err StoreError.not_found, store))
    × ((run : StrategyRun)
        → find? (λ (r : StrategyRun). r.id == 12) store.runs ≡ some run
        → (is_running run.status ≡ true → delete_run 12 store ≡ (err StoreError.conflict, store))
          × (is_running run.status ≡ false
              → (rows : DeletedRows) × (delete_run 12 store ≡ (ok rows, without_run 12 store))
                × (rows.deleted_guesses + length (without_run 12 store).guesses
                    ≡ length store.guesses)
                × (rows.deleted_solve_prompts + length (without_run 12 store).solve_prompts
                    ≡ length store.solve_prompts)
                × (rows.deleted_llm_proposals + length (without_run 12 store).llm_proposals
                    ≡ length store.llm_proposals)
                × (rows.deleted_category_evaluations
                      + length (without_run 12 store).category_evaluations
                    ≡ length store.category_evaluations)))
delete_run_lem_example = delete_run_lem 12 store

abbrev any_order : LocaleCompare
any_order a b = true

abbrev first_google : StrategyRun
first_google =
    new_run any_order two_groups SupportedStrategy.llm_google 1 (some "small") (some 8000) none 13

abbrev store_after : Store
store_after = record store { runs = model_run ∷ errored_run ∷ first_google ∷ []; next_run_id = 14 }

created :
    load_or_create_run any_order 7 SupportedStrategy.llm_google 1
      (some "small")
      (some 8000)
      none
      store
    ≡ (ok (first_google, two_groups), store_after)
unfolding load_or_create_run
created = refl
