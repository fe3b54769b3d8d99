-- ===== src/Solver/Tests.antt =====
-- Runs of a small puzzle through the combinations.
use connections.Base.{ℕ, ◌<◌, ◌≡◌, refl, true, none, some, [], arith, length, str_eq}
use connections.Strategy.{StrategyRun, StrategyRunStatus, SupportedStrategy}
use connections.Solver.{SolveState, run_deterministic_strategy}
use connections.Solver.Progress.{WellFormed, Whole}
use connections.Solver.Complete.{run_deterministic_strategy-completes}
use connections.RunStore.{LocaleCompare, compute_initial_word_order, sort_by, insert_by, new_run}
use connections.RunStore.Order.{
  new_run-completes, compute_initial_word_order-SameWords, SameWords-Whole,
}
use connections.Examples.{plain, two_groups}

two_groups-WellFormed : WellFormed plain two_groups
unfolding str_eq
two_groups-WellFormed = record { four = refl; different = refl }

abbrev never_at_most : LocaleCompare
never_at_most a b = true

abbrev order_run : StrategyRun
order_run = new_run never_at_most two_groups SupportedStrategy.order 0 none none none 3

eight_words :
    0 < length (compute_initial_word_order never_at_most two_groups SupportedStrategy.order)
unfolding compute_initial_word_order sort_by insert_by
eight_words = omega arith

order-Whole : Whole two_groups order_run.available_words
order-Whole =
    SameWords-Whole plain two_groups order_run.available_words two_groups-WellFormed
      (compute_initial_word_order-SameWords never_at_most two_groups SupportedStrategy.order)

run_deterministic_strategy-completes_example :
    (fuel : ℕ) × (t : SolveState) × (run_deterministic_strategy plain two_groups
        (λ n. 0)
        fuel
        (λ n. n)
        order_run
        []
      ≡ some t)
    × (t.run.status ≡ StrategyRunStatus.completed)
    × (t.run.available_words ≡ [])
run_deterministic_strategy-completes_example =
    run_deterministic_strategy-completes plain two_groups (λ n. 0) two_groups-WellFormed (λ n. n)
      order_run [] refl (refl, refl) order-Whole refl eight_words

new_run-completes_example :
    (fuel : ℕ) × (t : SolveState) × (run_deterministic_strategy plain two_groups
        (λ n. 0)
        fuel
        (λ n. n)
        (new_run never_at_most two_groups SupportedStrategy.order 0 none none none 3)
        []
      ≡ some t)
    × (t.run.status ≡ StrategyRunStatus.completed)
    × (t.run.available_words ≡ [])
new_run-completes_example =
    new_run-completes plain two_groups (λ n. 0) never_at_most SupportedStrategy.order 0 3 (λ n. n)
      two_groups-WellFormed (refl, refl) eight_words
