-- ===== src/Dispatch/Tests.antt =====
-- Dispatches on a queue that is a list.
use connections.Base.{
  ◌≡◌, refl, sym, ap, ◌∙◌, subst, inl, inr, true, none, some, [], ◌∷◌, ◌++◌, arith, In, str_eq,
}
use connections.Strategy.{StrategyRun, SupportedStrategy}
use connections.RunStore.{Store, LocaleCompare, ok, load_or_create_run}
use connections.Examples.{two_groups}
use connections.Dispatch.Queue.{JobState, RunStrategyJob}
use connections.Dispatch.ListQueue.{Entries, list_queue}
use connections.Dispatch.AllTrials.{at_once-Agrees, at_once-Covers}
use connections.Dispatch.Trials.{Response, TrialReads, read_trials, llm_job, trigger_next_llm_trial}
use connections.RoundRobin.Names.{names}
use connections.Dispatch.Counts.{count_in_flight_by_model}
use connections.Dispatch.Tallies.{count_by_model_lem}
use connections.Dispatch.Numbers.{Reserved, of_job, Consistent}
use connections.Dispatch.Spec.{Effect, Capped}
use connections.Dispatch.Steps.{Step, Steps, here, next, triggers, moves}
use connections.Dispatch.Refinement.{Step-Effect}
use connections.Dispatch.Safety.{Steps-Capped, Steps-works}

abbrev store : Store
store = record {
  puzzles = two_groups ∷ [];
  runs = [];
  guesses = [];
  solve_prompts = [];
  llm_proposals = [];
  category_evaluations = [];
  next_run_id = 1;
}

abbrev by_string : LocaleCompare
by_string a b = true

abbrev first_job : RunStrategyJob
first_job = llm_job 7 SupportedStrategy.llm_google "2026-01-01" "gemini" none 1

abbrev second_job : RunStrategyJob
second_job = llm_job 7 SupportedStrategy.llm_google "2026-01-01" "gemma" none 2

abbrev one_waits : Entries
one_waits = (JobState.waiting, first_job) ∷ []

abbrev reads : Entries → TrialReads
reads q = read_trials list_queue 5 7 SupportedStrategy.llm_google [] q q

first_dispatch :
    trigger_next_llm_trial list_queue 2 7 SupportedStrategy.llm_google "2026-01-01" "gemini" none
      (reads [])
      []
    ≡ (Response.returned tt, one_waits)
unfolding trigger_next_llm_trial read_trials
first_dispatch = refl

second_dispatch :
    trigger_next_llm_trial list_queue 2 7 SupportedStrategy.llm_google "2026-01-01" "gemma" none
      (reads one_waits)
      one_waits
    ≡ (Response.returned tt, one_waits ++ (JobState.waiting, second_job) ∷ [])
unfolding trigger_next_llm_trial read_trials str_eq
second_dispatch = refl

abbrev both_wait : Entries
both_wait = one_waits ++ (JobState.waiting, second_job) ∷ []

abbrev second_active : Entries
second_active = (JobState.waiting, first_job) ∷ (JobState.active, second_job) ∷ []

nothing-Consistent : Consistent []
nothing-Consistent a b i j h = elim i [ ]

nothing-Capped : Capped 2 []
nothing-Capped e [] d h = omega arith
nothing-Capped e (n ∷ ns) d (i, h) = elim i [ ]

one_Consistent :
    (a b : Reserved)
    → In a (of_job first_job ∷ [])
    → In b (of_job first_job ∷ [])
    → a.model ≡ b.model
one_Consistent a b (inl e) (inl f) = ap (λ (z : Reserved). z.model) (sym e ∙ f)
one_Consistent a b (inr nowhere) j = elim nowhere [ ]
one_Consistent a b (inl e) (inr nowhere) = elim nowhere [ ]

first-Step : Step list_queue 2 by_string (store, []) (store, one_waits)
first-Step =
    subst (λ (r : Response Unit × Entries). Step list_queue 2 by_string (store, []) (store, r.1))
      first_dispatch
      (triggers 7 SupportedStrategy.llm_google "2026-01-01" "gemini" none (reads []) store []
        (at_once-Agrees list_queue 7 SupportedStrategy.llm_google 5 store [] (omega arith)
          (omega arith) nothing-Consistent)
        (at_once-Covers list_queue 7 SupportedStrategy.llm_google 5 store [] (omega arith)
          (omega arith)))

second-Step : Step list_queue 2 by_string (store, one_waits) (store, both_wait)
second-Step =
    subst
      (λ (r : Response Unit × Entries). Step list_queue 2 by_string (store, one_waits) (store, r.1))
      second_dispatch
      (triggers 7 SupportedStrategy.llm_google "2026-01-01" "gemma" none (reads one_waits) store
        one_waits
        (at_once-Agrees list_queue 7 SupportedStrategy.llm_google 5 store one_waits (omega arith)
          (omega arith) (λ a b i j h. one_Consistent a b i j))
        (at_once-Covers list_queue 7 SupportedStrategy.llm_google 5 store one_waits (omega arith)
          (omega arith)))

-- A worker takes the second job first.
taken-Step : Step list_queue 2 by_string (store, both_wait) (store, second_active)
taken-Step = moves store both_wait second_active (λ job i. elim i [
  | inl p ↦ elim p [ inl e ↦ inl (inl e) | inr nowhere ↦ elim nowhere [ ] ]
  | inr a ↦ elim a [ inl e ↦ inl (inr (inl e)) | inr nowhere ↦ elim nowhere [ ] ]
])

all-Steps : Steps list_queue 2 by_string (store, []) (store, second_active)
all-Steps = next (next (next here first-Step) second-Step) taken-Step

Step-Effect_example : Effect 2 (of_job first_job ∷ []) (of_job first_job ∷ of_job second_job ∷ [])
Step-Effect_example =
    Step-Effect list_queue 2 by_string (store, one_waits) (store, both_wait) second-Step

Steps-Capped_example :
    Consistent (of_job first_job ∷ of_job second_job ∷ [])
    × Capped 2 (of_job first_job ∷ of_job second_job ∷ [])
Steps-Capped_example =
    Steps-Capped list_queue 2 by_string all-Steps nothing-Consistent nothing-Capped

Steps-works_example :
    (run : StrategyRun) × ((load_or_create_run by_string 7 SupportedStrategy.llm_google 2
        (some "gemma")
        none
        none
        store).0
      ≡ ok (run, two_groups))
    × (run.model_name ≡ some "gemma")
Steps-works_example =
    Steps-works list_queue 2 by_string second_job none two_groups nothing-Consistent all-Steps
      (inl refl) refl

count_by_model_lem_example :
    names (
      count_in_flight_by_model list_queue 3 SupportedStrategy.llm_google
        ("gemma" ∷ "gemini" ∷ [])
        []
        both_wait)
    ≡ "gemma" ∷ "gemini" ∷ []
count_by_model_lem_example =
    (count_by_model_lem list_queue 3 (λ r. true) SupportedStrategy.llm_google
      ("gemma" ∷ "gemini" ∷ []) [] both_wait (omega arith)).0.0
