-- ===== src/Dispatch/Tallies.antt =====
-- The counts per model are complete (backend/src/modules/strategy/strategy-dispatch.service.ts).
use connections.Base.{
  In, In-filter, sym, ℕ, ◌+◌, ◌<◌, String, ◌≡◌, refl, ap, ◌∙◌, inl, inr, Bool, true, false, ◌&&◌,
  Option, none, some, List, [], ◌∷◌, map, arith, if◌then◌else◌, Bool-cases, length, filter, count,
  str_eq, str_eq→eq, str_eq_refl, includes, All,
}
use connections.Strategy.{StrategyRun, SupportedStrategy, is_running}
use connections.RoundRobin.{Allocation, count_one}
use connections.RoundRobin.Names.{names, names-count_one}
use connections.Dispatch.Queue.{RunStrategyJob, JobQueue, collect, queue_page_size}
use connections.Dispatch.Paging.{collect_lem}
use connections.Dispatch.Runs.{has_model}
use connections.Dispatch.Counts.{
  zero_counts, count_models, queued_states, is_of_models, queued_counts_by_model, add_rows,
  count_today_dispatch_by_model, count_in_flight_by_model,
}

-- `counts.get(model) ?? 0`
abbrev pub tally : String → Allocation → ℕ
tally model [] = 0
tally model ((m, n) ∷ counts) = if str_eq m model then n else tally model counts

abbrev pub is_model : String → Option String → Bool
is_model model none = false
is_model model (some m) = str_eq m model

tally-count_one :
    (model m : String) (counts : Allocation)
    → tally model (count_one m counts) ≡ tally model counts + (if str_eq m model then 1 else 0)
tally-count_one model m [] = ground (arith, str_eq→eq m model)
tally-count_one model m ((x, n) ∷ counts) = ground (
  arith,
  tally-count_one model m counts,
  str_eq→eq x m,
  str_eq→eq x model,
  str_eq→eq m model,
  str_eq_refl m,
)

tally-count_models :
    (model : String) (ms : List (Option String)) (counts : Allocation)
    → tally model (count_models ms counts) ≡ tally model counts + count (is_model model) ms
tally-count_models model [] counts = omega arith
tally-count_models model (none ∷ ms) counts = tally-count_models model ms counts
tally-count_models model (some m ∷ ms) counts =
    ground (arith, tally-count_models model ms (count_one m counts), tally-count_one model m counts)

tally-zero : (model : String) (ms : List String) → tally model (zero_counts ms) ≡ 0
tally-zero model [] = refl
tally-zero model (m ∷ ms) = ground (arith, tally-zero model ms)

names-zero : (ms : List String) → names (zero_counts ms) ≡ ms
names-zero [] = refl
names-zero (m ∷ ms) = ap (λ l. m ∷ l) (names-zero ms)

names-count_models :
    (models : List String) (ms : List (Option String)) (counts : Allocation)
    → names counts ≡ models
    → All (λ m. has_model models m ≡ true) ms
    → names (count_models ms counts) ≡ models
names-count_models models [] counts e h = e
names-count_models models (none ∷ ms) counts e (h, k) = names-count_models models ms counts e k
names-count_models models (some m ∷ ms) counts e (h, k) =
    names-count_models models ms (count_one m counts) (names-count_one m counts (rw e h) ∙ e) k

All-filter-map :
    {A : Type 0} (f : A → Option String) (p : A → Bool) (models : List String) (xs : List A)
    → ((x : A) → p x ≡ true → has_model models (f x) ≡ true)
    → All (λ m. has_model models m ≡ true) (map f (filter p xs))
All-filter-map f p models [] h = tt
All-filter-map f p models (x ∷ xs) h = elim (Bool-cases (p x)) [
  | inl chosen ↦ rw chosen (h x chosen, All-filter-map f p models xs h)
  | inr other ↦ rw other (All-filter-map f p models xs h)
]

All-map-In :
    {A : Type 0} (f : A → Option String) (models : List String) (xs : List A)
    → ((x : A) → In x xs → has_model models (f x) ≡ true)
    → All (λ m. has_model models m ≡ true) (map f xs)
All-map-In f models [] h = tt
All-map-In f models (x ∷ xs) h = (h x (inl refl), All-map-In f models xs (λ y i. h y (inr i)))

count-map :
    {A B : Type 0} (p : B → Bool) (f : A → B) (xs : List A)
    → count p (map f xs) ≡ count (λ x. p (f x)) xs
count-map p f [] = refl
count-map p f (x ∷ xs) = ground (arith, count-map p f xs)

-- How often a model occurs among the elements of a list that pass a test.
abbrev pub occurrences : {A : Type 0} → (A → Option String) → (A → Bool) → String → List A → ℕ
occurrences f p model xs = count (is_model model) (map f (filter p xs))

occurrences-count :
    {A : Type 0} (f : A → Option String) (p q : A → Bool) (model : String)
    → ((x : A) → q x ≡ (p x && is_model model (f x)))
    → (xs : List A) → occurrences f p model xs ≡ count q xs
occurrences-count f p q model h [] = refl
occurrences-count f p q model h (x ∷ xs) = ground (arith, h x, occurrences-count f p q model h xs)

is_model-has_model :
    (models : List String) (model : String) (m : Option String)
    → includes models model ≡ true
    → is_model model m ≡ (has_model models m && is_model model m)
is_model-has_model models model none h = refl
is_model-has_model models model (some m) h = elim (Bool-cases (str_eq m model)) [
  | inl same ↦ let e : m ≡ model = str_eq→eq m model same in ground (arith, same, e, h)
  | inr other ↦ ground (arith, other)
]

module _ {Q : Type 0} (queue : JobQueue Q) (fuel : ℕ) where
  abbrev pub job_model : RunStrategyJob → Option String
  job_model job = job.model

  -- The jobs that are read for the models.
  abbrev read : List String → Q → List RunStrategyJob
  read models q =
      collect queue queue_page_size (λ job. has_model models job.model) fuel queued_states 0 q

  read-models :
      (models : List String) (q : Q)
      → length (queue.jobs queued_states q) < fuel
      → All (λ m. has_model models m ≡ true) (map job_model (read models q))
  read-models models q h =
      let chosen : RunStrategyJob → Bool = λ job. has_model models job.model in
      let same = collect_lem queue chosen 999 fuel queued_states q h in
      All-map-In job_model models (read models q)
        (λ job i. (In-filter chosen job (queue.jobs queued_states q) ((same.1 job).0 i)).1)

  count-read :
      (models : List String) (q : Q) (model : String)
      → length (queue.jobs queued_states q) < fuel
      → includes models model ≡ true
      → count (is_model model) (map job_model (read models q))
        ≡ count (λ (job : RunStrategyJob). is_model model job.model) (queue.jobs queued_states q)
  count-read models q model h inside =
      let chosen : RunStrategyJob → Bool = λ job. has_model models job.model in
      let jobs : List RunStrategyJob = queue.jobs queued_states q in
      let same = collect_lem queue chosen 999 fuel queued_states q h in
      count-map (is_model model) job_model (read models q)
      ∙ same.0 (λ job. is_model model job.model)
      ∙ sym (count-map (is_model model) job_model (filter chosen jobs))
      ∙ occurrences-count job_model chosen (λ job. is_model model job.model) model
          (λ job. is_model-has_model models model job.model inside) jobs

  -- The models of a count are those asked for, and each is counted with its jobs and its rows.
  rows-lem :
      (test : StrategyRun → Bool) (models : List String) (runs : List StrategyRun) (q : Q)
      → length (queue.jobs queued_states q) < fuel
      → ((r : StrategyRun) → test r ≡ true → has_model models r.model_name ≡ true)
      → (names (add_rows queue fuel test runs (queued_counts_by_model queue fuel models q))
          ≡ models)
        × ((model : String)
            → includes models model ≡ true
            → tally model
                (add_rows queue fuel test runs (queued_counts_by_model queue fuel models q))
              ≡ count
                  (λ (job : RunStrategyJob). is_model model job.model)
                  (queue.jobs queued_states q)
                + count (λ (r : StrategyRun). test r && is_model model r.model_name) runs)
  unfolding queued_counts_by_model
  rows-lem test models runs q enough known =
      let waiting : List (Option String) = map job_model (read models q) in
      let rows : List (Option String) =
        map (λ (r : StrategyRun). r.model_name) (filter test runs) in
      let base : Allocation = count_models waiting (zero_counts models) in
      (
        names-count_models models rows base
            (names-count_models models waiting (zero_counts models) (names-zero models)
              (read-models models q enough))
            (All-filter-map (λ (r : StrategyRun). r.model_name) test models runs known),
        λ model inside. omega (
          arith,
          tally-count_models model rows base,
          tally-count_models model waiting (zero_counts models),
          tally-zero model models,
          count-read models q model enough inside,
          occurrences-count (λ (r : StrategyRun). r.model_name) test
              (λ (r : StrategyRun). test r && is_model model r.model_name) model (λ r. refl) runs,
        ),
      )

  -- With more pages to read than jobs that wait, whatever the order in which they come, the work in flight is counted for exactly the
  -- models asked for, in their order, and for each of them is the number of its jobs that are
  -- waiting or delayed in the queue and of the strategy's running runs on it; likewise the count of
  -- today's dispatches, with the strategy's runs that were started today.
  pub count_by_model_lem :
      (started_today : StrategyRun → Bool) (strategy : SupportedStrategy) (models : List String)
      (runs : List StrategyRun) (q : Q)
      → length (queue.jobs queued_states q) < fuel
      → ((names (count_in_flight_by_model queue fuel strategy models runs q) ≡ models)
          × ((model : String)
              → includes models model ≡ true
              → tally model (count_in_flight_by_model queue fuel strategy models runs q)
                ≡ count
                    (λ (job : RunStrategyJob). is_model model job.model)
                    (queue.jobs queued_states q)
                  + count
                      (λ (r : StrategyRun).
                        (is_of_models strategy models r && is_running r.status)
                        && is_model model r.model_name)
                      runs))
        × ((names (count_today_dispatch_by_model queue fuel started_today strategy models runs q)
              ≡ models)
            × ((model : String)
                → includes models model ≡ true
                → tally model
                    (count_today_dispatch_by_model queue fuel started_today strategy models runs q)
                  ≡ count
                      (λ (job : RunStrategyJob). is_model model job.model)
                      (queue.jobs queued_states q)
                    + count
                        (λ (r : StrategyRun).
                          (is_of_models strategy models r && started_today r)
                          && is_model model r.model_name)
                        runs))
  unfolding count_in_flight_by_model count_today_dispatch_by_model
  count_by_model_lem started_today strategy models runs q enough = (
    rows-lem (λ r. is_of_models strategy models r && is_running r.status) models runs q enough
        (λ r h. ground (arith, h)),
    rows-lem (λ r. is_of_models strategy models r && started_today r) models runs q enough
        (λ r h. ground (arith, h)),
  )
