-- ===== src/Dispatch/Moves.antt =====
-- The steps that hold no new trial number: retries, resumed runs, workers and deletions
-- (backend/src/modules/strategy/strategy-dispatch.service.ts and strategy-run-store.service.ts).
use connections.Base.{
  ℕ, zero, suc, String, ◌≡◌, refl, sym, ap, ◌∙◌, subst, ◌⊎◌, inl, inr, Bool, true, false, not,
  Option, some, List, [], ◌∷◌, ◌++◌, map, arith, ◌==◌, Bool-cases, Option-cases, ==_iff, filter,
  find?, take, In, In-split, In-filter, In-map-source,
}
use connections.Puzzle.{Puzzle}
use connections.Strategy.{StrategyRun, SupportedStrategy, FreeTierId, is_running}
use connections.RunStore.{
  Store, LocaleCompare, load_or_create_run, delete_run, delete_run_tx, save_run, is_run_of, new_run,
  is_error,
}
use connections.Dispatch.Queue.{RunStrategyJob, JobQueue, JobIdSuffix}
use connections.Dispatch.Trials.{active_states}
use connections.Dispatch.Runs.{
  retry_run, resume_budget_parked_runs, resume_each, is_budget_parked, start_again, job_of, date_of,
}
use connections.Dispatch.Numbers.{Reserved, of_run, of_job}
use connections.Dispatch.Steps.{Held, by_run, by_job, Held-add, Held-save}

pub find?-In :
    {A : Type 0} (p : A → Bool) (xs : List A) (x : A) → find? p xs ≡ some x → In x xs × (p x ≡ true)
find?-In p [] x h = absurd (ground (arith, h))
find?-In p (y ∷ ys) x h = elim (Bool-cases (p y)) [
  | inl found ↦ let e : y ≡ x = ground (arith, h, found) in (inl e, subst (λ z. p z ≡ true) e found)
  | inr other ↦ let (i, k) = find?-In p ys x (ground (arith, h, other)) in (inr i, k)
]

take-In : {A : Type 0} (n : ℕ) (xs : List A) (x : A) → In x (take n xs) → In x xs
take-In zero xs x i = elim i [ ]
take-In (suc n) [] x i = elim i [ ]
take-In (suc n) (y ∷ ys) x (inl e) = inl e
take-In (suc n) (y ∷ ys) x (inr i) = inr (take-In n ys x i)

-- The rows that a deletion leaves were there.
delete_run-In :
    (id : ℕ) (store : Store) (run : StrategyRun)
    → In run (delete_run id store).1.runs
    → In run store.runs
unfolding delete_run delete_run_tx
delete_run-In id store run i =
    let rows : List StrategyRun = (delete_run id store).1.runs in
    elim (Option-cases (find? (λ (r : StrategyRun). r.id == id) store.runs)) [
      | inl missing ↦ let e : rows ≡ store.runs = ground (arith, missing) in subst (In run) e i
      | inr (found, eq) ↦ elim (Bool-cases (is_running found.status)) [
        | inl on ↦ let e : rows ≡ store.runs = ground (arith, eq, on) in subst (In run) e i
        | inr off ↦
            let kept : StrategyRun → Bool = λ (r : StrategyRun). not (r.id == id) in
            let e : rows ≡ filter kept store.runs = ground (arith, eq, off) in
            (In-filter kept run store.runs (subst (In run) e i)).0
      ]
    ]

-- The rows after a run is loaded were there, or hold the trial of the job.
load_or_create_run-In :
    (locale : LocaleCompare) (job : RunStrategyJob) (window : Option ℕ) (store : Store)
    (run : StrategyRun)
    → In run
        (load_or_create_run locale job.puzzle_id job.strategy_name job.trial_number job.model window
          job.budget_tier store).1.runs
    → In run store.runs ⊎ (of_run run ≡ of_job job)
unfolding load_or_create_run
load_or_create_run-In locale job window store run i =
    let rows : List StrategyRun =
      (load_or_create_run locale job.puzzle_id job.strategy_name job.trial_number job.model window
        job.budget_tier store).1.runs in
    elim (Option-cases (find? (λ (p : Puzzle). p.id == job.puzzle_id) store.puzzles)) [
      | inl missing ↦
          let e : rows ≡ store.runs = ground (arith, missing) in inl (subst (In run) e i)
      | inr (puzzle, found) ↦
          elim (Option-cases
            (find? (is_run_of job.puzzle_id job.strategy_name job.trial_number) store.runs)) [
              | inr (existing, there) ↦
                  let e : rows ≡ store.runs = ground (arith, found, there) in
                  inl (subst (In run) e i)
              | inl new ↦
                  let row : StrategyRun =
                    new_run locale puzzle job.strategy_name job.trial_number job.model window
                      job.budget_tier store.next_run_id in
                  let e : rows ≡ store.runs ++ row ∷ [] = ground (arith, found, new) in
                  elim (In-split run store.runs (row ∷ []) (subst (In run) e i)) [
                    | inl old ↦ inl old
                    | inr at_end ↦ elim at_end [
                      | inr nowhere ↦ elim nowhere [ ]
                      | inl eq ↦
                          let id : puzzle.id ≡ job.puzzle_id =
                            (==_iff puzzle.id job.puzzle_id).0
                              (find?-In (λ (p : Puzzle). p.id == job.puzzle_id) store.puzzles puzzle
                                found).1 in
                          inr (
                            ap of_run (sym eq) ∙ ap (λ n. record (of_job job) { puzzle_id = n }) id)
                    ]
                  ]
            ]
    ]

module _ {Q : Type 0} (queue : JobQueue Q) where
  -- A run that is started again and queued holds the trial it held.
  Held-start_again :
      (run : StrategyRun) (job : RunStrategyJob) (store : Store) (q : Q) (e : Reserved)
      → of_job job ≡ of_run run
      → Held queue (save_run (start_again run) store) (queue.add job q) e
      → Held queue store q e ⊎ (e ≡ of_run run)
  Held-start_again run job store q e same h =
      elim (Held-add queue (save_run (start_again run) store) q job e h) [
        | inl kept ↦ Held-save queue (start_again run) store q e kept
        | inr new ↦ inr (new ∙ same)
      ]

  -- A retry changes nothing, or starts an errored run again and queues it.
  retry_run-cases :
      (now id : ℕ) (store : Store) (q : Q)
      → ((retry_run queue now id store q).1 ≡ (store, q))
        ⊎ ((run : StrategyRun) × In run store.runs
            × ((retry_run queue now id store q).1 ≡ (
              save_run (start_again run) store,
              queue.add (job_of run (date_of run store) true (JobIdSuffix.manual_retry now)) q,
            )))
  unfolding retry_run
  retry_run-cases now id store q =
      elim (Option-cases (find? (λ (r : StrategyRun). r.id == id) store.runs)) [
        | inl missing ↦ inl (ground (arith, missing))
        | inr (run, found) ↦ elim (Bool-cases (is_error run.status)) [
          | inr other ↦ inl (ground (arith, found, other))
          | inl errored ↦ inr (
            run,
            (find?-In (λ (r : StrategyRun). r.id == id) store.runs run found).0,
            ground (arith, found, errored),
          )
        ]
      ]

  pub retry_run-Held :
      (now id : ℕ) (store : Store) (q : Q) (e : Reserved)
      → Held queue (retry_run queue now id store q).1.0 (retry_run queue now id store q).1.1 e
      → Held queue store q e
  retry_run-Held now id store q e h = elim (retry_run-cases now id store q) [
    | inl same ↦ subst (λ (r : Store × Q). Held queue r.0 r.1 e) same h
    | inr (run, there, eq) ↦
        elim (Held-start_again run
          (job_of run (date_of run store) true (JobIdSuffix.manual_retry now)) store q e refl
          (subst (λ (r : Store × Q). Held queue r.0 r.1 e) eq h)) [
            | inl old ↦ old
            | inr new ↦ by_run run there (sym new)
          ]
  ]

  resume_each-Held :
      (now : ℕ) (runs : List StrategyRun) (store : Store) (q : Q) (e : Reserved)
      → Held queue
          (resume_each queue now runs store q).1.0
          (resume_each queue now runs store q).1.1
          e
      → Held queue store q e ⊎ In e (map of_run runs)
  unfolding resume_each
  resume_each-Held now [] store q e h = inl h
  resume_each-Held now (run ∷ runs) store q e h =
      let job : RunStrategyJob =
        job_of run (date_of run store) false (JobIdSuffix.budget_resume now) in
      elim (resume_each-Held now runs (save_run (start_again run) store) (queue.add job q) e h) [
        | inr i ↦ inr (inr i)
        | inl k ↦ elim (Held-start_again run job store q e refl k) [
          | inl old ↦ inl old
          | inr new ↦ inr (inl (sym new))
        ]
      ]

  pub resume_budget_parked_runs-Held :
      (now : ℕ) (strategy : SupportedStrategy) (tier : FreeTierId) (models : List String) (n : ℕ)
      (store : Store) (q : Q) (e : Reserved)
      → Held queue
          (resume_budget_parked_runs queue now strategy tier models n store q).1.0
          (resume_budget_parked_runs queue now strategy tier models n store q).1.1
          e
      → Held queue store q e
  unfolding resume_budget_parked_runs
  resume_budget_parked_runs-Held now strategy tier models n store q e h =
      let parked : List StrategyRun = filter (is_budget_parked strategy tier models) store.runs in
      elim (resume_each-Held now (take n parked) store q e h) [
        | inl old ↦ old
        | inr i ↦
            let (run, k, same) = In-map-source of_run e (take n parked) i in
            by_run run
              (In-filter (is_budget_parked strategy tier models) run store.runs
                (take-In n parked run k)).0
              same
      ]

  pub save_run-Held :
      (run : StrategyRun) (store : Store) (q : Q) (e : Reserved)
      → In (of_run run) (map of_run store.runs)
      → Held queue (save_run run store) q e
      → Held queue store q e
  save_run-Held run store q e i h = elim (Held-save queue run store q e h) [
    | inl old ↦ old
    | inr new ↦
        let (was, there, same) = In-map-source of_run (of_run run) store.runs i in
        by_run was there (same ∙ sym new)
  ]

  pub delete_run-Held :
      (id : ℕ) (store : Store) (q : Q) (e : Reserved)
      → Held queue (delete_run id store).1 q e
      → Held queue store q e
  delete_run-Held id store q e (by_job job i h) = by_job job i h
  delete_run-Held id store q e (by_run run i h) = by_run run (delete_run-In id store run i) h

  pub load_or_create_run-Held :
      (locale : LocaleCompare) (job : RunStrategyJob) (window : Option ℕ) (store : Store) (q : Q)
      (e : Reserved)
      → In job (queue.jobs active_states q)
      → Held queue
          (load_or_create_run locale job.puzzle_id job.strategy_name job.trial_number job.model
            window job.budget_tier store).1
          q
          e
      → Held queue store q e
  load_or_create_run-Held locale job window store q e i (by_job j k h) = by_job j k h
  load_or_create_run-Held locale job window store q e i (by_run run k h) =
      elim (load_or_create_run-In locale job window store run k) [
        | inl old ↦ by_run run old h
        | inr new ↦ by_job job (inr i) (sym new ∙ h)
      ]
