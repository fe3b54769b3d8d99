-- ===== src/RpdResume/Sweep.antt =====
-- What a resume sweep queues (backend/src/modules/provider-pool/rpd-resume.service.ts).
use connections.Base.{
  sym, not, Bool, any, map, if◌then◌else◌, In-map, ℕ, ◌+◌, ◌≤◌, ◌<◌, String, ◌≡◌, refl, ap, subst,
  ◌⊎◌, inl, inr, true, false, Option, none, some, List, [], ◌∷◌, arith, ◌==◌, Bool-cases, length,
  filter, includes, In, In-filter,
}
use connections.Strategy.{StrategyRun, SupportedStrategy}
use connections.RunStore.{Store, save_run}
use connections.Hold.{RateLimitHold, clear_expired, held_models}
use connections.ProviderPool.{ResetSchedule}
use connections.Dispatch.Queue.{JobQueue, JobState, JobIdSuffix, RunStrategyJob}
use connections.Dispatch.Runs.{job_of, date_of}
use connections.Dispatch.Numbers.{of_run, of_job}
use connections.RpdResume.{
  is_parked, stays_parked, rearm, rearm_cap, running_again, redispatch, resume_model_pool,
}

-- A run that was parked, with a model that is not held any more.
abbrev pub Released : SupportedStrategy → List String → StrategyRun → Type 0
Released strategy still_held run =
    (is_parked strategy run ≡ true)
    × ((model : String) × (run.model_name ≡ some model) × (includes still_held model ≡ false))

stays_parked-false :
    (still_held : List String) (model : Option String)
    → stays_parked still_held model ≡ false
    → (m : String) × (model ≡ some m) × (includes still_held m ≡ false)
stays_parked-false still_held none h = absurd (ground (arith, h))
stays_parked-false still_held (some m) h = (m, refl, ground (arith, h))

abbrev pub includes_id : ℕ → List StrategyRun → Bool
includes_id id runs = any (λ (r : StrategyRun). r.id == id) runs

-- The runs of a list that are resumed, and the rows and the queue with all of them resumed.
abbrev pub released : List String → List StrategyRun → List StrategyRun
released still_held runs = filter (λ r. not (stays_parked still_held r.model_name)) runs

abbrev pub save_all : List StrategyRun → Store → Store
save_all [] store = store
save_all (run ∷ runs) store = save_all runs (save_run (running_again run) store)

save_all-other :
    (runs : List StrategyRun) (store : Store) (r : StrategyRun)
    → includes_id r.id runs ≡ false
    → In r store.runs
    → In r (save_all runs store).runs
save_all-other [] store r h i = i
save_all-other (run ∷ runs) store r h i =
    save_all-other runs (save_run (running_again run) store) r (ground (arith, h)) (
      subst (λ z. In z (save_run (running_again run) store).runs) (ground (arith, h))
        (In-map (λ (x : StrategyRun). if x.id == run.id then running_again run else x) r store.runs
          i))

module _ {Q : Type 0} (queue : JobQueue Q) (stamp : String) where
  abbrev pub add_all : List RunStrategyJob → Q → Q
  add_all [] q = q
  add_all (job ∷ jobs) q = add_all jobs (queue.add job q)

  abbrev pub resume_job : Store → StrategyRun → RunStrategyJob
  resume_job store run = job_of run (date_of run store) false (JobIdSuffix.resume stamp)

  -- The loop queues exactly the released runs, in their order, and sets just their rows running.
  redispatch_lem :
      (still_held : List String) (runs : List StrategyRun) (store : Store) (q : Q)
      → redispatch queue stamp still_held runs store q ≡ (
        (
          length (released still_held runs),
          length (filter (λ r. stays_parked still_held r.model_name) runs),
        ),
        (
          save_all (released still_held runs) store,
          add_all (map (resume_job store) (released still_held runs)) q,
        ),
      )
  unfolding redispatch
  redispatch_lem still_held [] store q = refl
  redispatch_lem still_held (run ∷ runs) store q =
      elim (Bool-cases (stays_parked still_held run.model_name)) [
        | inl stays ↦ rw stays (rw (redispatch_lem still_held runs store q) refl)
        | inr free ↦ rw free (
            rw
              (redispatch_lem still_held runs (save_run (running_again run) store)
                (queue.add (resume_job store run) q))
              refl)
      ]

  redispatch-counts :
      (still_held : List String) (runs : List StrategyRun) (store : Store) (q : Q)
      → (redispatch queue stamp still_held runs store q).0.0
          + (redispatch queue stamp still_held runs store q).0.1
        ≡ length runs
  unfolding redispatch
  redispatch-counts still_held [] store q = omega arith
  redispatch-counts still_held (run ∷ runs) store q =
      elim (Bool-cases (stays_parked still_held run.model_name)) [
        | inl stays ↦ ground (arith, stays, redispatch-counts still_held runs store q)
        | inr free ↦
            let job : RunStrategyJob =
              job_of run (date_of run store) false (JobIdSuffix.resume stamp) in
            ground (
              arith,
              free,
              redispatch-counts still_held runs (save_run (running_again run) store)
                  (queue.add job q),
            )
      ]

  -- Every job in the queue after the loop was there or resumes one of the runs that are not held.
  redispatch-jobs :
      (still_held : List String) (states : List JobState) (runs : List StrategyRun) (store : Store)
      (q : Q) (e : RunStrategyJob)
      → In e (queue.jobs states (redispatch queue stamp still_held runs store q).1.1)
      → In e (queue.jobs states q)
        ⊎ ((run : StrategyRun) × In run runs
            × (stays_parked still_held run.model_name ≡ false)
            × (of_job e ≡ of_run run))
  unfolding redispatch
  redispatch-jobs still_held states [] store q e i = inl i
  redispatch-jobs still_held states (run ∷ runs) store q e i =
      let job : RunStrategyJob = job_of run (date_of run store) false (JobIdSuffix.resume stamp) in
      let swept : Q = (redispatch queue stamp still_held (run ∷ runs) store q).1.1 in
      elim (Bool-cases (stays_parked still_held run.model_name)) [
        | inl stays ↦
            let same : swept ≡ (redispatch queue stamp still_held runs store q).1.1 =
              ground (arith, stays) in
            elim (redispatch-jobs still_held states runs store q e
              (subst (λ z. In e (queue.jobs states z)) same i)) [
                | inl old ↦ inl old
                | inr (r, there, free, own) ↦ inr (r, inr there, free, own)
              ]
        | inr free ↦
            let after : Store = save_run (running_again run) store in
            let same : swept
                ≡ (redispatch queue stamp still_held runs after (queue.add job q)).1.1 =
              ground (arith, free) in
            elim (redispatch-jobs still_held states runs after (queue.add job q) e
              (subst (λ z. In e (queue.jobs states z)) same i)) [
                | inr (r, there, free_r, own) ↦ inr (r, inr there, free_r, own)
                | inl k ↦ elim (queue.jobs_add states job e q k) [
                  | inl old ↦ inl old
                  | inr new ↦ inr (run, inl refl, free, ap of_job new)
                ]
              ]
      ]

  -- The parked runs of the strategy whose models are not held after the sweep has cleared the holds.
  abbrev pub to_resume :
      SupportedStrategy → ℕ → List RateLimitHold → List StrategyRun → List StrategyRun
  to_resume strategy now kept runs =
      released (held_models strategy now kept) (filter (is_parked strategy) runs)

  -- A sweep of a pool with holds per model resumes exactly the parked runs of the strategy whose model
  -- has no live hold: it adds one job for each of them, in the order of the rows and for its own
  -- puzzle, trial number and model, and sets its row to running, and the row of a run that it does not
  -- resume stays as it was. It counts each parked run as resumed or skipped; each job in the queue
  -- afterwards was there before or resumes one of these runs; and another sweep is scheduled
  -- exactly when a run was skipped, no later than the schedule's longest delay.
  pub resume_model_pool_lem :
      (schedule : ResetSchedule) (strategy : SupportedStrategy) (now : ℕ)
      (holds : List RateLimitHold) (store : Store) (q : Q)
      → (((resume_model_pool queue stamp schedule strategy now holds store q).0.redispatched
            ≡ length (
                to_resume strategy now
                  (resume_model_pool queue stamp schedule strategy now holds store q).1.0
                  store.runs))
          × ((resume_model_pool queue stamp schedule strategy now holds store q).1.1 ≡ (
            save_all
                (to_resume strategy now
                  (resume_model_pool queue stamp schedule strategy now holds store q).1.0
                  store.runs)
                store,
            add_all
                (map (resume_job store) (
                  to_resume strategy now
                    (resume_model_pool queue stamp schedule strategy now holds store q).1.0
                    store.runs))
                q,
          ))
          × ((r : StrategyRun)
              → includes_id r.id (
                  to_resume strategy now
                    (resume_model_pool queue stamp schedule strategy now holds store q).1.0
                    store.runs)
                ≡ false
              → In r store.runs
              → In r
                  (resume_model_pool queue stamp schedule strategy now holds store q).1.1.0.runs))
        × ((resume_model_pool queue stamp schedule strategy now holds store q).0.redispatched
              + (resume_model_pool queue stamp schedule strategy now holds store q).0.skipped
            ≡ length (filter (is_parked strategy) store.runs))
        × ((states : List JobState) (e : RunStrategyJob)
            → In e (
                queue.jobs states
                  (resume_model_pool queue stamp schedule strategy now holds store q).1.1.1)
            → In e (queue.jobs states q)
              ⊎ ((run : StrategyRun) × In run store.runs
                  × Released strategy
                      (held_models strategy now
                        (resume_model_pool queue stamp schedule strategy now holds store q).1.0)
                      run
                  × (of_job e ≡ of_run run)))
        × (((resume_model_pool queue stamp schedule strategy now holds store q).0.skipped ≡ 0
              × ((resume_model_pool queue stamp schedule strategy now holds store q).0.rearmed_in_ms
                  ≡ none))
            ⊎ ((delay : ℕ) × ((resume_model_pool queue stamp schedule strategy now holds store
                    q).0.rearmed_in_ms
                  ≡ some delay)
                × (delay ≤ rearm_cap schedule)
                × (0
                    < (resume_model_pool queue stamp schedule strategy now holds store
                        q).0.skipped)))
  unfolding resume_model_pool rearm
  resume_model_pool_lem schedule strategy now holds store q =
      let kept : List RateLimitHold = (clear_expired (some strategy) now holds).1 in
      let held : List String = held_models strategy now kept in
      let parked : List StrategyRun = filter (is_parked strategy) store.runs in
      let skipped : ℕ = (redispatch queue stamp held parked store q).0.1 in
      let swept = redispatch_lem held parked store q in
      (
        (
          ap (λ (z : (ℕ × ℕ) × (Store × Q)). z.0.0) swept,
          ap (λ (z : (ℕ × ℕ) × (Store × Q)). z.1) swept,
          λ r other i.
              subst (λ (z : (ℕ × ℕ) × (Store × Q)). In r z.1.0.runs) (sym swept)
                (save_all-other (released held parked) store r other i),
        ),
        redispatch-counts held parked store q,
        λ states e i. elim (redispatch-jobs held states parked store q e i) [
          | inl old ↦ inl old
          | inr (run, there, free, own) ↦
              let (is_run, parked_run) = In-filter (is_parked strategy) run store.runs there in
              inr (run, is_run, (parked_run, stays_parked-false held run.model_name free), own)
        ],
        elim (Bool-cases (skipped == 0)) [
          | inl all_queued ↦ inl (ground (arith, all_queued), ground (arith, all_queued))
          | inr some_left ↦ inr (
            rearm schedule strategy now kept,
            ground (arith, some_left),
            ground arith,
            ground (arith, some_left),
          )
        ],
      )
