-- ===== src/Dispatch/Steps.antt =====
-- What dispatching, working and maintenance do to the trial numbers that rows and queued jobs hold,
-- in any order (backend/src/modules/strategy/strategy-dispatch.service.ts and
-- strategy-run-store.service.ts).
use connections.Base.{
  ℕ, String, ◌≡◌, sym, ap, ◌∙◌, subst, ◌⊎◌, inl, inr, Option, List, ◌++◌, Bool, true, ◌&&◌, map,
  ◌==◌, if◌then◌else◌, Bool-cases, In, In-left, In-right, In-split, In-map, In-map-source,
}
use connections.Strategy.{StrategyRun, SupportedStrategy, FreeTierId}
use connections.RunStore.{
  same_strategy, Store, LocaleCompare, load_or_create_run, delete_run, save_run,
}
use connections.Dispatch.Queue.{RunStrategyJob, JobQueue}
use connections.Dispatch.Trials.{
  QueuedTrial, TrialReads, pending_states, active_states, trigger_next_llm_trial,
}
use connections.Dispatch.TrialMap.{all_trials, Agrees}
use connections.Dispatch.Runs.{retry_run, resume_budget_parked_runs}
use connections.Dispatch.Numbers.{Reserved, of_run, of_job}

abbrev pub trial_from : Reserved → QueuedTrial
trial_from e = record { trial_number = e.trial_number; model = e.model }

abbrev pub is_of_puzzle : ℕ → SupportedStrategy → Reserved → Bool
is_of_puzzle puzzle_id strategy e =
    (e.puzzle_id == puzzle_id) && same_strategy e.strategy_name strategy

module _ {Q : Type 0} (queue : JobQueue Q) where
  abbrev pub reserved : Store → Q → List Reserved
  reserved store q =
      map of_run store.runs
      ++ (map of_job (queue.jobs pending_states q) ++ map of_job (queue.jobs active_states q))

  -- What is held for the puzzle and the strategy is among what a dispatch has read.
  abbrev pub Covers : TrialReads → ℕ → SupportedStrategy → Store → Q → Type 0
  Covers reads puzzle_id strategy store q =
      (e : Reserved)
      → In e (reserved store q)
      → is_of_puzzle puzzle_id strategy e ≡ true
      → In (trial_from e) (all_trials reads)

  pub data Step (limit : ℕ) (locale : LocaleCompare) : Store × Q → Store × Q → Type 0 where
    -- A dispatch adds one more trial, on what it has read before under its lock. The workers do not take
    -- the lock: the step is one in which what was read still covers what is held.
    triggers :
        (puzzle_id : ℕ) (strategy : SupportedStrategy) (date model : String)
        (tier : Option FreeTierId) (reads : TrialReads) (store : Store) (q : Q)
        → Agrees reads
        → Covers reads puzzle_id strategy store q
        → Step limit locale
            (store, q)
            (
              store,
              (trigger_next_llm_trial queue limit puzzle_id strategy date model tier reads q).1,
            )
    retries :
        (now id : ℕ) (store : Store) (q : Q)
        → Step limit locale (store, q) (retry_run queue now id store q).1
    resumes :
        (now : ℕ) (strategy : SupportedStrategy) (tier : FreeTierId) (models : List String) (n : ℕ)
        (store : Store) (q : Q)
        → Step limit locale
            (store, q)
            (resume_budget_parked_runs queue now strategy tier models n store q).1
    -- A worker takes up an active job and loads its run, or writes its row.
    works :
        (job : RunStrategyJob) (window : Option ℕ) (store : Store) (q : Q)
        → In job (queue.jobs active_states q)
        → Step limit locale
            (store, q)
            (
              (load_or_create_run locale job.puzzle_id job.strategy_name job.trial_number job.model
                  window job.budget_tier store).1,
              q,
            )
    -- A worker saves the row of its run, whose puzzle, strategy, trial and model it never changes.
    saves :
        (run : StrategyRun) (store : Store) (q : Q)
        → In (of_run run) (map of_run store.runs)
        → Step limit locale (store, q) (save_run run store, q)
    deletes :
        (id : ℕ) (store : Store) (q : Q) → Step limit locale (store, q) ((delete_run id store).1, q)
    -- The queue moves its jobs between the states, or removes finished ones.
    moves :
        (store : Store) (q q' : Q)
        → ((job : RunStrategyJob)
            → In job (queue.jobs pending_states q') ⊎ In job (queue.jobs active_states q')
            → In job (queue.jobs pending_states q) ⊎ In job (queue.jobs active_states q))
        → Step limit locale (store, q) (store, q')

  pub data Steps (limit : ℕ) (locale : LocaleCompare) (s : Store × Q) : Store × Q → Type 0 where
    here : Steps limit locale s s
    next :
        {t u : Store × Q} → Steps limit locale s t → Step limit locale t u → Steps limit locale s u

  -- Where a held trial number comes from.
  pub data Held (store : Store) (q : Q) (e : Reserved) : Type 0 where
    by_run : (run : StrategyRun) → In run store.runs → of_run run ≡ e → Held store q e
    by_job :
        (job : RunStrategyJob)
        → In job (queue.jobs pending_states q) ⊎ In job (queue.jobs active_states q)
        → of_job job ≡ e
        → Held store q e

  pub reserved-Held :
      (store : Store) (q : Q) (e : Reserved) → In e (reserved store q) → Held store q e
  reserved-Held store q e i =
      elim (In-split e (map of_run store.runs)
        (map of_job (queue.jobs pending_states q) ++ map of_job (queue.jobs active_states q)) i) [
          | inl r ↦ let (run, k, h) = In-map-source of_run e store.runs r in by_run run k h
          | inr j ↦
              elim (In-split e (map of_job (queue.jobs pending_states q))
                (map of_job (queue.jobs active_states q)) j) [
                  | inl p ↦
                      let (job, k, h) = In-map-source of_job e (queue.jobs pending_states q) p in
                      by_job job (inl k) h
                  | inr a ↦
                      let (job, k, h) = In-map-source of_job e (queue.jobs active_states q) a in
                      by_job job (inr k) h
                ]
        ]

  pub Held-reserved :
      (store : Store) (q : Q) (e : Reserved) → Held store q e → In e (reserved store q)
  Held-reserved store q e (by_run run i h) =
      subst (λ z. In z (reserved store q)) h
        (In-left (of_run run) (map of_run store.runs)
          (map of_job (queue.jobs pending_states q) ++ map of_job (queue.jobs active_states q))
          (In-map of_run run store.runs i))
  Held-reserved store q e (by_job job (inl i) h) =
      subst (λ z. In z (reserved store q)) h
        (In-right (of_job job) (map of_run store.runs)
          (map of_job (queue.jobs pending_states q) ++ map of_job (queue.jobs active_states q))
          (In-left (of_job job) (map of_job (queue.jobs pending_states q))
            (map of_job (queue.jobs active_states q))
            (In-map of_job job (queue.jobs pending_states q) i)))
  Held-reserved store q e (by_job job (inr i) h) =
      subst (λ z. In z (reserved store q)) h
        (In-right (of_job job) (map of_run store.runs)
          (map of_job (queue.jobs pending_states q) ++ map of_job (queue.jobs active_states q))
          (In-right (of_job job) (map of_job (queue.jobs pending_states q))
            (map of_job (queue.jobs active_states q))
            (In-map of_job job (queue.jobs active_states q) i)))

  -- What adding a job holds beyond what was held is the job's own trial.
  pub Held-add :
      (store : Store) (q : Q) (job : RunStrategyJob) (e : Reserved)
      → Held store (queue.add job q) e
      → Held store q e ⊎ (e ≡ of_job job)
  Held-add store q job e (by_run run i h) = inl (by_run run i h)
  Held-add store q job e (by_job j (inl i) h) = elim (queue.jobs_add pending_states job j q i) [
    | inl old ↦ inl (by_job j (inl old) h)
    | inr new ↦ inr (sym h ∙ ap of_job new)
  ]
  Held-add store q job e (by_job j (inr i) h) = elim (queue.jobs_add active_states job j q i) [
    | inl old ↦ inl (by_job j (inr old) h)
    | inr new ↦ inr (sym h ∙ ap of_job new)
  ]

  -- Saving a row holds no more than the row's own trial beyond what was held.
  pub Held-save :
      (run : StrategyRun) (store : Store) (q : Q) (e : Reserved)
      → Held (save_run run store) q e
      → Held store q e ⊎ (e ≡ of_run run)
  Held-save run store q e (by_job j i h) = inl (by_job j i h)
  Held-save run store q e (by_run r i h) =
      let (old, there, same) =
        In-map-source (λ (r : StrategyRun). if r.id == run.id then run else r) r store.runs i in
      elim (Bool-cases (old.id == run.id)) [
        | inl at ↦
            let is_run : run ≡ r = subst (λ b. (if b then run else old) ≡ r) at same in
            inr (sym (ap of_run is_run ∙ h))
        | inr other ↦
            let is_old : old ≡ r = subst (λ b. (if b then run else old) ≡ r) other same in
            inl (by_run old there (ap of_run is_old ∙ h))
      ]
