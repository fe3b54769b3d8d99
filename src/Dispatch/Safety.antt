-- ===== src/Dispatch/Safety.antt =====
-- Any order of dispatches, workers and maintenance keeps the trial numbers of models apart
-- (backend/src/modules/strategy/strategy-dispatch.service.ts and strategy-run-store.service.ts).
use connections.Base.{
  ℕ, ◌≡◌, refl, subst, inl, inr, true, Option, some, arith, ◌==◌, Option-cases, find?, In,
}
use connections.Puzzle.{Puzzle}
use connections.Strategy.{StrategyRun}
use connections.RunStore.{
  Store, ok, LocaleCompare, load_or_create_run, same_model, is_run_of, new_run,
}
use connections.RunStore.Creation.{same_model-same}
use connections.Dispatch.Queue.{RunStrategyJob, JobQueue}
use connections.Dispatch.Trials.{active_states}
use connections.Dispatch.Numbers.{of_run, of_job, Consistent}
use connections.Dispatch.Spec.{Capped, Effect-Consistent, Effect-Capped}
use connections.Dispatch.Steps.{Steps, here, next, reserved, by_run, by_job, Held-reserved}
use connections.Dispatch.Moves.{find?-In}
use connections.Dispatch.Refinement.{Step-Effect}

module _ {Q : Type 0} (queue : JobQueue Q) where
  pub Steps-Consistent :
      (limit : ℕ) (locale : LocaleCompare) {s t : Store × Q}
      → Steps queue limit locale s t
      → Consistent (reserved queue s.0 s.1)
      → Consistent (reserved queue t.0 t.1)
  Steps-Consistent limit locale here c = c
  Steps-Consistent limit locale {s = s} {t = u} (next {t = t} steps step) c =
      let before : Consistent (reserved queue t.0 t.1) = Steps-Consistent limit locale steps c in
      Effect-Consistent limit (reserved queue t.0 t.1) (reserved queue u.0 u.1)
        (Step-Effect queue limit locale t u step) before

  -- Let the reads of each dispatch cover what is held when it adds its job, and give no number to two
  -- models. When no trial number is held for two models and no model holds more than `limit` trial numbers
  -- of a puzzle and strategy, then neither comes about in any sequence of dispatches, retries,
  -- resumptions, loads and creations of runs, saves, deletions and moves of the queue's jobs.
  pub Steps-Capped :
      (limit : ℕ) (locale : LocaleCompare) {s t : Store × Q}
      → Steps queue limit locale s t
      → Consistent (reserved queue s.0 s.1)
      → Capped limit (reserved queue s.0 s.1)
      → Consistent (reserved queue t.0 t.1) × Capped limit (reserved queue t.0 t.1)
  Steps-Capped limit locale here c k = (c, k)
  Steps-Capped limit locale {s = s} {t = u} (next {t = t} steps step) c k =
      let before : Consistent (reserved queue t.0 t.1) × Capped limit (reserved queue t.0 t.1) =
        Steps-Capped limit locale steps c k in
      let effect = Step-Effect queue limit locale t u step in
      (
        Effect-Consistent limit (reserved queue t.0 t.1) (reserved queue u.0 u.1) effect before.0,
        Effect-Capped limit (reserved queue t.0 t.1) (reserved queue u.0 u.1) effect before.1,
      )

  -- A worker gets the run of its job's own model.
  works-model :
      (locale : LocaleCompare) (job : RunStrategyJob) (window : Option ℕ) (store : Store) (q : Q)
      (puzzle : Puzzle)
      → Consistent (reserved queue store q)
      → In job (queue.jobs active_states q)
      → find? (λ (p : Puzzle). p.id == job.puzzle_id) store.puzzles ≡ some puzzle
      → (run : StrategyRun) × ((load_or_create_run locale job.puzzle_id job.strategy_name
            job.trial_number job.model window job.budget_tier store).0
          ≡ ok (run, puzzle))
        × (run.model_name ≡ job.model)
  unfolding load_or_create_run
  works-model locale job window store q puzzle c i found =
      elim (Option-cases
        (find? (is_run_of job.puzzle_id job.strategy_name job.trial_number) store.runs)) [
          | inl new ↦ (
            new_run locale puzzle job.strategy_name job.trial_number job.model window
                job.budget_tier store.next_run_id,
            ground (arith, found, new),
            refl,
          )
          | inr (run, there) ↦
              let (k, test) =
                find?-In (is_run_of job.puzzle_id job.strategy_name job.trial_number) store.runs run
                  there in
              let own : run.model_name ≡ job.model =
                c (of_run run) (of_job job)
                  (Held-reserved queue store q (of_run run) (by_run run k refl))
                  (Held-reserved queue store q (of_job job) (by_job job (inr i) refl)) test in
              let same : same_model run.model_name job.model ≡ true =
                subst (λ m. same_model run.model_name m ≡ true) own
                  (same_model-same run.model_name) in
              (run, ground (arith, found, there, same), own)
        ]

  -- Let the reads of each dispatch cover what is held when it adds its job, and give no number to two
  -- models, and let no trial number be held for two models. After any sequence of dispatches of LLM trials,
  -- retries, resumptions, loads and creations of runs, saves, deletions and moves of the queue's
  -- jobs, a worker that takes up an active job whose puzzle exists gets a run of the job's own
  -- model: it never meets a row that another model's trial wrote under the same number.
  pub Steps-works :
      (limit : ℕ) (locale : LocaleCompare) {s t : Store × Q} (job : RunStrategyJob)
      (window : Option ℕ) (puzzle : Puzzle)
      → Consistent (reserved queue s.0 s.1)
      → Steps queue limit locale s t
      → In job (queue.jobs active_states t.1)
      → find? (λ (p : Puzzle). p.id == job.puzzle_id) t.0.puzzles ≡ some puzzle
      → (run : StrategyRun) × ((load_or_create_run locale job.puzzle_id job.strategy_name
            job.trial_number job.model window job.budget_tier t.0).0
          ≡ ok (run, puzzle))
        × (run.model_name ≡ job.model)
  Steps-works limit locale {s = s} {t = t} job window puzzle c steps i found =
      works-model locale job window t.0 t.1 puzzle (Steps-Consistent limit locale steps c) i found
