-- ===== src/Dispatch/Refinement.antt =====
-- The dispatch operations do what their specification promises
-- (backend/src/modules/strategy/strategy-dispatch.service.ts).
use connections.Base.{
  ℕ, ◌+◌, ◌≤◌, ◌<◌, String, ◌≡◌, refl, subst, ◌⊎◌, inl, inr, Bool, false, Option, some, List, [],
  ◌∷◌, arith, leb, ◌==◌, Bool-cases, any, In, All,
}
use connections.Strategy.{SupportedStrategy, FreeTierId}
use connections.RunStore.{
  Store, LocaleCompare, same_model, load_or_create_run, save_run, delete_run,
}
use connections.Dispatch.Runs.{retry_run, resume_budget_parked_runs}
use connections.Dispatch.Queue.{RunStrategyJob, JobQueue}
use connections.Dispatch.Trials.{
  QueuedTrial, TrialModels, TrialReads, greatest_trial, trial_models, llm_job,
  trigger_next_llm_trial, model_run_count, pending_states, active_states,
}
use connections.Dispatch.Numbers.{Reserved, of_job, same_trial}
use connections.Dispatch.TrialMap.{
  all_trials, Agrees, trial_models_lem, greatest-In, lookup, distinct-count,
}
use connections.Dispatch.Spec.{Effect, forgets, reserves, Holds}
use connections.Dispatch.Steps.{
  trial_from, is_of_puzzle, Covers, Step, triggers, retries, resumes, works, saves, deletes, moves,
  reserved, Held, by_run, by_job, reserved-Held, Held-reserved, Held-add,
}
use connections.Dispatch.AllTrials.{lookup-all_trials}
use connections.Dispatch.Moves.{
  retry_run-Held, resume_budget_parked_runs-Held, save_run-Held, delete_run-Held,
  load_or_create_run-Held,
}

module _ {Q : Type 0} (queue : JobQueue Q) where
  -- A dispatch queues nothing, or one trial with the next number for a model below its cap.
  trigger-cases :
      (limit puzzle_id : ℕ) (strategy : SupportedStrategy) (date model : String)
      (tier : Option FreeTierId) (reads : TrialReads) (q : Q)
      → ((trigger_next_llm_trial queue limit puzzle_id strategy date model tier reads q).1 ≡ q)
        ⊎ ((model_run_count model (trial_models reads) < limit)
            × ((trigger_next_llm_trial queue limit puzzle_id strategy date model tier reads q).1
                ≡ queue.add
                    (llm_job puzzle_id strategy date model tier
                      (greatest_trial (trial_models reads) + 1))
                    q))
  unfolding trigger_next_llm_trial
  trigger-cases limit puzzle_id strategy date model tier reads q =
      let trials : TrialModels = trial_models reads in
      let waits : Bool = any (λ (t : QueuedTrial). same_model t.model (some model)) reads.pending in
      elim (Bool-cases waits) [
        | inl there ↦ inl (rw there refl)
        | inr none_waits ↦ elim (Bool-cases (leb limit (model_run_count model trials))) [
          | inl full ↦ inl (rw none_waits (rw full refl))
          | inr room ↦ inr (ground (arith, room), rw none_waits (rw room refl))
        ]
      ]

  module _ (puzzle_id : ℕ) (strategy : SupportedStrategy) (model : String) (reads : TrialReads)
      (store : Store) (q : Q) (agrees : Agrees reads)
      (covers : Covers queue reads puzzle_id strategy store q) where
    abbrev trials : TrialModels
    trials = trial_models reads

    abbrev trial_for : ℕ → Reserved
    trial_for n = record {
      puzzle_id = puzzle_id;
      strategy_name = strategy;
      trial_number = n;
      model = some model;
    }

    -- No row and no job holds the next number of the puzzle and the strategy.
    next-free :
        (e : Reserved)
        → In e (reserved queue store q)
        → same_trial e (trial_for (greatest_trial trials + 1)) ≡ false
    next-free e i = elim (Bool-cases (is_of_puzzle puzzle_id strategy e)) [
      | inr other ↦ ground (arith, other)
      | inl here ↦
          let le : e.trial_number ≤ greatest_trial trials =
            rw (trial_models_lem reads)
              (greatest-In (trial_from e) (all_trials reads) [] (covers e i here)) in
          let ne : (e.trial_number == greatest_trial trials + 1) ≡ false = ground (arith, le) in
          ground (arith, here, ne)
    ]

    -- Numbers that are held for the model are mapped to it.
    held-mapped :
        (k : ℕ) (ns : List ℕ)
        → Holds (reserved queue store q) (trial_for k) ns
        → All (λ n. lookup n trials ≡ some (some model)) ns
    held-mapped k [] h = tt
    held-mapped k (n ∷ ns) (i, h) = (
      rw (trial_models_lem reads)
          (lookup-all_trials queue puzzle_id strategy reads store q n (some model) agrees covers i),
      held-mapped k ns h,
    )

  triggers-Effect :
      (limit puzzle_id : ℕ) (strategy : SupportedStrategy) (date model : String)
      (tier : Option FreeTierId) (reads : TrialReads) (store : Store) (q : Q)
      → Agrees reads
      → Covers queue reads puzzle_id strategy store q
      → Effect limit (reserved queue store q) (
          reserved queue store
            (trigger_next_llm_trial queue limit puzzle_id strategy date model tier reads q).1)
  triggers-Effect limit puzzle_id strategy date model tier reads store q agrees covers =
      let next : ℕ = greatest_trial (trial_models reads) + 1 in
      let job : RunStrategyJob = llm_job puzzle_id strategy date model tier next in
      elim (trigger-cases limit puzzle_id strategy date model tier reads q) [
        | inl same ↦ forgets (λ e i. subst (λ r. In e (reserved queue store r)) same i)
        | inr (room, added) ↦
            reserves (of_job job)
              (λ e i.
                elim (Held-add queue store q job e (
                  reserved-Held queue store (queue.add job q) e
                    (subst (λ r. In e (reserved queue store r)) added i))) [
                      | inl old ↦ inl (Held-reserved queue store q e old)
                      | inr new ↦ inr new
                    ])
              (λ e i. next-free puzzle_id strategy model reads store q agrees covers e i)
              (λ ns d h.
                let le =
                  distinct-count model (trial_models reads) ns d
                    (held-mapped puzzle_id strategy model reads store q agrees covers next ns h) in
                omega (arith, le, room))
      ]

  -- What is held after a step was held before it, as far as the step holds nothing new.
  Held-forgets :
      (limit : ℕ) (store after : Store) (q q' : Q)
      → ((e : Reserved) → Held queue after q' e → Held queue store q e)
      → Effect limit (reserved queue store q) (reserved queue after q')
  Held-forgets limit store after q q' h =
      forgets (λ e i. Held-reserved queue store q e (h e (reserved-Held queue after q' e i)))

  moves-Held :
      (store : Store) (q q' : Q) (e : Reserved)
      → ((job : RunStrategyJob)
          → In job (queue.jobs pending_states q') ⊎ In job (queue.jobs active_states q')
          → In job (queue.jobs pending_states q) ⊎ In job (queue.jobs active_states q))
      → Held queue store q' e
      → Held queue store q e
  moves-Held store q q' e h (by_run run i k) = by_run run i k
  moves-Held store q q' e h (by_job job i k) = by_job job (h job i) k

  -- Let each dispatch act on reads that cover the trials held for its puzzle and strategy when it
  -- adds its job, and in which no trial number stands for two models, as reads that are made at one
  -- moment do. Then each dispatch of a trial, retry, resumption of parked runs, load or creation of a
  -- run, save, deletion and move of the queue's jobs either holds nothing that was not held, or
  -- holds one more trial number, which no row and no job of the puzzle and the strategy held, for a
  -- model that held fewer than the limit.
  pub Step-Effect :
      (limit : ℕ) (locale : LocaleCompare) (s t : Store × Q)
      → Step queue limit locale s t
      → Effect limit (reserved queue s.0 s.1) (reserved queue t.0 t.1)
  Step-Effect limit locale s t
        (triggers puzzle_id strategy date model tier reads store q agrees covers) =
      triggers-Effect limit puzzle_id strategy date model tier reads store q agrees covers
  Step-Effect limit locale s t (retries now id store q) =
      Held-forgets limit store (retry_run queue now id store q).1.0 q
        (retry_run queue now id store q).1.1 (retry_run-Held queue now id store q)
  Step-Effect limit locale s t (resumes now strategy tier models n store q) =
      let after : Store × Q =
        (resume_budget_parked_runs queue now strategy tier models n store q).1 in
      Held-forgets limit store after.0 q after.1
        (resume_budget_parked_runs-Held queue now strategy tier models n store q)
  Step-Effect limit locale s t (works job window store q i) =
      Held-forgets limit store
        (load_or_create_run locale job.puzzle_id job.strategy_name job.trial_number job.model window
          job.budget_tier store).1
        q q (λ e h. load_or_create_run-Held queue locale job window store q e i h)
  Step-Effect limit locale s t (saves run store q i) =
      Held-forgets limit store (save_run run store) q q
        (λ e h. save_run-Held queue run store q e i h)
  Step-Effect limit locale s t (deletes id store q) =
      Held-forgets limit store (delete_run id store).1 q q (delete_run-Held queue id store q)
  Step-Effect limit locale s t (moves store q q' h) =
      Held-forgets limit store store q q' (λ e k. moves-Held store q q' e h k)
