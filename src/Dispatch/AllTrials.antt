-- ===== src/Dispatch/AllTrials.antt =====
-- What a dispatch reads of the trials of its puzzle and strategy, and what is held of them
-- (backend/src/modules/strategy/strategy-dispatch.service.ts).
use connections.Base.{
  ℕ, ◌<◌, String, ◌≡◌, refl, sym, ap, ◌∙◌, subst, inl, inr, true, Option, some, List, [], ◌++◌, map,
  arith, ==_iff, filter, length, In, In-left, In-right, In-split, In-filter, filter-In, In-map,
  In-map-source,
}
use connections.Strategy.{StrategyRun, SupportedStrategy}
use connections.RunStore.{Store}
use connections.RunStore.Creation.{same_strategy-same}
use connections.Dispatch.Queue.{JobState, RunStrategyJob, JobQueue, collect, queue_page_size}
use connections.Dispatch.Paging.{collect_lem}
use connections.Dispatch.Trials.{
  QueuedTrial, TrialReads, add_queued, trial_of, queued_trials, read_trials, is_trial_of, is_row_of,
  pending_states, active_states,
}
use connections.Dispatch.Numbers.{Reserved, of_run, of_job, same_strategy→eq, Consistent}
use connections.Dispatch.TrialMap.{run_trial, all_trials, Agrees, lookup, lookup-add_queued}
use connections.Dispatch.Steps.{
  trial_from, is_of_puzzle, Covers, reserved, Held, by_run, by_job, reserved-Held, Held-reserved,
}

module _ (puzzle_id : ℕ) (strategy : SupportedStrategy) where
  abbrev pub held_as : QueuedTrial → Reserved
  held_as t = record {
    puzzle_id = puzzle_id;
    strategy_name = strategy;
    trial_number = t.trial_number;
    model = t.model;
  }

  held_as-is_of_puzzle : (t : QueuedTrial) → is_of_puzzle puzzle_id strategy (held_as t) ≡ true
  held_as-is_of_puzzle t =
      ground (arith, same_strategy-same strategy, (==_iff puzzle_id puzzle_id).1 refl)

  is_of_puzzle→held_as :
      (e : Reserved) → is_of_puzzle puzzle_id strategy e ≡ true → e ≡ held_as (trial_from e)
  is_of_puzzle→held_as e h = ground (
    arith,
    (==_iff e.puzzle_id puzzle_id).0 (ground (arith, h)),
    same_strategy→eq e.strategy_name strategy (ground (arith, h)),
  )

module _ {Q : Type 0} (queue : JobQueue Q) (puzzle_id : ℕ) (strategy : SupportedStrategy) where
  -- The model of a number that is held for it is the one it is mapped to.
  pub lookup-all_trials :
      (reads : TrialReads) (store : Store) (q : Q) (n : ℕ) (m : Option String)
      → Agrees reads
      → Covers queue reads puzzle_id strategy store q
      → In
          (held_as puzzle_id strategy (record { trial_number = n; model = m }))
          (reserved queue store q)
      → lookup n (add_queued (all_trials reads) []) ≡ some m
  lookup-all_trials reads store q n m agrees covers i =
      let own : QueuedTrial = record { trial_number = n; model = m } in
      let there : In own (all_trials reads) =
        covers (held_as puzzle_id strategy own) i (held_as-is_of_puzzle puzzle_id strategy own) in
      lookup-add_queued n m (all_trials reads) [] (λ t j same. agrees t own j there same)
        (inl (own, there, refl))

  abbrev jobs_of : List JobState → Q → List QueuedTrial
  jobs_of states q = map trial_of (filter (is_trial_of puzzle_id strategy) (queue.jobs states q))

  -- The jobs that are read are the queue's.
  queued_trials-jobs_of :
      (fuel : ℕ) (states : List JobState) (q : Q) (t : QueuedTrial)
      → length (queue.jobs states q) < fuel
      → (In t (queued_trials queue fuel states puzzle_id strategy q) → In t (jobs_of states q))
        × (In t (jobs_of states q) → In t (queued_trials queue fuel states puzzle_id strategy q))
  unfolding queued_trials
  queued_trials-jobs_of fuel states q t h =
      let read : List RunStrategyJob =
        collect queue queue_page_size (is_trial_of puzzle_id strategy) fuel states 0 q in
      let all : List RunStrategyJob =
        filter (is_trial_of puzzle_id strategy) (queue.jobs states q) in
      let same = collect_lem queue (is_trial_of puzzle_id strategy) 999 fuel states q h in
      (
        λ i.
            let (job, k, e) = In-map-source trial_of t read i in
            subst (λ z. In z (map trial_of all)) e (In-map trial_of job all ((same.1 job).0 k)),
        λ i.
            let (job, k, e) = In-map-source trial_of t all i in
            subst (λ z. In z (map trial_of read)) e (In-map trial_of job read ((same.1 job).1 k)),
      )

  -- Reads that are made while neither the rows nor the queue change.
  abbrev pub at_once : ℕ → Store → Q → TrialReads
  at_once fuel store q = read_trials queue fuel puzzle_id strategy store.runs q q

  -- They cover what is held then.
  pub at_once-Covers :
      (fuel : ℕ) (store : Store) (q : Q)
      → length (queue.jobs pending_states q) < fuel
      → length (queue.jobs active_states q) < fuel
      → Covers queue (at_once fuel store q) puzzle_id strategy store q
  unfolding read_trials
  at_once-Covers fuel store q enough enough' e i k =
      let rows : List QueuedTrial =
        map run_trial (filter (is_row_of puzzle_id strategy) store.runs) in
      let pending : List QueuedTrial =
        queued_trials queue fuel pending_states puzzle_id strategy q in
      let active : List QueuedTrial = queued_trials queue fuel active_states puzzle_id strategy q in
      let moved : (x : Reserved) → x ≡ e → is_of_puzzle puzzle_id strategy x ≡ true =
        λ x same. subst (λ z. is_of_puzzle puzzle_id strategy z ≡ true) (sym same) k in
      elim (reserved-Held queue store q e i) [
        | by_run run there same ↦
            subst (λ z. In (trial_from z) (rows ++ (pending ++ active))) same
              (In-left (run_trial run) rows (pending ++ active) (
                In-map run_trial run (filter (is_row_of puzzle_id strategy) store.runs) (
                  filter-In (is_row_of puzzle_id strategy) run store.runs there
                    (moved (of_run run) same))))
        | by_job job there same ↦
            subst (λ z. In (trial_from z) (rows ++ (pending ++ active))) same
              (In-right (trial_of job) rows (pending ++ active) (elim there [
                | inl p ↦ In-left (trial_of job) pending active (
                    (queued_trials-jobs_of fuel pending_states q (trial_of job) enough).1 (
                      In-map trial_of job
                        (filter (is_trial_of puzzle_id strategy) (queue.jobs pending_states q))
                        (filter-In (is_trial_of puzzle_id strategy) job
                          (queue.jobs pending_states q) p (moved (of_job job) same))))
                | inr a ↦ In-right (trial_of job) pending active (
                    (queued_trials-jobs_of fuel active_states q (trial_of job) enough').1 (
                      In-map trial_of job
                        (filter (is_trial_of puzzle_id strategy) (queue.jobs active_states q))
                        (filter-In (is_trial_of puzzle_id strategy) job (queue.jobs active_states q)
                          a (moved (of_job job) same))))
              ]))
      ]

  jobs_of-Held :
      (states : List JobState) (q : Q) (t : QueuedTrial)
      → In t (jobs_of states q)
      → (job : RunStrategyJob) × In job (queue.jobs states q)
        × (of_job job ≡ held_as puzzle_id strategy t)
  jobs_of-Held states q t i =
      let (job, k, e) =
        In-map-source trial_of t (filter (is_trial_of puzzle_id strategy) (queue.jobs states q))
          i in
      let (there, test) = In-filter (is_trial_of puzzle_id strategy) job (queue.jobs states q) k in
      (
        job,
        there,
        is_of_puzzle→held_as puzzle_id strategy (of_job job) test
            ∙ ap (held_as puzzle_id strategy) e,
      )

  at_once-Held :
      (fuel : ℕ) (store : Store) (q : Q) (t : QueuedTrial)
      → length (queue.jobs pending_states q) < fuel
      → length (queue.jobs active_states q) < fuel
      → In t (all_trials (at_once fuel store q))
      → Held queue store q (held_as puzzle_id strategy t)
  unfolding read_trials
  at_once-Held fuel store q t enough enough' i =
      let chosen : List StrategyRun = filter (is_row_of puzzle_id strategy) store.runs in
      let pending : List QueuedTrial =
        queued_trials queue fuel pending_states puzzle_id strategy q in
      let active : List QueuedTrial = queued_trials queue fuel active_states puzzle_id strategy q in
      elim (In-split t (map run_trial chosen) (pending ++ active) i) [
        | inl r ↦
            let (run, k, e) = In-map-source run_trial t chosen r in
            let (there, test) = In-filter (is_row_of puzzle_id strategy) run store.runs k in
            by_run run there (
              is_of_puzzle→held_as puzzle_id strategy (of_run run) test
              ∙ ap (held_as puzzle_id strategy) e)
        | inr j ↦ elim (In-split t pending active j) [
          | inl p ↦
              let (job, there, e) =
                jobs_of-Held pending_states q t
                  ((queued_trials-jobs_of fuel pending_states q t enough).0 p) in
              by_job job (inl there) e
          | inr a ↦
              let (job, there, e) =
                jobs_of-Held active_states q t
                  ((queued_trials-jobs_of fuel active_states q t enough').0 a) in
              by_job job (inr there) e
        ]
      ]

  -- And no number is read for two models when none is held for two.
  pub at_once-Agrees :
      (fuel : ℕ) (store : Store) (q : Q)
      → length (queue.jobs pending_states q) < fuel
      → length (queue.jobs active_states q) < fuel
      → Consistent (reserved queue store q)
      → Agrees (at_once fuel store q)
  at_once-Agrees fuel store q enough enough' c t u i j same =
      c (held_as puzzle_id strategy t) (held_as puzzle_id strategy u)
        (Held-reserved queue store q (held_as puzzle_id strategy t)
          (at_once-Held fuel store q t enough enough' i))
        (Held-reserved queue store q (held_as puzzle_id strategy u)
          (at_once-Held fuel store q u enough enough' j))
        (ground (
          arith,
          same_strategy-same strategy,
          (==_iff puzzle_id puzzle_id).1 refl,
          (==_iff t.trial_number u.trial_number).1 same,
        ))
