-- ===== src/DailyAutomation/Records.antt =====
-- What a day's automatic run leaves in its log
-- (backend/src/modules/automation/daily-automation.service.ts).
use connections.Base.{
  ℕ, String, ◌≡◌, refl, sym, ap, ◌∙◌, subst, ◌⊎◌, inl, inr, Bool, true, false, Option, none, some,
  arith,
}
use connections.Strategy.{FreeTierId}
use connections.ProviderPool.{ProviderPoolId}
use connections.DailyAutomation.{
  AutomationRunLog, Call, LegEnd, Services, set_refreshed, set_refresh_error, set_judged,
  set_judge_error, triggered, and_then, leg, run_metadata_refresh_leg, run_judge_leg, run_burn_legs,
  run_legs, run,
}
use connections.DailyAutomation.Legs.{
  Sum-cases, and_then-done, Aborts, LogThrows, Counted, leg-done, leg-Aborts, and_then-Aborts,
}
use connections.DailyAutomation.Burns.{
  TierReports, PoolReports, Burns, run_burn_legs-Burns, run_burn_legs-Aborts,
}

triggered-now :
    (now : ℕ) (today : Option AutomationRunLog) → (triggered now today).triggered_at ≡ now
triggered-now now none = refl
triggered-now now (some log) = refl

module _ {W : Type 0} (services : Services W) where
  leg-Counted :
      (call : Call W ℕ) (set : ℕ → AutomationRunLog → AutomationRunLog)
      (on_error : String → AutomationRunLog → AutomationRunLog)
      (put : Option ℕ → Option String → AutomationRunLog → AutomationRunLog)
      (s : AutomationRunLog × W)
      → ((n : ℕ) → set n s.0 ≡ put (some n) none s.0)
      → ((m : String) → on_error m s.0 ≡ put none (some m) s.0)
      → (leg services call set on_error s).0 ≡ inl tt
      → (n : Option ℕ) × (error : Option String) × Counted services call n error
        × ((leg services call set on_error s).1.0 ≡ put n error s.0)
  leg-Counted call set on_error put s on_set on_throw h =
      elim (leg-done services call set on_error s h) [
        | inl (n, e, k) ↦ (some n, none, (s.1, inl (n, e, refl, refl)), k ∙ on_set n)
        | inr (m, e, k) ↦ (none, some m, (s.1, inr (m, e, refl, refl)), k ∙ on_throw m)
      ]

  abbrev put_refresh : Option ℕ → Option String → AutomationRunLog → AutomationRunLog
  put_refresh n error log = record log {
    metadata_refresh_updated = n;
    metadata_refresh_error = error;
  }

  abbrev put_judge : Option ℕ → Option String → AutomationRunLog → AutomationRunLog
  put_judge n error log = record log { judge_enqueued = n; judge_error = error }

  -- The judge columns of a day: its call's, or what they were when the leg is skipped.
  abbrev pub Judged : Bool → AutomationRunLog → AutomationRunLog → Type 0
  Judged true old log =
      (log.judge_enqueued ≡ old.judge_enqueued) × (log.judge_error ≡ old.judge_error)
  Judged false old log =
      Counted services (services.enqueue_pending 500) log.judge_enqueued log.judge_error

  -- What the columns of a day's row report.
  abbrev pub Reported : Bool → AutomationRunLog → AutomationRunLog → Type 0
  Reported skip_judge_leg old log =
      (log.triggered_at ≡ old.triggered_at)
      × Counted services services.refresh_all log.metadata_refresh_updated
          log.metadata_refresh_error
      × Judged skip_judge_leg old log
      × TierReports services FreeTierId.mini log.mini_burn
      × TierReports services FreeTierId.flagship log.flagship_burn
      × PoolReports services ProviderPoolId.google log.google_burn
      × PoolReports services ProviderPoolId.groq log.groq_burn
      × PoolReports services ProviderPoolId.openrouter log.openrouter_burn
      × PoolReports services ProviderPoolId.mistral log.mistral_burn
      × PoolReports services ProviderPoolId.sambanova log.sambanova_burn

  Burns-Reported :
      (skip_judge_leg : Bool) (old log end : AutomationRunLog)
      → (log.triggered_at ≡ old.triggered_at)
      → Counted services services.refresh_all log.metadata_refresh_updated
          log.metadata_refresh_error
      → Judged skip_judge_leg old log
      → Burns services log end
      → Reported skip_judge_leg old end
  Burns-Reported true old log end t c j
        (b1, r1, b2, r2, (b3, r3, (b4, r4, (b5, r5, (b6, r6, (b7, r7, e)))))) =
      subst (Reported true old) (sym e) (t, c, j, r1, r2, r3, r4, r5, r6, r7)
  Burns-Reported false old log end t c j
        (b1, r1, b2, r2, (b3, r3, (b4, r4, (b5, r5, (b6, r6, (b7, r7, e)))))) =
      subst (Reported false old) (sym e) (t, c, j, r1, r2, r3, r4, r5, r6, r7)

  run_legs-Reported :
      (skip_judge_leg : Bool) (s : AutomationRunLog × W)
      → (run_legs services skip_judge_leg s).0 ≡ inl tt
      → Reported skip_judge_leg s.0 (run_legs services skip_judge_leg s).1.0
  unfolding run_metadata_refresh_leg run_judge_leg
  run_legs-Reported true s h =
      let e1 : LegEnd × (AutomationRunLog × W) = run_metadata_refresh_leg services s in
      let (d, k) = and_then-done e1 (run_burn_legs services) h in
      let (n, error, c, x) =
        leg-Counted services.refresh_all set_refreshed set_refresh_error put_refresh s (λ _. refl)
          (λ _. refl) d in
      subst (λ y. Reported true s.0 y.1.0) (sym k)
        (Burns-Reported true s.0 (put_refresh n error s.0) (run_burn_legs services e1.1).1.0 refl c
          (refl, refl)
          (subst (λ y. Burns services y (run_burn_legs services e1.1).1.0) x
            (run_burn_legs-Burns services e1.1 (ap (λ y. y.0) (sym k) ∙ h))))
  run_legs-Reported false s h =
      let e1 : LegEnd × (AutomationRunLog × W) = run_metadata_refresh_leg services s in
      let e2 : LegEnd × (AutomationRunLog × W) = and_then e1 (run_judge_leg services) in
      let (d, k) = and_then-done e2 (run_burn_legs services) h in
      let (d1, k1) = and_then-done e1 (run_judge_leg services) d in
      let (n, error, c, x) =
        leg-Counted services.refresh_all set_refreshed set_refresh_error put_refresh s (λ _. refl)
          (λ _. refl) d1 in
      let (i, failure, j, y) =
        leg-Counted (services.enqueue_pending 500) set_judged set_judge_error put_judge e1.1
          (λ _. refl) (λ _. refl) (ap (λ z. z.0) (sym k1) ∙ d) in
      let log : AutomationRunLog = put_judge i failure (put_refresh n error s.0) in
      subst (λ z. Reported false s.0 z.1.0) (sym k)
        (Burns-Reported false s.0 log (run_burn_legs services e2.1).1.0 refl c j (
          subst (λ z. Burns services z (run_burn_legs services e2.1).1.0)
            (ap (λ z. z.1.0) k1 ∙ y ∙ ap (put_judge i failure) x)
            (run_burn_legs-Burns services e2.1 (ap (λ z. z.0) (sym k) ∙ h))))

  run_legs-Aborts :
      (skip_judge_leg : Bool) (s : AutomationRunLog × W)
      → Aborts services (run_legs services skip_judge_leg s)
  unfolding run_metadata_refresh_leg run_judge_leg
  run_legs-Aborts true s m h =
      and_then-Aborts services (run_metadata_refresh_leg services s) (run_burn_legs services)
        (leg-Aborts services services.refresh_all set_refreshed set_refresh_error s)
        (run_burn_legs-Aborts services) m h
  run_legs-Aborts false s m h =
      and_then-Aborts services
        (and_then (run_metadata_refresh_leg services s) (run_judge_leg services))
        (run_burn_legs services)
        (and_then-Aborts services (run_metadata_refresh_leg services s) (run_judge_leg services)
          (leg-Aborts services services.refresh_all set_refreshed set_refresh_error s)
          (leg-Aborts services (services.enqueue_pending 500) set_judged set_judge_error))
        (run_burn_legs-Aborts services) m h

  -- A day's run ends in one of two ways. Either all its legs are done and the day's row has the time of
  -- the run and in each column what the leg's calls gave: the number refreshed and the number queued for
  -- judging, or the message of what threw; for each of the seven burns that its cycle was active
  -- already, that it was exhausted or that it was started, each only when the calls answered that, or
  -- an error with the message that a call or a write of the row threw. A judge leg that is skipped leaves
  -- its columns. Or the run ends early with the message of a write of the row that threw.
  pub run_lem :
      (now : ℕ) (skip_judge_leg : Bool) (today : Option AutomationRunLog) (w : W)
      → ((run services now skip_judge_leg today w).0 ≡ inl tt)
          × ((log : AutomationRunLog) × ((run services now skip_judge_leg today w).1.0 ≡ some log)
              × (log.triggered_at ≡ now)
              × Reported skip_judge_leg (triggered now today) log)
        ⊎ ((m : String) × ((run services now skip_judge_leg today w).0 ≡ inr m)
            × LogThrows services m)
  unfolding run
  run_lem now skip_judge_leg today w =
      let s : AutomationRunLog × W = (triggered now today, (services.write_log w).1) in
      elim (Sum-cases (services.write_log w).0) [
        | inr (m, e) ↦ inr (m, ground (arith, e), (w, e))
        | inl (done, e) ↦ elim (Sum-cases (run_legs services skip_judge_leg s).0) [
          | inr (m, f) ↦ inr (m, ground (arith, e, f), run_legs-Aborts skip_judge_leg s m f)
          | inl (all, f) ↦
              let reported = run_legs-Reported skip_judge_leg s f in
              inl (
                ground (arith, e, f),
                (
                  (run_legs services skip_judge_leg s).1.0,
                  ground (arith, e),
                  reported.0 ∙ triggered-now now today,
                  reported,
                ),
              )
        ]
      ]
