-- ===== src/DailyAutomation/Tests.antt =====
-- A day on which two services throw, and one on which the database does.
use connections.Base.{ℕ, ◌≡◌, refl, inl, inr, ◌⊎◌, ◌+◌, String, false, none, some}
use connections.DailyAutomation.{
  Services, AutomationLegOutcome, AutomationRunLog, burn, run, triggered,
}
use connections.DailyAutomation.Legs.{LogThrows}
use connections.DailyAutomation.Records.{Reported, run_lem}

-- The number counts the calls that queued something.
abbrev services : Services ℕ
services = record {
  refresh_all = λ w. (inr "no network", w);
  enqueue_pending = λ limit w. (inl limit, 1 + w);
  tier_status = λ tier w. (inl none, w);
  start_tier = λ tier percent w. (inl tt, 1 + w);
  pool_active = λ pool w. (inl false, w);
  start_pool = λ pool w. (inr "queue down", w);
  write_log = λ w. (inl tt, w);
}

abbrev end_of_day : AutomationRunLog
end_of_day = record {
  triggered_at = 5;
  metadata_refresh_updated = none;
  metadata_refresh_error = some "no network";
  judge_enqueued = some 500;
  judge_error = none;
  mini_burn = burn AutomationLegOutcome.started "started at 80%";
  flagship_burn = burn AutomationLegOutcome.started "started at 80%";
  google_burn = burn AutomationLegOutcome.error "queue down";
  groq_burn = burn AutomationLegOutcome.error "queue down";
  openrouter_burn = burn AutomationLegOutcome.error "queue down";
  mistral_burn = burn AutomationLegOutcome.error "queue down";
  sambanova_burn = burn AutomationLegOutcome.error "queue down";
}

two_failed : run services 5 false none 0 ≡ (inl tt, (some end_of_day, 3))
unfolding run
two_failed = refl

abbrev database_down : Services ℕ
database_down = record services { write_log = λ w. (inr "connection lost", w) }

ended_early : run database_down 5 false none 0 ≡ (inr "connection lost", (none, 0))
unfolding run
ended_early = refl

run_lem_example :
    ((run services 5 false none 0).0 ≡ inl tt)
      × ((log : AutomationRunLog) × ((run services 5 false none 0).1.0 ≡ some log)
          × (log.triggered_at ≡ 5)
          × Reported services false (triggered 5 none) log)
    ⊎ ((m : String) × ((run services 5 false none 0).0 ≡ inr m) × LogThrows services m)
run_lem_example = run_lem services 5 false none 0
