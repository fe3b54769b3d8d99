-- ===== src/DailyAutomation.antt =====
-- backend/src/modules/automation/daily-automation.service.ts: the legs of a day's automatic run and
-- the columns of the day's log that they fill. The services that the legs call are parameters: each
-- call changes the rest of the system and gives a value or throws an error with a message. So does
-- each write of the log: one that throws in a leg's `try` is recorded like a failed call, and one that
-- throws in its `catch`, or at the start, ends the run.
mod Legs
mod Burns
pub mod Records
mod Tests
use connections.Base.{
  ℕ, String, Bool, true, false, Option, none, some, List, [], ◌∷◌, ◌⊎◌, inl, inr, if◌then◌else◌,
}
use connections.Strategy.{FreeTierId}
use connections.ProviderPool.{ProviderPoolId}

pub data AutomationLegOutcome : Type 0 where
  started already_active already_exhausted error : AutomationLegOutcome

pub record Burn : Type 0 where
  pub outcome : Option AutomationLegOutcome
  pub message : Option String

pub record AutomationRunLog : Type 0 where
  pub triggered_at : ℕ
  pub metadata_refresh_updated : Option ℕ
  pub metadata_refresh_error : Option String
  pub judge_enqueued : Option ℕ
  pub judge_error : Option String
  pub mini_burn : Burn
  pub flagship_burn : Burn
  pub google_burn : Burn
  pub groq_burn : Burn
  pub openrouter_burn : Burn
  pub mistral_burn : Burn
  pub sambanova_burn : Burn

abbrev pub burn : AutomationLegOutcome → String → Burn
burn outcome message = record { outcome = some outcome; message = some message }

-- The column pair of a pool's leg; the three pools without one have no leg.
abbrev pub set_pool_burn : ProviderPoolId → Burn → AutomationRunLog → AutomationRunLog
set_pool_burn ProviderPoolId.google b log = record log { google_burn = b }
set_pool_burn ProviderPoolId.groq b log = record log { groq_burn = b }
set_pool_burn ProviderPoolId.openrouter b log = record log { openrouter_burn = b }
set_pool_burn ProviderPoolId.mistral b log = record log { mistral_burn = b }
set_pool_burn ProviderPoolId.sambanova b log = record log { sambanova_burn = b }
set_pool_burn _ b log = log

abbrev pub exhausted_message : ProviderPoolId → String
exhausted_message ProviderPoolId.google = "every Google model is currently RPD-held"
exhausted_message ProviderPoolId.groq = "every Groq model is currently RPD-held"
exhausted_message ProviderPoolId.openrouter = "OpenRouter daily budget spent or account held"
exhausted_message ProviderPoolId.mistral = "every Mistral model is currently held"
exhausted_message ProviderPoolId.sambanova = "every SambaNova model is currently held"
exhausted_message _ = ""

abbrev pub burn_legs : List ProviderPoolId
burn_legs =
    ProviderPoolId.google ∷ ProviderPoolId.groq ∷ ProviderPoolId.openrouter ∷ ProviderPoolId.mistral
    ∷ ProviderPoolId.sambanova ∷ []

abbrev pub judge_leg_limit : ℕ
judge_leg_limit = 500

abbrev pub burn_ceiling_percent : ℕ
burn_ceiling_percent = 80

-- A call gives a value, or throws an error with a message.
abbrev pub Call : Type 0 → Type 0 → Type 0
Call W A = W → (A ⊎ String) × W

-- The services; a status says whether a cycle is active, with the text that a leg reports of it.
pub record Services (W : Type 0) : Type 0 where
  pub refresh_all : Call W ℕ
  pub enqueue_pending : ℕ → Call W ℕ
  pub tier_status : FreeTierId → Call W (Option String)
  pub start_tier : FreeTierId → ℕ → Call W Unit
  pub pool_active : ProviderPoolId → Call W Bool
  -- Whether the pool was exhausted instead of started.
  pub start_pool : ProviderPoolId → Call W Bool
  -- Whether a write of the day's row throws.
  pub write_log : Call W Unit

-- What a leg comes to: it is done, or an error goes up from it.
abbrev pub LegEnd : Type 0
LegEnd = Unit ⊎ String

abbrev pub empty_log : ℕ → AutomationRunLog
empty_log now = record {
  triggered_at = now;
  metadata_refresh_updated = none;
  metadata_refresh_error = none;
  judge_enqueued = none;
  judge_error = none;
  mini_burn = record { outcome = none; message = none };
  flagship_burn = record { outcome = none; message = none };
  google_burn = record { outcome = none; message = none };
  groq_burn = record { outcome = none; message = none };
  openrouter_burn = record { outcome = none; message = none };
  mistral_burn = record { outcome = none; message = none };
  sambanova_burn = record { outcome = none; message = none };
}

-- The upsert of a day's row writes `triggeredAt` alone.
abbrev pub triggered : ℕ → Option AutomationRunLog → AutomationRunLog
triggered now none = empty_log now
triggered now (some log) = record log { triggered_at = now }

abbrev pub set_refreshed : ℕ → AutomationRunLog → AutomationRunLog
set_refreshed updated log = record log {
  metadata_refresh_updated = some updated;
  metadata_refresh_error = none;
}

abbrev pub set_refresh_error : String → AutomationRunLog → AutomationRunLog
set_refresh_error message log = record log {
  metadata_refresh_updated = none;
  metadata_refresh_error = some message;
}

abbrev pub set_judged : ℕ → AutomationRunLog → AutomationRunLog
set_judged enqueued log = record log { judge_enqueued = some enqueued; judge_error = none }

abbrev pub set_judge_error : String → AutomationRunLog → AutomationRunLog
set_judge_error message log = record log { judge_enqueued = none; judge_error = some message }

abbrev pub set_mini_burn : Burn → AutomationRunLog → AutomationRunLog
set_mini_burn b log = record log { mini_burn = b }

abbrev pub set_flagship_burn : Burn → AutomationRunLog → AutomationRunLog
set_flagship_burn b log = record log { flagship_burn = b }

-- A step that runs when the one before it is done.
abbrev pub and_then : {S : Type 0} → LegEnd × S → (S → LegEnd × S) → LegEnd × S
and_then (inl done, s) step = step s
and_then (inr message, s) step = (inr message, s)

module _ {W : Type 0} (services : Services W) where
  abbrev pub update :
      (AutomationRunLog → AutomationRunLog) → AutomationRunLog × W → LegEnd × (AutomationRunLog × W)
  update set (log, w) = elim ((services.write_log w).0) [
    | inl written ↦ (inl tt, (set log, (services.write_log w).1))
    | inr message ↦ (inr message, (log, (services.write_log w).1))
  ]

  -- `try { const result = await call(); await update(...) } catch (err) { await update(...) }`
  unfoldable pub leg :
      {A : Type 0}
      → Call W A
      → (A → AutomationRunLog → AutomationRunLog)
      → (String → AutomationRunLog → AutomationRunLog)
      → AutomationRunLog × W
      → LegEnd × (AutomationRunLog × W)
  leg call set on_error (log, w) = elim ((call w).0) [
    | inr message ↦ update (on_error message) (log, (call w).1)
    | inl result ↦
        let written = update (set result) (log, (call w).1) in
        elim (written.0) [ inl done ↦ written | inr message ↦ update (on_error message) written.1 ]
  ]

  unfoldable pub run_metadata_refresh_leg : AutomationRunLog × W → LegEnd × (AutomationRunLog × W)
  unfolding leg
  run_metadata_refresh_leg s = leg services.refresh_all set_refreshed set_refresh_error s

  unfoldable pub run_judge_leg : AutomationRunLog × W → LegEnd × (AutomationRunLog × W)
  unfolding leg
  run_judge_leg s = leg (services.enqueue_pending judge_leg_limit) set_judged set_judge_error s

  -- The message has `burn_ceiling_percent`.
  abbrev pub started_burn : LegEnd → Burn ⊎ String
  started_burn (inl done) = inl (burn AutomationLegOutcome.started "started at 80%")
  started_burn (inr message) = inr message

  -- A free tier's cycle is started unless one is active.
  unfoldable pub tier_call : FreeTierId → Call W Burn
  tier_call tier w = elim ((services.tier_status tier w).0) [
    | inr message ↦ (inr message, (services.tier_status tier w).1)
    | inl status ↦ elim status [
      | some message ↦
          (inl (burn AutomationLegOutcome.already_active message), (services.tier_status tier w).1)
      | none ↦
          let result =
            services.start_tier tier burn_ceiling_percent (services.tier_status tier w).1 in
          (started_burn result.0, result.1)
    ]
  ]

  unfoldable pub run_mini_burn_leg : AutomationRunLog × W → LegEnd × (AutomationRunLog × W)
  unfolding leg tier_call
  run_mini_burn_leg s =
      leg (tier_call FreeTierId.mini) set_mini_burn
        (λ message. set_mini_burn (burn AutomationLegOutcome.error message)) s

  unfoldable pub run_flagship_burn_leg : AutomationRunLog × W → LegEnd × (AutomationRunLog × W)
  unfolding leg tier_call
  run_flagship_burn_leg s =
      leg (tier_call FreeTierId.flagship) set_flagship_burn
        (λ message. set_flagship_burn (burn AutomationLegOutcome.error message)) s

  abbrev pub pool_burn : ProviderPoolId → Bool ⊎ String → Burn ⊎ String
  pool_burn pool (inr message) = inr message
  pool_burn pool (inl exhausted) = inl (
      if exhausted
      then burn AutomationLegOutcome.already_exhausted (exhausted_message pool)
      else burn AutomationLegOutcome.started "started")

  unfoldable pub pool_call : ProviderPoolId → Call W Burn
  pool_call pool w = elim ((services.pool_active pool w).0) [
    | inr message ↦ (inr message, (services.pool_active pool w).1)
    | inl active ↦
        let result = services.start_pool pool (services.pool_active pool w).1 in
        if active
        then (
          inl (burn AutomationLegOutcome.already_active "already running"),
          (services.pool_active pool w).1,
        )
        else (pool_burn pool result.0, result.1)
  ]

  unfoldable pub run_pool_burn_leg :
      ProviderPoolId → AutomationRunLog × W → LegEnd × (AutomationRunLog × W)
  unfolding leg pool_call
  run_pool_burn_leg pool s =
      leg (pool_call pool) (set_pool_burn pool)
        (λ message. set_pool_burn pool (burn AutomationLegOutcome.error message)) s

  abbrev pub run_pool_burn_legs :
      List ProviderPoolId → AutomationRunLog × W → LegEnd × (AutomationRunLog × W)
  run_pool_burn_legs [] s = (inl tt, s)
  run_pool_burn_legs (pool ∷ pools) s =
      and_then (run_pool_burn_leg pool s) (run_pool_burn_legs pools)

  -- The burn legs, and before them the judge leg unless it is skipped.
  abbrev pub run_burn_legs : AutomationRunLog × W → LegEnd × (AutomationRunLog × W)
  run_burn_legs s =
      and_then (and_then (run_mini_burn_leg s) run_flagship_burn_leg) (run_pool_burn_legs burn_legs)

  abbrev pub run_legs : Bool → AutomationRunLog × W → LegEnd × (AutomationRunLog × W)
  run_legs true s = and_then (run_metadata_refresh_leg s) run_burn_legs
  run_legs false s = and_then (and_then (run_metadata_refresh_leg s) run_judge_leg) run_burn_legs

  -- The day's row afterwards, which stays as it was when its first write throws.
  unfoldable pub run :
      ℕ → Bool → Option AutomationRunLog → W → LegEnd × (Option AutomationRunLog × W)
  unfolding run_metadata_refresh_leg run_judge_leg run_mini_burn_leg run_flagship_burn_leg
      run_pool_burn_leg
  run now skip_judge_leg today w = elim ((services.write_log w).0) [
    | inr message ↦ (inr message, (today, (services.write_log w).1))
    | inl written ↦
        let end = run_legs skip_judge_leg (triggered now today, (services.write_log w).1) in
        (end.0, (some end.1.0, end.1.1))
  ]
