-- ===== src/Orchestrator/RateLimits.antt =====
-- What a failed call is classified as (orchestrator/src/solver.ts).
use connections.Base.{ℕ, ◌&&◌, Option, none, if◌then◌else◌}
use connections.ProviderPool.{ProviderPoolId}
use connections.Orchestrator.{SolveErrorCode, SolveError, HostText, ModelCallError}
use connections.Orchestrator.Classify.{is_429}
use connections.Orchestrator.Outcomes.{is_limit, limit_error}

-- The failure that the retries of the SDK ended with.
unfoldable pub last_error : ModelCallError → ModelCallError
last_error (ModelCallError.retry_of last) = last_error last
last_error err = err

-- An error without times.
abbrev pub plain_error : SolveErrorCode → Option ℕ → SolveError
plain_error code status = record {
  code = code;
  status_code = status;
  retry_after_seconds = none;
  daily_reset_seconds = none;
}

module _ (host : HostText) (now : ℕ) where
  -- The error that a failure stands for.
  abbrev pub outcome_of : ProviderPoolId → ModelCallError → SolveError
  outcome_of provider ModelCallError.malformed = plain_error SolveErrorCode.invalid_group none
  outcome_of provider (ModelCallError.api_call call) =
      if is_429 host now call.status_code && is_limit host now provider call
      then limit_error host now provider call
      else plain_error SolveErrorCode.model_error call.status_code
  outcome_of provider _ = plain_error SolveErrorCode.model_error none
