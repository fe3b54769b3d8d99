-- ===== src/Orchestrator.antt =====
-- orchestrator/src/solver.ts: which failure of a model call is a malformed answer, a rate limit, a
-- daily limit or a plain model error. `JSON.parse`, the host's regular expressions and its reading of
-- numbers are parameters, `HostText`; seconds are whole. Of an error's details only those that the
-- backend decides by are kept.
pub mod Classify
pub mod Outcomes
pub mod RateLimits
mod Tests
use connections.Base.{
  ℕ, zero, suc, ◌+◌, ◌-◌, ◌*◌, ◌/◌, ◌≤◌, String, Bool, true, false, not, ◌&&◌, ◌||◌, Option, none,
  some, List, [], ◌∷◌, ◌++◌, map, ltb, leb, ◌==◌, if◌then◌else◌, find?, any, str_eq,
}
use connections.ProviderPool.{ProviderPoolId}

pub data SolveErrorCode : Type 0 where
  invalid_group model_error rate_limited rate_limited_daily : SolveErrorCode

pub record SolveError : Type 0 where
  pub code : SolveErrorCode
  pub status_code : Option ℕ
  pub retry_after_seconds : Option ℕ
  pub daily_reset_seconds : Option ℕ

-- `violations` of a QuotaFailure and the `retryDelay` of a RetryInfo, where they are strings.
pub record Violation : Type 0 where
  pub quota_id : Option String
  pub quota_metric : Option String

-- An entry of `error.details`; fields that are absent or of another type are `none`.
pub record Detail : Type 0 where
  pub type : Option String
  pub violations : Option (List Violation)
  pub retry_delay : Option String

-- The patterns that the code looks for in messages.
pub data Pattern : Type 0 where
  per_day rpd_or_tpd tokens_per_day tpd : Pattern
  monthly quota capacity_exceeded per_month monthly_token_or_request : Pattern

pub record HostText : Type 0 where
  -- `JSON.parse(body).error.details`, when it is an array.
  pub error_details : String → Option (List Detail)
  -- The strings among the fields of the parsed body that Groq's and Mistral's branches read.
  pub groq_texts : String → List String
  pub mistral_texts : String → List String
  pub ends_with : String → String → Bool
  pub includes_text : String → String → Bool
  pub matches : Pattern → List String → Bool
  -- `Number.parseFloat`, when it is finite.
  pub parse_float : String → Option ℕ
  -- `Number(value)`, when it is finite and not negative.
  pub seconds : String → Option ℕ
  -- `Number(value)`, when it is finite; a negative one is 0.
  pub number : String → Option ℕ
  -- The hours, minutes and seconds of a duration such as 2h59m59s, when it has the form.
  pub duration : String → Option (Option ℕ × (Option ℕ × Option ℕ))

pub record ApiCallError : Type 0 where
  pub status_code : Option ℕ
  pub message : String
  pub header : String → Option String
  pub response_body : Option String

-- What the AI SDK throws. `retry_of` wraps the last error of a call that was retried, and
-- `retry_empty` has none.
pub data ModelCallError : Type 0 where
  retry_of : ModelCallError → ModelCallError
  retry_empty malformed other : ModelCallError
  api_call : ApiCallError → ModelCallError

abbrev pub has_type : HostText → String → Detail → Bool
has_type host suffix d = elim d.type [ none ↦ false | some type ↦ host.ends_with type suffix ]

abbrev pub says : HostText → String → Option String → Bool
says host text none = false
says host text (some value) = host.includes_text value text

abbrev pub violates : HostText → String → Option Detail → Bool
violates host window none = false
violates host window (some d) = elim d.violations [
  | none ↦ false
  | some vs ↦
      any (λ (v : Violation). says host window v.quota_id || says host window v.quota_metric) vs
]

abbrev pub details_of : HostText → Option String → List Detail
details_of host none = []
details_of host (some body) = elim (host.error_details body) [ none ↦ [] | some details ↦ details ]

-- `none` is the source's `null`, and `some none` its `undefined`.
unfoldable pub parse_google_rate_limit : HostText → Option String → Option (Option ℕ)
parse_google_rate_limit host body =
    let details = details_of host body in
    if violates host "PerMinute" (find? (has_type host "QuotaFailure") details)
    then some (elim (find? (has_type host "RetryInfo") details) [
      | none ↦ none
      | some info ↦ elim info.retry_delay [ none ↦ none | some delay ↦ host.parse_float delay ]
    ])
    else none

unfoldable pub is_google_daily_rate_limit : HostText → Option String → Bool
is_google_daily_rate_limit host body =
    violates host "PerDay" (find? (has_type host "QuotaFailure") (details_of host body))

abbrev pub parse_seconds_header : HostText → Option String → Option ℕ
parse_seconds_header host none = none
parse_seconds_header host (some value) = host.seconds value

abbrev pub or_zero : Option ℕ → ℕ
or_zero none = 0
or_zero (some n) = n

-- A duration without any part is none.
abbrev pub total_seconds : Option ℕ × (Option ℕ × Option ℕ) → Option ℕ
total_seconds (none, (none, none)) = none
total_seconds (hours, (minutes, seconds)) =
    some (or_zero hours * 3600 + or_zero minutes * 60 + or_zero seconds)

unfoldable pub parse_groq_reset_duration : HostText → Option String → Option ℕ
parse_groq_reset_duration host none = none
parse_groq_reset_duration host (some value) = elim (host.duration value) [
  | none ↦ none
  | some parts ↦ total_seconds parts
]

abbrev pub daily_reset_threshold_seconds : ℕ
daily_reset_threshold_seconds = 120

-- `Math.max(0, Math.ceil((resetMs - Date.now()) / 1000))`
unfoldable pub parse_reset_timestamp_seconds : HostText → ℕ → Option String → Option ℕ
parse_reset_timestamp_seconds host now none = none
parse_reset_timestamp_seconds host now (some value) = elim (host.number value) [
  | none ↦ none
  | some reset_ms ↦ some ((reset_ms - now + 999) / 1000)
]

pub data Dimension : Type 0 where
  tokens requests : Dimension

abbrev pub texts_of : (String → List String) → Option String → String → List String
texts_of parsed none message = message ∷ []
texts_of parsed (some body) message = message ∷ body ∷ parsed body

unfoldable pub groq_per_day_rate_limit_dimension :
    HostText → Option String → String → Option Dimension
groq_per_day_rate_limit_dimension host body message =
    let texts = texts_of host.groq_texts body message in
    if not (host.matches Pattern.per_day texts || host.matches Pattern.rpd_or_tpd texts)
    then none
    else if host.matches Pattern.tokens_per_day texts || host.matches Pattern.tpd texts
    then some Dimension.tokens
    else some Dimension.requests

unfoldable pub mistral_monthly_rate_limit_from_body : HostText → Option String → String → Bool
mistral_monthly_rate_limit_from_body host body message =
    let texts = texts_of host.mistral_texts body message in
    host.matches Pattern.monthly texts
    || host.matches Pattern.quota texts
    || host.matches Pattern.capacity_exceeded texts
    || host.matches Pattern.per_month texts
    || host.matches Pattern.monthly_token_or_request texts
