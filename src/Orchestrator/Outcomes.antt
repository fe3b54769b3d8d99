-- ===== src/Orchestrator/Outcomes.antt =====
-- By what a 429 of each provider is told to be a limit, and for how long (orchestrator/src/solver.ts).
use connections.Base.{
  ℕ, String, ◌≡◌, refl, inl, inr, Bool, true, false, not, ◌&&◌, ◌||◌, Option, none, some, arith,
  ltb, if◌then◌else◌, Bool-cases, Option-cases, find?,
}
use connections.ProviderPool.{ProviderPoolId}
use connections.Orchestrator.{
  SolveErrorCode, SolveError, HostText, ApiCallError, Dimension, has_type, violates, details_of,
  parse_google_rate_limit, is_google_daily_rate_limit, parse_seconds_header,
  parse_groq_reset_duration, parse_reset_timestamp_seconds, groq_per_day_rate_limit_dimension,
  mistral_monthly_rate_limit_from_body,
}
use connections.Orchestrator.Classify.{
  classify_429, classify_google, classify_groq, classify_openrouter, classify_mistral,
  classify_sambanova, or_else, is_zero_text, has_dimension, groq_daily_reset,
}

abbrev is_some : Option ℕ → Bool
is_some none = false
is_some (some n) = true

-- Whether a reset is further away than two minutes.
abbrev is_far : Option ℕ → Bool
is_far none = false
is_far (some seconds) = ltb 120 seconds

abbrev found_seconds : Option (Option ℕ) → Option ℕ
found_seconds none = none
found_seconds (some seconds) = seconds

abbrev is_tokens : Option Dimension → Bool
is_tokens none = false
is_tokens (some Dimension.requests) = false
is_tokens (some Dimension.tokens) = true

module _ (host : HostText) (now : ℕ) where
  -- Whether the quota failure in Google's body names the window.
  abbrev names_window : String → ApiCallError → Bool
  names_window window err =
      violates host window
        (find? (has_type host "QuotaFailure") (details_of host err.response_body))

  abbrev duration : String → ApiCallError → Option ℕ
  duration name err = parse_groq_reset_duration host (err.header name)

  abbrev retry_after : ApiCallError → Option ℕ
  retry_after err = parse_seconds_header host (err.header "retry-after")

  abbrev groq_dimension : ApiCallError → Option Dimension
  groq_dimension err = groq_per_day_rate_limit_dimension host err.response_body err.message

  -- When the provider's own reset comes.
  abbrev pub reset_in : ProviderPoolId → ApiCallError → Option ℕ
  reset_in ProviderPoolId.groq err =
      if is_tokens (groq_dimension err)
      then duration "x-ratelimit-reset-requests" err
      else or_else (duration "x-ratelimit-reset-requests" err) (retry_after err)
  reset_in ProviderPoolId.openrouter err =
      parse_reset_timestamp_seconds host now (err.header "x-ratelimit-reset")
  reset_in ProviderPoolId.sambanova err =
      or_else (duration "x-ratelimit-reset-requests-day" err)
        (or_else (duration "x-ratelimit-reset-requests" err) (retry_after err))
  reset_in _ err = none

  -- When a call may be tried again.
  abbrev pub retry_in : ProviderPoolId → ApiCallError → Option ℕ
  retry_in ProviderPoolId.google err =
      found_seconds (parse_google_rate_limit host err.response_body)
  retry_in ProviderPoolId.groq err =
      or_else (retry_after err) (duration "x-ratelimit-reset-tokens" err)
  retry_in ProviderPoolId.openrouter err =
      or_else (retry_after err) (reset_in ProviderPoolId.openrouter err)
  retry_in ProviderPoolId.mistral err = retry_after err
  retry_in ProviderPoolId.sambanova err =
      or_else (or_else (duration "x-ratelimit-reset-requests" err) (retry_after err))
        (reset_in ProviderPoolId.sambanova err)
  retry_in _ err = none

  -- Whether it is a limit for a day, or for longer.
  abbrev pub is_daily_limit : ProviderPoolId → ApiCallError → Bool
  is_daily_limit ProviderPoolId.google err =
      not (names_window "PerMinute" err) && names_window "PerDay" err
  is_daily_limit ProviderPoolId.groq err =
      is_zero_text (err.header "x-ratelimit-remaining-requests")
      || has_dimension host now (groq_dimension err)
  is_daily_limit ProviderPoolId.openrouter err = is_far (reset_in ProviderPoolId.openrouter err)
  is_daily_limit ProviderPoolId.mistral err =
      mistral_monthly_rate_limit_from_body host err.response_body err.message
  is_daily_limit ProviderPoolId.sambanova err = is_far (reset_in ProviderPoolId.sambanova err)
  is_daily_limit _ err = false

  -- Whether it is a limit at all.
  abbrev pub is_limit : ProviderPoolId → ApiCallError → Bool
  is_limit ProviderPoolId.google err = names_window "PerMinute" err || names_window "PerDay" err
  is_limit ProviderPoolId.groq err = true
  is_limit ProviderPoolId.mistral err = true
  is_limit ProviderPoolId.openrouter err =
      is_some (reset_in ProviderPoolId.openrouter err) || is_some (retry_after err)
  is_limit ProviderPoolId.sambanova err = is_some (reset_in ProviderPoolId.sambanova err)
  is_limit _ err = false

  -- The error that a 429 stands for.
  abbrev pub limit_error : ProviderPoolId → ApiCallError → SolveError
  limit_error provider err = record {
    code =
        if is_daily_limit provider err
        then SolveErrorCode.rate_limited_daily
        else SolveErrorCode.rate_limited;
    status_code = err.status_code;
    retry_after_seconds = if is_daily_limit provider err then none else retry_in provider err;
    daily_reset_seconds = if is_daily_limit provider err then reset_in provider err else none;
  }

  google-outcome :
      (err : ApiCallError)
      → classify_google host now err ≡ (
          if is_limit ProviderPoolId.google err
          then some (limit_error ProviderPoolId.google err)
          else none)
  unfolding classify_google parse_google_rate_limit is_google_daily_rate_limit
  google-outcome err = elim (Bool-cases (names_window "PerMinute" err)) [
    | inl minute ↦ ground (arith, minute)
    | inr other ↦ elim (Bool-cases (names_window "PerDay" err)) [
      | inl day ↦ ground (arith, other, day)
      | inr no_day ↦ ground (arith, other, no_day)
    ]
  ]

  groq-outcome :
      (err : ApiCallError)
      → classify_groq host now err ≡ (
          if is_limit ProviderPoolId.groq err
          then some (limit_error ProviderPoolId.groq err)
          else none)
  unfolding classify_groq groq_daily_reset
  groq-outcome err = elim (Bool-cases (is_daily_limit ProviderPoolId.groq err)) [
    | inl daily ↦ ground (arith, daily)
    | inr other ↦ ground (arith, other)
  ]

  openrouter-outcome :
      (err : ApiCallError)
      → classify_openrouter host now err ≡ (
          if is_limit ProviderPoolId.openrouter err
          then some (limit_error ProviderPoolId.openrouter err)
          else none)
  unfolding classify_openrouter
  openrouter-outcome err = elim (Option-cases (reset_in ProviderPoolId.openrouter err)) [
    | inr (reset, h) ↦ ground (arith, h)
    | inl h ↦ elim (Option-cases (retry_after err)) [
      | inl k ↦ ground (arith, h, k)
      | inr (seconds, k) ↦ ground (arith, h, k)
    ]
  ]

  mistral-outcome :
      (err : ApiCallError)
      → classify_mistral host now err ≡ (
          if is_limit ProviderPoolId.mistral err
          then some (limit_error ProviderPoolId.mistral err)
          else none)
  unfolding classify_mistral
  mistral-outcome err = elim (Bool-cases (is_daily_limit ProviderPoolId.mistral err)) [
    | inl daily ↦ ground (arith, daily)
    | inr other ↦ ground (arith, other)
  ]

  sambanova-outcome :
      (err : ApiCallError)
      → classify_sambanova host now err ≡ (
          if is_limit ProviderPoolId.sambanova err
          then some (limit_error ProviderPoolId.sambanova err)
          else none)
  unfolding classify_sambanova
  sambanova-outcome err = elim (Option-cases (reset_in ProviderPoolId.sambanova err)) [
    | inr (reset, h) ↦ ground (arith, h)
    | inl h ↦ ground (arith, h)
  ]

  pub classify_429_lem :
      (provider : ProviderPoolId) (err : ApiCallError)
      → classify_429 host now provider err
        ≡ (if is_limit provider err then some (limit_error provider err) else none)
  unfolding classify_429
  classify_429_lem ProviderPoolId.google err = google-outcome err
  classify_429_lem ProviderPoolId.groq err = groq-outcome err
  classify_429_lem ProviderPoolId.openrouter err = openrouter-outcome err
  classify_429_lem ProviderPoolId.mistral err = mistral-outcome err
  classify_429_lem ProviderPoolId.sambanova err = sambanova-outcome err
  classify_429_lem ProviderPoolId.openai err = refl
  classify_429_lem ProviderPoolId.ollama err = refl
  classify_429_lem ProviderPoolId.nvidia err = refl
