-- ===== src/Orchestrator/Classify.antt =====
-- The classification of failed model calls (`RATE_LIMIT_429_CLASSIFIERS` and `classifyModelCallError`
-- of orchestrator/src/solver.ts).
use connections.Base.{
  ℕ, String, Bool, true, false, ◌||◌, Option, none, some, ltb, ◌==◌, if◌then◌else◌, str_eq,
}
use connections.ProviderPool.{ProviderPoolId}
use connections.Orchestrator.{
  SolveErrorCode, SolveError, HostText, ApiCallError, ModelCallError, Dimension,
  parse_google_rate_limit, is_google_daily_rate_limit, parse_seconds_header,
  parse_groq_reset_duration, parse_reset_timestamp_seconds, groq_per_day_rate_limit_dimension,
  mistral_monthly_rate_limit_from_body, daily_reset_threshold_seconds,
}

abbrev pub rate_limited : ApiCallError → Option ℕ → SolveError
rate_limited err retry_after = record {
  code = SolveErrorCode.rate_limited;
  status_code = err.status_code;
  retry_after_seconds = retry_after;
  daily_reset_seconds = none;
}

abbrev pub rate_limited_daily : ApiCallError → Option ℕ → SolveError
rate_limited_daily err reset = record {
  code = SolveErrorCode.rate_limited_daily;
  status_code = err.status_code;
  retry_after_seconds = none;
  daily_reset_seconds = reset;
}

-- `a ?? b`
abbrev pub or_else : Option ℕ → Option ℕ → Option ℕ
or_else (some a) b = some a
or_else none b = b

abbrev pub is_zero_text : Option String → Bool
is_zero_text none = false
is_zero_text (some text) = str_eq text "0"

module _ (host : HostText) (now : ℕ) where
  unfoldable pub classify_google : ApiCallError → Option SolveError
  unfolding parse_google_rate_limit is_google_daily_rate_limit
  classify_google err = elim (parse_google_rate_limit host err.response_body) [
    | some retry_after ↦ some (rate_limited err retry_after)
    | none ↦
        if is_google_daily_rate_limit host err.response_body
        then some (rate_limited_daily err none)
        else none
  ]

  unfoldable pub groq_daily_reset : ApiCallError → Option Dimension → Option ℕ
  unfolding parse_groq_reset_duration
  groq_daily_reset err (some Dimension.tokens) =
      parse_groq_reset_duration host (err.header "x-ratelimit-reset-requests")
  groq_daily_reset err dimension =
      or_else (parse_groq_reset_duration host (err.header "x-ratelimit-reset-requests"))
        (parse_seconds_header host (err.header "retry-after"))

  abbrev pub has_dimension : Option Dimension → Bool
  has_dimension none = false
  has_dimension (some dimension) = true

  unfoldable pub classify_groq : ApiCallError → Option SolveError
  unfolding groq_daily_reset groq_per_day_rate_limit_dimension parse_groq_reset_duration
  classify_groq err =
      let dimension = groq_per_day_rate_limit_dimension host err.response_body err.message in
      if is_zero_text (err.header "x-ratelimit-remaining-requests") || has_dimension dimension
      then some (rate_limited_daily err (groq_daily_reset err dimension))
      else some (
          rate_limited err (
            or_else (parse_seconds_header host (err.header "retry-after"))
              (parse_groq_reset_duration host (err.header "x-ratelimit-reset-tokens"))))

  -- A reset further away than the threshold is a daily one.
  abbrev pub by_distance : ApiCallError → ℕ → Option ℕ → SolveError
  by_distance err reset retry_after =
      if ltb daily_reset_threshold_seconds reset
      then rate_limited_daily err (some reset)
      else rate_limited err (or_else retry_after (some reset))

  unfoldable pub classify_openrouter : ApiCallError → Option SolveError
  unfolding parse_reset_timestamp_seconds
  classify_openrouter err =
      let retry_after = parse_seconds_header host (err.header "retry-after") in
      elim (parse_reset_timestamp_seconds host now (err.header "x-ratelimit-reset")) [
        | some reset ↦ some (by_distance err reset retry_after)
        | none ↦ elim retry_after [
          | some seconds ↦ some (rate_limited err (some seconds))
          | none ↦ none
        ]
      ]

  unfoldable pub classify_mistral : ApiCallError → Option SolveError
  unfolding mistral_monthly_rate_limit_from_body
  classify_mistral err =
      if mistral_monthly_rate_limit_from_body host err.response_body err.message
      then some (rate_limited_daily err none)
      else some (rate_limited err (parse_seconds_header host (err.header "retry-after")))

  unfoldable pub classify_sambanova : ApiCallError → Option SolveError
  unfolding parse_groq_reset_duration
  classify_sambanova err =
      let day = parse_groq_reset_duration host (err.header "x-ratelimit-reset-requests-day") in
      let minute =
        or_else (parse_groq_reset_duration host (err.header "x-ratelimit-reset-requests"))
          (parse_seconds_header host (err.header "retry-after")) in
      elim (or_else day minute) [ some reset ↦ some (by_distance err reset minute) | none ↦ none ]

  unfoldable pub classify_429 : ProviderPoolId → ApiCallError → Option SolveError
  unfolding classify_google classify_groq classify_openrouter classify_mistral classify_sambanova
  classify_429 ProviderPoolId.google err = classify_google err
  classify_429 ProviderPoolId.groq err = classify_groq err
  classify_429 ProviderPoolId.openrouter err = classify_openrouter err
  classify_429 ProviderPoolId.mistral err = classify_mistral err
  classify_429 ProviderPoolId.sambanova err = classify_sambanova err
  classify_429 _ err = none

  abbrev pub model_error : Option ℕ → SolveError
  model_error status = record {
    code = SolveErrorCode.model_error;
    status_code = status;
    retry_after_seconds = none;
    daily_reset_seconds = none;
  }

  abbrev pub is_429 : Option ℕ → Bool
  is_429 none = false
  is_429 (some status) = status == 429

  unfoldable pub classify_model_call_error : ProviderPoolId → ModelCallError → SolveError
  unfolding classify_429
  classify_model_call_error provider (ModelCallError.retry_of last) =
      classify_model_call_error provider last
  classify_model_call_error provider ModelCallError.retry_empty = model_error none
  classify_model_call_error provider ModelCallError.malformed = record {
    code = SolveErrorCode.invalid_group;
    status_code = none;
    retry_after_seconds = none;
    daily_reset_seconds = none;
  }
  classify_model_call_error provider ModelCallError.other = model_error none
  classify_model_call_error provider (ModelCallError.api_call err) =
      if is_429 err.status_code
      then elim (classify_429 provider err) [
        | some classified ↦ classified
        | none ↦ model_error err.status_code
      ]
      else model_error err.status_code
