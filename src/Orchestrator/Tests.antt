-- ===== src/Orchestrator/Tests.antt =====
-- A 429 of Groq behind a retry.
use connections.Base.{if◌then◌else◌, ◌≡◌, refl, false, none, some, [], str_eq}
use connections.ProviderPool.{ProviderPoolId}
use connections.Orchestrator.{HostText, ApiCallError, ModelCallError}
use connections.Orchestrator.Classify.{classify_model_call_error}

-- A host that reads one header.
abbrev host : HostText
host = record {
  error_details = λ body. none;
  groq_texts = λ body. [];
  mistral_texts = λ body. [];
  ends_with = λ text suffix. false;
  includes_text = λ text part. false;
  matches = λ pattern texts. false;
  parse_float = λ text. none;
  seconds = λ text. if str_eq text "7" then some 7 else none;
  number = λ text. none;
  duration = λ text. none;
}

abbrev call : ApiCallError
call = record {
  status_code = some 429;
  message = "too many";
  header = λ name. if str_eq name "retry-after" then some "7" else none;
  response_body = none;
}

abbrev err : ModelCallError
err = ModelCallError.retry_of (ModelCallError.api_call call)

waits_seven :
    (classify_model_call_error host 0 ProviderPoolId.groq err).retry_after_seconds ≡ some 7
unfolding classify_model_call_error str_eq
waits_seven = refl
