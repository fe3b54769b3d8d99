-- ===== src/ProviderPool.antt =====
-- backend/src/modules/provider-pool/provider-pool.config.ts: the pools of the LLM providers. The
-- knobs that a row reads from the environment are the fields of `Knobs`.
use connections.Base.{ℕ, ◌*◌, ◌≡◌, false, Option, none, some, ◌↔◌, arith}
use connections.Strategy.{SupportedStrategy, is_llm_strategy}

pub data ProviderPoolId : Type 0 where
  openai google groq openrouter mistral sambanova ollama nvidia : ProviderPoolId

pub data HoldScope : Type 0 where
  model account : HoldScope

pub data ResetSchedule : Type 0 where
  fixed_cron : ResetSchedule
  self_rearm : ℕ → ResetSchedule

pub record Pacing : Type 0 where
  pub tick_ms : ℕ
  pub max_batch : ℕ
  pub max_in_flight : ℕ

pub record AccountBudget : Type 0 where
  pub budget : ℕ
  pub calls_per_trial : ℕ
  pub rpm_cooldown_seconds : ℕ
  pub pacing : Pacing

pub data DispatchSpec : Type 0 where
  until_held : Pacing → DispatchSpec
  account_budget : AccountBudget → DispatchSpec

pub record FreeTierConfig : Type 0 where
  pub hold_scope : HoldScope
  pub reset_schedule : ResetSchedule
  pub dispatch : DispatchSpec

pub record Knobs : Type 0 where
  pub shared : Pacing
  pub sambanova_pacing : Pacing
  pub openrouter_budget : AccountBudget

abbrev pub self_rearm_max_delay_ms : ℕ
self_rearm_max_delay_ms = 15 * 60000

abbrev pub strategy_of : ProviderPoolId → SupportedStrategy
strategy_of ProviderPoolId.openai = SupportedStrategy.llm_openai
strategy_of ProviderPoolId.google = SupportedStrategy.llm_google
strategy_of ProviderPoolId.groq = SupportedStrategy.llm_groq
strategy_of ProviderPoolId.openrouter = SupportedStrategy.llm_openrouter
strategy_of ProviderPoolId.mistral = SupportedStrategy.llm_mistral
strategy_of ProviderPoolId.sambanova = SupportedStrategy.llm_sambanova
strategy_of ProviderPoolId.ollama = SupportedStrategy.llm_ollama
strategy_of ProviderPoolId.nvidia = SupportedStrategy.llm_nvidia

unfoldable pub free_tier : Knobs → ProviderPoolId → Option FreeTierConfig
free_tier knobs ProviderPoolId.google = some (record {
  hold_scope = HoldScope.model;
  reset_schedule = ResetSchedule.fixed_cron;
  dispatch = DispatchSpec.until_held knobs.shared;
})
free_tier knobs ProviderPoolId.groq = some (record {
  hold_scope = HoldScope.model;
  reset_schedule = ResetSchedule.self_rearm self_rearm_max_delay_ms;
  dispatch = DispatchSpec.until_held knobs.shared;
})
free_tier knobs ProviderPoolId.openrouter = some (record {
  hold_scope = HoldScope.account;
  reset_schedule = ResetSchedule.fixed_cron;
  dispatch = DispatchSpec.account_budget knobs.openrouter_budget;
})
free_tier knobs ProviderPoolId.mistral = some (record {
  hold_scope = HoldScope.model;
  reset_schedule = ResetSchedule.self_rearm self_rearm_max_delay_ms;
  dispatch = DispatchSpec.until_held knobs.shared;
})
free_tier knobs ProviderPoolId.sambanova = some (record {
  hold_scope = HoldScope.model;
  reset_schedule = ResetSchedule.self_rearm self_rearm_max_delay_ms;
  dispatch = DispatchSpec.until_held knobs.sambanova_pacing;
})
free_tier knobs _ = none

unfoldable pub provider_pool : SupportedStrategy → Option ProviderPoolId
provider_pool SupportedStrategy.llm_openai = some ProviderPoolId.openai
provider_pool SupportedStrategy.llm_google = some ProviderPoolId.google
provider_pool SupportedStrategy.llm_groq = some ProviderPoolId.groq
provider_pool SupportedStrategy.llm_openrouter = some ProviderPoolId.openrouter
provider_pool SupportedStrategy.llm_mistral = some ProviderPoolId.mistral
provider_pool SupportedStrategy.llm_sambanova = some ProviderPoolId.sambanova
provider_pool SupportedStrategy.llm_ollama = some ProviderPoolId.ollama
provider_pool SupportedStrategy.llm_nvidia = some ProviderPoolId.nvidia
provider_pool _ = none

-- A strategy has a pool exactly when it is an LLM strategy, and it is the pool whose strategy it is.
pub provider_pool_lem :
    (strategy : SupportedStrategy) (pool : ProviderPoolId)
    → (provider_pool strategy ≡ some pool ↔ strategy_of pool ≡ strategy)
      × (provider_pool strategy ≡ none ↔ is_llm_strategy strategy ≡ false)
unfolding provider_pool
provider_pool_lem strategy pool = ground arith
