-- ===== src/PoolDispatch/Cycle.antt =====
-- backend/src/modules/provider-pool/free-dispatch.service.ts: starting and stopping the cycle of a
-- pool, and what a tick does to its state and its queue (dispatch-state.entity.ts). The ids of tick
-- jobs are fresh and left out.
use connections.Base.{
  ℕ, String, Bool, true, false, Option, none, some, List, [], ◌∷◌, ◌++◌, map, if◌then◌else◌, find?,
}
use connections.ProviderPool.{ProviderPoolId, DispatchSpec, Knobs, free_tier}
use connections.RoundRobin.{Allocation, Attempt}
use connections.PoolDispatch.{PoolTick, PoolInputs, is_start_exhausted, run_tick}

abbrev pub same_pool : ProviderPoolId → ProviderPoolId → Bool
same_pool ProviderPoolId.google ProviderPoolId.google = true
same_pool ProviderPoolId.groq ProviderPoolId.groq = true
same_pool ProviderPoolId.openrouter ProviderPoolId.openrouter = true
same_pool ProviderPoolId.mistral ProviderPoolId.mistral = true
same_pool ProviderPoolId.sambanova ProviderPoolId.sambanova = true
same_pool ProviderPoolId.openai ProviderPoolId.openai = true
same_pool ProviderPoolId.ollama ProviderPoolId.ollama = true
same_pool ProviderPoolId.nvidia ProviderPoolId.nvidia = true
same_pool _ _ = false

pub record DispatchState : Type 0 where
  pub id : ProviderPoolId
  pub active : Bool
  pub started_at : Option ℕ

-- A tick job on the queue of a pool.
pub record PoolTickJob : Type 0 where
  pub pool : ProviderPoolId
  pub delay : ℕ

pub record PoolCycles : Type 0 where
  pub states : List DispatchState
  pub ticks : List PoolTickJob

abbrev pub find_state : ProviderPoolId → PoolCycles → Option DispatchState
find_state pool c = find? (λ s. same_pool s.id pool) c.states

abbrev pub save_state : DispatchState → List DispatchState → List DispatchState
save_state state [] = state ∷ []
save_state state (s ∷ states) =
    if same_pool s.id state.id then state ∷ states else s ∷ save_state state states

abbrev pub add_tick : ProviderPoolId → ℕ → PoolCycles → PoolCycles
add_tick pool delay c = record c { ticks = c.ticks ++ record { pool = pool; delay = delay } ∷ [] }

abbrev pub deactivate : ProviderPoolId → PoolCycles → PoolCycles
deactivate pool c = record c {
  states = map (λ s. if same_pool s.id pool then record s { active = false } else s) c.states;
}

unfoldable pub is_active : ProviderPoolId → PoolCycles → Bool
is_active pool c = elim (find_state pool c) [ none ↦ false | some state ↦ state.active ]

pub record DispatchStatus : Type 0 where
  pub active : Bool
  pub started_at : Option ℕ
  pub calls_today : Option ℕ
  pub daily_budget : Option ℕ

abbrev pub status_of : DispatchSpec → Option DispatchState → ℕ → DispatchStatus
status_of spec state calls_today = record {
  active = elim state [ none ↦ false | some s ↦ s.active ];
  started_at = elim state [ none ↦ none | some s ↦ s.started_at ];
  calls_today = elim spec [
    | DispatchSpec.until_held pacing ↦ none
    | DispatchSpec.account_budget b ↦ some calls_today
  ];
  daily_budget = elim spec [
    | DispatchSpec.until_held pacing ↦ none
    | DispatchSpec.account_budget b ↦ some b.budget
  ];
}

-- `none` is the error of a pool without a free tier.
unfoldable pub get_status : Knobs → ProviderPoolId → ℕ → PoolCycles → Option DispatchStatus
unfolding free_tier
get_status knobs pool calls_today c = elim (free_tier knobs pool) [
  | none ↦ none
  | some ft ↦ some (status_of ft.dispatch (find_state pool c) calls_today)
]

abbrev pub stop : ProviderPoolId → PoolCycles → PoolCycles
stop pool c = deactivate pool c

pub data PoolStart : Type 0 where
  no_free_tier already_running already_exhausted started : PoolStart

-- A start when the cycle is not active.
abbrev pub start_idle :
    DispatchSpec → ProviderPoolId → PoolInputs → PoolCycles → PoolStart × PoolCycles
start_idle spec pool i c =
    if is_start_exhausted spec i
    then (
      PoolStart.already_exhausted,
      record c {
        states = save_state (record { id = pool; active = false; started_at = none }) c.states;
      },
    )
    else (
      PoolStart.started,
      add_tick pool 0 (record c {
        states = save_state (record { id = pool; active = true; started_at = some i.now }) c.states;
      }),
    )

unfoldable pub start : Knobs → ProviderPoolId → PoolInputs → PoolCycles → PoolStart × PoolCycles
unfolding free_tier is_active
start knobs pool i c = elim (free_tier knobs pool) [
  | none ↦ (PoolStart.no_free_tier, c)
  | some ft ↦
      if is_active pool c then (PoolStart.already_running, c) else start_idle ft.dispatch pool i c
]

-- What the end of a tick leaves.
unfoldable pub settle : {W : Type 0} → ProviderPoolId → PoolTick W → PoolCycles → PoolCycles
settle pool (PoolTick.stopped why queued) c = deactivate pool c
settle pool (PoolTick.rescheduled delay queued) c = add_tick pool delay c
settle pool PoolTick.inactive c = c
settle pool PoolTick.failed c = c

module _ {W : Type 0} (allocation : List String → W → Allocation)
    (attempt : String → W → Attempt × W) where
  -- `runTick`, with what it does to the pool's state and queue.
  unfoldable pub tick :
      ℕ → DispatchSpec → ProviderPoolId → PoolInputs → W → PoolCycles → PoolTick W × PoolCycles
  unfolding run_tick is_active settle
  tick fuel spec pool i w c =
      let end = run_tick allocation attempt fuel (is_active pool c) spec i w in
      (end, settle pool end c)
