-- ===== src/PoolDispatch/Chain.antt =====
-- The chain of ticks of a pool's cycle (backend/src/modules/provider-pool/free-dispatch.service.ts).
use connections.Base.{
  ℕ, ◌+◌, ◌<◌, String, ◌≡◌, refl, ◌⊎◌, inl, inr, Bool, true, false, none, some, List, [], ◌∷◌, ◌++◌,
  map, arith, if◌then◌else◌, Bool-cases, length, find?, distinct,
}
use connections.ProviderPool.{ProviderPoolId, DispatchSpec, Pacing}
use connections.RoundRobin.{Allocation, Attempt}
use connections.RoundRobin.Names.{names}
use connections.PoolDispatch.{
  PoolTick, PoolInputs, eligible_models, run_tick, run_account_budget_tick, run_until_held_tick,
}
use connections.PoolDispatch.Cycle.{PoolCycles, DispatchState, same_pool, is_active, settle, tick}
use connections.PoolDispatch.Limits.{
  Queues, Counts, run_account_budget_tick-WithinBudget, run_until_held_tick-NotHeld,
}

abbrev pub active_in : ProviderPoolId → List DispatchState → Bool
active_in pool states = elim (find? (λ s. same_pool s.id pool) states) [
  | none ↦ false
  | some s ↦ s.active
]

abbrev pub switched_off : ProviderPoolId → List DispatchState → List DispatchState
switched_off pool states =
    map (λ s. if same_pool s.id pool then record s { active = false } else s) states

pub off-active :
    (pool : ProviderPoolId) (states : List DispatchState)
    → active_in pool (switched_off pool states) ≡ false
off-active pool [] = refl
off-active pool (s ∷ states) = elim (Bool-cases (same_pool s.id pool)) [
  | inl same ↦ ground (arith, same)
  | inr other ↦ ground (arith, other, off-active pool states)
]

-- The cycle is stopped and no tick is added, or it stays active and one tick of the pool is added.
abbrev pub Continues : ProviderPoolId → PoolCycles → PoolCycles → Type 0
Continues pool before after =
    ((is_active pool after ≡ false) × (after.ticks ≡ before.ticks))
    ⊎ ((is_active pool after ≡ true)
        × ((delay : ℕ) × (after.ticks
              ≡ before.ticks ++ record { pool = pool; delay = delay } ∷ [])))

settle-Continues :
    {W : Type 0} (P : List String → Type 0) (pool : ProviderPoolId) (end : PoolTick W)
    (c : PoolCycles)
    → is_active pool c ≡ true
    → Queues P end
    → Continues pool c (settle pool end c)
unfolding settle is_active
settle-Continues P pool (PoolTick.stopped why queued) c on h = inl (off-active pool c.states, refl)
settle-Continues P pool (PoolTick.rescheduled delay queued) c on h = inr (on, (delay, refl))
settle-Continues P pool PoolTick.inactive c on h = elim h [ ]
settle-Continues P pool PoolTick.failed c on h = elim h [ ]

abbrev pub pacing_of : DispatchSpec → Pacing
pacing_of (DispatchSpec.until_held pacing) = pacing
pacing_of (DispatchSpec.account_budget b) = b.pacing

-- A trial is counted as at least one call.
abbrev pub Charges : DispatchSpec → Type 0
Charges (DispatchSpec.until_held pacing) = Unit
Charges (DispatchSpec.account_budget b) = 0 < b.calls_per_trial

module _ {W : Type 0} (allocation : List String → W → Allocation)
    (attempt : String → W → Attempt × W) where
  -- Let the models of a pool and those that are not held be different, the count of today's
  -- dispatches be over exactly the models asked for, and a trial be counted as at least one call.
  -- With fuel for a batch and the models, a tick of a pool whose cycle is active never leaves it active
  -- without a next tick, nor inactive with one: it stops the cycle and adds no tick, or keeps it active
  -- and adds exactly one tick job of the pool.
  pub tick-Continues :
      (fuel : ℕ) (spec : DispatchSpec) (pool : ProviderPoolId) (i : PoolInputs) (w : W)
      (c : PoolCycles)
      → is_active pool c ≡ true
      → Charges spec
      → distinct i.models ≡ true
      → distinct (eligible_models i) ≡ true
      → Counts allocation attempt
      → (pacing_of spec).max_batch + length (names (allocation i.models w)) < fuel
      → (pacing_of spec).max_batch + length (names (allocation (eligible_models i) w)) < fuel
      → Continues pool c (tick allocation attempt fuel spec pool i w c).1
  unfolding tick run_tick
  tick-Continues fuel (DispatchSpec.until_held pacing) pool i w c on pos d de s f g = rw on (
      settle-Continues _ pool (run_until_held_tick allocation attempt fuel pacing i w) c on
        (run_until_held_tick-NotHeld allocation attempt fuel pacing i w de s g))
  tick-Continues fuel (DispatchSpec.account_budget b) pool i w c on pos d de s f g = rw on (
      settle-Continues _ pool (run_account_budget_tick allocation attempt fuel b i w) c on (
        run_account_budget_tick-WithinBudget allocation attempt fuel b i w pos d s
          (omega (arith, f))))
