-- ===== src/PoolDispatch/Limits.antt =====
-- What a tick of a provider pool queues
-- (backend/src/modules/provider-pool/free-dispatch.service.ts).
use native.Mathlib.Nat.{le-div_iff_mul-le}
use connections.Base.{
  str_eq, str_eq→eq, ℕ, ◌+◌, ◌-◌, ◌*◌, ◌≤◌, ◌<◌, min, String, ◌≡◌, refl, sym, subst, ◌⊎◌, inl, inr,
  Bool, true, false, not, ◌&&◌, List, [], ◌∷◌, ◌++◌, arith, leb, ◌==◌, if◌then◌else◌, Bool-cases,
  length, filter, count-le-length, distinct, subset, includes, All,
}
use connections.Hold.{held_models, held_reason, is_daily, is_cooldown}
use connections.ProviderPool.{Pacing, AccountBudget}
use connections.RoundRobin.{Allocation, Attempt, Round}
use connections.RoundRobin.Names.{names}
use connections.RoundRobin.Ends.{FitFrom, dispatch_loop-returns}
use connections.PoolDispatch.{
  PoolTick, PoolInputs, total_in_flight, eligible_models, dispatch_round_robin, after_round,
  run_until_held_tick, run_account_budget_tick, max_new_trials,
}

FitFrom-models :
    (models before new : List String)
    → FitFrom (λ q m. true && includes models m) before new
    → All (λ m. includes models m ≡ true) new
FitFrom-models models before [] f = tt
FitFrom-models models before (m ∷ ms) (f, g) =
    (ground (arith, f), FitFrom-models models (before ++ m ∷ []) ms g)

includes-filter_test :
    (p : String → Bool) (ms : List String) (m : String)
    → includes (filter p ms) m ≡ true
    → (includes ms m ≡ true) × (p m ≡ true)
includes-filter_test p [] m h = absurd (ground (arith, h))
includes-filter_test p (x ∷ xs) m h = elim (Bool-cases (p x)) [
  | inl there ↦ elim (Bool-cases (str_eq x m)) [
    | inl same ↦
        let e : x ≡ m = str_eq→eq x m same in
        (ground (arith, same), subst (λ z. p z ≡ true) e there)
    | inr other ↦
        let k = includes-filter_test p xs m (ground (arith, h, there, other)) in
        (ground (arith, k.0), k.1)
  ]
  | inr out ↦
      let k = includes-filter_test p xs m (ground (arith, h, out)) in (ground (arith, k.0), k.1)
]

-- A tick runs and does not fail, and what it queues satisfies `P`.
abbrev pub Queues : {W : Type 0} → (List String → Type 0) → PoolTick W → Type 0
Queues P PoolTick.failed = ⊥
Queues P PoolTick.inactive = ⊥
Queues P (PoolTick.stopped reason queued) = P queued
Queues P (PoolTick.rescheduled delay queued) = P queued

if-Queues :
    {W : Type 0} (P : List String → Type 0) (b : Bool) (yes_case no_case : PoolTick W)
    → (b ≡ true → Queues P yes_case)
    → (b ≡ false → Queues P no_case)
    → Queues P (if b then yes_case else no_case)
if-Queues P true yes_case no_case h k = h refl
if-Queues P false yes_case no_case h k = k refl

abbrev pub WithinBudget : AccountBudget → PoolInputs → List String → Type 0
WithinBudget b i queued =
    (queued ≡ [])
    ⊎ ((is_daily (held_reason i.strategy i.now i.holds) ≡ false)
        × (i.calls_today
              + total_in_flight i i.models * b.calls_per_trial
              + length queued * b.calls_per_trial
            ≤ b.budget)
        × (total_in_flight i i.models + length queued ≤ b.pacing.max_in_flight))

-- No queued model is held.
abbrev pub NotHeld : Pacing → PoolInputs → List String → Type 0
NotHeld pacing i queued =
    All
      (λ m.
        (includes i.models m ≡ true) × (includes (held_models i.strategy i.now i.holds) m ≡ false))
      queued
    × ((queued ≡ [])
        ⊎ (total_in_flight i (eligible_models i) + length queued ≤ pacing.max_in_flight))

module _ {W : Type 0} (allocation : List String → W → Allocation)
    (attempt : String → W → Attempt × W) where
  -- The count of today's dispatches is over exactly the models asked for.
  abbrev pub Counts : Type 0
  Counts =
      (models : List String) (w : W)
      → (subset models (names (allocation models w)) ≡ true)
        × (subset (names (allocation models w)) models ≡ true)

  round-Queues :
      (P : List String → Type 0) (fuel : ℕ) (pacing : Pacing) (models : List String) (n : ℕ) (w : W)
      → distinct models ≡ true
      → Counts
      → n + length (names (allocation models w)) < fuel
      → ((queued : List String)
          → All (λ m. includes models m ≡ true) queued
          → length queued ≤ n
          → P queued)
      → Queues P (
          after_round allocation attempt pacing models
            (dispatch_round_robin allocation attempt fuel models n w))
  unfolding dispatch_round_robin
  round-Queues P fuel pacing models n w d s enough h =
      let first : Round W = record {
        exhausted = [];
        skipped = [];
        queued = [];
        allocation = allocation models w;
        world = w;
      } in
      let few = count-le-length (λ (m : String). not false) (names (allocation models w)) in
      let (r, is_end, (new, split, fit), short, stops) =
        dispatch_loop-returns models n (λ queued model. true) attempt fuel first d (s models w).0
          (s models w).1 (omega arith) (omega (arith, enough, few)) in
      subst (λ z. Queues P (after_round allocation attempt pacing models z)) (sym is_end)
        (if-Queues _ (length r.exhausted == length models) _ _
          (λ e. h r.queued (rw split (FitFrom-models models [] new fit)) short)
          (λ e. h r.queued (rw split (FitFrom-models models [] new fit)) short))

  -- Let a trial be counted as at least one call, let the models be different and the count of today's
  -- dispatches be over exactly these models. With fuel for the new trials and the models, a tick of a
  -- pool with an account budget never fails, and when it queues trials, whether or not it then stops the
  -- cycle for want of puzzles, then the account is not held for the day, the calls of today with the calls counted for the trials in flight and the new ones are
  -- within the daily budget, and these trials are within the limit on trials in flight.
  pub run_account_budget_tick-WithinBudget :
      (fuel : ℕ) (b : AccountBudget) (i : PoolInputs) (w : W)
      → 0 < b.calls_per_trial
      → distinct i.models ≡ true
      → Counts
      → max_new_trials allocation attempt b i + length (names (allocation i.models w)) < fuel
      → Queues (WithinBudget b i) (run_account_budget_tick allocation attempt fuel b i w)
  unfolding run_account_budget_tick
  run_account_budget_tick-WithinBudget fuel b i w pos d s enough =
      let reason = held_reason i.strategy i.now i.holds in
      let total : ℕ = total_in_flight i i.models in
      let n : ℕ = max_new_trials allocation attempt b i in
      let left : ℕ = b.budget - i.calls_today - total * b.calls_per_trial in
      let fits_budget : (queued : List String)
          → length queued ≤ n
          → length queued * b.calls_per_trial ≤ left =
        λ queued short. (le-div_iff_mul-le pos).0 (omega (arith, short)) in
      if-Queues _ (is_daily reason) _ _ (λ e. inl refl)
        (λ free.
          if-Queues _ (is_cooldown reason) _ _ (λ e. inl refl)
            (λ e2.
              if-Queues _ (length i.models == 0) _ _ (λ e. inl refl)
                (λ e3.
                  if-Queues _ (leb b.budget (i.calls_today + total * b.calls_per_trial)) _ _
                    (λ e. inl refl)
                    (λ below.
                      if-Queues _ (leb b.pacing.max_in_flight total) _ _ (λ e. inl refl)
                        (λ room.
                          if-Queues _ (n == 0) _ _ (λ e. inl refl)
                            (λ e6.
                              round-Queues (WithinBudget b i) fuel b.pacing i.models n w d s enough
                                (λ queued inside short. inr (
                                  free,
                                  ground (arith, fits_budget queued short, below),
                                  ground (arith, short, room),
                                ))))))))

  filter-not_held :
      (held models queued : List String)
      → All (λ m. includes (filter (λ x. not (includes held x)) models) m ≡ true) queued
      → All (λ m. (includes models m ≡ true) × (includes held m ≡ false)) queued
  filter-not_held held models [] h = tt
  filter-not_held held models (m ∷ ms) (h, k) =
      let free = includes-filter_test (λ x. not (includes held x)) models m h in
      ((free.0, ground (arith, free.1)), filter-not_held held models ms k)

  -- Let the models be different and the count of today's dispatches be over exactly the models asked
  -- for. With fuel for the new trials and the models, a tick of a pool that dispatches until its
  -- models are held never fails; every trial that it queues, also when it then stops the cycle, is on a model of the pool which has no
  -- live hold, and these trials are with those in flight on such models within the limit.
  pub run_until_held_tick-NotHeld :
      (fuel : ℕ) (pacing : Pacing) (i : PoolInputs) (w : W)
      → distinct (eligible_models i) ≡ true
      → Counts
      → pacing.max_batch + length (names (allocation (eligible_models i) w)) < fuel
      → Queues (NotHeld pacing i) (run_until_held_tick allocation attempt fuel pacing i w)
  unfolding run_until_held_tick
  run_until_held_tick-NotHeld fuel pacing i w d s enough =
      let eligible : List String = eligible_models i in
      let total : ℕ = total_in_flight i eligible in
      let n : ℕ = min pacing.max_batch (pacing.max_in_flight - total) in
      if-Queues _ (length i.models == 0) _ _ (λ e. (tt, inl refl))
        (λ e1.
          if-Queues _ (length eligible == 0) _ _ (λ e. (tt, inl refl))
            (λ e2.
              if-Queues _ (leb pacing.max_in_flight total) _ _ (λ e. (tt, inl refl))
                (λ room.
                  round-Queues (NotHeld pacing i) fuel pacing eligible n w d s
                    (omega (arith, enough))
                    (λ queued inside short. (
                      filter-not_held (held_models i.strategy i.now i.holds) i.models queued inside,
                      inr (ground (arith, short, room)),
                    )))))
