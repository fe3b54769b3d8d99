-- ===== src/DailyAutomation/Legs.antt =====
-- What a leg of a day's automatic run writes, and when an error goes up from it
-- (backend/src/modules/automation/daily-automation.service.ts).
use connections.Base.{
  ℕ, String, ◌≡◌, refl, ◌∙◌, ◌⊎◌, inl, inr, Bool, true, false, Option, none, some, arith,
  Bool-cases, Option-cases,
}
use connections.Strategy.{FreeTierId}
use connections.ProviderPool.{ProviderPoolId}
use connections.DailyAutomation.{
  AutomationLegOutcome, AutomationRunLog, Burn, Call, LegEnd, Services, burn, exhausted_message,
  and_then, leg, tier_call, pool_call,
}

pub Sum-cases : {A B : Type 0} (x : A ⊎ B) → ((a : A) × (x ≡ inl a)) ⊎ ((b : B) × (x ≡ inr b))
Sum-cases (inl a) = inl (a, refl)
Sum-cases (inr b) = inr (b, refl)

pub and_then-done :
    {S : Type 0} (e : LegEnd × S) (step : S → LegEnd × S)
    → (and_then e step).0 ≡ inl tt
    → (e.0 ≡ inl tt) × (and_then e step ≡ step e.1)
and_then-done (inl done, s) step h = (refl, refl)
and_then-done (inr message, s) step h = absurd (ground (arith, h))

module _ {W : Type 0} (services : Services W) where
  -- A write of the log throws the message at some time.
  abbrev pub LogThrows : String → Type 0
  LogThrows message = (v : W) × ((services.write_log v).0 ≡ inr message)

  -- What a free tier's calls answer from `w` on, and what is recorded of it.
  abbrev pub TierAnswers : FreeTierId → W → Burn → Type 0
  TierAnswers tier w b =
      ((m : String) × ((services.tier_status tier w).0 ≡ inl (some m))
        × (b ≡ burn AutomationLegOutcome.already_active m))
      ⊎ (((services.tier_status tier w).0 ≡ inl none)
          × ((services.start_tier tier 80 (services.tier_status tier w).1).0 ≡ inl tt)
          × (b ≡ burn AutomationLegOutcome.started "started at 80%"))

  abbrev pub TierThrows : FreeTierId → W → String → Type 0
  TierThrows tier w message =
      ((services.tier_status tier w).0 ≡ inr message)
      ⊎ (((services.tier_status tier w).0 ≡ inl none)
          × ((services.start_tier tier 80 (services.tier_status tier w).1).0 ≡ inr message))

  abbrev pub PoolAnswers : ProviderPoolId → W → Burn → Type 0
  PoolAnswers pool w b =
      (((services.pool_active pool w).0 ≡ inl true)
        × (b ≡ burn AutomationLegOutcome.already_active "already running"))
      ⊎ ((exhausted : Bool) × ((services.pool_active pool w).0 ≡ inl false)
          × ((services.start_pool pool (services.pool_active pool w).1).0 ≡ inl exhausted)
          × ((exhausted ≡ true)
                × (b ≡ burn AutomationLegOutcome.already_exhausted (exhausted_message pool))
              ⊎ (exhausted ≡ false) × (b ≡ burn AutomationLegOutcome.started "started")))

  abbrev pub PoolThrows : ProviderPoolId → W → String → Type 0
  PoolThrows pool w message =
      ((services.pool_active pool w).0 ≡ inr message)
      ⊎ (((services.pool_active pool w).0 ≡ inl false)
          × ((services.start_pool pool (services.pool_active pool w).1).0 ≡ inr message))

  -- A burn leg records its calls' answer, or an error with the message of a call or a write that threw.
  abbrev pub Reports : (W → Burn → Type 0) → (W → String → Type 0) → Burn → Type 0
  Reports Answers Throws b =
      (w : W) × (Answers w b
        ⊎ ((m : String) × (Throws w m ⊎ LogThrows m) × (b ≡ burn AutomationLegOutcome.error m)))

  -- A counting leg records its call's number, or the message of what threw.
  abbrev pub Counted : Call W ℕ → Option ℕ → Option String → Type 0
  Counted call count error =
      (w : W) × (((n : ℕ) × ((call w).0 ≡ inl n) × (count ≡ some n) × (error ≡ none))
        ⊎ ((m : String) × (((call w).0 ≡ inr m) ⊎ LogThrows m) × (count ≡ none) × (error ≡ some m)))

  -- A leg that is done has written what its call gave, or the message of what threw.
  pub leg-done :
      {A : Type 0} (call : Call W A) (set : A → AutomationRunLog → AutomationRunLog)
      (on_error : String → AutomationRunLog → AutomationRunLog) (s : AutomationRunLog × W)
      → (leg services call set on_error s).0 ≡ inl tt
      → ((a : A) × ((call s.1).0 ≡ inl a) × ((leg services call set on_error s).1.0 ≡ set a s.0))
        ⊎ ((m : String) × (((call s.1).0 ≡ inr m) ⊎ LogThrows m)
            × ((leg services call set on_error s).1.0 ≡ on_error m s.0))
  unfolding leg
  leg-done call set on_error (log, w) h =
      let w1 : W = (call w).1 in
      let w2 : W = (services.write_log w1).1 in
      elim (Sum-cases (call w).0) [
        | inr (m, e) ↦ elim (Sum-cases (services.write_log w1).0) [
          | inl (done, f) ↦ inr (m, inl e, ground (arith, e, f))
          | inr (n, f) ↦ absurd (ground (arith, h, e, f))
        ]
        | inl (a, e) ↦ elim (Sum-cases (services.write_log w1).0) [
          | inl (done, f) ↦ inl (a, e, ground (arith, e, f))
          | inr (m, f) ↦ elim (Sum-cases (services.write_log w2).0) [
            | inl (done, g) ↦ inr (m, inr (w1, f), ground (arith, e, f, g))
            | inr (n, g) ↦ absurd (ground (arith, h, e, f, g))
          ]
        ]
      ]

  abbrev pub Aborts : {S : Type 0} → LegEnd × S → Type 0
  Aborts e = (m : String) → e.0 ≡ inr m → LogThrows m

  pub leg-Aborts :
      {A : Type 0} (call : Call W A) (set : A → AutomationRunLog → AutomationRunLog)
      (on_error : String → AutomationRunLog → AutomationRunLog) (s : AutomationRunLog × W)
      → Aborts (leg services call set on_error s)
  unfolding leg
  leg-Aborts call set on_error (log, w) m h =
      let w1 : W = (call w).1 in
      let w2 : W = (services.write_log w1).1 in
      elim (Sum-cases (services.write_log w1).0) [
        | inr (n, f) ↦ elim (Sum-cases (call w).0) [
          | inr (k, e) ↦ (w1, f ∙ (ground (arith, h, e, f)))
          | inl (a, e) ↦ elim (Sum-cases (services.write_log w2).0) [
            | inl (done, g) ↦ absurd (ground (arith, h, e, f, g))
            | inr (k, g) ↦ (w2, g ∙ (ground (arith, h, e, f, g)))
          ]
        ]
        | inl (done, f) ↦ elim (Sum-cases (call w).0) [
          | inr (k, e) ↦ absurd (ground (arith, h, e, f))
          | inl (a, e) ↦ absurd (ground (arith, h, e, f))
        ]
      ]

  pub and_then-Aborts :
      {S : Type 0} (e : LegEnd × S) (step : S → LegEnd × S)
      → Aborts e
      → ((s : S) → Aborts (step s))
      → Aborts (and_then e step)
  and_then-Aborts (inl done, s) step h k = k s
  and_then-Aborts (inr message, s) step h k = h

  pub tier_call-TierAnswers :
      (tier : FreeTierId) (w : W) (b : Burn)
      → (tier_call services tier w).0 ≡ inl b
      → TierAnswers tier w b
  unfolding tier_call
  tier_call-TierAnswers tier w b h = elim (Sum-cases (services.tier_status tier w).0) [
    | inr (m, e) ↦ absurd (ground (arith, h, e))
    | inl (current, e) ↦ elim (Option-cases current) [
      | inr (m, k) ↦ inl (m, ground (arith, e, k), ground (arith, h, e, k))
      | inl k ↦ elim (Sum-cases (services.start_tier tier 80 (services.tier_status tier w).1).0) [
        | inl (done, f) ↦ inr (ground (arith, e, k), f, ground (arith, h, e, k, f))
        | inr (m, f) ↦ absurd (ground (arith, h, e, k, f))
      ]
    ]
  ]

  pub tier_call-TierThrows :
      (tier : FreeTierId) (w : W) (m : String)
      → (tier_call services tier w).0 ≡ inr m
      → TierThrows tier w m
  unfolding tier_call
  tier_call-TierThrows tier w m h = elim (Sum-cases (services.tier_status tier w).0) [
    | inr (n, e) ↦ inl (ground (arith, h, e))
    | inl (current, e) ↦ elim (Option-cases current) [
      | inr (n, k) ↦ absurd (ground (arith, h, e, k))
      | inl k ↦ elim (Sum-cases (services.start_tier tier 80 (services.tier_status tier w).1).0) [
        | inl (done, f) ↦ absurd (ground (arith, h, e, k, f))
        | inr (n, f) ↦ inr (ground (arith, e, k), ground (arith, h, e, k, f))
      ]
    ]
  ]

  pub pool_call-PoolAnswers :
      (pool : ProviderPoolId) (w : W) (b : Burn)
      → (pool_call services pool w).0 ≡ inl b
      → PoolAnswers pool w b
  unfolding pool_call
  pool_call-PoolAnswers pool w b h = elim (Sum-cases (services.pool_active pool w).0) [
    | inr (m, e) ↦ absurd (ground (arith, h, e))
    | inl (active, e) ↦ elim (Bool-cases active) [
      | inl k ↦ inl (ground (arith, e, k), ground (arith, h, e, k))
      | inr k ↦ elim (Sum-cases (services.start_pool pool (services.pool_active pool w).1).0) [
        | inr (m, f) ↦ absurd (ground (arith, h, e, k, f))
        | inl (exhausted, f) ↦ inr (
          exhausted,
          ground (arith, e, k),
          f,
          elim (Bool-cases exhausted) [
            | inl x ↦ inl (x, ground (arith, h, e, k, f, x))
            | inr x ↦ inr (x, ground (arith, h, e, k, f, x))
          ],
        )
      ]
    ]
  ]

  pub pool_call-PoolThrows :
      (pool : ProviderPoolId) (w : W) (m : String)
      → (pool_call services pool w).0 ≡ inr m
      → PoolThrows pool w m
  unfolding pool_call
  pool_call-PoolThrows pool w m h = elim (Sum-cases (services.pool_active pool w).0) [
    | inr (n, e) ↦ inl (ground (arith, h, e))
    | inl (active, e) ↦ elim (Bool-cases active) [
      | inl k ↦ absurd (ground (arith, h, e, k))
      | inr k ↦ elim (Sum-cases (services.start_pool pool (services.pool_active pool w).1).0) [
        | inr (n, f) ↦ inr (ground (arith, e, k), ground (arith, h, e, k, f))
        | inl (exhausted, f) ↦ absurd (ground (arith, h, e, k, f))
      ]
    ]
  ]
