-- ===== src/DailyAutomation/Burns.antt =====
-- What the burn legs of a day's automatic run write
-- (backend/src/modules/automation/daily-automation.service.ts).
use connections.Base.{String, ◌≡◌, refl, sym, ap, ◌∙◌, subst, inl, inr, List, [], ◌∷◌, arith}
use connections.Strategy.{FreeTierId}
use connections.ProviderPool.{ProviderPoolId}
use connections.DailyAutomation.{
  AutomationLegOutcome, AutomationRunLog, Burn, Call, LegEnd, Services, burn, burn_legs,
  set_pool_burn, set_mini_burn, set_flagship_burn, and_then, leg, tier_call, pool_call,
  run_mini_burn_leg, run_flagship_burn_leg, run_pool_burn_leg, run_pool_burn_legs, run_burn_legs,
}
use connections.DailyAutomation.Legs.{
  and_then-done, Aborts, TierAnswers, TierThrows, PoolAnswers, PoolThrows, Reports, leg-done,
  leg-Aborts, and_then-Aborts, tier_call-TierAnswers, tier_call-TierThrows, pool_call-PoolAnswers,
  pool_call-PoolThrows,
}

module _ {W : Type 0} (services : Services W) where
  -- A burn leg's column pair, given what its call answers or throws.
  leg-Reports :
      (call : Call W Burn) (set : Burn → AutomationRunLog → AutomationRunLog)
      (Answers : W → Burn → Type 0) (Throws : W → String → Type 0) (s : AutomationRunLog × W)
      → ((w : W) (b : Burn) → (call w).0 ≡ inl b → Answers w b)
      → ((w : W) (m : String) → (call w).0 ≡ inr m → Throws w m)
      → (leg services call set (λ m. set (burn AutomationLegOutcome.error m)) s).0 ≡ inl tt
      → (b : Burn) × Reports services Answers Throws b
        × ((leg services call set (λ m. set (burn AutomationLegOutcome.error m)) s).1.0 ≡ set b s.0)
  leg-Reports call set Answers Throws s answers throws h =
      elim (leg-done services call set (λ m. set (burn AutomationLegOutcome.error m)) s h) [
        | inl (b, e, k) ↦ (b, (s.1, inl (answers s.1 b e)), k)
        | inr (m, inl e, k) ↦
            (burn AutomationLegOutcome.error m, (s.1, inr (m, inl (throws s.1 m e), refl)), k)
        | inr (m, inr e, k) ↦ (burn AutomationLegOutcome.error m, (s.1, inr (m, inr e, refl)), k)
      ]

  -- The column pairs that the legs of pools fill one after the other.
  abbrev pub Burned : List ProviderPoolId → AutomationRunLog → AutomationRunLog → Type 0
  Burned [] log end = end ≡ log
  Burned (pool ∷ pools) log end =
      (b : Burn) × Reports services (PoolAnswers services pool) (PoolThrows services pool) b
      × Burned pools (set_pool_burn pool b log) end

  run_pool_burn_legs-Burned :
      (pools : List ProviderPoolId) (s : AutomationRunLog × W)
      → (run_pool_burn_legs services pools s).0 ≡ inl tt
      → Burned pools s.0 (run_pool_burn_legs services pools s).1.0
  unfolding run_pool_burn_leg
  run_pool_burn_legs-Burned [] s h = refl
  run_pool_burn_legs-Burned (pool ∷ pools) s h =
      let (d, k) =
        and_then-done (run_pool_burn_leg services pool s) (run_pool_burn_legs services pools) h in
      let s1 : AutomationRunLog × W = (run_pool_burn_leg services pool s).1 in
      let (b, r, e) =
        leg-Reports (pool_call services pool) (set_pool_burn pool) (PoolAnswers services pool)
          (PoolThrows services pool) s (pool_call-PoolAnswers services pool)
          (pool_call-PoolThrows services pool) d in
      (
        b,
        r,
        subst (λ log. Burned pools log (run_pool_burn_legs services (pool ∷ pools) s).1.0) e
            (subst (λ x. Burned pools s1.0 x.1.0) (sym k)
              (run_pool_burn_legs-Burned pools s1 (ap (λ x. x.0) (sym k) ∙ h))),
      )

  run_pool_burn_legs-Aborts :
      (pools : List ProviderPoolId) (s : AutomationRunLog × W)
      → Aborts services (run_pool_burn_legs services pools s)
  unfolding run_pool_burn_leg
  run_pool_burn_legs-Aborts [] s m h = absurd (ground (arith, h))
  run_pool_burn_legs-Aborts (pool ∷ pools) s m h =
      and_then-Aborts services (run_pool_burn_leg services pool s)
        (run_pool_burn_legs services pools)
        (leg-Aborts services (pool_call services pool) (set_pool_burn pool)
          (λ m. set_pool_burn pool (burn AutomationLegOutcome.error m)) s)
        (run_pool_burn_legs-Aborts pools) m h

  abbrev pub TierReports : FreeTierId → Burn → Type 0
  TierReports tier b = Reports services (TierAnswers services tier) (TierThrows services tier) b

  abbrev pub PoolReports : ProviderPoolId → Burn → Type 0
  PoolReports pool b = Reports services (PoolAnswers services pool) (PoolThrows services pool) b

  -- The columns that the burn legs fill; the others are as in `log`.
  abbrev pub Burns : AutomationRunLog → AutomationRunLog → Type 0
  Burns log end =
      (mini : Burn) × TierReports FreeTierId.mini mini
      × (flagship : Burn) × TierReports FreeTierId.flagship flagship
      × Burned burn_legs (set_flagship_burn flagship (set_mini_burn mini log)) end

  pub run_burn_legs-Burns :
      (s : AutomationRunLog × W)
      → (run_burn_legs services s).0 ≡ inl tt
      → Burns s.0 (run_burn_legs services s).1.0
  unfolding run_mini_burn_leg run_flagship_burn_leg
  run_burn_legs-Burns s h =
      let e1 : LegEnd × (AutomationRunLog × W) = run_mini_burn_leg services s in
      let e2 : LegEnd × (AutomationRunLog × W) = and_then e1 (run_flagship_burn_leg services) in
      let (d, k) = and_then-done e2 (run_pool_burn_legs services burn_legs) h in
      let (d1, k1) = and_then-done e1 (run_flagship_burn_leg services) d in
      let (mini, r1, x1) =
        leg-Reports (tier_call services FreeTierId.mini) set_mini_burn
          (TierAnswers services FreeTierId.mini) (TierThrows services FreeTierId.mini) s
          (tier_call-TierAnswers services FreeTierId.mini)
          (tier_call-TierThrows services FreeTierId.mini) d1 in
      let (flagship, r2, x2) =
        leg-Reports (tier_call services FreeTierId.flagship) set_flagship_burn
          (TierAnswers services FreeTierId.flagship) (TierThrows services FreeTierId.flagship) e1.1
          (tier_call-TierAnswers services FreeTierId.flagship)
          (tier_call-TierThrows services FreeTierId.flagship) (ap (λ x. x.0) (sym k1) ∙ d) in
      let p : e2.1.0 ≡ set_flagship_burn flagship (set_mini_burn mini s.0) =
        ap (λ x. x.1.0) k1 ∙ x2 ∙ ap (set_flagship_burn flagship) x1 in
      (
        mini,
        r1,
        flagship,
        r2,
        subst (λ log. Burned burn_legs log (run_burn_legs services s).1.0) p
            (subst (λ x. Burned burn_legs e2.1.0 x.1.0) (sym k)
              (run_pool_burn_legs-Burned burn_legs e2.1 (ap (λ x. x.0) (sym k) ∙ h))),
      )

  pub run_burn_legs-Aborts : (s : AutomationRunLog × W) → Aborts services (run_burn_legs services s)
  unfolding run_mini_burn_leg run_flagship_burn_leg
  run_burn_legs-Aborts s m h =
      and_then-Aborts services
        (and_then (run_mini_burn_leg services s) (run_flagship_burn_leg services))
        (run_pool_burn_legs services burn_legs)
        (and_then-Aborts services (run_mini_burn_leg services s) (run_flagship_burn_leg services)
          (leg-Aborts services (tier_call services FreeTierId.mini) set_mini_burn
            (λ m. set_mini_burn (burn AutomationLegOutcome.error m)) s)
          (leg-Aborts services (tier_call services FreeTierId.flagship) set_flagship_burn
            (λ m. set_flagship_burn (burn AutomationLegOutcome.error m))))
        (run_pool_burn_legs-Aborts burn_legs) m h
