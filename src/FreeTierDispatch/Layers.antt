-- ===== src/FreeTierDispatch/Layers.antt =====
-- Stopping and starting a free tier's cycle again
-- (backend/src/modules/free-tier-dispatch/free-tier-dispatch.service.ts).
use connections.Base.{
  ℕ, ◌≤◌, ◌<◌, ◌≡◌, refl, sym, ◌∙◌, inl, inr, true, false, ◌||◌, none, some, List, [], ◌∷◌, ◌++◌,
  arith, ltb, ◌==◌, Option-cases, find?,
}
use connections.Strategy.{FreeTierId}
use connections.Budget.{FreeTierDispatchState, same_tier}
use connections.FreeTierDispatch.{Cycles, save_state, start, stop, is_active}
use connections.FreeTierDispatch.Chain.{active_in, switched_off, off-active}

same_tier-same : (tier : FreeTierId) → same_tier tier tier ≡ true
same_tier-same FreeTierId.flagship = refl
same_tier-same FreeTierId.mini = refl

active_in-save_state :
    (state : FreeTierDispatchState) (states : List FreeTierDispatchState)
    → active_in state.tier (save_state state states) ≡ state.active
active_in-save_state state [] = ground (arith, same_tier-same state.tier)
active_in-save_state state (s ∷ states) =
    ground (arith, same_tier-same state.tier, active_in-save_state state states)

found-active :
    (tier : FreeTierId) (states : List FreeTierDispatchState) (s : FreeTierDispatchState)
    → find? (λ s. same_tier s.tier tier) states ≡ some s
    → active_in tier states ≡ s.active
found-active tier states s h = rw (h, active_in) refl

-- When a cycle is stopped and started again, at a threshold from 1 to 100 percent, then the start
-- succeeds and the cycle is active with one tick job more than before: a tick that was
-- pending when the cycle was stopped is still there, beside the first tick of the new cycle.
pub start-stop :
    (tier : FreeTierId) (threshold_percent : ℕ) (c : Cycles)
    → 0 < threshold_percent
    → threshold_percent ≤ 100
    → ((start tier (some threshold_percent) (stop tier c)).0 ≡ none)
      × (is_active tier (start tier (some threshold_percent) (stop tier c)).1 ≡ true)
      × ((start tier (some threshold_percent) (stop tier c)).1.ticks
          ≡ c.ticks ++ record { tier = tier; delay = 0 } ∷ [])
unfolding start is_active
start-stop tier p c low high =
    let ok : ((p == 0) || ltb 100 p) ≡ false = ground (arith, low, high) in
    let off = off-active tier c.states in
    let on =
      active_in-save_state (record { tier = tier; active = true; threshold_percent = p })
        (switched_off tier c.states) in
    elim (Option-cases (find? (λ s. same_tier s.tier tier) (switched_off tier c.states))) [
      | inl missing ↦ rw ok (rw missing (refl, on, refl))
      | inr (s, there) ↦
          let s_off : s.active ≡ false =
            sym (found-active tier (switched_off tier c.states) s there) ∙ off in
          rw ok (rw there (rw s_off (refl, on, refl)))
    ]
