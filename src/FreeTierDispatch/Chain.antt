-- ===== src/FreeTierDispatch/Chain.antt =====
-- The chain of ticks of a free tier's cycle
-- (backend/src/modules/free-tier-dispatch/free-tier-dispatch.service.ts).
use connections.Base.{
  ℕ, ◌+◌, ◌≤◌, ◌<◌, String, ◌≡◌, refl, sym, subst, ◌⊎◌, inl, inr, Bool, true, false, not, ◌&&◌,
  none, some, List, [], ◌∷◌, ◌++◌, map, arith, leb, ◌==◌, if◌then◌else◌, Option-cases, length,
  find?, any, distinct, subset,
}
use connections.Strategy.{FreeTierId}
use connections.Budget.{FreeTierDispatchState, same_tier, threshold}
use connections.RoundRobin.{Allocation, Attempt, Round, LoopEnd, ended}
use connections.RoundRobin.Names.{names}
use connections.FreeTierDispatch.{
  TickInputs, Cycles, TickEnd, in_flight_total, fits, find_state, add_tick, deactivate, is_active,
  finish_batch, fill_batch, active_tick, run_tick,
}
use connections.FreeTierDispatch.Room.{fill_batch_lem, slots}

abbrev pub active_in : FreeTierId → List FreeTierDispatchState → Bool
active_in tier states = elim (find? (λ s. same_tier s.tier tier) states) [
  | none ↦ false
  | some s ↦ s.active
]

abbrev pub switched_off : FreeTierId → List FreeTierDispatchState → List FreeTierDispatchState
switched_off tier states =
    map (λ s. if same_tier s.tier tier then record s { active = false } else s) states

pub off-active :
    (tier : FreeTierId) (states : List FreeTierDispatchState)
    → active_in tier (switched_off tier states) ≡ false
off-active tier [] = refl
off-active tier (s ∷ states) = ground (arith, off-active tier states)

-- A tick of an active cycle stops it, or keeps it and adds the one next tick; others stay as they are.
abbrev pub Continues : FreeTierId → ℕ → Cycles → Cycles → Type 0
Continues tier tick_ms before after =
    ((is_active tier after ≡ false) × (after.ticks ≡ before.ticks))
    ⊎ ((is_active tier after ≡ true)
        × (after.ticks ≡ before.ticks ++ record { tier = tier; delay = tick_ms } ∷ []))

deactivate-Continues :
    (tier : FreeTierId) (tick_ms : ℕ) (c : Cycles) → Continues tier tick_ms c (deactivate tier c)
unfolding is_active
deactivate-Continues tier tick_ms c = inl (off-active tier c.states, refl)

add_tick-Continues :
    (tier : FreeTierId) (tick_ms : ℕ) (c : Cycles)
    → is_active tier c ≡ true
    → Continues tier tick_ms c (add_tick tier tick_ms c)
unfolding is_active
add_tick-Continues tier tick_ms c h = inr (h, refl)

if-Continues :
    (tier : FreeTierId) (tick_ms : ℕ) (c : Cycles) {A : Type 0} (b : Bool)
    (yes_case no_case : A × Cycles)
    → (b ≡ true → Continues tier tick_ms c yes_case.1)
    → (b ≡ false → Continues tier tick_ms c no_case.1)
    → Continues tier tick_ms c (if b then yes_case else no_case).1
if-Continues tier tick_ms c true yes_case no_case h k = h refl
if-Continues tier tick_ms c false yes_case no_case h k = k refl

is_active-missing :
    (tier : FreeTierId) (c : Cycles) → find_state tier c ≡ none → is_active tier c ≡ true → ⊥
unfolding is_active
is_active-missing tier c h k = ground (arith, h, k)

is_active-found :
    (tier : FreeTierId) (c : Cycles) (state : FreeTierDispatchState)
    → find_state tier c ≡ some state
    → is_active tier c ≡ true
    → state.active ≡ true
unfolding is_active
is_active-found tier c state h k = ground (arith, h, k)

module _ {W : Type 0} (resume : List String → ℕ → W → List String × W) (allocation : W → Allocation)
    (attempt : String → W → Attempt × W) where
  finish_batch-Continues :
      (tier : FreeTierId) (i : TickInputs) (resumed : List String) (r : Round W) (c : Cycles)
      → is_active tier c ≡ true
      → Continues tier i.tick_ms c
          (finish_batch resume allocation attempt tier i resumed (ended r) c).1
  finish_batch-Continues tier i resumed r c on =
      if-Continues tier i.tick_ms c (length r.exhausted == length i.models)
        (TickEnd.out_of_puzzles resumed r, deactivate tier c)
        (TickEnd.rescheduled resumed r, add_tick tier i.tick_ms c)
        (λ h. deactivate-Continues tier i.tick_ms c) (λ h. add_tick-Continues tier i.tick_ms c on)

  active_tick-Continues :
      (fuel : ℕ) (tier : FreeTierId) (limit : ℕ) (i : TickInputs) (w : W) (c : Cycles)
      → is_active tier c ≡ true
      → (r : Round W) × ((fill_batch resume allocation attempt fuel limit i w).1 ≡ ended r)
      → Continues tier i.tick_ms c (active_tick resume allocation attempt fuel tier limit i w c).1
  unfolding active_tick
  active_tick-Continues fuel tier limit i w c on (r, is_end) =
      let batch : List String × LoopEnd W = fill_batch resume allocation attempt fuel limit i w in
      let stopped : TickEnd W → TickEnd W × Cycles = λ e. (e, deactivate tier c) in
      let finished : TickEnd W × Cycles =
        finish_batch resume allocation attempt tier i batch.0 batch.1 c in
      let no_room : Bool =
        (in_flight_total i == 0) && not (any (fits i limit i.committed) i.models) in
      let last : TickEnd W × Cycles =
        if no_room then stopped TickEnd.budget_reached else finished in
      let waits : TickEnd W × Cycles = (TickEnd.waiting, add_tick tier i.tick_ms c) in
      if-Continues tier i.tick_ms c (leb limit i.used_tokens) (stopped TickEnd.threshold_reached)
        (if leb i.max_in_flight (in_flight_total i) then waits else last)
        (λ h. deactivate-Continues tier i.tick_ms c)
        (λ h.
          if-Continues tier i.tick_ms c (leb i.max_in_flight (in_flight_total i)) waits last
            (λ k. add_tick-Continues tier i.tick_ms c on)
            (λ k.
              if-Continues tier i.tick_ms c no_room (stopped TickEnd.budget_reached) finished
                (λ m. deactivate-Continues tier i.tick_ms c)
                (λ m.
                  subst
                    (λ z.
                      Continues tier i.tick_ms c
                        (finish_batch resume allocation attempt tier i batch.0 z c).1)
                    (sym is_end) (finish_batch-Continues tier i batch.0 r c on))))

  -- Under the conditions under which a batch ends without an error, a tick of a tier whose cycle
  -- is active never leaves the cycle active without a next tick, nor inactive with one: it stops
  -- the cycle and adds no tick, or keeps it active and adds exactly one tick job of the tier.
  pub run_tick-Continues :
      (fuel : ℕ) (tier : FreeTierId) (i : TickInputs) (w : W) (c : Cycles)
      → is_active tier c ≡ true
      → distinct i.models ≡ true
      → ((v : W)
          → (subset i.models (names (allocation v)) ≡ true)
            × (subset (names (allocation v)) i.models ≡ true))
      → ((ms : List String) (n : ℕ) (v : W) → length (resume ms n v).0 ≤ n)
      → ((v : W) → slots resume allocation attempt i + length (names (allocation v)) < fuel)
      → Continues tier i.tick_ms c (run_tick resume allocation attempt fuel tier i w c).1
  unfolding run_tick
  run_tick-Continues fuel tier i w c on d s few enough = elim (Option-cases (find_state tier c)) [
    | inl missing ↦ absurd (is_active-missing tier c missing on)
    | inr (state, found) ↦
        let limit : ℕ = threshold tier state.threshold_percent in
        let state_on : state.active ≡ true = is_active-found tier c state found on in
        let e : run_tick resume allocation attempt fuel tier i w c
            ≡ active_tick resume allocation attempt fuel tier limit i w c =
          rw (found, run_tick) (rw state_on refl) in
        let end = fill_batch_lem resume allocation attempt fuel limit i w d s few enough in
        rw e (active_tick-Continues fuel tier limit i w c on (end.0, end.1))
  ]
