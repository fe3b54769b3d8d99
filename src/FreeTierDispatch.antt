-- ===== src/FreeTierDispatch.antt =====
-- backend/src/modules/free-tier-dispatch/free-tier-dispatch.service.ts: the cycle of a free tier, a
-- chain of ticks that queue trials until the tier's threshold is reached. What a tick reads of the
-- usage, the budget and the queues is its input; `room - x` is kept as the tokens that are set aside.
pub mod Room
pub mod Chain
pub mod Layers
mod Tests
use connections.Base.{
  ℕ, zero, suc, ◌+◌, ◌-◌, ◌*◌, ◌≤◌, String, Bool, true, false, not, ◌&&◌, ◌||◌, Option, none, some,
  List, [], ◌∷◌, ◌++◌, map, min, ltb, leb, ◌==◌, if◌then◌else◌, length, filter, find?, any,
}
use connections.Strategy.{FreeTierId}
use connections.Budget.{FreeTierDispatchState, same_tier, threshold, sum}
use connections.RoundRobin.{
  Allocation, Attempt, Round, LoopEnd, ended, threw, out_of_fuel, dispatch_loop,
}

abbrev pub soft_input_allowance_tokens : ℕ
soft_input_allowance_tokens = 2000

-- A tick job on the dispatch queue.
pub record TickJob : Type 0 where
  pub tier : FreeTierId
  pub delay : ℕ

-- The tiers' states, and the tick jobs that were added, the latest last.
pub record Cycles : Type 0 where
  pub states : List FreeTierDispatchState
  pub ticks : List TickJob

abbrev pub find_state : FreeTierId → Cycles → Option FreeTierDispatchState
find_state tier c = find? (λ s. same_tier s.tier tier) c.states

abbrev pub save_state :
    FreeTierDispatchState → List FreeTierDispatchState → List FreeTierDispatchState
save_state state [] = state ∷ []
save_state state (s ∷ states) =
    if same_tier s.tier state.tier then state ∷ states else s ∷ save_state state states

abbrev pub add_tick : FreeTierId → ℕ → Cycles → Cycles
add_tick tier delay c = record c { ticks = c.ticks ++ record { tier = tier; delay = delay } ∷ [] }

-- `stateRepo.update({ tier }, { active: false })`
abbrev pub deactivate : FreeTierId → Cycles → Cycles
deactivate tier c = record c {
  states = map (λ s. if same_tier s.tier tier then record s { active = false } else s) c.states;
}

pub data StartError : Type 0 where
  bad_threshold already_running : StartError

-- `threshold_percent` is `none` for what is no integer; a negative one is refused like 0. The error is
-- `none` when the cycle was started.
unfoldable pub start : FreeTierId → Option ℕ → Cycles → Option StartError × Cycles
start tier none c = (some bad_threshold, c)
start tier (some threshold_percent) c =
    if (threshold_percent == 0) || ltb 100 threshold_percent
    then (some bad_threshold, c)
    else elim (find_state tier c) [
      | none ↦ (
        none,
        add_tick tier 0 (record c {
          states =
              save_state
                (record { tier = tier; active = true; threshold_percent = threshold_percent })
                c.states;
        }),
      )
      | some existing ↦ if existing.active then (some already_running, c) else (
        none,
        add_tick tier 0 (record c {
          states =
              save_state
                (record { tier = tier; active = true; threshold_percent = threshold_percent })
                c.states;
        }),
      )
    ]

abbrev pub stop : FreeTierId → Cycles → Cycles
stop tier c = deactivate tier c

unfoldable pub is_active : FreeTierId → Cycles → Bool
is_active tier c = elim (find_state tier c) [ none ↦ false | some state ↦ state.active ]

-- What a tick reads: the usage of today, the trials in flight per model, the models' output caps,
-- and the tokens that are committed.
pub record TickInputs : Type 0 where
  pub used_tokens : ℕ
  pub models : List String
  pub in_flight : Allocation
  pub caps : String → Option ℕ
  pub committed : ℕ
  pub max_in_flight : ℕ
  pub max_batch : ℕ
  pub tick_ms : ℕ

abbrev pub in_flight_total : TickInputs → ℕ
in_flight_total i = sum (λ (e : String × ℕ). e.1) i.in_flight

abbrev pub cap_or_zero : Option ℕ → ℕ
cap_or_zero none = 0
cap_or_zero (some cap) = cap

abbrev pub worst_case : TickInputs → String → ℕ
worst_case i model = cap_or_zero (i.caps model) + soft_input_allowance_tokens

abbrev pub has_cap : Option ℕ → Bool
has_cap none = false
has_cap (some cap) = true

-- Whether the model's worst case fits when `set_aside` tokens of the threshold are taken.
abbrev pub fits : TickInputs → ℕ → ℕ → String → Bool
fits i limit set_aside model = has_cap (i.caps model) && leb (set_aside + worst_case i model) limit

-- The committed tokens and the worst case of each trial in flight.
abbrev pub set_aside_for_in_flight : TickInputs → ℕ
set_aside_for_in_flight i =
    i.committed + sum (λ (e : String × ℕ). e.1 * worst_case i e.0) i.in_flight

pub data TickEnd (W : Type 0) : Type 0 where
  inactive threshold_reached waiting budget_reached failed : TickEnd W
  out_of_puzzles rescheduled : List String → Round W → TickEnd W

-- `resume models limit` resumes parked runs, `allocation` counts today's dispatches, and `attempt`
-- looks up a puzzle for a model and queues a trial on it.
module _ {W : Type 0} (resume : List String → ℕ → W → List String × W) (allocation : W → Allocation)
    (attempt : String → W → Attempt × W) where
  -- The part of a tick that fills its batch.
  unfoldable pub fill_batch : ℕ → ℕ → TickInputs → W → List String × LoopEnd W
  unfolding dispatch_loop
  fill_batch fuel limit i w =
      let slots = min i.max_batch (i.max_in_flight - in_flight_total i) in
      let set_aside = set_aside_for_in_flight i in
      let resumed = resume (filter (fits i limit set_aside) i.models) slots w in
      let after_resumed = set_aside + sum (worst_case i) resumed.0 in
      (
        resumed.0,
        dispatch_loop i.models (slots - length resumed.0)
            (λ queued model. fits i limit (after_resumed + sum (worst_case i) queued) model) attempt
            fuel
            (record {
              exhausted = [];
              skipped = [];
              queued = [];
              allocation = allocation resumed.1;
              world = resumed.1;
            }),
      )

  abbrev pub finish_batch :
      FreeTierId → TickInputs → List String → LoopEnd W → Cycles → TickEnd W × Cycles
  finish_batch tier i resumed threw c = (failed, c)
  finish_batch tier i resumed out_of_fuel c = (failed, c)
  finish_batch tier i resumed (ended r) c =
      if length r.exhausted == length i.models
      then (out_of_puzzles resumed r, deactivate tier c)
      else (rescheduled resumed r, add_tick tier i.tick_ms c)

  -- A tick of an active cycle whose threshold is `limit` tokens.
  unfoldable pub active_tick : ℕ → FreeTierId → ℕ → TickInputs → W → Cycles → TickEnd W × Cycles
  unfolding fill_batch
  active_tick fuel tier limit i w c =
      if leb limit i.used_tokens
      then (threshold_reached, deactivate tier c)
      else if leb i.max_in_flight (in_flight_total i)
      then (waiting, add_tick tier i.tick_ms c)
      else if (in_flight_total i == 0) && not (any (fits i limit i.committed) i.models)
      then (budget_reached, deactivate tier c)
      else finish_batch tier i (fill_batch fuel limit i w).0 (fill_batch fuel limit i w).1 c

  unfoldable pub run_tick : ℕ → FreeTierId → TickInputs → W → Cycles → TickEnd W × Cycles
  unfolding active_tick threshold
  run_tick fuel tier i w c = elim (find_state tier c) [
    | none ↦ (inactive, c)
    | some state ↦
        if not state.active
        then (inactive, c)
        else active_tick fuel tier (threshold tier state.threshold_percent) i w c
  ]
