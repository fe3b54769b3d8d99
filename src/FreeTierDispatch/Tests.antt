-- ===== src/FreeTierDispatch/Tests.antt =====
-- A tick of the cycle of one tier with two models.
use connections.Base.{
  ℕ, zero, suc, ◌+◌, ◌≤◌, String, ◌≡◌, refl, ◌⊎◌, true, none, some, ◌++◌, List, [], ◌∷◌, arith,
  length, str_eq, if◌then◌else◌,
}
use connections.Strategy.{FreeTierId}
use connections.Budget.{sum}
use connections.RoundRobin.{Allocation, Attempt, Round, ended}
use connections.FreeTierDispatch.{
  TickInputs, Cycles, is_active, run_tick, start, stop, fill_batch, worst_case,
  set_aside_for_in_flight,
}
use connections.FreeTierDispatch.Room.{fill_batch_lem}
use connections.FreeTierDispatch.Chain.{Continues, run_tick-Continues}
use connections.FreeTierDispatch.Layers.{start-stop}

abbrev two_models : List String
two_models = "a" ∷ "b" ∷ []

abbrev inputs : TickInputs
inputs = record {
  used_tokens = 1000;
  models = two_models;
  in_flight = ("a", 1) ∷ ("b", 0) ∷ [];
  caps = λ model. if str_eq model "a" then some 16000 else some 8000;
  committed = 5000;
  max_in_flight = 10;
  max_batch = 3;
  tick_ms = 60000;
}

-- The number is how many puzzles are left; one parked run is resumed when there is a slot.
abbrev attempt : String → ℕ → Attempt × ℕ
attempt model zero = (Attempt.no_puzzle, zero)
attempt model (suc n) = (Attempt.queued, n)

abbrev resume : List String → ℕ → ℕ → List String × ℕ
resume [] limit w = ([], w)
resume (m ∷ ms) zero w = ([], w)
resume (m ∷ ms) (suc limit) w = (m ∷ [], w)

resume-few : (ms : List String) (n : ℕ) (w : ℕ) → length (resume ms n w).0 ≤ n
resume-few [] n w = omega arith
resume-few (m ∷ ms) zero w = omega arith
resume-few (m ∷ ms) (suc n) w = omega arith

abbrev allocation : ℕ → Allocation
allocation w = ("a", 1) ∷ ("b", 0) ∷ []

abbrev started : Cycles
started = (start FreeTierId.mini (some 10) (record { states = []; ticks = [] })).1

started-active : is_active FreeTierId.mini started ≡ true
unfolding is_active start
started-active = refl

run_tick-Continues_example :
    Continues FreeTierId.mini 60000 started
      (run_tick resume allocation attempt 9 FreeTierId.mini inputs 4 started).1
unfolding str_eq
run_tick-Continues_example =
    run_tick-Continues resume allocation attempt 9 FreeTierId.mini inputs 4 started started-active
      refl (λ w. (refl, refl)) resume-few (λ w. omega arith)

fill_batch_lem_example :
    (r : Round ℕ) × ((fill_batch resume allocation attempt 9 250000 inputs 4).1 ≡ ended r)
    × (length (fill_batch resume allocation attempt 9 250000 inputs 4).0 + length r.queued ≤ 3)
    × ((r.queued ≡ [])
        ⊎ (set_aside_for_in_flight inputs
              + sum (worst_case inputs) (fill_batch resume allocation attempt 9 250000 inputs 4).0
              + sum (worst_case inputs) r.queued
            ≤ 250000))
unfolding str_eq
fill_batch_lem_example =
    fill_batch_lem resume allocation attempt 9 250000 inputs 4 refl (λ w. (refl, refl)) resume-few
      (λ w. omega arith)

start-stop_example :
    ((start FreeTierId.mini (some 50) (stop FreeTierId.mini started)).0 ≡ none)
    × (is_active FreeTierId.mini (start FreeTierId.mini (some 50) (stop FreeTierId.mini started)).1
        ≡ true)
    × ((start FreeTierId.mini (some 50) (stop FreeTierId.mini started)).1.ticks
        ≡ started.ticks ++ record { tier = FreeTierId.mini; delay = 0 } ∷ [])
start-stop_example = start-stop FreeTierId.mini 50 started (omega arith) (omega arith)
