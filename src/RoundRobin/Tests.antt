-- ===== src/RoundRobin/Tests.antt =====
-- Three puzzles for two models.
use connections.Base.{
  ℕ, zero, suc, String, ◌≡◌, refl, Bool, true, some, List, [], ◌∷◌, arith, str_eq,
}
use connections.RoundRobin.{Allocation, Attempt, Round, dispatch_loop, least_allocated_model}
use connections.RoundRobin.Ends.{Ends, dispatch_loop-returns}

abbrev two_models : List String
two_models = "a" ∷ "b" ∷ []

-- The number is how many puzzles are left.
abbrev attempt : String → ℕ → Attempt × ℕ
attempt model zero = (Attempt.no_puzzle, zero)
attempt model (suc n) = (Attempt.queued, n)

abbrev counts : Allocation
counts = ("a", 2) ∷ ("b", 0) ∷ []

abbrev first : Round ℕ
first = record { exhausted = []; skipped = []; queued = []; allocation = counts; world = 3 }

abbrev always : List String → String → Bool
always queued model = true

dispatch_loop-returns_example :
    Ends two_models 4 always attempt [] (dispatch_loop two_models 4 always attempt 7 first)
unfolding str_eq
dispatch_loop-returns_example =
    dispatch_loop-returns two_models 4 always attempt 7 first refl refl refl (omega arith)
      (omega arith)

least_is_b : least_allocated_model counts [] ≡ some "b"
unfolding least_allocated_model
least_is_b = refl
