-- ===== src/RoundRobin.antt =====
-- Queueing one trial after the other on the model that has the fewest today: the loop of a tick of
-- backend/src/modules/free-tier-dispatch/free-tier-dispatch.service.ts (`runTick`) and of
-- backend/src/modules/provider-pool/free-dispatch.service.ts (`dispatchRoundRobin`). What a look-up
-- of a puzzle and the queueing of a trial do to the rest of the system is a parameter, `attempt`.
pub mod Least
pub mod Names
pub mod Ends
mod Tests
use connections.Base.{
  ℕ, zero, suc, ◌+◌, ◌≤◌, String, Bool, true, false, not, ◌&&◌, Option, none, some, List, [], ◌∷◌,
  ◌++◌, ltb, leb, if◌then◌else◌, length, filter, str_eq, includes,
}

-- `Map<string, number>`
abbrev pub Allocation : Type 0
Allocation = List (String × ℕ)

-- `allocation.set(model, (allocation.get(model) ?? 0) + 1)`
abbrev pub count_one : String → Allocation → Allocation
count_one model [] = (model, 1) ∷ []
count_one model ((m, n) ∷ allocation) =
    if str_eq m model then (m, suc n) ∷ allocation else (m, n) ∷ count_one model allocation

-- `best` and `bestCount`; `none` is `null` with `Infinity`.
abbrev pub is_less : ℕ → Option (String × ℕ) → Bool
is_less n none = true
is_less n (some (m, best)) = ltb n best

unfoldable pub least_from : Option (String × ℕ) → Allocation → List String → Option (String × ℕ)
least_from best [] excluded = best
least_from best ((m, n) ∷ allocation) excluded =
    least_from (if not (includes excluded m) && is_less n best then some (m, n) else best)
      allocation excluded

unfoldable pub least_allocated_model : Allocation → List String → Option String
unfolding least_from
least_allocated_model allocation excluded = elim (least_from none allocation excluded) [
  | none ↦ none
  | some best ↦ some best.0
]

-- `Set.add`
abbrev pub add_name : List String → String → List String
add_name names name = if includes names name then names else names ++ name ∷ []

abbrev pub add_names : List String → List String → List String
add_names names [] = names
add_names names (n ∷ ns) = add_names (add_name names n) ns

pub data Attempt : Type 0 where
  lookup_failed no_puzzle trigger_failed queued : Attempt

pub record Round (W : Type 0) : Type 0 where
  pub exhausted : List String
  pub skipped : List String
  pub queued : List String
  pub allocation : Allocation
  pub world : W

pub data LoopEnd (W : Type 0) : Type 0 where
  ended : Round W → LoopEnd W
  threw out_of_fuel : LoopEnd W

-- `fits queued model` says whether `model` still fits after `queued`.
module _ {W : Type 0} (models : List String) (slots : ℕ) (fits : List String → String → Bool)
    (attempt : String → W → Attempt × W) where
  unfoldable pub take_attempt : String → Round W → Round W
  take_attempt model r = elim ((attempt model r.world).0) [
    | queued ↦ record r {
      queued = r.queued ++ model ∷ [];
      allocation = count_one model r.allocation;
      world = (attempt model r.world).1;
    }
    | lookup_failed ↦ record r {
      exhausted = add_name r.exhausted model;
      world = (attempt model r.world).1;
    }
    | no_puzzle ↦ record r {
      exhausted = add_name r.exhausted model;
      world = (attempt model r.world).1;
    }
    | trigger_failed ↦ record r {
      exhausted = add_name r.exhausted model;
      world = (attempt model r.world).1;
    }
  ]

  abbrev pub skip : Round W → Round W
  skip r = record r { skipped = add_names r.skipped (filter (λ m. not (fits r.queued m)) models) }

  abbrev pub excluded : Round W → List String
  excluded r = add_names r.exhausted r.skipped

  unfoldable pub dispatch_loop : ℕ → Round W → LoopEnd W
  unfolding take_attempt least_allocated_model
  dispatch_loop zero r = out_of_fuel
  dispatch_loop (suc fuel) r = elim (leb slots (length r.queued)) [
    | true ↦ ended r
    | false ↦ elim (leb (length models) (length (excluded (skip r)))) [
      | true ↦ ended (skip r)
      | false ↦ elim (least_allocated_model r.allocation (excluded (skip r))) [
        | none ↦ threw
        | some model ↦ dispatch_loop fuel (take_attempt model (skip r))
      ]
    ]
  ]
