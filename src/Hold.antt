-- ===== src/Hold.antt =====
-- backend/src/modules/strategy/rate-limit-hold.service.ts: the table of rate-limit holds. `none` as a
-- model is the account-wide row of a strategy. The table's unique indexes make `upsert` replace the row
-- with the same strategy and model, if there is one.
mod Live
mod Tests
use connections.Base.{
  ℕ, zero, suc, ◌+◌, ◌-◌, ◌*◌, ◌^◌, ◌≤◌, ◌<◌, max, min, String, ◌≡◌, refl, sym, ap, ◌∙◌, subst, ◌≢◌,
  ◌↔◌, ◌⊎◌, inl, inr, Bool, true, false, not, ◌&&◌, ◌||◌, Option, none, some, List, [], ◌∷◌, ◌++◌,
  map, arith, append_assoc, append-nil, ltb, leb, ◌==◌, if◌then◌else◌, leb→le, le→leb, ==_iff,
  Bool-cases, Option-cases, length, get_elem?, get_or, set, take, filter, find?, any, all, count,
  length-append, count-append, count-le-length, length-filter, All, All-append, length-map, str_eq,
  str_eq→eq, str_eq_refl, includes, distinct, subset, includes-append, includes-filter,
  subset→includes, pigeonhole,
}
use connections.Strategy.{SupportedStrategy}
use connections.RunStore.{same_strategy, same_model}

pub data RateLimitHoldReason : Type 0 where
  daily per_minute_cooldown : RateLimitHoldReason

pub record RateLimitHold : Type 0 where
  pub strategy_name : SupportedStrategy
  pub model_name : Option String
  pub reason : Option RateLimitHoldReason
  pub held_at : ℕ
  pub reset_at : ℕ

abbrev pub is_daily : Option RateLimitHoldReason → Bool
is_daily (some RateLimitHoldReason.daily) = true
is_daily _ = false

abbrev pub is_cooldown : Option RateLimitHoldReason → Bool
is_cooldown (some RateLimitHoldReason.per_minute_cooldown) = true
is_cooldown _ = false

abbrev pub has_key : SupportedStrategy → Option String → RateLimitHold → Bool
has_key strategy model row =
    same_strategy row.strategy_name strategy && same_model row.model_name model

unfoldable pub find_row :
    SupportedStrategy → Option String → List RateLimitHold → Option RateLimitHold
find_row strategy model rows = find? (has_key strategy model) rows

-- The row that `findOne` gives, if its `resetAt` is still to come.
unfoldable pub live_row :
    SupportedStrategy → Option String → ℕ → List RateLimitHold → Option RateLimitHold
unfolding find_row
live_row strategy model now rows = elim (find_row strategy model rows) [
  | none ↦ none
  | some row ↦ if ltb now row.reset_at then some row else none
]

unfoldable pub upsert : RateLimitHold → List RateLimitHold → List RateLimitHold
upsert row [] = row ∷ []
upsert row (r ∷ rows) =
    let rest = upsert row rows in
    if has_key row.strategy_name row.model_name r then row ∷ rows else r ∷ rest

abbrev pub new_hold :
    SupportedStrategy → Option String → Option RateLimitHoldReason → ℕ → ℕ → RateLimitHold
new_hold strategy model reason reset_in_seconds now = record {
  strategy_name = strategy;
  model_name = model;
  reason = reason;
  held_at = now;
  reset_at = now + reset_in_seconds * 1000;
}

-- `live?.reason`
abbrev pub reason_of : Option RateLimitHold → Option RateLimitHoldReason
reason_of none = none
reason_of (some row) = row.reason

unfoldable pub held_reason : SupportedStrategy → ℕ → List RateLimitHold → Option RateLimitHoldReason
unfolding live_row
held_reason strategy now rows = reason_of (live_row strategy none now rows)

unfoldable pub hold :
    SupportedStrategy
    → Option String
    → Option RateLimitHoldReason
    → ℕ
    → ℕ
    → List RateLimitHold
    → List RateLimitHold
unfolding held_reason upsert
hold strategy model reason reset_in_seconds now rows =
    if is_cooldown reason && is_daily (held_reason strategy now rows)
    then rows
    else upsert (new_hold strategy model reason reset_in_seconds now) rows

unfoldable pub is_held : SupportedStrategy → Option String → ℕ → List RateLimitHold → Bool
unfolding live_row
is_held strategy model now rows = elim (live_row strategy model now rows) [
  | some row ↦ true
  | none ↦ false
]

abbrev pub of_strategy : Option SupportedStrategy → RateLimitHold → Bool
of_strategy none row = true
of_strategy (some strategy) row = same_strategy row.strategy_name strategy

abbrev pub is_expired : Option SupportedStrategy → ℕ → RateLimitHold → Bool
is_expired strategy now row = of_strategy strategy row && leb row.reset_at now

abbrev pub model_names : List RateLimitHold → List String
model_names [] = []
model_names (row ∷ rows) = elim row.model_name [
  | some model ↦ model ∷ model_names rows
  | none ↦ model_names rows
]

unfoldable pub held_models : SupportedStrategy → ℕ → List RateLimitHold → List String
held_models strategy now rows =
    model_names (filter (λ r. same_strategy r.strategy_name strategy && ltb now r.reset_at) rows)

pub record ClearExpiredResult : Type 0 where
  pub cleared_models : List String
  pub cleared_account_wide : Bool

abbrev pub is_account_wide : RateLimitHold → Bool
is_account_wide row = elim row.model_name [ some model ↦ false | none ↦ true ]

unfoldable pub clear_expired :
    Option SupportedStrategy → ℕ → List RateLimitHold → ClearExpiredResult × List RateLimitHold
clear_expired strategy now rows =
    let expired = filter (is_expired strategy now) rows in
    (
      record {
        cleared_models = model_names expired;
        cleared_account_wide = any is_account_wide expired;
      },
      filter (λ r. not (is_expired strategy now r)) rows,
    )

abbrev pub live_rows : SupportedStrategy → ℕ → List RateLimitHold → List RateLimitHold
live_rows strategy now rows =
    filter (λ r. same_strategy r.strategy_name strategy && ltb now r.reset_at) rows

-- `rows.reduce(...)`: the soonest `resetAt`, from that of the first row.
unfoldable pub soonest : ℕ → List RateLimitHold → ℕ
soonest first [] = first
soonest first (row ∷ rows) = soonest (if ltb row.reset_at first then row.reset_at else first) rows

abbrev pub soonest_of : List RateLimitHold → Option ℕ
soonest_of [] = none
soonest_of (row ∷ rows) = some (soonest row.reset_at rows)

unfoldable pub next_reset_at : SupportedStrategy → ℕ → List RateLimitHold → Option ℕ
unfolding soonest
next_reset_at strategy now rows = soonest_of (live_rows strategy now rows)
