-- ===== src/Budget.antt =====
-- backend/src/modules/strategy/free-tier-budget.service.ts and the usage it reads from
-- free-tier-usage.service.ts: the tokens a free tier has left on a day. The rows of a table are a list,
-- and a commit of a transaction is one step. `day` stands for the UTC day of a row's `createdAt`.
mod Safety
mod Midnight
mod Tests
use connections.Base.{
  ℕ, zero, suc, ◌+◌, ◌-◌, ◌*◌, ◌^◌, ◌≤◌, ◌<◌, max, min, String, ◌≡◌, refl, sym, ap, ◌∙◌, subst, ◌≢◌,
  ◌↔◌, ◌⊎◌, inl, inr, Bool, true, false, not, ◌&&◌, ◌||◌, Option, none, some, List, [], ◌∷◌, ◌++◌,
  map, arith, append_assoc, append-nil, ltb, leb, ◌==◌, if◌then◌else◌, leb→le, le→leb, ==_iff,
  Bool-cases, Option-cases, length, get_elem?, get_or, set, take, filter, find?, any, all, count,
  length-append, count-append, count-le-length, length-filter, All, All-append, length-map, str_eq,
  str_eq→eq, str_eq_refl, includes, distinct, subset, includes-append, includes-filter,
  subset→includes, pigeonhole,
}
use Prim.Native.Nat.{◌/◌}
use connections.Strategy.{FreeTierId}

pub data ReservationStatus : Type 0 where
  pending unrecorded : ReservationStatus

pub record FreeTierReservation : Type 0 where
  pub id : ℕ
  pub tier : FreeTierId
  pub strategy_run_id : ℕ
  pub reserved_tokens : ℕ
  pub status : ReservationStatus
  pub day : ℕ

-- A call whose usage is on record: a row of `SolvePrompt` or of `CategoryEvaluation`, with the model
-- it is billed to.
pub record UsageRow : Type 0 where
  pub model : String
  pub total_tokens : ℕ
  pub day : ℕ

pub record FreeTierDispatchState : Type 0 where
  pub tier : FreeTierId
  pub active : Bool
  pub threshold_percent : ℕ

-- The tables; `tier_models` are the models whose `freeTier` is the tier.
pub record Tables : Type 0 where
  pub dispatch_states : List FreeTierDispatchState
  pub reservations : List FreeTierReservation
  pub usage : List UsageRow
  pub tier_models : FreeTierId → List String
  pub next_id : ℕ

pub record ReservationSettlement : Type 0 where
  pub reservation_id : ℕ
  pub recorded : Bool

abbrev pub same_tier : FreeTierId → FreeTierId → Bool
same_tier FreeTierId.flagship FreeTierId.flagship = true
same_tier FreeTierId.mini FreeTierId.mini = true
same_tier _ _ = false

-- `FREE_TIER_LIMITS[tier].dailyLimitTokens`
abbrev pub daily_limit_tokens : FreeTierId → ℕ
daily_limit_tokens FreeTierId.flagship = 250000
daily_limit_tokens FreeTierId.mini = 2500000

abbrev pub sum {ℓ} : {A : Type ℓ} → (A → ℕ) → List A → ℕ
sum f [] = 0
sum f (x ∷ xs) = f x + sum f xs

abbrev pub counts_today : FreeTierId → ℕ → FreeTierReservation → Bool
counts_today tier today r = same_tier r.tier tier && leb today r.day

abbrev pub used_today : List String → ℕ → UsageRow → Bool
used_today models today u = includes models u.model && leb today u.day

-- `getUsage(tier).usedTokens`: a tier without models has used nothing.
unfoldable pub used_tokens : FreeTierId → ℕ → Tables → ℕ
used_tokens tier today t =
    sum (λ u. u.total_tokens) (filter (used_today (t.tier_models tier) today) t.usage)

unfoldable pub remaining_tokens : FreeTierId → ℕ → Tables → ℕ
unfolding used_tokens
remaining_tokens tier today t = daily_limit_tokens tier - used_tokens tier today t

unfoldable pub outstanding : FreeTierId → ℕ → Tables → ℕ
outstanding tier today t =
    sum (λ r. r.reserved_tokens) (filter (counts_today tier today) t.reservations)

unfoldable pub committed_tokens : FreeTierId → ℕ → Tables → ℕ
unfolding outstanding used_tokens
committed_tokens tier today t = outstanding tier today t + used_tokens tier today t

-- In exact arithmetic: the source's product is a floating-point number.
unfoldable pub threshold : FreeTierId → ℕ → ℕ
threshold tier threshold_percent = daily_limit_tokens tier * threshold_percent / 100

abbrev pub add_reservation : FreeTierId → ℕ → ℕ → ℕ → Tables → Tables
add_reservation tier strategy_run_id tokens today t = record t {
  reservations =
      t.reservations
      ++ record {
        id = t.next_id;
        tier = tier;
        strategy_run_id = strategy_run_id;
        reserved_tokens = tokens;
        status = ReservationStatus.pending;
        day = today;
      }
        ∷ [];
  next_id = t.next_id + 1;
}

-- The transaction of `reserve`: the new reservation's id, and the tables after.
unfoldable pub reserve : FreeTierId → ℕ → ℕ → ℕ → Tables → Option ℕ × Tables
unfolding committed_tokens threshold
reserve tier strategy_run_id tokens today t =
    elim (find? (λ s. same_tier s.tier tier) t.dispatch_states) [
      | none ↦ (none, t)
      | some state ↦
          if not state.active
          then (none, t)
          else if ltb (threshold tier state.threshold_percent)
              (committed_tokens tier today t + tokens)
          then (none, t)
          else (some t.next_id, add_reservation tier strategy_run_id tokens today t)
    ]

unfoldable pub settle_reservation_tx : ReservationSettlement → Tables → Tables
settle_reservation_tx settlement t =
    if settlement.recorded
    then record t {
      reservations = filter (λ r. not (r.id == settlement.reservation_id)) t.reservations;
    }
    else record t {
      reservations =
          map
            (λ r.
              if r.id == settlement.reservation_id
              then record r { status = ReservationStatus.unrecorded }
              else r)
            t.reservations;
    }

-- The part of `flushBatch` that the budget sees: the row of a call, and its settlement, in one
-- commit. A call that reported no usage has no row that counts.
unfoldable pub flush_call : ReservationSettlement → Option UsageRow → Tables → Tables
unfolding settle_reservation_tx
flush_call settlement none t = settle_reservation_tx settlement t
flush_call settlement (some row) t =
    settle_reservation_tx settlement (record t { usage = t.usage ++ row ∷ [] })
