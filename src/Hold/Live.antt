-- ===== src/Hold/Live.antt =====
-- What setting and clearing holds does to what is held
-- (backend/src/modules/strategy/rate-limit-hold.service.ts).
use connections.Base.{
  ℕ, ◌+◌, ◌*◌, ◌≤◌, ◌<◌, String, ◌≡◌, refl, ap, ◌∙◌, ◌⊎◌, inl, inr, Bool, true, false, not, ◌&&◌,
  ◌||◌, Option, none, some, List, [], ◌∷◌, arith, ltb, ◌==◌, if◌then◌else◌, ==_iff, Bool-cases,
  filter, any, count, All, str_eq→eq,
}
use connections.Strategy.{SupportedStrategy}
use connections.RunStore.Creation.{same_strategy-same, same_model-same}
use connections.RunStore.{same_strategy, same_model}
use connections.Hold.{
  RateLimitHold, RateLimitHoldReason, has_key, find_row, live_row, upsert, new_hold, held_reason,
  hold, live_rows, soonest, soonest_of, next_reset_at, is_expired, is_daily, is_cooldown,
  clear_expired,
}

same_strategy→eq : (a b : SupportedStrategy) → same_strategy a b ≡ true → a ≡ b
same_strategy→eq a b h = ground (arith, h)

same_model→eq : (a b : Option String) → same_model a b ≡ true → a ≡ b
same_model→eq none none h = refl
same_model→eq none (some b) h = ground (arith, h)
same_model→eq (some a) none h = ground (arith, h)
same_model→eq (some a) (some b) h = ap some (str_eq→eq a b h)

has_key-same : (row : RateLimitHold) → has_key row.strategy_name row.model_name row ≡ true
has_key-same row =
    ground (arith, same_strategy-same row.strategy_name, same_model-same row.model_name)

-- A row with another row's key is found under the same keys.
has_key-of :
    (a b : RateLimitHold) (strategy : SupportedStrategy) (model : Option String)
    → has_key b.strategy_name b.model_name a ≡ true
    → has_key strategy model a ≡ has_key strategy model b
has_key-of a b strategy model h =
    let same_s : a.strategy_name ≡ b.strategy_name =
      same_strategy→eq a.strategy_name b.strategy_name (ground (arith, h)) in
    let same_m : a.model_name ≡ b.model_name =
      same_model→eq a.model_name b.model_name (ground (arith, h)) in
    ap (λ x. same_strategy x strategy && same_model a.model_name model) same_s
    ∙ ap (λ x. same_strategy b.strategy_name strategy && same_model x model) same_m

has_key-both :
    (a b : RateLimitHold) (strategy : SupportedStrategy) (model : Option String)
    → has_key strategy model a ≡ true
    → has_key strategy model b ≡ true
    → has_key b.strategy_name b.model_name a ≡ true
has_key-both a b strategy model h k =
    let same_s : b.strategy_name ≡ strategy =
      same_strategy→eq b.strategy_name strategy (ground (arith, k)) in
    let same_m : b.model_name ≡ model = same_model→eq b.model_name model (ground (arith, k)) in
    ap (λ x. same_strategy a.strategy_name x && same_model a.model_name b.model_name) same_s
    ∙ ap (λ x. same_strategy a.strategy_name strategy && same_model a.model_name x) same_m
    ∙ h

find_row-upsert :
    (row : RateLimitHold) (rows : List RateLimitHold) (strategy : SupportedStrategy)
    (model : Option String)
    → find_row strategy model (upsert row rows)
      ≡ (if has_key strategy model row then some row else find_row strategy model rows)
unfolding find_row upsert
find_row-upsert row [] strategy model = ground arith
find_row-upsert row (r ∷ rows) strategy model =
    elim (Bool-cases (has_key row.strategy_name row.model_name r)) [
      | inl same ↦ ground (arith, same, has_key-of r row strategy model same)
      | inr other ↦
          ground (
            arith,
            other,
            find_row-upsert row rows strategy model,
            has_key-both r row strategy model,
          )
    ]

-- Setting a hold, in both cases. A cool-down of a strategy whose account is held for the day changes
-- nothing. After any other request the new hold alone is live under its strategy and model, until
-- it lifts and nothing is, and what is live under every other strategy or model stays as it was.
pub hold_lem :
    (strategy : SupportedStrategy) (model : Option String) (reason : Option RateLimitHoldReason)
    (seconds now : ℕ) (rows : List RateLimitHold)
    → ((is_cooldown reason && is_daily (held_reason strategy now rows)) ≡ true
        → hold strategy model reason seconds now rows ≡ rows)
      × ((is_cooldown reason && is_daily (held_reason strategy now rows)) ≡ false
          → (other : SupportedStrategy) (other_model : Option String) (time : ℕ)
          → live_row other other_model time (hold strategy model reason seconds now rows) ≡ (
              if same_strategy strategy other && same_model model other_model
              then (if ltb time (now + seconds * 1000)
                  then some (new_hold strategy model reason seconds now)
                  else none)
              else live_row other other_model time rows))
unfolding hold live_row
hold_lem strategy model reason seconds now rows = (
  λ h. ground (arith, h),
  λ h other other_model time. ground (
    arith,
    h,
    find_row-upsert (new_hold strategy model reason seconds now) rows other other_model,
  ),
)

-- No two rows have the same key: the table's unique indexes.
abbrev pub Unique : List RateLimitHold → Type 0
Unique [] = Unit
Unique (row ∷ rows) = (any (has_key row.strategy_name row.model_name) rows ≡ false) × Unique rows

find_row-none :
    (strategy : SupportedStrategy) (model : Option String) (rows : List RateLimitHold)
    (p : RateLimitHold → Bool)
    → any (has_key strategy model) rows ≡ false
    → find_row strategy model (filter p rows) ≡ none
unfolding find_row
find_row-none strategy model [] p h = refl
find_row-none strategy model (r ∷ rows) p h = ground (arith, h, find_row-none strategy model rows p)

has_key-key :
    (strategy : SupportedStrategy) (model : Option String) (row r : RateLimitHold)
    → has_key strategy model row ≡ true
    → has_key row.strategy_name row.model_name r ≡ has_key strategy model r
has_key-key strategy model row r h =
    let same_s : row.strategy_name ≡ strategy =
      same_strategy→eq row.strategy_name strategy (ground (arith, h)) in
    let same_m : row.model_name ≡ model = same_model→eq row.model_name model (ground (arith, h)) in
    ap (λ x. same_strategy r.strategy_name x && same_model r.model_name row.model_name) same_s
    ∙ ap (λ x. same_strategy r.strategy_name strategy && same_model r.model_name x) same_m

any-key :
    (strategy : SupportedStrategy) (model : Option String) (row : RateLimitHold)
    (rows : List RateLimitHold)
    → has_key strategy model row ≡ true
    → any (has_key row.strategy_name row.model_name) rows ≡ any (has_key strategy model) rows
any-key strategy model row [] h = refl
any-key strategy model row (r ∷ rows) h =
    ground (arith, has_key-key strategy model row r h, any-key strategy model row rows h)

live_row-filter :
    (cleared : Option SupportedStrategy) (now : ℕ) (strategy : SupportedStrategy)
    (model : Option String) (rows : List RateLimitHold)
    → Unique rows
    → live_row strategy model now (filter (λ r. not (is_expired cleared now r)) rows)
      ≡ live_row strategy model now rows
unfolding live_row find_row
live_row-filter cleared now strategy model [] u = refl
live_row-filter cleared now strategy model (r ∷ rows) (once, u) =
    elim (Bool-cases (has_key strategy model r)) [
      | inr other ↦ ground (arith, other, live_row-filter cleared now strategy model rows u)
      | inl key ↦ ground (
        arith,
        key,
        any-key strategy model r rows key,
        once,
        find_row-none strategy model rows (λ x. not (is_expired cleared now x)),
      )
    ]

none_expired :
    (p : RateLimitHold → Bool) (rows : List RateLimitHold)
    → count p (filter (λ r. not (p r)) rows) ≡ 0
none_expired p [] = refl
none_expired p (r ∷ rows) = ground (arith, none_expired p rows)

-- Clearing what has expired leaves what is live now as it was, for every strategy and model, whether one
-- strategy is cleared or all are; and it leaves no expired row of those.
pub clear_expired_lem :
    (cleared : Option SupportedStrategy) (now : ℕ) (rows : List RateLimitHold)
    → Unique rows
    → ((strategy : SupportedStrategy) (model : Option String)
        → live_row strategy model now (clear_expired cleared now rows).1
          ≡ live_row strategy model now rows)
      × (count (is_expired cleared now) (clear_expired cleared now rows).1 ≡ 0)
unfolding clear_expired live_row
clear_expired_lem cleared now rows u = (
  λ strategy model. live_row-filter cleared now strategy model rows u,
  none_expired (is_expired cleared now) rows,
)

soonest_le :
    (first : ℕ) (rows : List RateLimitHold)
    → (soonest first rows ≤ first) × All (λ r. soonest first rows ≤ r.reset_at) rows
unfolding soonest
soonest_le first [] = (omega arith, tt)
soonest_le first (row ∷ rows) =
    let (least, others) =
      soonest_le (if ltb row.reset_at first then row.reset_at else first) rows in
    (ground (arith, least), (ground (arith, least), others))

soonest_in :
    (first : ℕ) (rows : List RateLimitHold)
    → ((soonest first rows == first) || any (λ r. soonest first rows == r.reset_at) rows) ≡ true
unfolding soonest
soonest_in first [] = ground (arith, (==_iff first first).1 refl)
soonest_in first (row ∷ rows) =
    ground (arith, soonest_in (if ltb row.reset_at first then row.reset_at else first) rows)

live_rows-later :
    (strategy : SupportedStrategy) (now : ℕ) (rows : List RateLimitHold)
    → All (λ r. now < r.reset_at) (live_rows strategy now rows)
live_rows-later strategy now [] = tt
live_rows-later strategy now (r ∷ rows) =
    elim (Bool-cases (same_strategy r.strategy_name strategy && ltb now r.reset_at)) [
      | inl h ↦ rw h (ground (arith, h), live_rows-later strategy now rows)
      | inr h ↦ rw h (live_rows-later strategy now rows)
    ]

soonest_later :
    (now first : ℕ) (rows : List RateLimitHold)
    → now < first
    → All (λ r. now < r.reset_at) rows
    → now < soonest first rows
unfolding soonest
soonest_later now first [] h later = h
soonest_later now first (row ∷ rows) h (k, later) =
    soonest_later now (if ltb row.reset_at first then row.reset_at else first) rows
      (ground (arith, h, k)) later

abbrev pub Lifts : SupportedStrategy → ℕ → List RateLimitHold → ℕ → Type 0
Lifts strategy now live t =
    (now < t) × All (λ r. t ≤ r.reset_at) live × (any (λ r. t == r.reset_at) live ≡ true)

soonest_of-Lifts :
    (strategy : SupportedStrategy) (now : ℕ) (live : List RateLimitHold)
    → All (λ r. now < r.reset_at) live
    → ((soonest_of live ≡ none) × (live ≡ []))
      ⊎ ((t : ℕ) × (soonest_of live ≡ some t) × Lifts strategy now live t)
soonest_of-Lifts strategy now [] later = inl (refl, refl)
soonest_of-Lifts strategy now (row ∷ rows) (first_later, later) =
    let (least, others) = soonest_le row.reset_at rows in
    inr (
      soonest row.reset_at rows,
      refl,
      (
        soonest_later now row.reset_at rows first_later later,
        (least, others),
        soonest_in row.reset_at rows,
      ),
    )

-- The next time at which a hold of the strategy lifts: there is none when none is live, and else it is
-- a time to come, at which a live hold lifts and before which none does.
pub next_reset_at_lem :
    (strategy : SupportedStrategy) (now : ℕ) (rows : List RateLimitHold)
    → ((next_reset_at strategy now rows ≡ none) × (live_rows strategy now rows ≡ []))
      ⊎ ((t : ℕ) × (next_reset_at strategy now rows ≡ some t)
          × Lifts strategy now (live_rows strategy now rows) t)
unfolding next_reset_at
next_reset_at_lem strategy now rows =
    soonest_of-Lifts strategy now (live_rows strategy now rows) (live_rows-later strategy now rows)
