-- ===== src/Hold/Tests.antt =====
-- Holds of a small table.
use connections.Base.{
  ℕ, ◌+◌, ◌*◌, String, ◌≡◌, refl, true, false, ◌&&◌, Option, none, some, List, [], ◌∷◌, ltb,
  if◌then◌else◌, count,
}
use connections.Strategy.{SupportedStrategy}
use connections.RunStore.{same_strategy, same_model}
use connections.Hold.{
  RateLimitHold, RateLimitHoldReason, find_row, live_row, new_hold, held_reason, hold, is_expired,
  is_daily, is_cooldown, clear_expired,
}
use connections.Hold.Live.{hold_lem, clear_expired_lem}

abbrev day_hold : RateLimitHold
day_hold = new_hold SupportedStrategy.llm_openrouter none (some RateLimitHoldReason.daily) 60 1000

abbrev model_hold : RateLimitHold
model_hold = new_hold SupportedStrategy.llm_groq (some "small") none 1 1000

abbrev rows : List RateLimitHold
rows = day_hold ∷ model_hold ∷ []

abbrev cool : Option RateLimitHoldReason
cool = some RateLimitHoldReason.per_minute_cooldown

hold_lem_example :
    ((is_cooldown cool && is_daily (held_reason SupportedStrategy.llm_openrouter 2000 rows)) ≡ true
      → hold SupportedStrategy.llm_openrouter none cool 5 2000 rows ≡ rows)
    × ((is_cooldown cool && is_daily (held_reason SupportedStrategy.llm_openrouter 2000 rows))
          ≡ false
        → (other : SupportedStrategy) (other_model : Option String) (time : ℕ)
        → live_row other other_model time
            (hold SupportedStrategy.llm_openrouter none cool 5 2000 rows)
          ≡ (if same_strategy SupportedStrategy.llm_openrouter other && same_model none other_model
              then (if ltb time (2000 + 5 * 1000)
                  then some (new_hold SupportedStrategy.llm_openrouter none cool 5 2000)
                  else none)
              else live_row other other_model time rows))
hold_lem_example = hold_lem SupportedStrategy.llm_openrouter none cool 5 2000 rows

clear_expired_lem_example :
    ((strategy : SupportedStrategy) (model : Option String)
      → live_row strategy model 3000 (clear_expired none 3000 rows).1
        ≡ live_row strategy model 3000 rows)
    × (count (is_expired none 3000) (clear_expired none 3000 rows).1 ≡ 0)
clear_expired_lem_example = clear_expired_lem none 3000 rows (refl, (refl, tt))

still_daily : hold SupportedStrategy.llm_openrouter none cool 5 2000 rows ≡ rows
unfolding hold held_reason live_row find_row
still_daily = refl
