-- ===== src/Budget/Midnight.antt =====
-- A call that is in flight when the UTC day turns
-- (backend/src/modules/strategy/free-tier-budget.service.ts).
use connections.Base.{
  ℕ, ◌+◌, ◌≡◌, refl, Bool, true, false, not, some, List, [], ◌∷◌, arith, ◌==◌, filter, All,
}
use connections.Strategy.{FreeTierId}
use connections.Budget.{
  FreeTierReservation, UsageRow, Tables, ReservationSettlement, sum, counts_today, used_today,
  outstanding, used_tokens, committed_tokens, settle_reservation_tx, flush_call,
}
use connections.Budget.Safety.{sum-filter-append}

sum-filter-skip :
    {A : Type 0} (f : A → ℕ) (q p : A → Bool) (xs : List A)
    → All (λ x. p x ≡ true → q x ≡ false) xs
    → sum f (filter q (filter (λ x. not (p x)) xs)) ≡ sum f (filter q xs)
sum-filter-skip f q p [] h = refl
sum-filter-skip f q p (x ∷ xs) (h, hs) = ground (arith, h, sum-filter-skip f q p xs hs)

-- A call was reserved on an earlier day and is recorded today, on a model of the tier. Then all its
-- tokens are added to what is committed today, although nothing of today's threshold was set
-- aside for them.
pub flush_call-midnight :
    (tier : FreeTierId) (today : ℕ) (settlement : ReservationSettlement) (row : UsageRow)
    (t : Tables)
    → settlement.recorded ≡ true
    → All
        (λ r. (r.id == settlement.reservation_id) ≡ true → counts_today tier today r ≡ false)
        t.reservations
    → used_today (t.tier_models tier) today row ≡ true
    → committed_tokens tier today (flush_call settlement (some row) t)
      ≡ committed_tokens tier today t + row.total_tokens
unfolding flush_call settle_reservation_tx committed_tokens outstanding used_tokens
flush_call-midnight tier today settlement row t rec earlier used = ground (
  arith,
  rec,
  used,
  sum-filter-append (λ (u : UsageRow). u.total_tokens) (used_today (t.tier_models tier) today)
      t.usage row,
  sum-filter-skip (λ (x : FreeTierReservation). x.reserved_tokens) (counts_today tier today)
      (λ x. x.id == settlement.reservation_id) t.reservations earlier,
)
