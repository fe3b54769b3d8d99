-- ===== src/FreeTierDispatch/Room.antt =====
-- What a tick queues fits in the room of the tier
-- (backend/src/modules/free-tier-dispatch/free-tier-dispatch.service.ts).
use connections.Base.{
  ℕ, ◌+◌, ◌-◌, ◌≤◌, ◌<◌, min, String, ◌≡◌, refl, ◌⊎◌, inl, inr, true, false, not, ◌&&◌, List, [],
  ◌∷◌, ◌++◌, append_assoc, arith, length, filter, count-le-length, distinct, subset, includes,
}
use connections.Budget.{sum}
use connections.RoundRobin.{Allocation, Attempt, Round, ended}
use connections.RoundRobin.Names.{names}
use connections.RoundRobin.Ends.{FitFrom, dispatch_loop-returns}
use connections.FreeTierDispatch.{
  TickInputs, in_flight_total, worst_case, fits, set_aside_for_in_flight, fill_batch,
}

sum-append : {A : Type 0} (f : A → ℕ) (xs ys : List A) → sum f (xs ++ ys) ≡ sum f xs + sum f ys
sum-append f [] ys = omega arith
sum-append f (x ∷ xs) ys = omega (arith, sum-append f xs ys)

-- Models of which each fits after those before it fit together.
FitFrom-within :
    (i : TickInputs) (limit base : ℕ) (before new : List String)
    → FitFrom
        (λ queued model.
          fits i limit (base + sum (worst_case i) queued) model && includes i.models model)
        before
        new
    → (new ≡ []) ⊎ (base + sum (worst_case i) (before ++ new) ≤ limit)
FitFrom-within i limit base before [] f = inl refl
FitFrom-within i limit base before (m ∷ ms) (f, g) =
    elim (FitFrom-within i limit base (before ++ m ∷ []) ms g) [
      | inl last ↦ inr (rw last (ground (arith, f, sum-append (worst_case i) before (m ∷ []))))
      | inr more ↦ inr (rw (append_assoc before (m ∷ []) ms) at more)
    ]

module _ {W : Type 0} (resume : List String → ℕ → W → List String × W) (allocation : W → Allocation)
    (attempt : String → W → Attempt × W) where
  -- The trials that a tick may start: a full batch, as far as the trials in flight leave room.
  abbrev pub slots : TickInputs → ℕ
  slots i = min i.max_batch (i.max_in_flight - in_flight_total i)

  -- Let the models be different, let the count of today's dispatches be over exactly these models, and
  -- let no more runs be resumed than asked for. With fuel for each slot and each model, a tick's batch
  -- ends without an error; resumed and new trials together take no more than the batch and leave the
  -- trials in flight within their limit; and when a new trial is queued, then the committed
  -- tokens and one worst-case call of each trial in flight, resumed or new fit in the threshold.
  pub fill_batch_lem :
      (fuel limit : ℕ) (i : TickInputs) (w : W)
      → distinct i.models ≡ true
      → ((v : W)
          → (subset i.models (names (allocation v)) ≡ true)
            × (subset (names (allocation v)) i.models ≡ true))
      → ((ms : List String) (n : ℕ) (v : W) → length (resume ms n v).0 ≤ n)
      → ((v : W) → slots i + length (names (allocation v)) < fuel)
      → (r : Round W) × ((fill_batch resume allocation attempt fuel limit i w).1 ≡ ended r)
        × (length (fill_batch resume allocation attempt fuel limit i w).0 + length r.queued
            ≤ slots i)
        × ((r.queued ≡ [])
            ⊎ (set_aside_for_in_flight i
                  + sum (worst_case i) (fill_batch resume allocation attempt fuel limit i w).0
                  + sum (worst_case i) r.queued
                ≤ limit))
  unfolding fill_batch
  fill_batch_lem fuel limit i w d s few enough =
      let resumed : List String × W =
        resume (filter (fits i limit (set_aside_for_in_flight i)) i.models) (slots i) w in
      let base : ℕ = set_aside_for_in_flight i + sum (worst_case i) resumed.0 in
      let first : Round W = record {
        exhausted = [];
        skipped = [];
        queued = [];
        allocation = allocation resumed.1;
        world = resumed.1;
      } in
      let no_more : length resumed.0 ≤ slots i =
        few (filter (fits i limit (set_aside_for_in_flight i)) i.models) (slots i) w in
      let (r, is_end, (new, split, fit), short, stops) =
        dispatch_loop-returns i.models (slots i - length resumed.0)
          (λ queued model. fits i limit (base + sum (worst_case i) queued) model) attempt fuel first
          d (s resumed.1).0 (s resumed.1).1 (omega arith)
          (omega (
            arith,
            enough resumed.1,
            count-le-length (λ (n : String). not false) (names (allocation resumed.1)),
          )) in
      (r, is_end, omega (arith, short, no_more), rw split (FitFrom-within i limit base [] new fit))
