-- ===== src/Budget/Safety.antt =====
-- The tokens committed for a tier stay within its threshold
-- (backend/src/modules/strategy/free-tier-budget.service.ts).
use connections.Base.{
  ℕ, ◌+◌, ◌≤◌, ◌≡◌, refl, ap, ◌∙◌, subst, ◌⊎◌, inl, inr, Bool, true, false, not, Option, none, some,
  List, [], ◌∷◌, ◌++◌, map, arith, ltb, ◌==◌, if◌then◌else◌, le→leb, Bool-cases, Option-cases,
  filter, find?, any,
}
use connections.Strategy.{FreeTierId}
use connections.Budget.{
  FreeTierReservation, UsageRow, Tables, FreeTierDispatchState, ReservationSettlement,
  ReservationStatus, same_tier, sum, counts_today, used_today, outstanding, used_tokens,
  committed_tokens, threshold, reserve, settle_reservation_tx, flush_call, add_reservation,
}

pub sum-filter-append :
    {A : Type 0} (f : A → ℕ) (q : A → Bool) (xs : List A) (x : A)
    → sum f (filter q (xs ++ x ∷ [])) ≡ sum f (filter q xs) + (if q x then f x else 0)
sum-filter-append f q [] x = ground arith
sum-filter-append f q (y ∷ xs) x = ground (arith, sum-filter-append f q xs x)

sum-filter-filter :
    {A : Type 0} (f : A → ℕ) (q p : A → Bool) (xs : List A)
    → sum f (filter q (filter (λ x. not (p x)) xs)) ≤ sum f (filter q xs)
sum-filter-filter f q p [] = omega arith
sum-filter-filter f q p (x ∷ xs) = ground (arith, sum-filter-filter f q p xs)

-- Dropping what a test selects takes at least the first one selected off the sum.
sum-filter-drop :
    {A : Type 0} (f : A → ℕ) (q p : A → Bool) (xs : List A) (r : A)
    → find? p xs ≡ some r
    → q r ≡ true
    → sum f (filter q (filter (λ x. not (p x)) xs)) + f r ≤ sum f (filter q xs)
sum-filter-drop f q p [] r h k = ground (arith, h)
sum-filter-drop f q p (x ∷ xs) r h k =
    ground (arith, h, k, sum-filter-drop f q p xs r, sum-filter-filter f q p xs)

sum-filter-map :
    {A : Type 0} (f : A → ℕ) (q : A → Bool) (g : A → A)
    → ((x : A) → f (g x) ≡ f x)
    → ((x : A) → q (g x) ≡ q x)
    → (xs : List A) → sum f (filter q (map g xs)) ≡ sum f (filter q xs)
sum-filter-map f q g h k [] = refl
sum-filter-map f q g h k (x ∷ xs) = ground (arith, h x, k x, sum-filter-map f q g h k xs)

abbrev pub reservation_of : ReservationSettlement → Tables → Option FreeTierReservation
reservation_of settlement t = find? (λ r. r.id == settlement.reservation_id) t.reservations

-- The commits of one day that a tier sees; the number is the usage a commit adds that no reservation covers.
pub data Commit (tier : FreeTierId) (today : ℕ) : ℕ → Tables → Tables → Type 0 where
  -- A call reserves its worst case, or finds no room.
  reserves :
      (any : FreeTierId) (run tokens : ℕ) (t : Tables)
      → Commit tier today 0 t (reserve any run tokens today t).1
  -- A call that reported its usage: it kept to its reservation, if the usage is the tier's today.
  records :
      (settlement : ReservationSettlement) (r : FreeTierReservation) (row : UsageRow) (t : Tables)
      → settlement.recorded ≡ true
      → reservation_of settlement t ≡ some r
      → (used_today (t.tier_models tier) today row ≡ true
          → (counts_today tier today r ≡ true) × (row.total_tokens ≤ r.reserved_tokens))
      → Commit tier today 0 t (flush_call settlement (some row) t)
  -- A call that reported none.
  keeps :
      (settlement : ReservationSettlement) (t : Tables)
      → settlement.recorded ≡ false
      → Commit tier today 0 t (flush_call settlement none t)
  -- A call without a reservation: a judge's, or one of a run that was not dispatched for the tier.
  uses :
      (row : UsageRow) (t : Tables)
      → Commit tier today row.total_tokens t (record t { usage = t.usage ++ row ∷ [] })

pub data Commits (tier : FreeTierId) (today : ℕ) : ℕ → Tables → Tables → Type 0 where
  done : (t : Tables) → Commits tier today 0 t t
  then_commit :
      (extra more : ℕ) (t u v : Tables)
      → Commits tier today extra t u
      → Commit tier today more u v
      → Commits tier today (extra + more) t v

abbrev pub Dispatched : FreeTierId → ℕ → Tables → Type 0
Dispatched tier percent t =
    (s : FreeTierDispatchState) × (find? (λ x. same_tier x.tier tier) t.dispatch_states ≡ some s)
    × (s.threshold_percent ≡ percent)

same_tier→eq : (a b : FreeTierId) → same_tier a b ≡ true → a ≡ b
same_tier→eq FreeTierId.flagship FreeTierId.flagship h = refl
same_tier→eq FreeTierId.mini FreeTierId.mini h = refl
same_tier→eq FreeTierId.flagship FreeTierId.mini h = ground (arith, h)
same_tier→eq FreeTierId.mini FreeTierId.flagship h = ground (arith, h)

-- A reservation changes nothing, or it fits under the threshold of an active tier.
pub reserve-cases :
    (tier : FreeTierId) (run tokens today : ℕ) (t : Tables)
    → (reserve tier run tokens today t ≡ (none, t))
      ⊎ ((s : FreeTierDispatchState) × (find? (λ x. same_tier x.tier tier) t.dispatch_states
            ≡ some s)
          × (s.active ≡ true)
          × (committed_tokens tier today t + tokens ≤ threshold tier s.threshold_percent)
          × (reserve tier run tokens today t
              ≡ (some t.next_id, add_reservation tier run tokens today t)))
unfolding reserve
reserve-cases tier run tokens today t =
    elim (Option-cases (find? (λ x. same_tier x.tier tier) t.dispatch_states)) [
      | inl h ↦ inl (ground (arith, h))
      | inr (s, h) ↦ elim (Bool-cases s.active) [
        | inr off ↦ inl (ground (arith, h, off))
        | inl on ↦
            elim (Bool-cases
              (ltb (threshold tier s.threshold_percent) (committed_tokens tier today t + tokens))) [
                | inl full ↦ inl (ground (arith, h, on, full))
                | inr room ↦ inr (s, h, on, ground (arith, room), ground (arith, h, on, room))
              ]
      ]
    ]

module _ (tier : FreeTierId) (today percent : ℕ) where
  add_reservation-committed :
      (any : FreeTierId) (run tokens : ℕ) (t : Tables)
      → committed_tokens tier today (add_reservation any run tokens today t)
        ≡ committed_tokens tier today t + (if same_tier any tier then tokens else 0)
  unfolding committed_tokens outstanding used_tokens
  add_reservation-committed any run tokens t = ground (
    arith,
    le→leb today today (omega arith),
    sum-filter-append (λ (r : FreeTierReservation). r.reserved_tokens) (counts_today tier today)
        t.reservations
        (record {
          id = t.next_id;
          tier = any;
          strategy_run_id = run;
          reserved_tokens = tokens;
          status = ReservationStatus.pending;
          day = today;
        }),
  )

  reserve-within :
      (any : FreeTierId) (run tokens extra : ℕ) (t : Tables)
      → Dispatched tier percent t
      → committed_tokens tier today t ≤ threshold tier percent + extra
      → committed_tokens tier today (reserve any run tokens today t).1
        ≤ threshold tier percent + extra
  reserve-within any run tokens extra t (s, found, pct) h =
      elim (reserve-cases any run tokens today t) [
        | inl same ↦ rw same h
        | inr (s', found', on, fits, e) ↦ rw e (elim (Bool-cases (same_tier any tier)) [
          | inr other ↦ ground (arith, h, other, add_reservation-committed any run tokens t)
          | inl same ↦
              let eq : any ≡ tier = same_tier→eq any tier same in
              let room : committed_tokens tier today t + tokens
                  ≤ threshold tier s'.threshold_percent =
                subst (λ a. committed_tokens a today t + tokens ≤ threshold a s'.threshold_percent)
                  eq fits in
              let there : find? (λ x. same_tier x.tier tier) t.dispatch_states ≡ some s' =
                subst (λ a. find? (λ x. same_tier x.tier a) t.dispatch_states ≡ some s') eq
                  found' in
              ground
                (arith, room, there, found, pct, same, add_reservation-committed any run tokens t)
        ])
      ]

  records-within :
      (settlement : ReservationSettlement) (r : FreeTierReservation) (row : UsageRow) (t : Tables)
      → settlement.recorded ≡ true
      → reservation_of settlement t ≡ some r
      → (used_today (t.tier_models tier) today row ≡ true
          → (counts_today tier today r ≡ true) × (row.total_tokens ≤ r.reserved_tokens))
      → committed_tokens tier today (flush_call settlement (some row) t)
        ≤ committed_tokens tier today t
  unfolding flush_call settle_reservation_tx committed_tokens outstanding used_tokens
  records-within settlement r row t rec found kept = ground (
    arith,
    rec,
    found,
    kept,
    sum-filter-append (λ (u : UsageRow). u.total_tokens) (used_today (t.tier_models tier) today)
        t.usage row,
    sum-filter-drop (λ (x : FreeTierReservation). x.reserved_tokens) (counts_today tier today)
        (λ x. x.id == settlement.reservation_id) t.reservations r found,
    sum-filter-filter (λ (x : FreeTierReservation). x.reserved_tokens) (counts_today tier today)
        (λ x. x.id == settlement.reservation_id) t.reservations,
  )

  keeps-same :
      (settlement : ReservationSettlement) (t : Tables)
      → settlement.recorded ≡ false
      → committed_tokens tier today (flush_call settlement none t) ≡ committed_tokens tier today t
  unfolding flush_call settle_reservation_tx committed_tokens outstanding used_tokens
  keeps-same settlement t rec = ground (
    arith,
    rec,
    sum-filter-map (λ (x : FreeTierReservation). x.reserved_tokens) (counts_today tier today)
        (λ x.
          if x.id == settlement.reservation_id
          then record x { status = ReservationStatus.unrecorded }
          else x)
        (λ x. ground arith) (λ x. ground arith) t.reservations,
  )

  uses-more :
      (row : UsageRow) (t : Tables)
      → committed_tokens tier today (record t { usage = t.usage ++ row ∷ [] })
        ≤ committed_tokens tier today t + row.total_tokens
  unfolding committed_tokens outstanding used_tokens
  uses-more row t = ground (
    arith,
    sum-filter-append (λ (u : UsageRow). u.total_tokens) (used_today (t.tier_models tier) today)
        t.usage row,
  )

  Commit-states :
      (n : ℕ) (t u : Tables) → Commit tier today n t u → u.dispatch_states ≡ t.dispatch_states
  Commit-states n t u (reserves any run tokens t') = elim (reserve-cases any run tokens today t') [
    | inl same ↦ rw same refl
    | inr (s, found, on, fits, e) ↦ rw e refl
  ]
  Commit-states n t u (records settlement r row t' rec found kept) =
      unfold flush_call in unfold settle_reservation_tx in ground (arith, rec)
  Commit-states n t u (keeps settlement t' rec) =
      unfold flush_call in unfold settle_reservation_tx in ground (arith, rec)
  Commit-states n t u (uses row t') = refl

  Commit-within :
      (n extra : ℕ) (t u : Tables)
      → Commit tier today n t u
      → Dispatched tier percent t
      → committed_tokens tier today t ≤ threshold tier percent + extra
      → committed_tokens tier today u ≤ threshold tier percent + (extra + n)
  Commit-within n extra t u (reserves any run tokens t') d h =
      ground (arith, reserve-within any run tokens extra t' d h)
  Commit-within n extra t u (records settlement r row t' rec found kept) d h =
      ground (arith, h, records-within settlement r row t' rec found kept)
  Commit-within n extra t u (keeps settlement t' rec) d h =
      ground (arith, h, keeps-same settlement t' rec)
  Commit-within n extra t u (uses row t') d h = ground (arith, h, uses-more row t')

  Commits-states :
      (n : ℕ) (t u : Tables) → Commits tier today n t u → u.dispatch_states ≡ t.dispatch_states
  Commits-states n t u (done t') = refl
  Commits-states n t v (then_commit extra more t' u v' cs c) =
      Commit-states more u v c ∙ Commits-states extra t u cs

  -- A tier is dispatched with a threshold, and at first what is committed for today is within it. Then
  -- after any commits of any runs, in any order, the recorded usage of today with what is still
  -- reserved exceeds the threshold at most by the usage of calls that made no reservation;
  -- provided that a recorded call of the tier kept to its reservation, and made it today.
  pub Commits-within :
      (n : ℕ) (t u : Tables)
      → Commits tier today n t u
      → Dispatched tier percent t
      → committed_tokens tier today t ≤ threshold tier percent
      → committed_tokens tier today u ≤ threshold tier percent + n
  Commits-within n t u (done t') d h = omega arith
  Commits-within n t v (then_commit extra more t' u v' cs c) (s, found, pct) h =
      Commit-within more extra u v c
        (
          s,
          ap (λ ss. find? (λ (x : FreeTierDispatchState). same_tier x.tier tier) ss)
                (Commits-states extra t u cs)
              ∙ found,
          pct,
        )
        (Commits-within extra t u cs (s, found, pct) h)
