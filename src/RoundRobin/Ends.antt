-- ===== src/RoundRobin/Ends.antt =====
-- The loop that queues trials ends, within its slots, and queues only what fits
-- (backend/src/modules/free-tier-dispatch/free-tier-dispatch.service.ts and
-- backend/src/modules/provider-pool/free-dispatch.service.ts).
use connections.Base.{
  ℕ, zero, suc, ◌+◌, ◌-◌, ◌≤◌, ◌<◌, String, ◌≡◌, refl, sym, ap, ◌∙◌, subst, ◌⊎◌, inl, inr, Bool,
  true, false, not, ◌&&◌, some, List, [], ◌∷◌, ◌++◌, append_assoc, append-nil, arith, leb,
  Bool-cases, Option-cases, length, length-append, filter, includes, distinct, subset,
  subset→includes, distinct-length,
}
use connections.RoundRobin.{
  count_one, add_name, add_names, Attempt, Round, LoopEnd, ended, take_attempt, skip, excluded,
  dispatch_loop, least_allocated_model,
}
use connections.RoundRobin.Least.{least_allocated_model_lem}
use connections.RoundRobin.Names.{
  names, names-count_one, In-names, includes-add_names, fresh, fresh-add_name, includes-filter-not,
  subset_excluded, subset-subset,
}

-- Each model fits after those queued before it.
abbrev pub FitFrom : (List String → String → Bool) → List String → List String → Type 0
FitFrom fits before [] = Unit
FitFrom fits before (m ∷ ms) = (fits before m ≡ true) × FitFrom fits (before ++ m ∷ []) ms

module _ {W : Type 0} (models : List String) (slots : ℕ) (fits : List String → String → Bool)
    (attempt : String → W → Attempt × W) where
  -- The slots are full, or every model is exhausted or does not fit.
  abbrev pub Stops : Round W → Type 0
  Stops r = (length r.queued ≡ slots) ⊎ (length models ≤ length (add_names r.exhausted r.skipped))

  abbrev pub Ends : List String → LoopEnd W → Type 0
  Ends before end =
      (r : Round W) × (end ≡ ended r)
      × ((new : List String) × (r.queued ≡ before ++ new)
          × FitFrom (λ q m. fits q m && includes models m) before new)
      × (length r.queued ≤ slots)
      × Stops r

  abbrev tried : String → Round W → Round W
  tried model r = take_attempt models slots fits attempt model (skip models slots fits attempt r)

  abbrev barred : Round W → List String
  barred r = excluded models slots fits attempt (skip models slots fits attempt r)

  -- What an attempt changes: one more queued trial, or one more exhausted model.
  tried-cases :
      (model : String) (r : Round W)
      → (((tried model r).queued ≡ r.queued ++ model ∷ [])
          × ((tried model r).exhausted ≡ r.exhausted)
          × ((tried model r).allocation ≡ count_one model r.allocation))
        ⊎ (((tried model r).queued ≡ r.queued)
            × ((tried model r).exhausted ≡ add_name r.exhausted model)
            × ((tried model r).allocation ≡ r.allocation))
  unfolding take_attempt
  tried-cases model r = ground arith

  -- A model that is not excluded fits, and is not exhausted.
  free-fits :
      (r : Round W) (model : String)
      → includes models model ≡ true
      → includes (barred r) model ≡ false
      → (fits r.queued model ≡ true) × (includes r.exhausted model ≡ false)
  free-fits r model i e =
      let misfits : List String = filter (λ m. not (fits r.queued m)) models in
      let h = includes-add_names r.exhausted (add_names r.skipped misfits) model in
      let k = includes-add_names r.skipped misfits model in
      elim (Bool-cases (fits r.queued model)) [
        | inl fit ↦ (fit, ground (arith, h, e))
        | inr out ↦
            let there : includes misfits model ≡ true =
              includes-filter-not (fits r.queued) models model i out in
            absurd (ground (arith, h, k, e, there))
      ]

  -- Some model of the allocation can be picked as long as not every model is excluded.
  least-found :
      (r : Round W)
      → distinct models ≡ true
      → subset models (names r.allocation) ≡ true
      → leb (length models) (length (barred r)) ≡ false
      → (model : String) × (least_allocated_model r.allocation (barred r) ≡ some model)
        × (includes (names r.allocation) model ≡ true)
        × (includes (barred r) model ≡ false)
  least-found r d s h =
      let lem = least_allocated_model_lem r.allocation (barred r) in
      elim (Option-cases (least_allocated_model r.allocation (barred r))) [
        | inr (model, found) ↦
            let (n, i, l) = lem.0 model found in
            (model, found, In-names model n r.allocation i, l.0)
        | inl nothing ↦
            let all_barred : subset (names r.allocation) (barred r) ≡ true =
              subset_excluded (barred r) r.allocation (lem.1 nothing) in
            let short =
              distinct-length models (barred r) d
                (subset-subset models (names r.allocation) (barred r) s all_barred) in
            absurd (ground (arith, h, short))
      ]

  -- Let the models be different, let the allocation count exactly these models, and let no more
  -- than `slots` trials be queued. With fuel for each free slot and each model that is not exhausted,
  -- the loop ends without an error; what it queued, each of the models and fitting after those before
  -- it, is within the slots, and either all slots are taken or every model is exhausted or skipped.
  pub dispatch_loop-returns :
      (fuel : ℕ) (r : Round W)
      → distinct models ≡ true
      → subset models (names r.allocation) ≡ true
      → subset (names r.allocation) models ≡ true
      → length r.queued ≤ slots
      → (slots - length r.queued) + fresh r.exhausted (names r.allocation) < fuel
      → Ends r.queued (dispatch_loop models slots fits attempt fuel r)
  unfolding dispatch_loop
  dispatch_loop-returns zero r d s s' l f = absurd (omega arith)
  dispatch_loop-returns (suc fuel) r d s s' l f =
      let fits_in : List String → String → Bool = λ q m. fits q m && includes models m in
      let loop : ℕ → Round W → LoopEnd W = dispatch_loop models slots fits attempt in
      elim (Bool-cases (leb slots (length r.queued))) [
        | inl full ↦
            let e : loop (suc fuel) r ≡ ended r = rw (full, dispatch_loop) refl in
            (r, e, ([], sym (append-nil r.queued), tt), l, inl (ground (arith, full, l)))
        | inr room ↦ elim (Bool-cases (leb (length models) (length (barred r)))) [
          | inl none_left ↦
              let e : loop (suc fuel) r ≡ ended (skip models slots fits attempt r) =
                rw (room, dispatch_loop) (rw none_left refl) in
              (
                skip models slots fits attempt r,
                e,
                ([], sym (append-nil r.queued), tt),
                l,
                inr (ground (arith, none_left)),
              )
          | inr left ↦
              let (model, found, known, free) = least-found r d s left in
              let e : loop (suc fuel) r ≡ loop fuel (tried model r) =
                rw (room, dispatch_loop) (rw left (rw found refl)) in
              let inside : includes models model ≡ true =
                subset→includes (names r.allocation) models model s' known in
              let (fit, new) = free-fits r model inside free in
              let both : fits_in r.queued model ≡ true = ground (arith, fit, inside) in
              subst (Ends r.queued) (sym e) (elim (tried-cases model r) [
                | inl (q, x, a) ↦
                    let same : names (tried model r).allocation ≡ names r.allocation =
                      ap names a ∙ names-count_one model r.allocation known in
                    let one_more = length-append r.queued (model ∷ []) in
                    let (end, is_end, (queued, split, fitting), short, stops) =
                      dispatch_loop-returns fuel (tried model r) d (rw same s) (rw same s')
                        (rw q (ground (arith, one_more, room)))
                        (rw q (rw x (rw same (ground (arith, one_more, room, f))))) in
                    (
                      end,
                      is_end,
                      (
                        model ∷ queued,
                        split ∙ ap (λ z. z ++ queued) q ∙ append_assoc r.queued (model ∷ []) queued,
                        (both, subst (λ z. FitFrom fits_in z queued) q fitting),
                      ),
                      short,
                      stops,
                    )
                | inr (q, x, a) ↦
                    let fewer = fresh-add_name r.exhausted model (names r.allocation) new known in
                    let (end, is_end, (queued, split, fitting), short, stops) =
                      dispatch_loop-returns fuel (tried model r) d (rw a s) (rw a s') (rw q l)
                        (rw q (rw x (rw a (omega (arith, fewer, f))))) in
                    (
                      end,
                      is_end,
                      (
                        queued,
                        split ∙ ap (λ z. z ++ queued) q,
                        subst (λ z. FitFrom fits_in z queued) q fitting,
                      ),
                      short,
                      stops,
                    )
              ])
        ]
      ]
