-- ===== src/RoundRobin/Least.antt =====
-- The model with the fewest trials (`leastAllocatedModel` of
-- backend/src/modules/free-tier-dispatch/free-tier-dispatch.service.ts and
-- backend/src/modules/provider-pool/free-dispatch.service.ts).
use connections.Base.{
  ℕ, ◌≤◌, String, ◌≡◌, subst, ◌⊎◌, inl, inr, Bool, true, false, not, ◌&&◌, Option, none, some, List,
  [], ◌∷◌, arith, if◌then◌else◌, Bool-cases, Option-cases, includes, All, In,
}
use connections.RoundRobin.{Allocation, least_from, least_allocated_model, is_less}

abbrev pub Least : List String → Allocation → String → ℕ → Type 0
Least excluded allocation model n =
    (includes excluded model ≡ false)
    × All (λ (e : String × ℕ). includes excluded e.0 ≡ false → n ≤ e.1) allocation

abbrev AtMost : ℕ → Option (String × ℕ) → Type 0
AtMost n none = Unit
AtMost n (some best) = n ≤ best.1

abbrev Allowed : List String → Option (String × ℕ) → Type 0
Allowed excluded none = Unit
Allowed excluded (some best) = includes excluded best.0 ≡ false

AtMost-less : (k n : ℕ) (best : Option (String × ℕ)) → is_less n best ≡ true → k ≤ n → AtMost k best
AtMost-less k n none h le = tt
AtMost-less k n (some best) h le = ground (arith, h, le)

AtMost-not_less :
    (k n : ℕ) (best : Option (String × ℕ)) → is_less n best ≡ false → AtMost k best → k ≤ n
AtMost-not_less k n none h le = absurd (ground (arith, h))
AtMost-not_less k n (some best) h le = ground (arith, h, le)

-- What the scan ends with is an entry or what it began with, is not excluded, and has no more
-- trials than what it began with and than any entry that is not excluded.
least_from_lem :
    (excluded : List String) (best : Option (String × ℕ)) (allocation : Allocation)
    (found : String × ℕ)
    → Allowed excluded best
    → least_from best allocation excluded ≡ some found
    → (In found allocation ⊎ (best ≡ some found))
      × Least excluded allocation found.0 found.1
      × AtMost found.1 best
unfolding least_from
least_from_lem excluded none [] found a h = absurd (ground (arith, h))
least_from_lem excluded (some best) [] found a h =
    let e : best ≡ found = ground (arith, h) in
    (inr h, (subst (λ z. includes excluded z.0 ≡ false) e a, tt), ground (arith, e))
least_from_lem excluded best ((m, n) ∷ allocation) found a h =
    let scan : Bool → Option (String × ℕ) =
      λ b. least_from (if b then some (m, n) else best) allocation excluded in
    elim (Bool-cases (not (includes excluded m) && is_less n best)) [
      | inl less ↦
          let k =
            least_from_lem excluded (some (m, n)) allocation found (ground (arith, less))
              (subst (λ b. scan b ≡ some found) less h) in
          (
            inl (elim k.0 [ inl i ↦ inr i | inr e ↦ inl (ground (arith, e)) ]),
            ((k.1).0, (λ free. k.2, (k.1).1)),
            AtMost-less found.1 n best (ground (arith, less)) k.2,
          )
      | inr more ↦
          let k =
            least_from_lem excluded best allocation found a
              (subst (λ b. scan b ≡ some found) more h) in
          (
            elim k.0 [ inl i ↦ inl (inr i) | inr e ↦ inr e ],
            (
              (k.1).0,
              (λ free. AtMost-not_less found.1 n best (ground (arith, more, free)) k.2, (k.1).1),
            ),
            k.2,
          )
    ]

least_from-none :
    (excluded : List String) (best : Option (String × ℕ)) (allocation : Allocation)
    → least_from best allocation excluded ≡ none
    → (best ≡ none) × All (λ (e : String × ℕ). includes excluded e.0 ≡ true) allocation
unfolding least_from
least_from-none excluded best [] h = (h, tt)
least_from-none excluded best ((m, n) ∷ allocation) h =
    let scan : Bool → Option (String × ℕ) =
      λ b. least_from (if b then some (m, n) else best) allocation excluded in
    elim (Bool-cases (not (includes excluded m) && is_less n best)) [
      | inl less ↦
          let k =
            least_from-none excluded (some (m, n)) allocation (subst (λ b. scan b ≡ none) less h) in
          absurd (ground (arith, k.0))
      | inr more ↦
          let k = least_from-none excluded best allocation (subst (λ b. scan b ≡ none) more h) in
          let nothing : is_less n best ≡ true = ground (arith, k.0) in
          (k.0, (ground (arith, more, nothing), k.1))
    ]

-- The model that is picked is one of the allocation's, is not excluded, and has no more trials than
-- any model of the allocation that is not excluded; when none is picked, all are excluded.
pub least_allocated_model_lem :
    (allocation : Allocation) (excluded : List String)
    → ((model : String)
        → least_allocated_model allocation excluded ≡ some model
        → (n : ℕ) × In (model, n) allocation × Least excluded allocation model n)
      × (least_allocated_model allocation excluded ≡ none
          → All (λ (e : String × ℕ). includes excluded e.0 ≡ true) allocation)
unfolding least_allocated_model
least_allocated_model_lem allocation excluded =
    elim (Option-cases (least_from none allocation excluded)) [
      | inl nothing ↦ (
        λ model h. absurd (ground (arith, h, nothing)),
        λ h. (least_from-none excluded none allocation nothing).1,
      )
      | inr (found, is_found) ↦ (
        λ model h.
            let k = least_from_lem excluded none allocation found tt is_found in
            let e : found.0 ≡ model = ground (arith, h, is_found) in
            subst (λ z. (n : ℕ) × In (z, n) allocation × Least excluded allocation z n) e
              (found.1, elim k.0 [ inl i ↦ i | inr wrong ↦ absurd (ground (arith, wrong)) ], k.1),
        λ h. absurd (ground (arith, h, is_found)),
      )
    ]
