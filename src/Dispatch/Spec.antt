-- ===== src/Dispatch/Spec.antt =====
-- What dispatching promises about trial numbers, apart from how it is done: a list of held trial
-- numbers, from which numbers are dropped and to which fresh ones are added under a cap per model.
use connections.Base.{
  ℕ, ◌≤◌, ◌<◌, ◌≡◌, ap, subst, ◌⊎◌, inl, inr, true, false, List, [], ◌∷◌, arith, ◌==◌, Bool-cases,
  ==_iff, filter, length, In, All,
}
use connections.Dispatch.Numbers.{
  Reserved, same_trial, Consistent, Consistent-shrinks, Consistent-grows,
}
use connections.Dispatch.TrialMap.{distinct_numbers, distinct-filter, is_other, length-others}

-- The trial number `n` for the model and puzzle of `e`.
abbrev pub with_trial : Reserved → ℕ → Reserved
with_trial e n = record e { trial_number = n }

abbrev pub Holds : List Reserved → Reserved → List ℕ → Type 0
Holds es e ns = All (λ n. In (with_trial e n) es) ns

-- No model holds more than `limit` trial numbers of a puzzle and strategy.
abbrev pub Capped : ℕ → List Reserved → Type 0
Capped limit es =
    (e : Reserved) (ns : List ℕ) → distinct_numbers ns ≡ true → Holds es e ns → length ns ≤ limit

pub data Effect (limit : ℕ) (before after : List Reserved) : Type 0 where
  -- Nothing is held that was not held.
  forgets : ((e : Reserved) → In e after → In e before) → Effect limit before after
  -- One number is held that no row and no job held, for a model that held fewer than `limit`.
  reserves :
      (new : Reserved)
      → ((e : Reserved) → In e after → In e before ⊎ (e ≡ new))
      → ((e : Reserved) → In e before → same_trial e new ≡ false)
      → ((ns : List ℕ) → distinct_numbers ns ≡ true → Holds before new ns → length ns < limit)
      → Effect limit before after

pub Effect-Consistent :
    (limit : ℕ) (before after : List Reserved)
    → Effect limit before after
    → Consistent before
    → Consistent after
Effect-Consistent limit before after (forgets h) c = Consistent-shrinks before after h c
Effect-Consistent limit before after (reserves new h fresh room) c =
    Consistent-grows before after new h fresh c

Holds-shrinks :
    (es es' : List Reserved) (e : Reserved) (ns : List ℕ)
    → ((x : Reserved) → In x es' → In x es)
    → Holds es' e ns
    → Holds es e ns
Holds-shrinks es es' e [] h k = tt
Holds-shrinks es es' e (n ∷ ns) h (i, k) = (h (with_trial e n) i, Holds-shrinks es es' e ns h k)

-- Either all were held before, or the new number is among them.
Holds-cases :
    (before after : List Reserved) (new e : Reserved) (ns : List ℕ)
    → ((x : Reserved) → In x after → In x before ⊎ (x ≡ new))
    → Holds after e ns
    → Holds before e ns ⊎ ((n : ℕ) × (with_trial e n ≡ new))
Holds-cases before after new e [] h k = inl tt
Holds-cases before after new e (n ∷ ns) h (i, k) = elim (h (with_trial e n) i) [
  | inr eq ↦ inr (n, eq)
  | inl old ↦ elim (Holds-cases before after new e ns h k) [
    | inl olds ↦ inl (old, olds)
    | inr found ↦ inr found
  ]
]

-- Without the new number, all were held before.
Holds-others :
    (before after : List Reserved) (new e : Reserved) (ns : List ℕ)
    → ((x : Reserved) → In x after → In x before ⊎ (x ≡ new))
    → Holds after e ns
    → Holds before e (filter (is_other new.trial_number) ns)
Holds-others before after new e [] h k = tt
Holds-others before after new e (n ∷ ns) h (i, k) = elim (Bool-cases (n == new.trial_number)) [
  | inl same ↦ rw same (Holds-others before after new e ns h k)
  | inr other ↦ rw other (elim (h (with_trial e n) i) [
    | inl old ↦ (old, Holds-others before after new e ns h k)
    | inr eq ↦
        let clash : n ≡ new.trial_number = ap (λ (z : Reserved). z.trial_number) eq in
        absurd (ground (arith, other, (==_iff n new.trial_number).1 clash))
  ])
]

Holds-subst :
    (es : List Reserved) (e new : Reserved) (n : ℕ) (ns : List ℕ)
    → with_trial e n ≡ new
    → Holds es e ns
    → Holds es new ns
Holds-subst es e new n [] h k = tt
Holds-subst es e new n (m ∷ ns) h (i, k) =
    (subst (λ z. In z es) (ap (λ z. with_trial z m) h) i, Holds-subst es e new n ns h k)

pub Effect-Capped :
    (limit : ℕ) (before after : List Reserved)
    → Effect limit before after
    → Capped limit before
    → Capped limit after
Effect-Capped limit before after (forgets h) c e ns d k =
    c e ns d (Holds-shrinks before after e ns h k)
Effect-Capped limit before after (reserves new h fresh room) c e ns d k =
    elim (Holds-cases before after new e ns h k) [
      | inl olds ↦ c e ns d olds
      | inr (n, eq) ↦
          let t : ℕ = new.trial_number in
          let fewer : length (filter (is_other t) ns) < limit =
            room (filter (is_other t) ns) (distinct-filter (is_other t) ns d) (
              Holds-subst before e new n (filter (is_other t) ns) eq
                (Holds-others before after new e ns h k)) in
          ground (arith, fewer, length-others t ns d)
    ]
