-- ===== src/Dispatch/TrialMap.antt =====
-- The map of trial numbers that a dispatch builds (`trialModels` of `triggerNextLlmTrial`,
-- backend/src/modules/strategy/strategy-dispatch.service.ts).
use connections.Base.{
  ℕ, ◌+◌, ◌≤◌, String, ◌≡◌, refl, sym, ap, ◌∙◌, subst, ◌⊎◌, inl, inr, Bool, true, false, not, ◌&&◌,
  Option, none, some, List, [], ◌∷◌, ◌++◌, map, arith, ◌==◌, if◌then◌else◌, Bool-cases, ==_iff,
  filter, any, length, In, All,
}
use connections.Strategy.{StrategyRun}
use connections.RunStore.Creation.{same_model-same}
use connections.Dispatch.Trials.{
  QueuedTrial, TrialModels, TrialReads, trial_models, set_trial, add_runs, add_queued,
  greatest_trial, model_run_count,
}

abbrev pub run_trial : StrategyRun → QueuedTrial
run_trial run = record { trial_number = run.trial_number; model = run.model_name }

-- All the trials that a dispatch has read.
abbrev pub all_trials : TrialReads → List QueuedTrial
all_trials reads = map run_trial reads.existing_runs ++ (reads.pending ++ reads.active)

-- No trial number was read for two models.
abbrev pub Agrees : TrialReads → Type 0
Agrees reads =
    (t u : QueuedTrial)
    → In t (all_trials reads)
    → In u (all_trials reads)
    → t.trial_number ≡ u.trial_number
    → t.model ≡ u.model

pub add_runs-add_queued :
    (runs : List StrategyRun) (trials : TrialModels)
    → add_runs runs trials ≡ add_queued (map run_trial runs) trials
add_runs-add_queued [] trials = refl
add_runs-add_queued (run ∷ runs) trials =
    add_runs-add_queued runs (set_trial run.trial_number run.model_name trials)

pub add_queued-append :
    (ts us : List QueuedTrial) (trials : TrialModels)
    → add_queued us (add_queued ts trials) ≡ add_queued (ts ++ us) trials
add_queued-append [] us trials = refl
add_queued-append (t ∷ ts) us trials =
    add_queued-append ts us (set_trial t.trial_number t.model trials)

pub trial_models_lem : (reads : TrialReads) → trial_models reads ≡ add_queued (all_trials reads) []
unfolding trial_models
trial_models_lem reads =
    ap (add_queued (reads.pending ++ reads.active)) (add_runs-add_queued reads.existing_runs [])
    ∙ add_queued-append (map run_trial reads.existing_runs) (reads.pending ++ reads.active) []

-- A trial that is set is among the trials, and those before still are.
greatest-set_trial :
    (t : ℕ) (m : Option String) (trials : TrialModels)
    → (t ≤ greatest_trial (set_trial t m trials))
      × (greatest_trial trials ≤ greatest_trial (set_trial t m trials))
greatest-set_trial t m [] = ground arith
greatest-set_trial t m ((u, n) ∷ trials) = ground (arith, greatest-set_trial t m trials)

greatest-add_queued :
    (ts : List QueuedTrial) (trials : TrialModels)
    → greatest_trial trials ≤ greatest_trial (add_queued ts trials)
greatest-add_queued [] trials = omega arith
greatest-add_queued (t ∷ ts) trials = omega (
  arith,
  greatest-set_trial t.trial_number t.model trials,
  greatest-add_queued ts (set_trial t.trial_number t.model trials),
)

pub greatest-In :
    (t : QueuedTrial) (ts : List QueuedTrial) (trials : TrialModels)
    → In t ts
    → t.trial_number ≤ greatest_trial (add_queued ts trials)
greatest-In t [] trials i = elim i [ ]
greatest-In t (u ∷ ts) trials (inl e) =
    subst (λ (z : QueuedTrial). z.trial_number ≤ greatest_trial (add_queued (u ∷ ts) trials)) e
      (omega (
        arith,
        greatest-set_trial u.trial_number u.model trials,
        greatest-add_queued ts (set_trial u.trial_number u.model trials),
      ))
greatest-In t (u ∷ ts) trials (inr i) = greatest-In t ts (set_trial u.trial_number u.model trials) i

unfoldable pub lookup : ℕ → TrialModels → Option (Option String)
lookup n [] = none
lookup n ((t, m) ∷ trials) = if t == n then some m else lookup n trials

lookup-set_trial :
    (n t : ℕ) (m : Option String) (trials : TrialModels)
    → lookup n (set_trial t m trials) ≡ (if t == n then some m else lookup n trials)
unfolding lookup
lookup-set_trial n t m [] = refl
lookup-set_trial n t m ((u, v) ∷ trials) = ground (arith, lookup-set_trial n t m trials)

-- A number that is held for no other model than `m` is mapped to `m`.
pub lookup-add_queued :
    (n : ℕ) (m : Option String) (ts : List QueuedTrial) (trials : TrialModels)
    → ((t : QueuedTrial) → In t ts → t.trial_number ≡ n → t.model ≡ m)
    → ((t : QueuedTrial) × In t ts × (t.trial_number ≡ n)) ⊎ (lookup n trials ≡ some m)
    → lookup n (add_queued ts trials) ≡ some m
lookup-add_queued n m [] trials h (inl (t, i, e)) = elim i [ ]
lookup-add_queued n m [] trials h (inr e) = e
lookup-add_queued n m (t ∷ ts) trials h k =
    lookup-add_queued n m ts (set_trial t.trial_number t.model trials) (λ u i e. h u (inr i) e)
      (elim (Bool-cases (t.trial_number == n)) [
        | inl same ↦ inr (
            lookup-set_trial n t.trial_number t.model trials
            ∙ (rw same (ap some (h t (inl refl) ((==_iff t.trial_number n).0 same)))))
        | inr other ↦ elim k [
          | inl (u, i, e) ↦ elim i [
            | inl eq ↦
                let clash : t.trial_number ≡ n =
                  subst (λ (z : QueuedTrial). z.trial_number ≡ n) (sym eq) e in
                absurd (ground (arith, clash, other, (==_iff t.trial_number n).1))
            | inr j ↦ inl (u, j, e)
          ]
          | inr l ↦ inr (lookup-set_trial n t.trial_number t.model trials ∙ (rw other l))
        ]
      ])

abbrev pub is_other : ℕ → ℕ → Bool
is_other t n = not (n == t)

abbrev pub distinct_numbers : List ℕ → Bool
distinct_numbers [] = true
distinct_numbers (n ∷ ns) = not (any (λ m. m == n) ns) && distinct_numbers ns

any-filter : (p q : ℕ → Bool) (ns : List ℕ) → any p ns ≡ false → any p (filter q ns) ≡ false
any-filter p q [] h = refl
any-filter p q (n ∷ ns) h = ground (arith, h, any-filter p q ns)

pub distinct-filter :
    (q : ℕ → Bool) (ns : List ℕ)
    → distinct_numbers ns ≡ true
    → distinct_numbers (filter q ns) ≡ true
distinct-filter q [] h = refl
distinct-filter q (n ∷ ns) h =
    ground (arith, h, distinct-filter q ns, any-filter (λ m. m == n) q ns)

none-filter : (t : ℕ) (ns : List ℕ) → any (λ m. m == t) ns ≡ false → filter (is_other t) ns ≡ ns
none-filter t [] h = refl
none-filter t (n ∷ ns) h = ground (arith, h, none-filter t ns)

-- Of different numbers, at most one is `t`.
pub length-others :
    (t : ℕ) (ns : List ℕ)
    → distinct_numbers ns ≡ true
    → length ns ≤ length (filter (is_other t) ns) + (if any (λ m. m == t) ns then 1 else 0)
length-others t [] h = omega arith
length-others t (n ∷ ns) h = elim (Bool-cases (n == t)) [
  | inl same ↦
      let e : n ≡ t = (==_iff n t).0 same in
      let rest : any (λ m. m == t) ns ≡ false =
        subst (λ z. any (λ m. m == z) ns ≡ false) e (ground (arith, h)) in
      ground (arith, same, none-filter t ns rest)
  | inr other ↦ ground (arith, h, other, length-others t ns)
]

lookup-others :
    (v : Option (Option String)) (t : ℕ) (m : Option String) (trials : TrialModels) (ns : List ℕ)
    → All (λ n. lookup n ((t, m) ∷ trials) ≡ v) ns
    → All (λ n. lookup n trials ≡ v) (filter (is_other t) ns)
unfolding lookup
lookup-others v t m trials [] h = tt
lookup-others v t m trials (n ∷ ns) (h, k) = elim (Bool-cases (n == t)) [
  | inl same ↦ rw same (lookup-others v t m trials ns k)
  | inr other ↦ rw other ((ground (arith, h, other)), lookup-others v t m trials ns k)
]

lookup-found :
    (v : Option (Option String)) (t : ℕ) (m : Option String) (trials : TrialModels) (ns : List ℕ)
    → All (λ n. lookup n ((t, m) ∷ trials) ≡ v) ns
    → any (λ n. n == t) ns ≡ true
    → some m ≡ v
unfolding lookup
lookup-found v t m trials [] h k = absurd (ground (arith, k))
lookup-found v t m trials (n ∷ ns) (h, r) k = elim (Bool-cases (n == t)) [
  | inl same ↦ ground (arith, h, same)
  | inr other ↦ lookup-found v t m trials ns r (ground (arith, k, other))
]

-- Different numbers that are mapped to a model are no more than are counted for it.
pub distinct-count :
    (model : String) (trials : TrialModels) (ns : List ℕ)
    → distinct_numbers ns ≡ true
    → All (λ n. lookup n trials ≡ some (some model)) ns
    → length ns ≤ model_run_count model trials
unfolding lookup
distinct-count model [] [] d h = omega arith
distinct-count model [] (n ∷ ns) d (h, k) = absurd (ground (arith, h))
distinct-count model ((t, m) ∷ trials) ns d h =
    let rest =
      distinct-count model trials (filter (is_other t) ns) (distinct-filter (is_other t) ns d)
        (lookup-others (some (some model)) t m trials ns h) in
    elim (Bool-cases (any (λ n. n == t) ns)) [
      | inl found ↦
          let e : some m ≡ some (some model) =
            lookup-found (some (some model)) t m trials ns h found in
          ground (arith, rest, length-others t ns d, found, e, same_model-same (some model))
      | inr away ↦ ground (arith, rest, length-others t ns d, away)
    ]
