-- ===== src/Dispatch/Numbers.antt =====
-- Trial numbers that rows and queued jobs hold
-- (backend/src/modules/strategy/strategy-dispatch.service.ts).
use connections.Base.{
  ℕ, String, ◌≡◌, sym, ap, ◌∙◌, subst, ◌⊎◌, inl, inr, Bool, true, false, ◌&&◌, Option, List, arith,
  ◌==◌, In,
}
use connections.Strategy.{StrategyRun, SupportedStrategy}
use connections.RunStore.{same_strategy}
use connections.Dispatch.Queue.{RunStrategyJob}

-- A trial number that a row or a queued job holds for a model.
pub record Reserved : Type 0 where
  pub puzzle_id : ℕ
  pub strategy_name : SupportedStrategy
  pub trial_number : ℕ
  pub model : Option String

abbrev pub of_run : StrategyRun → Reserved
of_run run = record {
  puzzle_id = run.puzzle_id;
  strategy_name = run.strategy_name;
  trial_number = run.trial_number;
  model = run.model_name;
}

abbrev pub of_job : RunStrategyJob → Reserved
of_job job = record {
  puzzle_id = job.puzzle_id;
  strategy_name = job.strategy_name;
  trial_number = job.trial_number;
  model = job.model;
}

abbrev pub same_trial : Reserved → Reserved → Bool
same_trial a b =
    (a.puzzle_id == b.puzzle_id)
    && (same_strategy a.strategy_name b.strategy_name && a.trial_number == b.trial_number)

-- No trial number is held for two models.
abbrev pub Consistent : List Reserved → Type 0
Consistent es = (a b : Reserved) → In a es → In b es → same_trial a b ≡ true → a.model ≡ b.model

pub Consistent-shrinks :
    (es es' : List Reserved)
    → ((e : Reserved) → In e es' → In e es)
    → Consistent es
    → Consistent es'
Consistent-shrinks es es' h c a b i j = c a b (h a i) (h b j)

eq-sym : (m n : ℕ) → (m == n) ≡ (n == m)
eq-sym m n = ground arith

pub same_strategy→eq : (a b : SupportedStrategy) → same_strategy a b ≡ true → a ≡ b
same_strategy→eq a b h = ground (arith, h)

pub same_strategy-sym : (a b : SupportedStrategy) → same_strategy a b ≡ same_strategy b a
same_strategy-sym a b = ground arith

same_trial-sym : (a b : Reserved) → same_trial a b ≡ same_trial b a
same_trial-sym a b = ground (
  arith,
  eq-sym a.puzzle_id b.puzzle_id,
  eq-sym a.trial_number b.trial_number,
  same_strategy-sym a.strategy_name b.strategy_name,
)

pub Consistent-grows :
    (es es' : List Reserved) (new : Reserved)
    → ((e : Reserved) → In e es' → In e es ⊎ (e ≡ new))
    → ((e : Reserved) → In e es → same_trial e new ≡ false)
    → Consistent es
    → Consistent es'
Consistent-grows es es' new h fresh c a b i j s = elim (h a i) [
  | inl old_a ↦ elim (h b j) [
    | inl old_b ↦ c a b old_a old_b s
    | inr new_b ↦
        let clash : same_trial a new ≡ true = subst (λ z. same_trial a z ≡ true) new_b s in
        absurd (ground (arith, clash, fresh a old_a))
  ]
  | inr new_a ↦ elim (h b j) [
    | inl old_b ↦
        let clash : same_trial b new ≡ true =
          sym (same_trial-sym new b) ∙ subst (λ z. same_trial z b ≡ true) new_a s in
        absurd (ground (arith, clash, fresh b old_b))
    | inr new_b ↦ ap (λ (z : Reserved). z.model) (new_a ∙ sym new_b)
  ]
]
