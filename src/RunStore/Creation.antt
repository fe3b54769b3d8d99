-- ===== src/RunStore/Creation.antt =====
-- Loading and creating runs (backend/src/modules/strategy/strategy-run-store.service.ts).
use connections.Base.{
  ℕ, String, ◌≡◌, refl, inl, inr, Bool, true, Option, none, some, List, [], ◌∷◌, ◌++◌, arith, ◌==◌,
  ==_iff, Option-cases, find?, str_eq_refl,
}
use connections.Puzzle.{Puzzle}
use connections.Strategy.{StrategyRun, SupportedStrategy, FreeTierId}
use connections.RunStore.{
  LocaleCompare, Store, ok, load_or_create_run, is_run_of, same_strategy, same_model, new_run,
}

pub find-true : {A : Type 0} (p : A → Bool) (xs : List A) (x : A) → find? p xs ≡ some x → p x ≡ true
find-true p [] x h = ground (arith, h)
find-true p (y ∷ ys) x h = ground (arith, h, find-true p ys x)

pub find-append :
    {A : Type 0} (p : A → Bool) (xs : List A) (x : A)
    → find? p xs ≡ none
    → p x ≡ true
    → find? p (xs ++ x ∷ []) ≡ some x
find-append p [] x h k = ground (arith, k)
find-append p (y ∷ ys) x h k = ground (arith, h, k, find-append p ys x)

eq-same : (n : ℕ) → (n == n) ≡ true
eq-same n = (==_iff n n).1 refl

pub same_strategy-same : (s : SupportedStrategy) → same_strategy s s ≡ true
same_strategy-same s = ground arith

pub same_model-same : (m : Option String) → same_model m m ≡ true
same_model-same none = refl
same_model-same (some a) = str_eq_refl a

-- A run that was loaded or created is loaded as it is by every later call for the same
-- puzzle, strategy, trial and model, whatever context window and budget the call brings, and the
-- call changes no table.
pub load_or_create_run-again :
    (locale : LocaleCompare) (puzzle_id : ℕ) (strategy : SupportedStrategy) (trial : ℕ)
    (model : Option String) (window window' : Option ℕ) (tier tier' : Option FreeTierId)
    (store after : Store) (run : StrategyRun) (puzzle : Puzzle)
    → load_or_create_run locale puzzle_id strategy trial model window tier store
      ≡ (ok (run, puzzle), after)
    → load_or_create_run locale puzzle_id strategy trial model window' tier' after
      ≡ (ok (run, puzzle), after)
unfolding load_or_create_run
load_or_create_run-again locale puzzle_id strategy trial model window window' tier tier' store after
      run puzzle h =
    elim (Option-cases (find? (λ (p : Puzzle). p.id == puzzle_id) store.puzzles)) [
      | inl missing ↦ ground (arith, h, missing)
      | inr (q, found) ↦
          elim (Option-cases (find? (is_run_of puzzle_id strategy trial) store.runs)) [
            | inr (existing, there) ↦ ground (arith, h, found, there)
            | inl new ↦ ground (
              arith,
              h,
              found,
              new,
              same_model-same model,
              find-append (is_run_of puzzle_id strategy trial) store.runs
                  (new_run locale q strategy trial model window tier store.next_run_id) new
                  (ground (
                    arith,
                    find-true (λ (p : Puzzle). p.id == puzzle_id) store.puzzles q found,
                    same_strategy-same strategy,
                    eq-same trial,
                  )),
            )
          ]
    ]
