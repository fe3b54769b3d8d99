-- ===== src/Solver/Complete.antt =====
-- The loop of `runDeterministicStrategy` (backend/src/modules/strategy/deterministic-solver.service.ts)
-- solves every well-formed puzzle when it goes through the combinations.
use connections.Base.{
  ℕ, zero, suc, ◌+◌, ◌≤◌, ◌<◌, String, ◌≡◌, refl, sym, ap, ◌∙◌, subst, inl, inr, true, false, not,
  some, List, [], ◌∷◌, arith, ◌==◌, Bool-cases, length, filter, str_eq_refl, includes,
}
use connections.Puzzle.{Puzzle, GuessResult, TextOps, evaluate_guess_on_puzzle}
use connections.Combinatorics.{first_combination, combination_to_words}
use connections.Combinatorics.Order.{
  IsCombination, LexLt, LexLe, Increasing-length, next_combination-successor,
  first_combination-least,
}
use connections.Combinatorics.Rank.{rank, rank_mono}
use connections.Strategy.{StrategyRun, StrategyRunStatus, Guess, is_running}
use connections.Solver.{
  SolveState, is_success, take_group, next_group, judge, flush_if_due, solve_loop, start_solve,
  run_deterministic_strategy,
}
use connections.Solver.Indices.{combination_to_words-subset}
use connections.Solver.Progress.{WellFormed, Whole, Whole-success, winner}
use connections.Solver.Shuffle.{Random}
use connections.Solver.Rounds.{
  IsSequential, guessed, counted, shrink, propose_sequential, judge-hit, judge-miss,
  flush_if_due-run, loop_next, loop_end, take_group-over, take_group-more,
}

some_word : (pool : List String) → 0 < length pool → (u : String) × (includes pool u ≡ true)
some_word [] h = absurd (omega arith)
some_word (x ∷ pool) h = (x, ground (arith, str_eq_refl x))

module _ (ops : TextOps) (puzzle : Puzzle) (random : Random) where
  -- A running search through the combinations of a whole pool, below `size` words, that has at
  -- most `d` ranks to go to a combination that is judged a success.
  record Aim (size d : ℕ) (run : StrategyRun) : Type 0 where
    small : length run.available_words < size
    on : run.status ≡ StrategyRunStatus.running
    sequential : IsSequential run.strategy_name
    whole : Whole puzzle run.available_words
    combination : IsCombination (length run.available_words) 4 run.current_combination
    target : List ℕ
    target_ok : IsCombination (length run.available_words) 4 target
    hit :
        evaluate_guess_on_puzzle ops puzzle (combination_to_words target run.available_words)
        ≡ GuessResult.success
    ahead : LexLe run.current_combination target
    near :
        rank (length run.available_words) target
        ≤ rank (length run.available_words) run.current_combination + d

  abbrev Solves : (ℕ → ℕ) → SolveState → Type 0
  Solves clock s =
      (fuel : ℕ) × (t : SolveState) × (solve_loop ops puzzle random fuel clock s ≡ some t)
      × (t.run.status ≡ StrategyRunStatus.completed)
      × (t.run.available_words ≡ [])

  -- A whole pool that is not empty, at its first combination, is aimed at some success.
  Aim-first :
      (run : StrategyRun) (size : ℕ)
      → WellFormed ops puzzle
      → length run.available_words < size
      → run.status ≡ StrategyRunStatus.running
      → IsSequential run.strategy_name
      → Whole puzzle run.available_words
      → run.current_combination ≡ first_combination 4
      → 0 < length run.available_words
      → (d : ℕ) × Aim size d run
  Aim-first run size wf small on q whole first some_left =
      let (u, k) = some_word run.available_words some_left in
      let (zs, c, hit) = winner ops puzzle wf run.available_words u whole k in
      let room = Increasing-length 0 (length run.available_words) zs c.0 in
      let (f, least) = first_combination-least (length run.available_words) 4 (omega arith) in
      (
        rank (length run.available_words) zs,
        record {
          small = small;
          on = on;
          sequential = q;
          whole = whole;
          combination = subst (IsCombination (length run.available_words) 4) (sym first) f;
          target = zs;
          target_ok = c;
          hit = hit;
          ahead = subst (λ xs. LexLe xs zs) (sym first) (least zs c);
          near = omega arith;
        },
      )

  Aim-apart :
      (run : StrategyRun) (size d : ℕ)
      → (a : Aim size d run)
      → is_success (evaluate_guess_on_puzzle ops puzzle (guessed run)) ≡ false
      → LexLt run.current_combination a.target
  Aim-apart run size d a miss = elim a.ahead [
    | inr lt ↦ lt
    | inl same ↦
        let hit =
          subst
            (λ xs.
              evaluate_guess_on_puzzle ops puzzle (combination_to_words xs run.available_words)
              ≡ GuessResult.success)
            (sym same) a.hit in
        absurd (let no : ⊥ = ground arith in no)
  ]

  Aim-stuck :
      (run : StrategyRun) (size : ℕ)
      → Aim size 0 run
      → is_success (evaluate_guess_on_puzzle ops puzzle (guessed run)) ≡ false
      → ⊥
  Aim-stuck run size a miss =
      let n = length run.available_words in
      omega (
        arith,
        a.near,
        rank_mono n 4 run.current_combination a.target a.combination a.target_ok
            (Aim-apart run size 0 a miss),
      )

  -- A miss moves the search on, towards the same target.
  Aim-next :
      (run : StrategyRun) (size d now : ℕ)
      → Aim size (suc d) run
      → is_success (evaluate_guess_on_puzzle ops puzzle (guessed run)) ≡ false
      → Aim size d (next_group ops puzzle random now run)
  unfolding next_group
  Aim-next run size d now a miss =
      let n = length run.available_words in
      let (ys, e, c, more, le) =
        next_combination-successor n 4 run.current_combination a.target a.combination a.target_ok
          (Aim-apart run size (suc d) a miss) in
      let moved : next_group ops puzzle random now run ≡ record run { current_combination = ys } =
        ground (arith, e) in
      subst (Aim size d) (sym moved) (record {
        small = a.small;
        on = a.on;
        sequential = a.sequential;
        whole = a.whole;
        combination = c;
        target = a.target;
        target_ok = a.target_ok;
        hit = a.hit;
        ahead = le;
        near = omega (arith, a.near, rank_mono n 4 run.current_combination ys a.combination c more);
      })

  complete_miss :
      (clock : ℕ → ℕ) (size d : ℕ) (s : SolveState)
      → ((t : SolveState) → Aim size d t.run → Solves clock t)
      → Aim size (suc d) s.run
      → is_success (evaluate_guess_on_puzzle ops puzzle (guessed s.run)) ≡ false
      → Solves clock s
  complete_miss clock size d s ih a miss =
      let now = clock s.guess_count in
      let t = judge ops puzzle random now (guessed s.run) (counted s) in
      let moved =
        judge-miss ops puzzle random now (guessed s.run) (counted s) miss a.sequential.0 in
      let next = Aim-next s.run size d now a miss in
      let flushed = flush_if_due ops puzzle random t in
      let (fuel, u, e, done, empty) =
        ih flushed (subst (Aim size d) (sym (flush_if_due-run ops puzzle random t ∙ moved)) next) in
      let on : is_running t.run.status ≡ true =
        ap (λ (r : StrategyRun). is_running r.status) moved ∙ ap is_running next.on in
      (
        suc fuel,
        u,
        loop_next ops puzzle random fuel clock s t
              (propose_sequential ops puzzle random now s a.sequential) on
            ∙ e,
        done,
        empty,
      )

  complete_hit :
      (wf : WellFormed ops puzzle) (clock : ℕ → ℕ) (size d : ℕ) (s : SolveState)
      → ((e : ℕ) (t : SolveState) → Aim size e t.run → Solves clock t)
      → Aim (suc size) d s.run
      → evaluate_guess_on_puzzle ops puzzle (guessed s.run) ≡ GuessResult.success
      → Solves clock s
  complete_hit wf clock size d s ih a hit =
      let now = clock s.guess_count in
      let t = judge ops puzzle random now (guessed s.run) (counted s) in
      let moved = judge-hit ops puzzle random now (guessed s.run) (counted s) hit in
      let (inside, four) =
        combination_to_words-subset s.run.available_words 4 s.run.current_combination
          a.combination in
      let (whole, shorter) =
        Whole-success ops puzzle wf s.run.available_words (guessed s.run) a.whole inside four hit in
      let left = filter (λ w. not (includes (guessed s.run) w)) s.run.available_words in
      let flushed = flush_if_due ops puzzle random t in
      elim (Bool-cases (length left == 0)) [
        | inl over ↦
            let over_run : (t.run.status ≡ StrategyRunStatus.completed)
                × (t.run.available_words ≡ []) =
              (
                ap (λ (r : StrategyRun). r.status) moved
                    ∙ (take_group-over ops puzzle random (guessed s.run) now s.run over).0,
                ap (λ (r : StrategyRun). r.available_words) moved
                    ∙ (take_group-over ops puzzle random (guessed s.run) now s.run over).1,
              ) in
            (
              1,
              flushed,
              loop_end ops puzzle random 0 clock s t
                  (propose_sequential ops puzzle random now s a.sequential)
                  (ap is_running over_run.0),
              ap (λ (r : StrategyRun). r.status) (flush_if_due-run ops puzzle random t)
                  ∙ over_run.0,
              ap (λ (r : StrategyRun). r.available_words) (flush_if_due-run ops puzzle random t)
                  ∙ over_run.1,
            )
        | inr more ↦
            let next_run = shrink (guessed s.run) s.run in
            let same : take_group ops puzzle random (guessed s.run) now s.run ≡ next_run =
              take_group-more ops puzzle random (guessed s.run) now s.run more in
            let (e, aim) =
              Aim-first next_run size wf (omega (arith, shorter, a.small)) a.on a.sequential whole
                refl (ground arith) in
            let (fuel, u, g, done, empty) = ih e flushed (
              subst (Aim size e) (sym (flush_if_due-run ops puzzle random t ∙ (moved ∙ same)))
                aim) in
            let on : is_running t.run.status ≡ true =
              ap (λ (r : StrategyRun). is_running r.status) (moved ∙ same) ∙ ap is_running a.on in
            (
              suc fuel,
              u,
              loop_next ops puzzle random fuel clock s t
                    (propose_sequential ops puzzle random now s a.sequential) on
                  ∙ g,
              done,
              empty,
            )
      ]

  complete_from :
      (wf : WellFormed ops puzzle) (clock : ℕ → ℕ) (size d : ℕ) (s : SolveState)
      → Aim size d s.run
      → Solves clock s
  complete_from wf clock zero d s a = absurd (omega (arith, a.small))
  complete_from wf clock (suc size) zero s a =
      elim (Bool-cases (is_success (evaluate_guess_on_puzzle ops puzzle (guessed s.run)))) [
        | inl hit ↦ complete_hit wf clock size 0 s (complete_from wf clock size) a (ground arith)
        | inr miss ↦ absurd (Aim-stuck s.run (suc size) a miss)
      ]
  complete_from wf clock (suc size) (suc d) s a =
      elim (Bool-cases (is_success (evaluate_guess_on_puzzle ops puzzle (guessed s.run)))) [
        | inl hit ↦
            complete_hit wf clock size (suc d) s (complete_from wf clock size) a (ground arith)
        | inr miss ↦ complete_miss clock (suc size) d s (complete_from wf clock (suc size) d) a miss
      ]

  -- A new run through the combinations of a well-formed puzzle, whose words are the puzzle's in any
  -- order, comes to its end with every group solved: it never fails and never runs on.
  pub run_deterministic_strategy-completes :
      (wf : WellFormed ops puzzle) (clock : ℕ → ℕ) (run : StrategyRun) (prior : List Guess)
      → run.status ≡ StrategyRunStatus.running
      → IsSequential run.strategy_name
      → Whole puzzle run.available_words
      → run.current_combination ≡ first_combination 4
      → 0 < length run.available_words
      → (fuel : ℕ) × (t : SolveState) × (run_deterministic_strategy ops puzzle random fuel clock run
            prior
          ≡ some t)
        × (t.run.status ≡ StrategyRunStatus.completed)
        × (t.run.available_words ≡ [])
  unfolding run_deterministic_strategy
  run_deterministic_strategy-completes wf clock run prior on q whole first some_left =
      let (d, aim) =
        Aim-first run (suc (length run.available_words)) wf (omega arith) on q whole first
          some_left in
      let started : (start_solve ops puzzle random run prior).run ≡ run =
        unfold start_solve in refl in
      let (fuel, t, e, done, empty) =
        complete_from wf clock (suc (length run.available_words)) d
          (start_solve ops puzzle random run prior)
          (subst (Aim (suc (length run.available_words)) d) (sym started) aim) in
      (fuel, t, ground (arith, e), done, empty)
