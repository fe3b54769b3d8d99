-- ===== src/Llm/Chances.antt =====
-- What a reply does to the counters and the board, as far as the end of a run depends on it
-- (backend/src/modules/strategy/llm-strategy-runner.service.ts).
use connections.Base.{
  All-Unit, ℕ, ◌+◌, ◌≤◌, ◌<◌, String, ◌≡◌, refl, subst, ◌⊎◌, inl, inr, Bool, true, false, not,
  Option, none, some, List, [], ◌∷◌, arith, ◌==◌, if◌then◌else◌, leb→le, le→leb, ==_iff, Bool-cases,
  length, filter, count-le-length, length-filter, All, str_eq→eq, str_eq_refl, includes, subset,
}
use connections.Puzzle.{Puzzle, TextOps}
use connections.Strategy.{StrategyRun, Guess, group_size, is_running}
use connections.Llm.{LlmRunLoopState, is_duplicate}
use connections.Llm.Proposals.{
  Proposal, Evaluation, record_guess, after_success, after_failure, end_if_failed,
}
use connections.Llm.Proposals.{build_proposal_entries}
use connections.Llm.Rounds.{evaluated, evaluated-Ends, hit, missed, judged}
use connections.Llm.Board.{misses, solved_by}

filter-drops :
    (p : String → Bool) (xs : List String) (w : String)
    → includes xs w ≡ true
    → p w ≡ false
    → length (filter p xs) < length xs
filter-drops p [] w i h = ground (arith, i)
filter-drops p (x ∷ xs) w i h =
    ground
      (arith, i, h, str_eq→eq x w, filter-drops p xs w, length-filter p xs, count-le-length p xs)

-- A first success on the board takes at least one word off it.
pub hits-shrink :
    (board : List String) (g : Guess) (rest : List Guess)
    → length g.words ≡ group_size
    → subset g.words board ≡ true
    → misses (g ∷ rest) ≡ 0
    → length (filter (λ w. not (solved_by (g ∷ rest) w)) board) < length board
hits-shrink board g rest four sub none_missed = go g.words refl four
  where
    go :
        (ws : List String)
        → g.words ≡ ws
        → length ws ≡ group_size
        → length (filter (λ w. not (solved_by (g ∷ rest) w)) board) < length board
    go [] e l = ground (arith, l)
    go (w ∷ ws) e l =
        filter-drops _ board w (ground (arith, subst (λ v. subset v board ≡ true) e sub))
          (ground (arith, none_missed, e, str_eq_refl w))

pub build_proposal_entries-four :
    (unavailable : ℕ → String) (category_map : ℕ → Option String) (i : ℕ)
    (groups : List (Option (List String)))
    → All
        (λ p. length p.words ≡ group_size)
        (build_proposal_entries unavailable category_map i groups)
unfolding build_proposal_entries
build_proposal_entries-four u c i [] = tt
build_proposal_entries-four u c i (none ∷ groups) = build_proposal_entries-four u c (i + 1) groups
build_proposal_entries-four u c i (some words ∷ groups) =
    elim (Bool-cases (length words == group_size)) [
      | inl h ↦ rw h ((==_iff (length words) 4).0 h, build_proposal_entries-four u c (i + 1) groups)
      | inr h ↦ rw h (build_proposal_entries-four u c (i + 1) groups)
    ]

module _ (ops : TextOps) (puzzle : Puzzle) (max_duplicates max_failed_guesses now : ℕ)
    (run0 : StrategyRun) (state0 : LlmRunLoopState) where
  abbrev pub Kept : LlmRunLoopState → Type 0
  Kept s =
      (s.malformed_count ≡ state0.malformed_count)
      × (s.consecutive_model_errors ≡ state0.consecutive_model_errors)
      × (state0.duplicate_count ≤ s.duplicate_count)

  abbrev pub Before : StrategyRun → LlmRunLoopState → List Guess → Type 0
  Before run s pending = Kept s × (s.failed_guess_count ≡ state0.failed_guess_count)

  abbrev pub After : StrategyRun → LlmRunLoopState → List Guess → Type 0
  After run s pending =
      Kept s
      × (is_running run.status ≡ true
          → (s.failed_guess_count ≡ state0.failed_guess_count)
            ⊎ (s.failed_guess_count < max_failed_guesses))

  Before-hit :
      (p : Proposal) (e : Evaluation) (words : List String)
      → Before e.run e.state e.pending_guesses
      → Before
          (hit ops puzzle max_duplicates max_failed_guesses now words p e).run
          (hit ops puzzle max_duplicates max_failed_guesses now words p e).state
          (hit ops puzzle max_duplicates max_failed_guesses now words p e).pending_guesses
  unfolding after_success record_guess
  Before-hit p e words h = h

  end_if_failed-running :
      (duplicates misses_now : ℕ) (is_dup : Bool) (run : StrategyRun)
      → is_running
          (end_if_failed ops puzzle max_duplicates max_failed_guesses now duplicates misses_now
            is_dup run).status
        ≡ true
      → misses_now < max_failed_guesses
  end_if_failed-running duplicates misses_now is_dup run h =
      ground (arith, h, leb→le max_failed_guesses misses_now, le→leb max_failed_guesses misses_now)

  After-miss :
      (p : Proposal) (e : Evaluation) (words : List String)
      → Before e.run e.state e.pending_guesses
      → After
          (missed ops puzzle max_duplicates max_failed_guesses now words p e).run
          (missed ops puzzle max_duplicates max_failed_guesses now words p e).state
          (missed ops puzzle max_duplicates max_failed_guesses now words p e).pending_guesses
  unfolding after_failure record_guess
  After-miss p e words ((mal, err, dup), same) = (
    (mal, err, ground (arith, dup)),
    λ h. inr (
        end_if_failed-running
          (if is_duplicate (judged ops puzzle max_duplicates max_failed_guesses now e words)
            then e.state.duplicate_count + 1
            else e.state.duplicate_count)
          (e.state.failed_guess_count + 1)
          (is_duplicate (judged ops puzzle max_duplicates max_failed_guesses now e words)) e.run h),
  )

  pub evaluated-After :
      (ps : List Proposal) (e : Evaluation)
      → Before e.run e.state e.pending_guesses
      → After
          (evaluated ops puzzle max_duplicates max_failed_guesses now ps e).run
          (evaluated ops puzzle max_duplicates max_failed_guesses now ps e).state
          (evaluated ops puzzle max_duplicates max_failed_guesses now ps e).pending_guesses
  evaluated-After ps e h =
      evaluated-Ends ops puzzle max_duplicates max_failed_guesses now (λ p. Unit) Before After
        (λ run s pending (k, same). (k, λ r. inl same))
        (λ q d words n c r m k. Before-hit q d words k)
        (λ q d words n c r m k. After-miss q d words k) ps e (All-Unit ps) h
