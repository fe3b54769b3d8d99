-- ===== src/Llm/Board.antt =====
-- What a reply may play of the board (`evaluateProposals` of
-- backend/src/modules/strategy/llm-strategy-runner.service.ts).
use connections.Base.{
  filter-filter, filter-ext, filter-all, ℕ, ◌+◌, ◌≤◌, String, ◌≡◌, refl, sym, ap, ◌∙◌, subst, inl,
  inr, Bool, true, false, not, ◌&&◌, ◌||◌, some, List, [], ◌∷◌, ◌++◌, map, arith, append_assoc,
  append-nil, if◌then◌else◌, ==_iff, Bool-cases, Option-cases, length, filter, any, count,
  length-append, count-append, All, All-append, includes, subset, includes-filter,
}
use connections.Puzzle.{words_of, Puzzle, TextOps}
use connections.Strategy.{StrategyRun, Guess, GuessSource, group_size}
use connections.Llm.{LlmRunLoopState, is_success}
use connections.Llm.Proposals.{
  Proposal, Evaluation, submit, check, record_guess, after_success, after_failure,
}
use connections.Llm.Rounds.{evaluated, evaluated-Ends, hit, missed, judged}
use connections.Llm.CaseMatch.{find_case_insensitive_group_match, is_case_match}

any-append_one :
    {A : Type 0} (p : A → Bool) (xs : List A) (x : A) → any p (xs ++ x ∷ []) ≡ (any p xs || p x)
any-append_one p [] x = ground arith
any-append_one p (y ∷ xs) x = ground (arith, any-append_one p xs x)

subset-filter :
    (xs ys : List String) (p : String → Bool) → subset xs (filter p ys) ≡ true → subset xs ys ≡ true
subset-filter [] ys p h = refl
subset-filter (x ∷ xs) ys p h = ground (arith, includes-filter p ys x, subset-filter xs ys p)

-- The words that the staged guesses have solved.
abbrev pub solved_by : List Guess → String → Bool
solved_by staged w = any (λ g. is_success g.result && includes g.words w) staged

abbrev pub misses : List Guess → ℕ
misses staged = count (λ g. not (is_success g.result)) staged

-- What a reply may stage after `pending`, on a run and a state: it submits only words that were
-- available, takes the solved ones off the board and counts its misses.
abbrev pub Staged :
    StrategyRun
    → LlmRunLoopState
    → List Guess
    → StrategyRun
    → LlmRunLoopState
    → List Guess
    → List Guess
    → Type 0
Staged run0 state0 pending0 run state pending staged =
    (pending ≡ pending0 ++ staged)
    × (All (λ g. (length g.words ≡ group_size) × (subset g.words run0.available_words ≡ true))
        staged)
    × (run.available_words ≡ filter (λ w. not (solved_by staged w)) run0.available_words)
    × (state.guess_count ≡ state0.guess_count + length staged)
    × (state.failed_guess_count ≡ state0.failed_guess_count + misses staged)

check-submit :
    (ops : TextOps) (puzzle : Puzzle) (max_duplicates max_failed_guesses now : ℕ)
    (available guess_words words : List String) (n : Bool)
    → check ops puzzle max_duplicates max_failed_guesses now available guess_words ≡ submit words n
    → subset words available ≡ true
unfolding check
check-submit ops puzzle md mf now available guess_words words n h =
    elim (Bool-cases (subset guess_words available)) [
      | inl s ↦ ground (arith, h, s)
      | inr s ↦
          elim (Option-cases (
            find_case_insensitive_group_match ops guess_words
              (map words_of puzzle.answer_groups))) [
                | inl o ↦ ground (arith, h, s, o)
                | inr (g, o) ↦ ground (arith, h, s, o)
              ]
    ]

board-append :
    (ws board : List String) (staged : List Guess) (row : Guess)
    → ws ≡ filter (λ w. not (solved_by staged w)) board
    → (if is_success row.result then filter (λ w. not (includes row.words w)) ws else ws)
      ≡ filter (λ w. not (solved_by (staged ++ row ∷ []) w)) board
board-append ws board staged row h = elim (Bool-cases (is_success row.result)) [
  | inl m ↦ ground (
    arith,
    h,
    m,
    filter-filter (λ w. not (includes row.words w)) (λ w. not (solved_by staged w))
        (λ w. not (solved_by (staged ++ row ∷ []) w))
        (λ w.
          ground
            (arith, m, any-append_one (λ g. is_success g.result && includes g.words w) staged row))
        board,
  )
  | inr m ↦ ground (
    arith,
    h,
    m,
    filter-ext (λ w. not (solved_by staged w)) (λ w. not (solved_by (staged ++ row ∷ []) w))
        (λ w.
          ground
            (arith, m, any-append_one (λ g. is_success g.result && includes g.words w) staged row))
        board,
  )
]

find_match-length :
    (ops : TextOps) (guess_words : List String) (groups : List (List String)) (g : List String)
    → find_case_insensitive_group_match ops guess_words groups ≡ some g
    → length g ≡ length guess_words
unfolding find_case_insensitive_group_match is_case_match
find_match-length ops guess_words [] g h = ground (arith, h)
find_match-length ops guess_words (group ∷ groups) g h = ground (
  arith,
  h,
  find_match-length ops guess_words groups g,
  ==_iff (length group) (length guess_words),
)

check-submit-length :
    (ops : TextOps) (puzzle : Puzzle) (max_duplicates max_failed_guesses now : ℕ)
    (available guess_words words : List String) (n : Bool)
    → check ops puzzle max_duplicates max_failed_guesses now available guess_words ≡ submit words n
    → length words ≡ length guess_words
unfolding check
check-submit-length ops puzzle md mf now available guess_words words n h =
    elim (Bool-cases (subset guess_words available)) [
      | inl s ↦ ground (arith, h, s)
      | inr s ↦
          elim (Option-cases (
            find_case_insensitive_group_match ops guess_words
              (map words_of puzzle.answer_groups))) [
                | inl o ↦ ground (arith, h, s, o)
                | inr (g, o) ↦ ground (
                  arith,
                  h,
                  s,
                  o,
                  find_match-length ops guess_words (map words_of puzzle.answer_groups) g o,
                )
              ]
    ]

module _ (ops : TextOps) (puzzle : Puzzle) (max_duplicates max_failed_guesses now : ℕ) where
  module _ (run0 : StrategyRun) (state0 : LlmRunLoopState) (pending0 : List Guess) where
    -- Before the first miss.
    abbrev Going : StrategyRun → LlmRunLoopState → List Guess → Type 0
    Going run state pending =
        (staged : List Guess) × Staged run0 state0 pending0 run state pending staged
        × (misses staged ≡ 0)

    abbrev Over : StrategyRun → LlmRunLoopState → List Guess → Type 0
    Over run state pending =
        (staged : List Guess) × Staged run0 state0 pending0 run state pending staged
        × (misses staged ≤ 1)

    -- One more row: the board afterwards is given, and so is the number of misses.
    Staged-append :
        (run next : StrategyRun) (state after : LlmRunLoopState) (pending staged : List Guess)
        (row : Guess)
        → Staged run0 state0 pending0 run state pending staged
        → length row.words ≡ group_size
        → subset row.words run.available_words ≡ true
        → next.available_words ≡ (
            if is_success row.result
            then filter (λ w. not (includes row.words w)) run.available_words
            else run.available_words)
        → after.guess_count ≡ state.guess_count + 1
        → after.failed_guess_count ≡ (
            if is_success row.result
            then state.failed_guess_count
            else state.failed_guess_count + 1)
        → Staged run0 state0 pending0 next after (pending ++ row ∷ []) (staged ++ row ∷ [])
    Staged-append run next state after pending staged row (rows, on_board, left, counted, failed)
          four sub board one_more fails =
        (
          ap (λ l. l ++ row ∷ []) rows ∙ append_assoc pending0 staged (row ∷ []),
          All-append
              (λ g. (length g.words ≡ group_size) × (subset g.words run0.available_words ≡ true))
              staged (row ∷ []) on_board
              (
                (
                  four,
                  subset-filter row.words run0.available_words _
                      (subst (λ ws. subset row.words ws ≡ true) left sub),
                ),
                tt,
              ),
          board ∙ board-append run.available_words run0.available_words staged row left,
          ground (arith, counted, one_more, length-append staged (row ∷ [])),
          ground (
            arith,
            failed,
            fails,
            count-append (λ g. not (is_success g.result)) staged (row ∷ []),
          ),
        )

    Going-hit :
        (p : Proposal) (e : Evaluation) (words : List String)
        → length words ≡ group_size
        → subset words e.run.available_words ≡ true
        → is_success (judged ops puzzle max_duplicates max_failed_guesses now e words) ≡ true
        → Going e.run e.state e.pending_guesses
        → Going
            (hit ops puzzle max_duplicates max_failed_guesses now words p e).run
            (hit ops puzzle max_duplicates max_failed_guesses now words p e).state
            (hit ops puzzle max_duplicates max_failed_guesses now words p e).pending_guesses
    unfolding after_success record_guess
    Going-hit p e words four sub m (staged, s, none_yet) =
        let row : Guess = record {
          puzzle_id = puzzle.id;
          strategy_run_id = e.run.id;
          words = words;
          result = judged ops puzzle max_duplicates max_failed_guesses now e words;
          sequence_number = e.state.guess_count + 1;
          source = GuessSource.strategy;
        } in
        (
          staged ++ row ∷ [],
          Staged-append e.run (hit ops puzzle max_duplicates max_failed_guesses now words p e).run
              e.state (hit ops puzzle max_duplicates max_failed_guesses now words p e).state
              e.pending_guesses staged row s four sub (ground (arith, m)) refl (ground (arith, m)),
          ground
              (arith, m, none_yet, count-append (λ g. not (is_success g.result)) staged (row ∷ [])),
        )

    Over-miss :
        (p : Proposal) (e : Evaluation) (words : List String)
        → length words ≡ group_size
        → subset words e.run.available_words ≡ true
        → is_success (judged ops puzzle max_duplicates max_failed_guesses now e words) ≡ false
        → Going e.run e.state e.pending_guesses
        → Over
            (missed ops puzzle max_duplicates max_failed_guesses now words p e).run
            (missed ops puzzle max_duplicates max_failed_guesses now words p e).state
            (missed ops puzzle max_duplicates max_failed_guesses now words p e).pending_guesses
    unfolding after_failure record_guess
    Over-miss p e words four sub m (staged, s, none_yet) =
        let row : Guess = record {
          puzzle_id = puzzle.id;
          strategy_run_id = e.run.id;
          words = words;
          result = judged ops puzzle max_duplicates max_failed_guesses now e words;
          sequence_number = e.state.guess_count + 1;
          source = GuessSource.strategy;
        } in
        (
          staged ++ row ∷ [],
          Staged-append e.run
              (missed ops puzzle max_duplicates max_failed_guesses now words p e).run e.state
              (missed ops puzzle max_duplicates max_failed_guesses now words p e).state
              e.pending_guesses staged row s four sub (ground (arith, m)) refl (ground (arith, m)),
          ground
              (arith, m, none_yet, count-append (λ g. not (is_success g.result)) staged (row ∷ [])),
        )

  nothing_staged :
      (e : Evaluation) → Going e.run e.state e.pending_guesses e.run e.state e.pending_guesses
  nothing_staged e = (
    [],
    (
      sym (append-nil e.pending_guesses),
      tt,
      filter-all e.run.available_words,
      omega arith,
      omega arith,
    ),
    refl,
  )

  -- Whatever the reply proposes, the guesses it adds to those staged use only words that
  -- were available when it arrived, at most one of them is a miss, the words available
  -- afterwards are exactly those that no staged success has solved, and the guess and failure
  -- counts grow by the guesses and the misses staged.
  pub evaluated-Staged :
      (ps : List Proposal) (e : Evaluation)
      → All (λ p. length p.words ≡ group_size) ps
      → (staged : List Guess) × Staged e.run e.state e.pending_guesses
          (evaluated ops puzzle max_duplicates max_failed_guesses now ps e).run
          (evaluated ops puzzle max_duplicates max_failed_guesses now ps e).state
          (evaluated ops puzzle max_duplicates max_failed_guesses now ps e).pending_guesses
          staged
        × (misses staged ≤ 1)
  evaluated-Staged ps e four =
      evaluated-Ends ops puzzle max_duplicates max_failed_guesses now
        (λ p. length p.words ≡ group_size) (Going e.run e.state e.pending_guesses)
        (Over e.run e.state e.pending_guesses)
        (λ run s pending (staged, h, z). (staged, h, omega arith))
        (λ q d words n c r m k.
          Going-hit e.run e.state e.pending_guesses q d words
            (check-submit-length ops puzzle max_duplicates max_failed_guesses now
                d.run.available_words q.words words n c
              ∙ r)
            (check-submit ops puzzle max_duplicates max_failed_guesses now d.run.available_words
              q.words words n c)
            m k)
        (λ q d words n c r m k.
          Over-miss e.run e.state e.pending_guesses q d words
            (check-submit-length ops puzzle max_duplicates max_failed_guesses now
                d.run.available_words q.words words n c
              ∙ r)
            (check-submit ops puzzle max_duplicates max_failed_guesses now d.run.available_words
              q.words words n c)
            m k)
        ps e four (nothing_staged e)
