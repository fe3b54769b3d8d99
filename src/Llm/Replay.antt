-- ===== src/Llm/Replay.antt =====
-- A run that is resumed from its saved guesses goes on as if it had not been interrupted
-- (backend/src/modules/strategy/llm-strategy-runner.service.ts).
use connections.Base.{
  All-Unit, ℕ, ◌+◌, String, ◌≡◌, refl, sym, ap, ◌∙◌, Bool, true, false, not, Option, none, some,
  List, [], ◌∷◌, ◌++◌, map, arith, append_assoc, append-nil, if◌then◌else◌, length, filter,
  length-append,
}
use connections.Puzzle.{Puzzle, TextOps}
use connections.Strategy.{Guess}
use connections.Llm.{
  LlmRunLoopState, PriorGuess, LastFailedGuess, is_success, is_duplicate, failed_guess, replay,
  replay_one, counters, initial_state,
}
use connections.Llm.Proposals.{Proposal, Evaluation, record_guess, after_success, after_failure}
use connections.Llm.Rounds.{evaluated, evaluated-Ends, hit, missed, judged}

-- The state without the counts of malformed replies and of failed calls, which are on no row: a resumed
-- run starts them anew.
abbrev pub progress : LlmRunLoopState → LlmRunLoopState
progress s = record s {
  malformed_count = 0;
  consecutive_model_errors = 0;
  rate_limit_wait_ms = none;
  rate_limit_streak = 0;
  rate_limit_streak_started_at = none;
}

abbrev pub prior_of : Guess → PriorGuess
prior_of row = record { words = row.words; result = row.result }

locked_of : List PriorGuess → List (List String)
locked_of [] = []
locked_of (g ∷ gs) = if is_success g.result then g.words ∷ locked_of gs else locked_of gs

last_from : Option LastFailedGuess → List PriorGuess → Option LastFailedGuess
last_from l [] = l
last_from l (g ∷ gs) =
    last_from (if is_success g.result then none else some (failed_guess g.words g.result)) gs

replay_lem :
    (gs : List PriorGuess) (s : LlmRunLoopState)
    → replay gs s ≡ record s {
      locked_in_groups = s.locked_in_groups ++ locked_of gs;
      last_failed_guess = last_from s.last_failed_guess gs;
    }
unfolding replay replay_one locked_of last_from
replay_lem [] s = rw (append-nil s.locked_in_groups) refl
replay_lem (g ∷ gs) s = ground (
  arith,
  replay_lem gs (replay_one g s),
  append_assoc s.locked_in_groups (g.words ∷ []) (locked_of gs),
)

locked_of-append :
    (gs : List PriorGuess) (g : PriorGuess)
    → locked_of (gs ++ g ∷ [])
      ≡ (if is_success g.result then locked_of gs ++ g.words ∷ [] else locked_of gs)
unfolding locked_of
locked_of-append [] g = ground arith
locked_of-append (x ∷ gs) g = ground (arith, locked_of-append gs g)

last_from-append :
    (l : Option LastFailedGuess) (gs : List PriorGuess) (g : PriorGuess)
    → last_from l (gs ++ g ∷ [])
      ≡ (if is_success g.result then none else some (failed_guess g.words g.result))
unfolding last_from
last_from-append l [] g = refl
last_from-append l (x ∷ gs) g = last_from-append _ gs g

filter-append_one :
    {A : Type 0} (p : A → Bool) (xs : List A) (x : A)
    → length (filter p (xs ++ x ∷ []))
      ≡ (if p x then length (filter p xs) + 1 else length (filter p xs))
filter-append_one p [] x = ground arith
filter-append_one p (y ∷ xs) x = ground (arith, filter-append_one p xs x)

rebuilt : List PriorGuess → LlmRunLoopState
rebuilt gs = record (counters gs) {
  locked_in_groups = locked_of gs;
  last_failed_guess = last_from none gs;
}

initial_state_lem : (gs : List PriorGuess) → initial_state gs ≡ rebuilt gs
unfolding initial_state rebuilt
initial_state_lem gs = replay_lem gs (counters gs)

-- One more guess on record.
rebuilt-append :
    (gs : List PriorGuess) (g : PriorGuess)
    → rebuilt (gs ++ g ∷ []) ≡ record (rebuilt gs) {
      guess_count = (rebuilt gs).guess_count + 1;
      duplicate_count =
          if is_duplicate g.result
          then (rebuilt gs).duplicate_count + 1
          else (rebuilt gs).duplicate_count;
      failed_guess_count =
          if not (is_success g.result)
          then (rebuilt gs).failed_guess_count + 1
          else (rebuilt gs).failed_guess_count;
      locked_in_groups =
          if is_success g.result
          then (rebuilt gs).locked_in_groups ++ g.words ∷ []
          else (rebuilt gs).locked_in_groups;
      last_failed_guess =
          if is_success g.result then none else some (failed_guess g.words g.result);
      prior_guesses = gs ++ g ∷ [];
    }
unfolding rebuilt
rebuilt-append gs g = ground (
  arith,
  length-append gs (g ∷ []),
  filter-append_one (λ x. is_duplicate x.result) gs g,
  filter-append_one (λ x. not (is_success x.result)) gs g,
  locked_of-append gs g,
  last_from-append none gs g,
)

map-append_one :
    {A B : Type 0} (f : A → B) (xs ys : List A) (y : A)
    → map f (xs ++ (ys ++ y ∷ [])) ≡ map f (xs ++ ys) ++ f y ∷ []
map-append_one f [] [] y = refl
map-append_one f [] (z ∷ ys) y = ground (arith, map-append_one f [] ys y)
map-append_one f (x ∷ xs) ys y = ground (arith, map-append_one f xs ys y)

module _ (ops : TextOps) (puzzle : Puzzle) (max_duplicates max_failed_guesses now : ℕ) where
  abbrev Agrees : LlmRunLoopState → Type 0
  Agrees s = progress s ≡ rebuilt s.prior_guesses

  Agrees-hit :
      (p : Proposal) (e : Evaluation) (words : List String)
      → is_success (judged ops puzzle max_duplicates max_failed_guesses now e words) ≡ true
      → Agrees e.state
      → Agrees (hit ops puzzle max_duplicates max_failed_guesses now words p e).state
  unfolding after_success record_guess
  Agrees-hit p e words m h = ground (
    arith,
    h,
    m,
    rebuilt-append e.state.prior_guesses (record {
      words = words;
      result = judged ops puzzle max_duplicates max_failed_guesses now e words;
    }),
  )

  Agrees-miss :
      (p : Proposal) (e : Evaluation) (words : List String)
      → is_success (judged ops puzzle max_duplicates max_failed_guesses now e words) ≡ false
      → Agrees e.state
      → Agrees (missed ops puzzle max_duplicates max_failed_guesses now words p e).state
  unfolding after_failure record_guess
  Agrees-miss p e words m h = ground (
    arith,
    h,
    m,
    rebuilt-append e.state.prior_guesses (record {
      words = words;
      result = judged ops puzzle max_duplicates max_failed_guesses now e words;
    }),
  )

  Rows-hit :
      (saved : List Guess) (p : Proposal) (e : Evaluation) (words : List String)
      → map prior_of (saved ++ e.pending_guesses) ≡ e.state.prior_guesses
      → map prior_of (
          saved ++ (hit ops puzzle max_duplicates max_failed_guesses now words p e).pending_guesses)
        ≡ (hit ops puzzle max_duplicates max_failed_guesses now words p e).state.prior_guesses
  unfolding after_success record_guess
  Rows-hit saved p e words h =
      map-append_one prior_of saved e.pending_guesses _
      ∙ ap
          (λ gs.
            gs
            ++ record {
              words = words;
              result = judged ops puzzle max_duplicates max_failed_guesses now e words;
            }
              ∷ [])
          h

  Rows-miss :
      (saved : List Guess) (p : Proposal) (e : Evaluation) (words : List String)
      → map prior_of (saved ++ e.pending_guesses) ≡ e.state.prior_guesses
      → map prior_of (
          saved
          ++ (missed ops puzzle max_duplicates max_failed_guesses now words p e).pending_guesses)
        ≡ (missed ops puzzle max_duplicates max_failed_guesses now words p e).state.prior_guesses
  unfolding after_failure record_guess
  Rows-miss saved p e words h =
      map-append_one prior_of saved e.pending_guesses _
      ∙ ap
          (λ gs.
            gs
            ++ record {
              words = words;
              result = judged ops puzzle max_duplicates max_failed_guesses now e words;
            }
              ∷ [])
          h

  -- Apart from the count of malformed or unused replies and the counts and waits of failed calls, let
  -- the state in which a run reads a reply be what is rebuilt from the guesses on record, and let
  -- these be the rows saved with those staged. Then after the reply's groups are evaluated the same
  -- holds: apart from these counts, which start again at zero, a run that is resumed from all rows
  -- saved and staged has the counts of guesses, of duplicates and of failed guesses, the groups
  -- locked in, the guesses on record and the last failed guess that the interrupted run had.
  pub evaluated-resumes :
      (saved : List Guess) (ps : List Proposal) (e : Evaluation)
      → progress e.state ≡ initial_state e.state.prior_guesses
      → map prior_of (saved ++ e.pending_guesses) ≡ e.state.prior_guesses
      → progress (evaluated ops puzzle max_duplicates max_failed_guesses now ps e).state
        ≡ initial_state (
            map prior_of (
              saved
              ++ (evaluated ops puzzle max_duplicates max_failed_guesses now ps e).pending_guesses))
  evaluated-resumes saved ps e h rows =
      let kept =
        evaluated-Ends ops puzzle max_duplicates max_failed_guesses now (λ p. Unit)
          (λ run s pending. Agrees s × (map prior_of (saved ++ pending) ≡ s.prior_guesses))
          (λ run s pending. Agrees s × (map prior_of (saved ++ pending) ≡ s.prior_guesses))
          (λ run s pending k. k)
          (λ q d words n c r m k. (Agrees-hit q d words m k.0, Rows-hit saved q d words k.1))
          (λ q d words n c r m k. (Agrees-miss q d words m k.0, Rows-miss saved q d words k.1)) ps e
          (All-Unit ps) (h ∙ initial_state_lem e.state.prior_guesses, rows) in
      kept.0 ∙ sym (initial_state_lem _) ∙ ap initial_state (sym (kept.1))
