-- ===== src/Llm/Advances.antt =====
-- A reply ends the run or takes from what its limits leave it
-- (backend/src/modules/strategy/llm-strategy-runner.service.ts).
use connections.Base.{
  filter-all, ℕ, suc, ◌+◌, ◌-◌, ◌*◌, ◌≤◌, ◌<◌, String, ◌≡◌, refl, sym, ap, ◌∙◌, subst, ◌⊎◌, inl,
  inr, true, false, not, List, [], ◌∷◌, arith, leb, ◌==◌, le→leb, ==_iff, Bool-cases, length,
  count-le-length, length-filter,
}
use native.Mathlib.Nat.{mul-le-mul_right}
use connections.Strategy.{StrategyRun, Guess, is_running}
use connections.Llm.{LlmRunLoopState}
use connections.Llm.Proposals.{Evaluation}
use connections.Llm.Rounds.{missed}
use connections.Llm.Board.{Staged, misses, solved_by, evaluated-Staged}
use connections.Llm.Loop.{
  Reply, Setup, count_malformed, replied, entries, evaluate_reply, count_unused, read_reply,
}
use connections.Llm.Chances.{hits-shrink, build_proposal_entries-four, evaluated-After}

module _ (setup : Setup) where
  -- How much the limits still leave of the run: a reply that does not end it takes one off.
  abbrev pub chances : StrategyRun → LlmRunLoopState → ℕ
  chances run s =
      (setup.limits.max_malformed - s.malformed_count)
      + (setup.limits.max_failed_guesses - s.failed_guess_count)
      + (setup.limits.max_duplicates - s.duplicate_count)
      + length run.available_words

  abbrev pub potential : StrategyRun → LlmRunLoopState → ℕ
  potential run s =
      chances run s * suc setup.limits.max_model_errors
      + (setup.limits.max_model_errors - s.consecutive_model_errors)

  -- A round ends the run or takes from the potential.
  abbrev pub Advances : StrategyRun → LlmRunLoopState → StrategyRun → LlmRunLoopState → Type 0
  Advances run s next t = (is_running next.status ≡ false) ⊎ (potential next t < potential run s)

  fewer_chances :
      (c d errors : ℕ)
      → d < c
      → d * suc setup.limits.max_model_errors + (setup.limits.max_model_errors - 0)
        < c * suc setup.limits.max_model_errors + (setup.limits.max_model_errors - errors)
  fewer_chances c d errors h =
      let more : suc d * suc setup.limits.max_model_errors ≤ c * suc setup.limits.max_model_errors =
        mul-le-mul_right (suc setup.limits.max_model_errors) h in
      ground (arith, more)

  pub fewer_same :
      (c d errors : ℕ)
      → d < c
      → d * suc setup.limits.max_model_errors + (setup.limits.max_model_errors - errors)
        < c * suc setup.limits.max_model_errors + (setup.limits.max_model_errors - errors)
  fewer_same c d errors h =
      let more : suc d * suc setup.limits.max_model_errors ≤ c * suc setup.limits.max_model_errors =
        mul-le-mul_right (suc setup.limits.max_model_errors) h in
      ground (arith, more)

  count_malformed-Advances :
      (now : ℕ) (e : Evaluation) (run : StrategyRun) (s : LlmRunLoopState)
      → e.state.consecutive_model_errors ≡ 0
      → e.state.malformed_count ≡ s.malformed_count
      → e.state.failed_guess_count ≡ s.failed_guess_count
      → s.duplicate_count ≤ e.state.duplicate_count
      → e.run.available_words ≡ run.available_words
      → Advances run s (count_malformed setup now e).run (count_malformed setup now e).state
  count_malformed-Advances now e run s err mal fail dup words =
      elim (Bool-cases (leb setup.limits.max_malformed (e.state.malformed_count + 1))) [
        | inl h ↦ inl (ground (arith, h))
        | inr h ↦
            let below : e.state.malformed_count + 1 < setup.limits.max_malformed =
              ground (arith, h, le→leb setup.limits.max_malformed (e.state.malformed_count + 1)) in
            let fewer : chances (count_malformed setup now e).run
                  (count_malformed setup now e).state
                < chances run s =
              ground
                (arith, h, below, mal, fail, dup, ap (λ (ws : List String). length ws) words) in
            inr (
              ground (
                arith,
                err,
                fewer_chances (chances run s)
                    (chances (count_malformed setup now e).run (count_malformed setup now e).state)
                    s.consecutive_model_errors fewer,
              ))
      ]

  abbrev KeptIn : LlmRunLoopState → LlmRunLoopState → Type 0
  KeptIn s0 s =
      (s.malformed_count ≡ s0.malformed_count)
      × (s.consecutive_model_errors ≡ s0.consecutive_model_errors)
      × (s0.duplicate_count ≤ s.duplicate_count)

  Staged-fewer :
      (run0 run : StrategyRun) (s0 s : LlmRunLoopState) (pending0 pending staged : List Guess)
      → Staged run0 s0 pending0 run s pending staged
      → KeptIn s0 s
      → (s.failed_guess_count ≡ s0.failed_guess_count)
        ⊎ (s.failed_guess_count < setup.limits.max_failed_guesses)
      → (s.guess_count ≡ s0.guess_count → ⊥)
      → chances run s < chances run0 s0
  Staged-fewer run0 run s0 s pending0 pending [] (rows, on_board, left, counted, missed) kept limit
        some_new =
      elim (some_new (ground (arith, counted))) [ ]
  Staged-fewer run0 run s0 s pending0 pending (g ∷ rest)
        (rows, ((four, sub), on_board), left, counted, missed) kept limit some_new =
      elim (Bool-cases (misses (g ∷ rest) == 0)) [
        | inl none_missed ↦
            let no_miss : misses (g ∷ rest) ≡ 0 = (==_iff (misses (g ∷ rest)) 0).0 none_missed in
            let shrinks : length run.available_words < length run0.available_words =
              subst (λ ws. length ws < length run0.available_words) (sym left)
                (hits-shrink run0.available_words g rest four sub no_miss) in
            ground (arith, shrinks, missed, no_miss, kept)
        | inr some_missed ↦
            let a_miss : 0 < misses (g ∷ rest) =
              ground (arith, some_missed, (==_iff (misses (g ∷ rest)) 0).1) in
            let below : s.failed_guess_count < setup.limits.max_failed_guesses =
              ground (arith, limit, missed, a_miss) in
            let fits : length run.available_words ≤ length run0.available_words =
              subst (λ ws. length ws ≤ length run0.available_words) (sym left)
                (ground (
                  arith,
                  length-filter (λ w. not (solved_by (g ∷ rest) w)) run0.available_words,
                  count-le-length (λ w. not (solved_by (g ∷ rest) w)) run0.available_words,
                )) in
            ground (arith, fits, below, missed, a_miss, kept)
      ]

  Staged-same :
      (run0 run : StrategyRun) (s0 s : LlmRunLoopState) (pending0 pending staged : List Guess)
      → Staged run0 s0 pending0 run s pending staged
      → s.guess_count ≡ s0.guess_count
      → (s.failed_guess_count ≡ s0.failed_guess_count)
        × (run.available_words ≡ run0.available_words)
  Staged-same run0 run s0 s pending0 pending [] (rows, on_board, left, counted, missed) same =
      (ground (arith, missed), left ∙ sym (filter-all run0.available_words))
  Staged-same run0 run s0 s pending0 pending (g ∷ rest) (rows, on_board, left, counted, missed)
        same =
      let absurd : ⊥ = ground (arith, counted, same) in elim absurd [ ]

  count_unused-Advances :
      (now : ℕ) (e : Evaluation) (run : StrategyRun) (s : LlmRunLoopState) (reply : Reply)
      → KeptIn (replied setup reply run s).state e.state
      → (is_running e.run.status ≡ true
          → (e.state.failed_guess_count ≡ s.failed_guess_count)
            ⊎ (e.state.failed_guess_count < setup.limits.max_failed_guesses))
      → (staged : List Guess)
      → Staged
          (replied setup reply run s).run
          (replied setup reply run s).state
          []
          e.run
          e.state
          e.pending_guesses
          staged
      → Advances run s
          (count_unused setup now s.guess_count e).run
          (count_unused setup now s.guess_count e).state
  count_unused-Advances now e run s reply kept limit staged rows =
      elim (Bool-cases (is_running e.run.status)) [
        | inr h ↦ rw h (inl h)
        | inl h ↦ rw h (elim (Bool-cases (e.state.guess_count == s.guess_count)) [
          | inl same ↦
              let (fails, words) =
                Staged-same (replied setup reply run s).run e.run (replied setup reply run s).state
                  e.state [] e.pending_guesses staged rows
                  ((==_iff e.state.guess_count s.guess_count).0 same) in
              rw same (count_malformed-Advances now e run s kept.1 kept.0 fails kept.2 words)
          | inr new ↦
              let fewer =
                Staged-fewer (replied setup reply run s).run e.run (replied setup reply run s).state
                  e.state [] e.pending_guesses staged rows kept (limit h)
                  (λ same.
                    ground (arith, new, (==_iff e.state.guess_count s.guess_count).1 same)) in
              rw new (
                inr (
                  ground (
                    arith,
                    kept,
                    fewer_chances (chances run s) (chances e.run e.state) s.consecutive_model_errors
                        fewer,
                  )))
        ])
      ]

  pub read_reply-Advances :
      (now : ℕ) (reply : Reply) (run : StrategyRun) (s : LlmRunLoopState)
      → Advances run s
          (read_reply setup now reply run s).run
          (read_reply setup now reply run s).state
  unfolding read_reply
  read_reply-Advances now reply run s = elim (Bool-cases (length reply.groups == 0)) [
    | inl h ↦ rw h (
        count_malformed-Advances now (replied setup reply run s) run s refl refl refl (omega arith)
          refl)
    | inr h ↦ rw h (
        let e0 : Evaluation = replied setup reply run s in
        let e : Evaluation = evaluate_reply setup now reply e0 in
        let (kept, limit) =
          evaluated-After setup.ops setup.puzzle setup.limits.max_duplicates
            setup.limits.max_failed_guesses now e0.run e0.state (entries setup reply) e0
            ((refl, refl, omega arith), refl) in
        let (staged, rows, missed) =
          evaluated-Staged setup.ops setup.puzzle setup.limits.max_duplicates
            setup.limits.max_failed_guesses now (entries setup reply) e0
            (build_proposal_entries-four _ _ 0 reply.proposal_words) in
        count_unused-Advances now e run s reply kept limit staged rows)
  ]
