-- ===== src/Game/Replies.antt =====
-- frontend/src/lib/gameReducer.ts: what a reply of AI Assist does to the game, and two orders of
-- events in which it meets a solved group that still waits to be confirmed.
use connections.Base.{
  ℕ, suc, ◌+◌, ◌<◌, String, ◌≡◌, refl, sym, ap, ◌∙◌, subst, ◌≢◌, ◌⊎◌, inl, inr, false, not, ◌&&◌,
  none, some, List, [], ◌∷◌, ◌++◌, map, arith, append_assoc, append-nil, Bool-cases, length, take,
  any, length-append, str_eq, includes, includes-filter,
}
use connections.Game.{
  Category, GuessResult, PriorGuess, AiAssistSuccessPayload, Status, GameState, ai_solve_success,
  confirm_solve,
}
use connections.Game.Guess.{correct, wrong, Outcome-cases, evaluate_guess}
use connections.Game.Batch.{submit_groups_over, submit_groups_correct, submit_groups_wrong}
use connections.Game.Reducer.{
  guess, is_playing, max_mistakes, without, Batch, start_batch, accept, reject, submit_groups,
  ai_success, game_reducer,
}

abbrev pub words_of : PriorGuess → List String
words_of p = p.words

accept-parts :
    (cats : List Category) (items : List String) (c : Category) (b : Batch)
    → ((accept cats items c b).mistakes ≡ b.mistakes)
      × ((accept cats items c b).feedback ≡ b.feedback)
      × ((accept cats items c b).prior_guesses
          ≡ b.prior_guesses ++ guess items GuessResult.correct ∷ [])
unfolding accept
accept-parts cats items c b = ground arith

map-append_one :
    (xs : List PriorGuess) (x : PriorGuess) (ys : List (List String))
    → map words_of (xs ++ x ∷ []) ++ ys ≡ map words_of xs ++ words_of x ∷ ys
map-append_one [] x ys = refl
map-append_one (y ∷ xs) x ys = rw (map-append_one xs x ys)

-- From `b` the loop has recorded the first `k` groups, and made at most one mistake, on the last.
pub record Submitted (groups : List (List String)) (b b' : Batch) : Type 0 where
  pub k : ℕ
  pub in_order : map words_of b'.prior_guesses ≡ map words_of b.prior_guesses ++ take k groups
  pub mistakes :
      ((b'.mistakes ≡ b.mistakes) × (b'.feedback ≡ none))
      ⊎ ((b'.mistakes ≡ b.mistakes + 1) × (b'.feedback ≢ none) × (0 < k))

Submitted-accept :
    (items : List String) (groups : List (List String)) (b c b' : Batch)
    → c.mistakes ≡ b.mistakes
    → c.prior_guesses ≡ b.prior_guesses ++ guess items GuessResult.correct ∷ []
    → Submitted groups c b'
    → Submitted (items ∷ groups) b b'
Submitted-accept items groups b c b' same grown r = record {
  k = suc r.k;
  in_order =
      r.in_order
      ∙ (ap (λ ps. map words_of ps ++ take r.k groups) grown
          ∙ map-append_one b.prior_guesses (guess items GuessResult.correct) (take r.k groups));
  mistakes = ground (arith, r.mistakes);
}

Submitted-reject :
    (cats : List Category) (items : List String) (groups : List (List String)) (r : GuessResult)
    (b : Batch)
    → Submitted (items ∷ groups) b (reject cats items r b)
unfolding reject
Submitted-reject cats items groups r b = record {
  k = 1;
  in_order = sym (append-nil _) ∙ map-append_one b.prior_guesses (guess items r) [];
  mistakes = inr (refl, λ e. cc, omega arith);
}

Submitted-refl :
    (groups : List (List String)) (b : Batch) → b.feedback ≡ none → Submitted groups b b
Submitted-refl groups b h = record {
  k = 0;
  in_order = sym (append-nil _);
  mistakes = inl (refl, h);
}

submit_groups-Submitted :
    (cats : List Category) (groups : List (List String)) (b : Batch)
    → b.feedback ≡ none
    → Submitted groups b (submit_groups cats groups b)
submit_groups-Submitted cats [] b h = unfold submit_groups in Submitted-refl [] b h
submit_groups-Submitted cats (items ∷ groups) b h = elim (Bool-cases (is_playing b.status)) [
  | inr over ↦
      subst (Submitted (items ∷ groups) b) (sym (submit_groups_over cats items groups b over))
        (Submitted-refl (items ∷ groups) b h)
  | inl on ↦ elim (Outcome-cases (evaluate_guess cats items)) [
    | inl (c, e) ↦
        let (same, quiet, grown) = accept-parts cats items c b in
        subst (Submitted (items ∷ groups) b)
          (sym (submit_groups_correct cats items groups b c on e))
          (Submitted-accept items groups b (accept cats items c b) _ same grown
            (submit_groups-Submitted cats groups (accept cats items c b) (quiet ∙ h)))
    | inr (r, e) ↦
        subst (Submitted (items ∷ groups) b) (sym (submit_groups_wrong cats items groups b r on e))
          (Submitted-reject cats items groups r b)
  ]
]

-- A reply of AI Assist submits some first part of its groups, in the order that the model listed
-- them, and costs no mistake, with no feedback shown, or one, with feedback shown.
pub ai_success-Submitted :
    (s : GameState) (p : AiAssistSuccessPayload)
    → (k : ℕ) × (map words_of (ai_success s p).prior_guesses
        ≡ map words_of s.prior_guesses ++ take k p.answer.groups)
      × (((ai_success s p).mistakes ≡ s.mistakes) × ((ai_success s p).feedback ≡ none)
          ⊎ ((ai_success s p).mistakes ≡ s.mistakes + 1)
            × ((ai_success s p).feedback ≢ none)
            × (0 < k))
unfolding ai_success
ai_success-Submitted s p =
    let r = submit_groups-Submitted s.categories p.answer.groups (start_batch s) refl in
    (r.k, r.in_order, r.mistakes)

-- A solved group waits to be confirmed, three mistakes are made, and a reply begins with a wrong
-- group: the game is lost, and confirming the solved group sets it to playing or won again, with
-- four mistakes on record.
pub confirm-ai_success-revives :
    (s : GameState) (c : Category) (p : AiAssistSuccessPayload) (items : List String)
    (groups : List (List String)) (r : GuessResult)
    → s.status ≡ Status.playing
    → s.pending_solve ≡ some c
    → s.mistakes ≡ 3
    → p.answer.groups ≡ items ∷ groups
    → evaluate_guess s.categories items ≡ wrong r
    → let lost_game = game_reducer s (ai_solve_success p) in
      let revived = game_reducer lost_game confirm_solve in
      (lost_game.status ≡ Status.lost)
      × (revived.status ≢ Status.lost)
      × (revived.mistakes ≡ max_mistakes)
unfolding game_reducer reject
confirm-ai_success-revives s c p items groups r on w m g e =
    let batch : submit_groups s.categories p.answer.groups (start_batch s)
        ≡ reject s.categories items r (start_batch s) =
      ap (λ gs. submit_groups s.categories gs (start_batch s)) g
      ∙ submit_groups_wrong s.categories items groups (start_batch s) r (ap is_playing on) e in
    ground (arith, batch)

-- A solved group waits to be confirmed and a reply proposes the same group: it is locked in twice,
-- and the game counts as won with one category still on the board.
pub confirm-ai_success-doubles :
    (s : GameState) (c : Category) (p : AiAssistSuccessPayload) (items : List String)
    → s.status ≡ Status.playing
    → s.pending_solve ≡ some c
    → any (λ cat. str_eq cat.id c.id) s.solved ≡ false
    → p.answer.groups ≡ items ∷ []
    → evaluate_guess s.categories items ≡ correct c
    → length s.categories ≡ length s.solved + 2
    → let t = game_reducer (game_reducer s (ai_solve_success p)) confirm_solve in
      (t.status ≡ Status.won)
      × (t.solved ≡ s.solved ++ c ∷ c ∷ [])
      × ((w : String)
          → includes t.remaining_words w
            ≡ (includes s.remaining_words w && not (includes c.words w)))
unfolding game_reducer accept
confirm-ai_success-doubles s c p items on w f g e l =
    let batch : submit_groups s.categories p.answer.groups (start_batch s)
        ≡ accept s.categories items c (start_batch s) =
      ap (λ gs. submit_groups s.categories gs (start_batch s)) g
      ∙ (submit_groups_correct s.categories items [] (start_batch s) c (ap is_playing on) e
          ∙ unfold submit_groups in refl) in
    (
      ground (
        arith,
        batch,
        length-append s.solved (c ∷ []),
        length-append (s.solved ++ c ∷ []) (c ∷ []),
      ),
      ground (arith, batch, append_assoc s.solved (c ∷ []) (c ∷ [])),
      λ v. ground (
        arith,
        batch,
        includes-filter (λ x. not (includes c.words x)) s.remaining_words v,
        includes-filter (λ x. not (includes c.words x)) (without c s.remaining_words) v,
      ),
    )
