-- ===== src/RunStore/Order.antt =====
-- The words that a new run starts with (backend/src/modules/strategy/strategy-run-store.service.ts),
-- and what follows for a run through the combinations.
use connections.Base.{
  ℕ, ◌<◌, String, ◌≡◌, refl, sym, ap, ◌∙◌, inl, inr, Bool, true, not, ◌&&◌, ◌||◌, none, some, List,
  [], ◌∷◌, ◌++◌, map, arith, Bool-cases, length, str_eq, str_eq→eq, str_eq_refl, includes, distinct,
  subset, includes-append,
}
use connections.Puzzle.{Puzzle, AnswerGroup, GroupMember, TextOps, words_of}
use connections.Strategy.{StrategyRunStatus, SupportedStrategy}
use connections.Solver.Shuffle.{Random}
use connections.Solver.{SolveState, run_deterministic_strategy}
use connections.Solver.Distinct.{flat, group_of, group_of-includes, distinct-map}
use connections.Solver.Progress.{groups, WellFormed, Whole}
use connections.Solver.Rounds.{IsSequential}
use connections.Solver.Complete.{run_deterministic_strategy-completes}
use connections.RunStore.{
  LocaleCompare, flat_map, insert_by, sort_by, members_of, puzzle_words, compute_initial_word_order,
  new_run,
}

str_eq_sym : (a b : String) → str_eq a b ≡ str_eq b a
str_eq_sym a b = ground (arith, str_eq→eq a b, str_eq→eq b a, str_eq_refl a, str_eq_refl b)

module _ {A : Type 0} (f : A → String) (at_most : A → A → Bool) where
  insert_by-includes :
      (x : A) (xs : List A) (w : String)
      → includes (map f (insert_by at_most x xs)) w ≡ (str_eq (f x) w || includes (map f xs) w)
  unfolding insert_by
  insert_by-includes x [] w = refl
  insert_by-includes x (y ∷ ys) w = ground (arith, insert_by-includes x ys w)

  sort_by-includes :
      (xs : List A) (w : String) → includes (map f (sort_by at_most xs)) w ≡ includes (map f xs) w
  unfolding sort_by
  sort_by-includes [] w = refl
  sort_by-includes (x ∷ xs) w =
      insert_by-includes x (sort_by at_most xs) w
      ∙ ap (λ b. str_eq (f x) w || b) (sort_by-includes xs w)

  insert_by-distinct :
      (x : A) (xs : List A)
      → distinct (map f (insert_by at_most x xs))
        ≡ (not (includes (map f xs) (f x)) && distinct (map f xs))
  unfolding insert_by
  insert_by-distinct x [] = refl
  insert_by-distinct x (y ∷ ys) =
      ground (arith, insert_by-distinct x ys, insert_by-includes x ys (f y), str_eq_sym (f x) (f y))

  sort_by-distinct : (xs : List A) → distinct (map f (sort_by at_most xs)) ≡ distinct (map f xs)
  unfolding sort_by
  sort_by-distinct [] = refl
  sort_by-distinct (x ∷ xs) = ground (
    arith,
    insert_by-distinct x (sort_by at_most xs),
    sort_by-includes xs (f x),
    sort_by-distinct xs,
  )

map_id : (ws : List String) → map (λ w. w) ws ≡ ws
map_id [] = refl
map_id (w ∷ ws) = ap (λ l. w ∷ l) (map_id ws)

map-append : {A B : Type 0} (f : A → B) (xs ys : List A) → map f (xs ++ ys) ≡ map f xs ++ map f ys
map-append f [] ys = refl
map-append f (x ∷ xs) ys = ap (λ l. f x ∷ l) (map-append f xs ys)

words_of_members :
    (gs : List AnswerGroup)
    → map (λ (m : GroupMember). m.word) (flat_map (λ (g : AnswerGroup). g.members) gs)
      ≡ flat_map words_of gs
words_of_members [] = refl
words_of_members (g ∷ gs) =
    map-append (λ (m : GroupMember). m.word) g.members _
    ∙ ap (λ l. words_of g ++ l) (words_of_members gs)

flat_words : (gs : List AnswerGroup) → flat (map words_of gs) ≡ flat_map words_of gs
flat_words [] = refl
flat_words (g ∷ gs) = ap (λ l. words_of g ++ l) (flat_words gs)

-- The words of the puzzle in some order.
abbrev pub SameWords : Puzzle → List String → Type 0
SameWords puzzle ws =
    ((w : String) → includes ws w ≡ includes (puzzle_words puzzle) w)
    × (distinct ws ≡ distinct (puzzle_words puzzle))

sorted_members :
    (puzzle : Puzzle) (at_most : GroupMember → GroupMember → Bool)
    → SameWords puzzle (map (λ m. m.word) (sort_by at_most (members_of puzzle)))
sorted_members puzzle at_most = (
  λ w.
      sort_by-includes (λ (m : GroupMember). m.word) at_most (members_of puzzle) w
      ∙ ap (λ l. includes l w) (words_of_members puzzle.answer_groups),
  sort_by-distinct (λ (m : GroupMember). m.word) at_most (members_of puzzle)
      ∙ ap (λ (l : List String). distinct l) (words_of_members puzzle.answer_groups),
)

sorted_words :
    (puzzle : Puzzle) (at_most : String → String → Bool)
    → SameWords puzzle (sort_by at_most (puzzle_words puzzle))
sorted_words puzzle at_most = (
  λ w.
      ap (λ l. includes l w) (sym (map_id (sort_by at_most (puzzle_words puzzle))))
      ∙ sort_by-includes (λ w. w) at_most (puzzle_words puzzle) w
      ∙ ap (λ l. includes l w) (map_id (puzzle_words puzzle)),
  ap (λ (l : List String). distinct l) (sym (map_id (sort_by at_most (puzzle_words puzzle))))
      ∙ sort_by-distinct (λ w. w) at_most (puzzle_words puzzle)
      ∙ ap (λ (l : List String). distinct l) (map_id (puzzle_words puzzle)),
)

pub compute_initial_word_order-SameWords :
    (locale : LocaleCompare) (puzzle : Puzzle) (s : SupportedStrategy)
    → SameWords puzzle (compute_initial_word_order locale puzzle s)
unfolding compute_initial_word_order
compute_initial_word_order-SameWords locale puzzle SupportedStrategy.reverse_order =
    sorted_members puzzle _
compute_initial_word_order-SameWords locale puzzle SupportedStrategy.reverse_alphabetical =
    sorted_words puzzle _
compute_initial_word_order-SameWords locale puzzle SupportedStrategy.order = sorted_members puzzle _
compute_initial_word_order-SameWords locale puzzle SupportedStrategy.shuffle_smart =
    sorted_members puzzle _
compute_initial_word_order-SameWords locale puzzle SupportedStrategy.shuffle_foolish =
    sorted_members puzzle _
compute_initial_word_order-SameWords locale puzzle SupportedStrategy.llm_openai =
    sorted_members puzzle _
compute_initial_word_order-SameWords locale puzzle SupportedStrategy.llm_ollama =
    sorted_members puzzle _
compute_initial_word_order-SameWords locale puzzle SupportedStrategy.alphabetical =
    sorted_words puzzle _
compute_initial_word_order-SameWords locale puzzle SupportedStrategy.llm_google =
    sorted_words puzzle _
compute_initial_word_order-SameWords locale puzzle SupportedStrategy.llm_groq =
    sorted_words puzzle _
compute_initial_word_order-SameWords locale puzzle SupportedStrategy.llm_openrouter =
    sorted_words puzzle _
compute_initial_word_order-SameWords locale puzzle SupportedStrategy.llm_mistral =
    sorted_words puzzle _
compute_initial_word_order-SameWords locale puzzle SupportedStrategy.llm_sambanova =
    sorted_words puzzle _
compute_initial_word_order-SameWords locale puzzle SupportedStrategy.llm_nvidia =
    sorted_words puzzle _

some_group :
    (gs : List (List String)) (w : String)
    → includes (flat gs) w ≡ true
    → (g : List String) × (group_of gs w ≡ some g)
some_group [] w h = let absurd : ⊥ = ground (arith, h) in elim absurd [ ]
some_group (k ∷ gs) w h = elim (Bool-cases (includes k w)) [
  | inl here ↦ (k, ground (arith, here))
  | inr there ↦
      let (g, e) = some_group gs w (ground (arith, h, there, includes-append k (flat gs) w)) in
      (g, ground (arith, there, e))
]

subset_of :
    (ws pool : List String)
    → ((v : String) → includes ws v ≡ true → includes pool v ≡ true)
    → subset ws pool ≡ true
subset_of [] pool h = refl
subset_of (w ∷ ws) pool h =
    ground (
      arith,
      h w (ground (arith, str_eq_refl w)),
      subset_of ws pool (λ v k. h v (ground (arith, k))),
    )

pub SameWords-Whole :
    (ops : TextOps) (puzzle : Puzzle) (pool : List String)
    → WellFormed ops puzzle
    → SameWords puzzle pool
    → Whole puzzle pool
SameWords-Whole ops puzzle pool wf (same, dist) = record {
  distinct_pool =
      dist
      ∙ ap (λ (l : List String). distinct l) (sym (flat_words puzzle.answer_groups))
      ∙ distinct-map _ (flat (groups puzzle)) wf.different;
  closed = λ w h.
      let (g, e) =
        some_group (groups puzzle) w
          (ap (λ l. includes l w) (flat_words puzzle.answer_groups) ∙ sym (same w) ∙ h) in
      (
        g,
        e,
        subset_of g pool (λ v k.
            same v
            ∙ ap (λ l. includes l v) (sym (flat_words puzzle.answer_groups))
            ∙ (group_of-includes (groups puzzle) w g e).1 v k),
      );
}

-- A run that is created anew for a well-formed puzzle, by one of the strategies that go through
-- the combinations, whatever the host's comparison of words: it starts with the puzzle's words in
-- some order, and the solver brings it to its end as completed, with no word left.
pub new_run-completes :
    (ops : TextOps) (puzzle : Puzzle) (random : Random) (locale : LocaleCompare)
    (strategy : SupportedStrategy) (trial id : ℕ) (clock : ℕ → ℕ)
    → WellFormed ops puzzle
    → IsSequential strategy
    → 0 < length (compute_initial_word_order locale puzzle strategy)
    → (fuel : ℕ) × (t : SolveState) × (run_deterministic_strategy ops puzzle random fuel clock
          (new_run locale puzzle strategy trial none none none id)
          []
        ≡ some t)
      × (t.run.status ≡ StrategyRunStatus.completed)
      × (t.run.available_words ≡ [])
new_run-completes ops puzzle random locale strategy trial id clock wf q some_left =
    run_deterministic_strategy-completes ops puzzle random wf clock
      (new_run locale puzzle strategy trial none none none id) [] refl q
      (SameWords-Whole ops puzzle (compute_initial_word_order locale puzzle strategy) wf
        (compute_initial_word_order-SameWords locale puzzle strategy))
      refl some_left
