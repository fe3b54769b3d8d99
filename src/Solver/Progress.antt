-- ===== src/Solver/Progress.antt =====
-- What one guess does to a deterministic run (backend/src/modules/strategy/deterministic-solver.service.ts)
-- on a puzzle whose groups have four words each, all different after normalising.
use connections.Base.{
  ℕ, ◌≤◌, ◌<◌, String, ◌≡◌, refl, sym, ap, ◌∙◌, subst, inl, inr, Bool, true, false, not, ◌&&◌, some,
  List, [], ◌∷◌, map, arith, ◌==◌, Bool-cases, length, filter, any, all, count-le-length,
  length-filter, length-map, str_eq→eq, str_eq_refl, includes, distinct, subset, includes-filter,
  subset→includes, pigeonhole, distinct-length,
}
use connections.Puzzle.{
  AnswerGroup, Puzzle, GuessResult, TextOps, words_of, normalize, evaluate_guess_on_puzzle,
}
use connections.Puzzle.Verdict.{is_full, evaluate_guess_on_puzzle_lem}
use connections.Combinatorics.{combination_to_words}
use connections.Combinatorics.Order.{IsCombination}
use connections.Solver.Indices.{positions, combination_to_words-positions, positions-IsCombination}
use connections.Solver.Distinct.{
  flat, group_of, distinct-filter, group_of-includes, group_of-same, group_of-distinct,
  group_of-all, group_of-any, any-group_of, includes-map, includes-map_inv, distinct-map_injective,
  distinct-map,
}

abbrev pub groups : Puzzle → List (List String)
groups puzzle = map words_of puzzle.answer_groups

pub record WellFormed (ops : TextOps) (puzzle : Puzzle) : Type 0 where
  pub four : all (λ g. length g == 4) (groups puzzle) ≡ true
  pub different : distinct (map (normalize ops) (flat (groups puzzle))) ≡ true

-- The pool is a union of groups of the puzzle, its words all different.
pub record Whole (puzzle : Puzzle) (pool : List String) : Type 0 where
  pub distinct_pool : distinct pool ≡ true
  pub closed :
      (w : String)
      → includes pool w ≡ true
      → (g : List String) × (group_of (groups puzzle) w ≡ some g) × (subset g pool ≡ true)

subset-map :
    (f : String → String) (xs ys : List String)
    → subset xs ys ≡ true
    → subset (map f xs) (map f ys) ≡ true
subset-map f [] ys s = refl
subset-map f (x ∷ xs) ys s = ground (arith, includes-map f ys x, subset-map f xs ys)

subset_of :
    (xs ys : List String)
    → ((w : String) → includes xs w ≡ true → includes ys w ≡ true)
    → subset xs ys ≡ true
subset_of [] ys h = refl
subset_of (x ∷ xs) ys h =
    rw (h x (ground (arith, str_eq_refl x))) (subset_of xs ys (λ w k. h w (ground (arith, k))))

any-map :
    (q : List String → Bool) (p : AnswerGroup → Bool) (gs : List AnswerGroup)
    → ((g : AnswerGroup) → p g ≡ q (words_of g))
    → any p gs ≡ any q (map words_of gs)
any-map q p [] h = refl
any-map q p (g ∷ gs) h = cc (h g, any-map q p gs h)

filter-shorter :
    (p : String → Bool) (xs : List String) (w : String)
    → includes xs w ≡ true
    → p w ≡ false
    → length (filter p xs) < length xs
filter-shorter p [] w h k = cc
filter-shorter p (x ∷ xs) w h k =
    ground (arith, str_eq→eq x w, filter-shorter p xs w, length-filter p xs, count-le-length p xs)

module _ (ops : TextOps) (puzzle : Puzzle) (wf : WellFormed ops puzzle) where
  abbrev gs : List (List String)
  gs = groups puzzle

  abbrev holds_all : List String → List String → Bool
  holds_all words g =
      length (map (normalize ops) g) == 4
      && subset (map (normalize ops) g) (map (normalize ops) words)

  words_differ : distinct (flat gs) ≡ true
  words_differ = distinct-map (normalize ops) (flat gs) wf.different

  in_flat :
      (pool : List String) (w : String)
      → Whole puzzle pool
      → includes pool w ≡ true
      → includes (flat gs) w ≡ true
  in_flat pool w whole h =
      let (g, e, s) = whole.closed w h in let i = group_of-includes gs w g e in i.1 w i.0

  -- A word of a group whose normal words are all guessed is itself guessed.
  guessed_word :
      (pool words : List String) (w x : String) (g : List String)
      → Whole puzzle pool
      → subset words pool ≡ true
      → group_of gs w ≡ some g
      → holds_all words g ≡ true
      → includes g x ≡ true
      → includes words x ≡ true
  guessed_word pool words w x g whole s i q h =
      let there =
        subset→includes (map (normalize ops) g) (map (normalize ops) words) (normalize ops x)
          (ground arith) (includes-map (normalize ops) g x h) in
      let (v, k, e) = includes-map_inv (normalize ops) words (normalize ops x) there in
      let same =
        distinct-map_injective (normalize ops) (flat gs) v x wf.different
          (in_flat pool v whole (subset→includes words pool v s k))
          ((group_of-includes gs w g i).1 x h) e in
      subst (λ u. includes words u ≡ true) same k

  -- A guess of four words of the pool that is judged a success is a group of the puzzle.
  pub success-group :
      (pool words : List String)
      → Whole puzzle pool
      → subset words pool ≡ true
      → length words ≡ 4
      → evaluate_guess_on_puzzle ops puzzle words ≡ GuessResult.success
      → (w : String) × (g : List String) × (group_of gs w ≡ some g)
        × ((v : String) → includes words v ≡ includes g v)
  success-group pool words whole s l e =
      let hit : any (is_full ops (map (normalize ops) words)) puzzle.answer_groups ≡ true =
        ground (arith, evaluate_guess_on_puzzle_lem ops puzzle words) in
      let full : any (holds_all words) gs ≡ true =
        sym (
          any-map (holds_all words) (is_full ops (map (normalize ops) words)) puzzle.answer_groups
            (λ g. refl))
        ∙ hit in
      let (w, g, i, q) = any-group_of (holds_all words) gs words_differ wf.four full in
      let inside : subset g words ≡ true =
        subset_of g words (λ x. guessed_word pool words w x g whole s i q) in
      let four : (length g == 4) ≡ true = group_of-all (λ k. length k == 4) gs w g wf.four i in
      let many : length words ≤ length g = ground arith in
      (
        w,
        g,
        i,
        λ v. ground (
          arith,
          subset→includes g words v inside,
          pigeonhole g words v (group_of-distinct gs w g words_differ i) inside many,
        ),
      )

  -- A word of another group than the guessed one stays.
  stays :
      (pool words : List String) (w u x : String) (g h : List String)
      → group_of gs w ≡ some g
      → group_of gs u ≡ some h
      → ((v : String) → includes words v ≡ includes g v)
      → includes words u ≡ false
      → includes pool x ≡ true
      → includes h x ≡ true
      → includes (filter (λ v. not (includes words v)) pool) x ≡ true
  stays pool words w u x g h i j same out k m = elim (Bool-cases (includes words x)) [
    | inr free ↦ includes-filter (λ v. not (includes words v)) pool x ∙ rw (k, free) refl
    | inl used ↦
        let here = group_of-same gs w x g words_differ i (sym (same x) ∙ used) in
        let there = group_of-same gs u x h words_differ j m in
        let eq : h ≡ g = cc in
        let inside = subst (λ k. includes k u ≡ true) eq (group_of-includes gs u h j).0 in
        absurd (let no : ⊥ = cc (same u) in no)
  ]

  -- Without the group the pool is still whole, and smaller.
  pub Whole-success :
      (pool words : List String)
      → Whole puzzle pool
      → subset words pool ≡ true
      → length words ≡ 4
      → evaluate_guess_on_puzzle ops puzzle words ≡ GuessResult.success
      → let left = filter (λ w. not (includes words w)) pool in
        Whole puzzle left × (length left < length pool)
  Whole-success pool words whole s l e =
      let (w, g, i, same) = success-group pool words whole s l e in
      let in_g = (group_of-includes gs w g i).0 in
      (
        record {
          distinct_pool = distinct-filter (λ v. not (includes words v)) pool whole.distinct_pool;
          closed = λ u k.
              let both = includes-filter (λ v. not (includes words v)) pool u in
              let in_pool : includes pool u ≡ true = ground arith in
              let out : includes words u ≡ false = ground arith in
              let (h, j, t) = whole.closed u in_pool in
              (
                h,
                j,
                subset_of h _ (λ x m.
                    stays pool words w u x g h i j same out (subset→includes h pool x t m) m),
              );
        },
        filter-shorter (λ v. not (includes words v)) pool w
            (subset→includes words pool w s (same w ∙ in_g)) (ap not (same w ∙ in_g)),
      )

  -- As long as words are left, some combination of the pool is judged a success.
  pub winner :
      (pool : List String) (u : String)
      → Whole puzzle pool
      → includes pool u ≡ true
      → (zs : List ℕ) × IsCombination (length pool) 4 zs
        × (evaluate_guess_on_puzzle ops puzzle (combination_to_words zs pool) ≡ GuessResult.success)
  winner pool u whole k =
      let (h, j, t) = whole.closed u k in
      let picked = filter (includes h) pool in
      let four : (length h == 4) ≡ true = group_of-all (λ g. length g == 4) gs u h wf.four j in
      let no_more : length picked ≤ length h =
        distinct-length picked h (distinct-filter (includes h) pool whole.distinct_pool) (
          subset_of picked h
            (λ x m. let e = includes-filter (includes h) pool x in ground arith)) in
      let inside : subset h picked ≡ true =
        subset_of h picked (λ x m.
          includes-filter (includes h) pool x ∙ rw (subset→includes h pool x t m, m) refl) in
      let no_fewer = distinct-length h picked (group_of-distinct gs u h words_differ j) inside in
      let words = combination_to_words-positions (includes h) pool in
      let full : holds_all picked h ≡ true =
        ground (arith, length-map (normalize ops) h, subset-map (normalize ops) h picked inside) in
      let hit = group_of-any (holds_all picked) gs u h j full in
      let hit' =
        any-map (holds_all picked) (is_full ops (map (normalize ops) picked)) puzzle.answer_groups
          (λ g. refl)
        ∙ hit in
      (
        positions (includes h) 0 pool,
        positions-IsCombination (includes h) pool 4 (ground arith),
        rw words (evaluate_guess_on_puzzle_lem ops puzzle picked ∙ rw hit' refl),
      )
