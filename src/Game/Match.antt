-- ===== src/Game/Match.antt =====
-- What `evaluateGuess` (frontend/src/lib/gameReducer.ts) decides, against the puzzle's categories.
use connections.Base.{
  ℕ, zero, suc, ◌≤◌, max, String, ◌≡◌, refl, sym, ap, ◌∙◌, ◌↔◌, ◌⊎◌, inl, inr, true, false, none,
  some, List, [], ◌∷◌, arith, leb, leb→le, Bool-cases, length, get_elem?, find?, All, includes,
  distinct, subset, subset→includes, pigeonhole,
}
use mathlib.Core.Path.{subst}
use connections.Game.{Category, GuessResult}
use connections.Game.Guess.{
  is_match, find_matching_category, overlap, overlap_from, largest_category_overlap, correct, wrong,
  evaluate_guess,
}

-- The category stands at some place of the list.
abbrev pub IsListed : Category → List Category → Type 0
IsListed c cats = (i : ℕ) × (get_elem? cats i ≡ some c)

find_match-IsListed :
    (words : List String) (cats : List Category) (c : Category)
    → find? (is_match words) cats ≡ some c
    → IsListed c cats × (is_match words c ≡ true)
find_match-IsListed words [] c h = cc
find_match-IsListed words (k ∷ cats) c h = elim (Bool-cases (is_match words k)) [
  | inl yes_k ↦ let e : k ≡ c = ground (arith, yes_k) in ((0, ap some e), rw (← e) yes_k)
  | inr no_k ↦ let ((i, p), m) = find_match-IsListed words cats c (rw no_k at h) in ((suc i, p), m)
]

find_match-none_iff :
    (words : List String) (cats : List Category)
    → (find? (is_match words) cats ≡ none) ↔ All (λ k. is_match words k ≡ false) cats
find_match-none_iff words [] = (λ h. tt, λ h. refl)
find_match-none_iff words (k ∷ cats) = ground (arith, find_match-none_iff words cats)

-- The largest overlap bounds every overlap, and is the start or one of them.
overlap_from_bounds :
    (m : ℕ) (words : List String) (cats : List Category)
    → (m ≤ overlap_from m words cats) × All (λ k. overlap words k ≤ overlap_from m words cats) cats
unfolding overlap_from
overlap_from_bounds m words [] = (omega arith, tt)
overlap_from_bounds m words (k ∷ cats) =
    let (low, rest) = overlap_from_bounds (max m (overlap words k)) words cats in
    (omega arith, (omega arith, rest))

overlap_from_reached :
    (m : ℕ) (words : List String) (cats : List Category)
    → (overlap_from m words cats ≡ m)
      ⊎ ((k : Category) × IsListed k cats × (overlap words k ≡ overlap_from m words cats))
unfolding overlap_from
overlap_from_reached m words [] = inl refl
overlap_from_reached m words (k ∷ cats) =
    elim (overlap_from_reached (max m (overlap words k)) words cats) [
      | inl start ↦ elim (Bool-cases (leb (overlap words k) m)) [
        | inl below ↦ inl (omega (arith, leb→le (overlap words k) m below))
        | inr above ↦ inr (k, (0, refl), ground arith)
      ]
      | inr (x, (i, p), e) ↦ inr (x, (suc i, p), e)
    ]

is_match-same_words :
    (words : List String) (c : Category) (w : String)
    → distinct c.words ≡ true
    → is_match words c ≡ true
    → includes words w ≡ includes c.words w
unfolding is_match
is_match-same_words words c w d h =
    let l : length c.words ≡ length words = ground arith in
    let s : subset c.words words ≡ true = ground arith in
    ground (arith, subset→includes c.words words w s, pigeonhole c.words words w d s (omega arith))

is_match-length :
    (words : List String) (c : Category) → is_match words c ≡ true → length c.words ≡ length words
unfolding is_match
is_match-length words c h = ground arith

All-IsListed {ℓ} :
    (P : Category → Type ℓ) (cats : List Category) (c : Category)
    → All P cats
    → IsListed c cats
    → P c
All-IsListed P [] c a (i, p) = cc
All-IsListed P (k ∷ cats) c (a, later) (zero, p) = let e : k ≡ c = cc in subst P e a
All-IsListed P (k ∷ cats) c (a, later) (suc i, p) = All-IsListed P cats c later (i, p)

-- A guess judged correct names a category of the puzzle and has exactly that category's words,
-- however they are ordered, whenever no category repeats a word.
pub evaluate_guess-correct :
    (cats : List Category) (words : List String) (c : Category)
    → ((k : Category) → IsListed k cats → distinct k.words ≡ true)
    → evaluate_guess cats words ≡ correct c
    → IsListed c cats
      × (length words ≡ length c.words)
      × ((w : String) → includes words w ≡ includes c.words w)
unfolding evaluate_guess find_matching_category
evaluate_guess-correct cats words c d h =
    let found : find? (is_match words) cats ≡ some c = ground arith in
    let (listed, m) = find_match-IsListed words cats c found in
    (listed, sym (is_match-length words c m), λ w. is_match-same_words words c w (d c listed) m)

-- A guess is "one away" exactly when it matches no category, shares three words with one of them
-- and shares no more than three with any.
pub evaluate_guess-one_away_iff :
    (cats : List Category) (words : List String)
    → (evaluate_guess cats words ≡ wrong GuessResult.one_away) ↔ (
        All (λ k. is_match words k ≡ false) cats
        × All (λ k. overlap words k ≤ 3) cats
        × ((k : Category) × IsListed k cats × (overlap words k ≡ 3)))
unfolding evaluate_guess find_matching_category largest_category_overlap
evaluate_guess-one_away_iff cats words = (to, from)
  where
    to :
        evaluate_guess cats words ≡ wrong GuessResult.one_away
        → All (λ k. is_match words k ≡ false) cats
          × All (λ k. overlap words k ≤ 3) cats
          × ((k : Category) × IsListed k cats × (overlap words k ≡ 3))
    to h =
        let missed : find? (is_match words) cats ≡ none = ground arith in
        let three : overlap_from 0 words cats ≡ 3 = ground arith in
        (
          (find_match-none_iff words cats).0 missed,
          rw three at ((overlap_from_bounds 0 words cats).1),
          elim (overlap_from_reached 0 words cats) [
            | inl zero_overlap ↦ absurd (omega arith)
            | inr (k, p, e) ↦ (k, p, e ∙ three)
          ],
        )

    from :
        (All (λ k. is_match words k ≡ false) cats
          × All (λ k. overlap words k ≤ 3) cats
          × ((k : Category) × IsListed k cats × (overlap words k ≡ 3)))
        → evaluate_guess cats words ≡ wrong GuessResult.one_away
    from (m, b, (k, p, e)) =
        let bounds =
          All-IsListed (λ x. overlap words x ≤ overlap_from 0 words cats) cats k
            ((overlap_from_bounds 0 words cats).1) p in
        let three : overlap_from 0 words cats ≡ 3 = elim (overlap_from_reached 0 words cats) [
          | inl zero_overlap ↦ absurd (omega arith)
          | inr (x, q, r) ↦
              let below = All-IsListed (λ y. overlap words y ≤ 3) cats x b q in omega arith
        ] in
        let missed : find? (is_match words) cats ≡ none = (find_match-none_iff words cats).1 m in
        ground arith
