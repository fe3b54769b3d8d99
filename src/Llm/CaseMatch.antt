-- ===== src/Llm/CaseMatch.antt =====
-- backend/src/modules/strategy/case-insensitive-match.ts
use connections.Base.{
  String, Bool, true, false, not, ◌&&◌, Option, none, some, List, [], ◌∷◌, map, ◌==◌, if◌then◌else◌,
  length, str_eq,
}
use connections.Puzzle.{TextOps}
use connections.Solver.Shuffle.{sort}

-- `xs.every((w, i) => w === ys[i])`
abbrev pub every_at : List String → List String → Bool
every_at [] ys = true
every_at (x ∷ xs) [] = false
every_at (x ∷ xs) (y ∷ ys) = str_eq x y && every_at xs ys

module _ (ops : TextOps) where
  abbrev pub normalize_for_comparison : String → String
  normalize_for_comparison word = ops.to_lower (ops.trim word)

  abbrev pub sorted_lower : List String → List String
  sorted_lower words = sort (map normalize_for_comparison words)

  -- The tests of one round of the loop: it returns this group.
  unfoldable pub is_case_match : List String → List String → Bool
  is_case_match guess_words group =
      (length group == length guess_words)
      && (every_at (sorted_lower guess_words) (sorted_lower group)
          && not (every_at (sort (map ops.trim guess_words)) (sort group)))

  unfoldable pub find_case_insensitive_group_match :
      List String → List (List String) → Option (List String)
  find_case_insensitive_group_match guess_words [] = none
  find_case_insensitive_group_match guess_words (group ∷ groups) =
      if is_case_match guess_words group
      then some group
      else find_case_insensitive_group_match guess_words groups
