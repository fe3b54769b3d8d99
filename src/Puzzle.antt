-- ===== src/Puzzle.antt =====
-- backend/src/modules/game: the puzzle as the workers load it, and the verdict on a guess
-- (`GameService.evaluateGuessOnPuzzle`). `String.prototype.trim` and `toLowerCase` follow the
-- Unicode tables and are a parameter, `TextOps`.
pub mod Verdict
mod Tests
use connections.Base.{
  ℕ, zero, suc, ◌+◌, ◌-◌, ◌*◌, ◌^◌, ◌≤◌, ◌<◌, max, min, String, ◌≡◌, refl, sym, ap, ◌∙◌, subst, ◌≢◌,
  ◌↔◌, ◌⊎◌, inl, inr, Bool, true, false, not, ◌&&◌, ◌||◌, Option, none, some, List, [], ◌∷◌, ◌++◌,
  map, arith, append_assoc, append-nil, ltb, leb, ◌==◌, if◌then◌else◌, leb→le, le→leb, ==_iff,
  Bool-cases, Option-cases, length, get_elem?, get_or, set, take, filter, find?, any, all, count,
  length-append, count-append, length-filter, All, All-append, length-map, str_eq, str_eq→eq,
  str_eq_refl, includes, distinct, subset, includes-append, includes-filter, subset→includes,
  pigeonhole,
}

pub record GroupMember : Type 0 where
  pub id : ℕ
  pub word : String
  pub position : ℕ
  pub image_url : Option String

pub record AnswerGroup : Type 0 where
  pub id : ℕ
  pub group_name : String
  pub level : ℕ
  pub members : List GroupMember

pub record Puzzle : Type 0 where
  pub id : ℕ
  pub date : String
  pub is_image_puzzle : Bool
  pub answer_groups : List AnswerGroup

pub data GuessResult : Type 0 where
  success failure off_by_one duplicate : GuessResult

-- What the program uses of the host's strings.
pub record TextOps : Type 0 where
  pub trim : String → String
  pub to_lower : String → String

abbrev pub words_of : AnswerGroup → List String
words_of group = map (λ m. m.word) group.members

module _ (ops : TextOps) where
  -- `w.trim().toLowerCase()`
  abbrev pub normalize : String → String
  normalize w = ops.to_lower (ops.trim w)

  abbrev pub normal_words : AnswerGroup → List String
  normal_words group = map normalize (words_of group)

  unfoldable pub matches : List String → AnswerGroup → ℕ
  matches guessed group = count (includes guessed) (normal_words group)

  -- The loop over the groups, from the flag `isOffByOne`.
  unfoldable pub judge_from : Bool → List String → List AnswerGroup → GuessResult
  judge_from is_off_by_one guessed [] =
      if is_off_by_one then GuessResult.off_by_one else GuessResult.failure
  judge_from is_off_by_one guessed (group ∷ groups) =
      let rest = judge_from (is_off_by_one || matches guessed group == 3) guessed groups in
      if matches guessed group == 4 && length (normal_words group) == 4
      then GuessResult.success
      else rest

  unfoldable pub evaluate_guess_on_puzzle : Puzzle → List String → GuessResult
  evaluate_guess_on_puzzle puzzle words =
      judge_from false (map normalize words) puzzle.answer_groups
