-- ===== src/Llm/Fixups.antt =====
-- backend/src/modules/strategy/normalize-puzzle-word.ts: the words that a run rewrites before it starts.
use connections.Base.{
  String, ◌≡◌, refl, true, false, List, [], ◌∷◌, map, arith, if◌then◌else◌, str_eq, str_eq→eq,
  str_eq_refl, includes,
}
use connections.Puzzle.{Puzzle, AnswerGroup, GroupMember}
use connections.Strategy.{StrategyRun}

-- `ONE_OFF_WORD_MAP[word] ?? word`, for a word that does not name a property every object inherits.
unfoldable pub normalize_puzzle_word : String → String
normalize_puzzle_word word = if str_eq "20,000" word then "20000" else word

abbrev pub fix_member : GroupMember → GroupMember
fix_member member = record member { word = normalize_puzzle_word member.word }

abbrev pub fix_group : AnswerGroup → AnswerGroup
fix_group group = record group { members = map fix_member group.members }

unfoldable pub apply_one_off_word_fixups : StrategyRun → Puzzle → StrategyRun × Puzzle
apply_one_off_word_fixups run puzzle = (
  record run { available_words = map normalize_puzzle_word run.available_words },
  record puzzle { answer_groups = map fix_group puzzle.answer_groups },
)

other_word : str_eq "20,000" "20000" ≡ false
unfolding str_eq
other_word = refl

normalize_puzzle_word-twice :
    (w : String) → normalize_puzzle_word (normalize_puzzle_word w) ≡ normalize_puzzle_word w
unfolding normalize_puzzle_word
normalize_puzzle_word-twice w = ground (arith, other_word)

map-twice :
    {A : Type 0} (f : A → A)
    → ((x : A) → f (f x) ≡ f x)
    → (xs : List A) → map f (map f xs) ≡ map f xs
map-twice f h [] = refl
map-twice f h (x ∷ xs) = ground (arith, h x, map-twice f h xs)

fix_group-twice : (g : AnswerGroup) → fix_group (fix_group g) ≡ fix_group g
fix_group-twice g = ground (
  arith,
  map-twice fix_member (λ m. ground (arith, normalize_puzzle_word-twice m.word)) g.members,
)

includes-fixed :
    (ws : List String) (w : String)
    → includes ws w ≡ true
    → includes (map normalize_puzzle_word ws) (normalize_puzzle_word w) ≡ true
includes-fixed [] w h = ground (arith, h)
includes-fixed (x ∷ ws) w h =
    ground (arith, h, str_eq→eq x w, str_eq_refl (normalize_puzzle_word w), includes-fixed ws w)

no_comma : (ws : List String) → includes (map normalize_puzzle_word ws) "20,000" ≡ false
unfolding normalize_puzzle_word
no_comma [] = refl
no_comma (x ∷ ws) = ground (
  arith,
  other_word,
  str_eq→eq x "20,000",
  str_eq→eq "20000" "20,000",
  str_eq_refl "20,000",
  no_comma ws,
)

-- The fixups of a run and its puzzle are idempotent, so a resumed run may apply them again; after them no
-- available word has the comma that would split it, and a word that was available still is, in its
-- rewritten form.
pub apply_one_off_word_fixups_lem :
    (run : StrategyRun) (puzzle : Puzzle)
    → (apply_one_off_word_fixups
          (apply_one_off_word_fixups run puzzle).0
          (apply_one_off_word_fixups run puzzle).1
        ≡ apply_one_off_word_fixups run puzzle)
      × (includes (apply_one_off_word_fixups run puzzle).0.available_words "20,000" ≡ false)
      × ((w : String)
          → includes run.available_words w ≡ true
          → includes
              (apply_one_off_word_fixups run puzzle).0.available_words
              (normalize_puzzle_word w)
            ≡ true)
unfolding apply_one_off_word_fixups
apply_one_off_word_fixups_lem run puzzle = (
  ground (
    arith,
    map-twice normalize_puzzle_word normalize_puzzle_word-twice run.available_words,
    map-twice fix_group fix_group-twice puzzle.answer_groups,
  ),
  no_comma run.available_words,
  λ w h. includes-fixed run.available_words w h,
)
