-- ===== src/Solver/Shuffle.antt =====
-- The random picks of backend/src/modules/strategy/deterministic-solver.service.ts.
use Prim.Native.String
use connections.Base.{
  ℕ, zero, suc, ◌+◌, ◌-◌, ◌*◌, ◌/◌, ◌%◌, String, not, Option, none, some, List, [], ◌∷◌, ltb,
  if◌then◌else◌, length, get_or, set, includes,
}
use Prim.Native.Nat.{Ordering}

-- What successive calls of the random source yield.
abbrev pub Random : Type 0
Random = ℕ → ℕ

-- `[copy[i], copy[j]] = [copy[j], copy[i]]`
abbrev pub swap : List String → ℕ → ℕ → List String
swap copy i j = set (set copy i (get_or copy j "")) j (get_or copy i "")

abbrev pub drop : ℕ → List String → List String
drop zero xs = xs
drop (suc n) [] = []
drop (suc n) (x ∷ xs) = drop n xs

-- Words in order of their spelling, as `sort` leaves them.
unfoldable pub insert : String → List String → List String
insert w [] = w ∷ []
insert w (x ∷ xs) = elim (Prim.Native.String.compare w x) [
  | Ordering.gt ↦ x ∷ insert w xs
  | _ ↦ w ∷ x ∷ xs
]

unfoldable pub sort : List String → List String
unfolding insert
sort [] = []
sort (x ∷ xs) = insert x (sort xs)

unfoldable pub join : String → List String → String
join separator [] = ""
join separator (x ∷ []) = x
join separator (x ∷ y ∷ xs) = String.◌++◌ x (String.◌++◌ separator (join separator (y ∷ xs)))

unfoldable pub group_key : List String → String
unfolding sort join
group_key words = join "|" (sort words)

module _ (random : Random) where
  -- The partial Fisher-Yates loop: `rounds` swaps, the first at `i = last`.
  unfoldable pub shuffle_tail : ℕ → ℕ → ℕ → List String → List String × ℕ
  shuffle_tail zero last draws copy = (copy, draws)
  shuffle_tail (suc rounds) last draws copy =
      shuffle_tail rounds (last - 1) (draws + 1) (swap copy last (random draws % (last + 1)))

  -- `sampleRandom` from a pool of at least `k` words.
  unfoldable pub sample_random : ℕ → List String → ℕ → List String × ℕ
  sample_random draws pool k =
      let (copy, later) = shuffle_tail k (length pool - 1) draws pool in
      (drop (length pool - k) copy, later)

  -- `combinationCount`; each division is exact.
  unfoldable pub combination_count_from : ℕ → ℕ → ℕ → ℕ → ℕ
  combination_count_from n zero i result = result
  combination_count_from n (suc rounds) i result =
      combination_count_from n rounds (i + 1) (result * (n - i) / (i + 1))

  unfoldable pub attempts : ℕ → ℕ → List String → List String → Option (List String) × ℕ
  attempts zero draws pool tried = (none, draws)
  attempts (suc n) draws pool tried =
      let (group, later) = sample_random draws pool 4 in
      let again = attempts n later pool tried in
      if not (includes tried (group_key group)) then (some group, later) else again

  unfoldable pub pick_random_group : ℕ → List String → List String → Option (List String) × ℕ
  pick_random_group draws pool tried =
      if ltb (length pool) 4
      then (none, draws)
      else attempts (combination_count_from (length pool) 4 0 1 * 10) draws pool tried
