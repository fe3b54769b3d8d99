-- ===== src/Combinatorics.antt =====
-- backend/src/modules/strategy/combinatorics.ts: combinations as sorted lists of indices.
mod Structure
pub mod Order
pub mod Rank
mod Tests
use connections.Base.{
  ℕ, zero, suc, ◌+◌, ◌-◌, ◌*◌, ◌≤◌, ◌<◌, max, min, String, ◌≡◌, refl, sym, ap, ◌∙◌, subst, ◌≢◌, ◌↔◌,
  ◌⊎◌, inl, inr, Bool, true, false, not, ◌&&◌, ◌||◌, Option, none, some, List, [], ◌∷◌, ◌++◌, map,
  arith, append_assoc, append-nil, ltb, leb, ◌==◌, if◌then◌else◌, leb→le, le→leb, ==_iff,
  Bool-cases, Option-cases, length, get_elem?, get_or, set, take, filter, find?, any, all, count,
  length-append, count-append, length-filter, All, All-append, length-map, str_eq, str_eq→eq,
  str_eq_refl, includes, distinct, subset, includes-append, includes-filter, subset→includes,
  pigeonhole,
}

-- The first loop, from `i = m - 1` down: `suc i` where it stops, 0 where it runs out. An index
-- equals `poolSize - k + i` when adding `k` makes it `poolSize + i`.
unfoldable pub pivot : List ℕ → ℕ → ℕ → ℕ → ℕ
pivot next pool_size k zero = zero
pivot next pool_size k (suc i) =
    if get_or next i 0 + k == pool_size + i then pivot next pool_size k i else suc i

-- The second loop, `rounds` times, where `j = i + 1`.
unfoldable pub refill : ℕ → ℕ → List ℕ → List ℕ
refill zero i next = next
refill (suc rounds) i next = refill rounds (suc i) (set next (suc i) (get_or next i 0 + 1))

unfoldable pub next_combination : List ℕ → ℕ → Option (List ℕ)
next_combination indices pool_size =
    elim (pivot indices pool_size (length indices) (length indices)) [
      | zero ↦ none
      | suc i ↦ some (refill (length indices - suc i) i (set indices i (get_or indices i 0 + 1)))
    ]

-- `pool[i]` out of range is `undefined`, here the empty word.
unfoldable pub combination_to_words : List ℕ → List String → List String
combination_to_words indices pool = map (λ i. get_or pool i "") indices

abbrev pub count_up : ℕ → ℕ → List ℕ
count_up start zero = []
count_up start (suc k) = start ∷ count_up (start + 1) k

unfoldable pub first_combination : ℕ → List ℕ
first_combination k = count_up 0 k
