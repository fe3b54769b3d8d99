-- ===== src/Dispatch/Paging.antt =====
-- Reading a queue page by page reads all of it
-- (backend/src/modules/strategy/strategy-dispatch.service.ts).
use connections.Base.{
  ℕ, zero, suc, ◌+◌, ◌-◌, ◌<◌, ◌≡◌, refl, ap, ◌∙◌, sym, subst, inl, inr, Bool, true, false, List,
  [], ◌∷◌, ◌++◌, map, concat, arith, ltb, if◌then◌else◌, Bool-cases, length, take, drop, filter,
  count, count-append, length-append, In, In-left, In-right, In-split, In-filter, filter-In,
}
use connections.Dispatch.Queue.{JobState, RunStrategyJob, JobQueue, collect}

module _ {A : Type 0} where
  take-drop : (n : ℕ) (xs : List A) → take n xs ++ drop n xs ≡ xs
  take-drop zero xs = refl
  take-drop (suc n) [] = refl
  take-drop (suc n) (x ∷ xs) = ap (λ l. x ∷ l) (take-drop n xs)

  drop-nil : (n : ℕ) → drop {A = A} n [] ≡ []
  drop-nil zero = refl
  drop-nil (suc n) = refl

  drop-add : (m n : ℕ) (xs : List A) → drop n (drop m xs) ≡ drop (m + n) xs
  drop-add zero n xs = ap (λ k. drop k xs) (omega arith)
  drop-add (suc m) n [] = drop-nil n ∙ sym (drop-nil (suc m + n))
  drop-add (suc m) n (x ∷ xs) =
      let e : suc (m + n) ≡ suc m + n = omega arith in drop-add m n xs ∙ ap (λ k. drop k (x ∷ xs)) e

  drop-short : (n : ℕ) (xs : List A) → length (take n xs) < n → drop n xs ≡ []
  drop-short zero xs h = absurd (omega arith)
  drop-short (suc n) [] h = refl
  drop-short (suc n) (x ∷ xs) h = drop-short n xs (omega arith)

  count-all : (xs : List A) → count (λ x. true) xs ≡ length xs
  count-all [] = refl
  count-all (x ∷ xs) = ap suc (count-all xs)

  -- The same elements, each as often.
  abbrev pub Rearranged : List A → List A → Type 0
  Rearranged xs ys =
      ((p : A → Bool) → count p xs ≡ count p ys)
      × ((x : A) → (In x xs → In x ys) × (In x ys → In x xs))

  Rearranged-refl : (xs : List A) → Rearranged xs xs
  Rearranged-refl xs = (λ p. refl, λ x. (λ i. i, λ i. i))

  Rearranged-trans : (xs ys zs : List A) → Rearranged xs ys → Rearranged ys zs → Rearranged xs zs
  Rearranged-trans xs ys zs h k =
      (λ p. h.0 p ∙ k.0 p, λ x. (λ i. (k.1 x).0 ((h.1 x).0 i), λ i. (h.1 x).1 ((k.1 x).1 i)))

  Rearranged-append :
      (xs xs' ys ys' : List A)
      → Rearranged xs xs'
      → Rearranged ys ys'
      → Rearranged (xs ++ ys) (xs' ++ ys')
  Rearranged-append xs xs' ys ys' h k = (
    λ p. omega (arith, count-append p xs ys, count-append p xs' ys', h.0 p, k.0 p),
    λ x. (
      λ i. elim (In-split x xs ys i) [
        | inl a ↦ In-left x xs' ys' ((h.1 x).0 a)
        | inr b ↦ In-right x xs' ys' ((k.1 x).0 b)
      ],
      λ i. elim (In-split x xs' ys' i) [
        | inl a ↦ In-left x xs ys ((h.1 x).1 a)
        | inr b ↦ In-right x xs ys ((k.1 x).1 b)
      ],
    ),
  )

  swap_middle :
      (x : A) (a b c d : List A) → In x ((a ++ b) ++ (c ++ d)) → In x ((a ++ c) ++ (b ++ d))
  swap_middle x a b c d i = elim (In-split x (a ++ b) (c ++ d) i) [
    | inl j ↦ elim (In-split x a b j) [
      | inl k ↦ In-left x (a ++ c) (b ++ d) (In-left x a c k)
      | inr k ↦ In-right x (a ++ c) (b ++ d) (In-left x b d k)
    ]
    | inr j ↦ elim (In-split x c d j) [
      | inl k ↦ In-left x (a ++ c) (b ++ d) (In-right x a c k)
      | inr k ↦ In-right x (a ++ c) (b ++ d) (In-right x b d k)
    ]
  ]

  -- `(a ++ b) ++ (c ++ d)` as `(a ++ c) ++ (b ++ d)`.
  Rearranged-middle : (a b c d : List A) → Rearranged ((a ++ c) ++ (b ++ d)) ((a ++ b) ++ (c ++ d))
  Rearranged-middle a b c d = (
    λ p. omega (
      arith,
      count-append p (a ++ c) (b ++ d),
      count-append p (a ++ b) (c ++ d),
      count-append p a c,
      count-append p b d,
      count-append p a b,
      count-append p c d,
    ),
    λ x. (swap_middle x a c b d, swap_middle x a b c d),
  )

  filter-append : (p : A → Bool) (xs ys : List A) → filter p (xs ++ ys) ≡ filter p xs ++ filter p ys
  filter-append p [] ys = refl
  filter-append p (x ∷ xs) ys = elim (Bool-cases (p x)) [
    | inl h ↦ rw h (ap (λ l. x ∷ l) (filter-append p xs ys))
    | inr h ↦ rw h (filter-append p xs ys)
  ]

  count-filter :
      (p q : A → Bool) (xs : List A)
      → count p (filter q xs) ≡ count (λ x. if q x then p x else false) xs
  count-filter p q [] = refl
  count-filter p q (x ∷ xs) = ground (arith, count-filter p q xs)

  Rearranged-filter :
      (q : A → Bool) (xs ys : List A) → Rearranged xs ys → Rearranged (filter q xs) (filter q ys)
  Rearranged-filter q xs ys h = (
    λ p. count-filter p q xs ∙ h.0 (λ x. if q x then p x else false) ∙ sym (count-filter p q ys),
    λ x. (
      λ i. filter-In q x ys ((h.1 x).0 (In-filter q x xs i).0) (In-filter q x xs i).1,
      λ i. filter-In q x xs ((h.1 x).1 (In-filter q x ys i).0) (In-filter q x ys i).1,
    ),
  )

module _ {Q : Type 0} (queue : JobQueue Q) (states : List JobState) (q : Q) where
  abbrev in_state : JobState → List RunStrategyJob
  in_state s = queue.jobs (s ∷ []) q

  -- A page of `n` jobs of each state, and all the jobs of each state, from `start` on.
  abbrev page : ℕ → ℕ → List JobState → List RunStrategyJob
  page n start ss = concat (map (λ s. take n (drop start (in_state s))) ss)

  abbrev left : ℕ → List JobState → List RunStrategyJob
  left start ss = concat (map (λ s. drop start (in_state s)) ss)

  left-page :
      (n start : ℕ) (ss : List JobState)
      → Rearranged (page n start ss ++ left (start + n) ss) (left start ss)
  left-page n start [] = Rearranged-refl []
  left-page n start (s ∷ ss) =
      let a : List RunStrategyJob = take n (drop start (in_state s)) in
      let b : List RunStrategyJob = drop (start + n) (in_state s) in
      let e : a ++ b ≡ drop start (in_state s) =
        ap (λ l. a ++ l) (sym (drop-add start n (in_state s)))
        ∙ take-drop n (drop start (in_state s)) in
      Rearranged-trans ((a ++ page n start ss) ++ (b ++ left (start + n) ss))
        ((a ++ b) ++ (page n start ss ++ left (start + n) ss))
        (drop start (in_state s) ++ left start ss)
        (Rearranged-middle a b (page n start ss) (left (start + n) ss))
        (Rearranged-append (a ++ b) (drop start (in_state s))
          (page n start ss ++ left (start + n) ss) (left start ss)
          (subst (Rearranged (a ++ b)) e (Rearranged-refl (a ++ b))) (left-page n start ss))

  -- After a page that is not full, no state has jobs left.
  left-short :
      (n start : ℕ) (ss : List JobState) → length (page n start ss) < n → left (start + n) ss ≡ []
  left-short n start [] h = refl
  left-short n start (s ∷ ss) h =
      let a : List RunStrategyJob = take n (drop start (in_state s)) in
      let both = length-append a (page n start ss) in
      let none_left : drop (start + n) (in_state s) ≡ [] =
        sym (drop-add start n (in_state s))
        ∙ drop-short n (drop start (in_state s)) (omega (arith, h, both)) in
      rw none_left (left-short n start ss (omega (arith, h, both)))

  left-all : (ss : List JobState) → left 0 ss ≡ concat (map in_state ss)
  left-all [] = refl
  left-all (s ∷ ss) = ap (λ l. in_state s ++ l) (left-all ss)

  -- The queue's jobs are those that a page holds and those that are left.
  page-get_jobs :
      (size start : ℕ)
      → queue.get_jobs states start (start + suc size - 1) q ≡ page (suc size) start states
  page-get_jobs size start =
      subst (λ n. queue.get_jobs states start n q ≡ page (suc size) start states) (omega arith)
        (queue.get_jobs_page states start size q)

  length-left :
      (n start : ℕ)
      → length (page n start states) + length (left (start + n) states) ≡ length (left start states)
  length-left n start =
      let sum = length-append (page n start states) (left (start + n) states) in
      let whole = count-all (page n start states ++ left (start + n) states) in
      let same = (left-page n start states).0 (λ x. true) in
      omega (arith, sum, whole, same, count-all (left start states))

module _ {Q : Type 0} (queue : JobQueue Q) (test : RunStrategyJob → Bool) where
  collect-from :
      (size fuel : ℕ) (states : List JobState) (start : ℕ) (q : Q)
      → length (left queue states q start states) < fuel
      → Rearranged
          (collect queue (suc size) test fuel states start q)
          (filter test (left queue states q start states))
  unfolding collect
  collect-from size zero states start q h = absurd (omega arith)
  collect-from size (suc fuel) states start q h =
      let n : ℕ = suc size in
      let now : List RunStrategyJob = page queue states q n start states in
      let later : List RunStrategyJob = left queue states q (start + n) states in
      let rest : List RunStrategyJob = collect queue n test fuel states (start + n) q in
      let all : List RunStrategyJob = left queue states q start states in
      let split : Rearranged (filter test now ++ filter test later) (filter test all) =
        subst (λ l. Rearranged l (filter test all)) (filter-append test now later)
          (Rearranged-filter test (now ++ later) all (left-page queue states q n start states)) in
      rw (page-get_jobs queue states q size start) (elim (Bool-cases (ltb (length now) n)) [
        | inl short ↦
            let none_left : later ≡ [] =
              left-short queue states q n start states (ground (arith, short)) in
            rw short (
              subst (λ l. Rearranged (filter test now ++ filter test l) (filter test all)) none_left
                split)
        | inr full ↦
            let ih : Rearranged rest (filter test later) =
              collect-from size fuel states (start + n) q
                (ground (arith, full, h, length-left queue states q n start)) in
            rw full (
              Rearranged-trans (filter test now ++ rest) (filter test now ++ filter test later)
                (filter test all)
                (Rearranged-append (filter test now) (filter test now) rest (filter test later)
                  (Rearranged-refl (filter test now)) ih)
                split)
      ])

  -- Read in pages of any size from the start, where the indices of a page count in each of the states
  -- asked for, a queue that holds fewer jobs in these states than pages are allowed for gives exactly
  -- its jobs in them that pass the test, each as often as it is there, if not in their order.
  pub collect_lem :
      (size fuel : ℕ) (states : List JobState) (q : Q)
      → length (queue.jobs states q) < fuel
      → Rearranged
          (collect queue (suc size) test fuel states 0 q)
          (filter test (queue.jobs states q))
  collect_lem size fuel states q h =
      let e : left queue states q 0 states ≡ queue.jobs states q =
        left-all queue states q states ∙ sym (queue.jobs_states states q) in
      subst (λ l. Rearranged (collect queue (suc size) test fuel states 0 q) (filter test l)) e
        (collect-from size fuel states 0 q (subst (λ l. length l < fuel) (sym e) h))
