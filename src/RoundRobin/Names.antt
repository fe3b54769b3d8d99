-- ===== src/RoundRobin/Names.antt =====
-- The names of models that a round of dispatching sets aside
-- (backend/src/modules/free-tier-dispatch/free-tier-dispatch.service.ts and
-- backend/src/modules/provider-pool/free-dispatch.service.ts).
use connections.Base.{
  ℕ, ◌≤◌, ◌<◌, String, ◌≡◌, refl, ap, inl, inr, Bool, true, false, not, ◌||◌, List, [], ◌∷◌, map,
  arith, Bool-cases, filter, count, str_eq, str_eq→eq, str_eq_refl, includes, includes-append,
  subset, subset→includes, All, In,
}
use connections.RoundRobin.{Allocation, count_one, add_name, add_names}

abbrev pub names : Allocation → List String
names allocation = map (λ (e : String × ℕ). e.0) allocation

pub names-count_one :
    (model : String) (allocation : Allocation)
    → includes (names allocation) model ≡ true
    → names (count_one model allocation) ≡ names allocation
names-count_one model [] h = absurd (ground (arith, h))
names-count_one model ((m, n) ∷ allocation) h = elim (Bool-cases (str_eq m model)) [
  | inl same ↦ rw same refl
  | inr other ↦
      rw other (ap (λ l. m ∷ l) (names-count_one model allocation (ground (arith, h, other))))
]

pub In-names :
    (model : String) (n : ℕ) (allocation : Allocation)
    → In (model, n) allocation
    → includes (names allocation) model ≡ true
In-names model n [] i = elim i [ ]
In-names model n ((m, k) ∷ allocation) (inl e) =
    let same : m ≡ model = ap (λ (z : String × ℕ). z.0) e in ground (arith, same, str_eq_refl model)
In-names model n ((m, k) ∷ allocation) (inr i) = ground (arith, In-names model n allocation i)

includes-add_name :
    (ns : List String) (n w : String) → includes (add_name ns n) w ≡ (includes ns w || str_eq n w)
includes-add_name ns n w = elim (Bool-cases (includes ns n)) [
  | inl there ↦ ground (arith, there, str_eq→eq n w)
  | inr new ↦ ground (arith, new, includes-append ns (n ∷ []) w)
]

pub includes-add_names :
    (ns ms : List String) (w : String)
    → includes (add_names ns ms) w ≡ (includes ns w || includes ms w)
includes-add_names ns [] w = ground arith
includes-add_names ns (m ∷ ms) w =
    ground (arith, includes-add_names (add_name ns m) ms w, includes-add_name ns m w)

abbrev pub fresh : List String → List String → ℕ
fresh exhausted ns = count (λ n. not (includes exhausted n)) ns

fresh-le :
    (exhausted : List String) (model : String) (ns : List String)
    → fresh (add_name exhausted model) ns ≤ fresh exhausted ns
fresh-le exhausted model [] = omega arith
fresh-le exhausted model (n ∷ ns) =
    ground (arith, fresh-le exhausted model ns, includes-add_name exhausted model n)

-- A model that is exhausted now was not before.
pub fresh-add_name :
    (exhausted : List String) (model : String) (ns : List String)
    → includes exhausted model ≡ false
    → includes ns model ≡ true
    → fresh (add_name exhausted model) ns < fresh exhausted ns
fresh-add_name exhausted model [] h k = absurd (ground (arith, k))
fresh-add_name exhausted model (n ∷ ns) h k = elim (Bool-cases (str_eq n model)) [
  | inl same ↦
      let e : n ≡ model = str_eq→eq n model same in
      let gone : includes (add_name exhausted model) n ≡ true =
        ground (arith, e, includes-add_name exhausted model n, str_eq_refl model) in
      let was : includes exhausted n ≡ false = ground (arith, e, h) in
      ground (arith, gone, was, fresh-le exhausted model ns)
  | inr other ↦
      ground
        (arith, other, k, fresh-add_name exhausted model ns h, includes-add_name exhausted model n)
]

pub includes-filter-not :
    (p : String → Bool) (ns : List String) (w : String)
    → includes ns w ≡ true
    → p w ≡ false
    → includes (filter (λ m. not (p m)) ns) w ≡ true
includes-filter-not p [] w h k = h
includes-filter-not p (n ∷ ns) w h k = elim (Bool-cases (str_eq n w)) [
  | inl same ↦
      let e : n ≡ w = str_eq→eq n w same in
      let out : p n ≡ false = ground (arith, e, k) in ground (arith, out, same)
  | inr other ↦ ground (arith, other, h, includes-filter-not p ns w)
]

pub subset_excluded :
    (ns : List String) (allocation : Allocation)
    → All (λ (e : String × ℕ). includes ns e.0 ≡ true) allocation
    → subset (names allocation) ns ≡ true
subset_excluded ns [] h = refl
subset_excluded ns ((m, n) ∷ allocation) (h, k) = ground (arith, h, subset_excluded ns allocation k)

pub subset-subset :
    (xs ys zs : List String) → subset xs ys ≡ true → subset ys zs ≡ true → subset xs zs ≡ true
subset-subset [] ys zs h k = refl
subset-subset (x ∷ xs) ys zs h k =
    ground (arith, h, subset→includes ys zs x k, subset-subset xs ys zs)
