-- ===== src/Solver/Distinct.antt =====
-- Puzzles as lists of groups of words, all words different: which group a word belongs to.
use connections.Base.{
  String, ◌≡◌, refl, ap, subst, inl, inr, Bool, true, false, Option, some, List, [], ◌∷◌, ◌++◌, map,
  arith, ◌==◌, Bool-cases, length, filter, find?, any, all, str_eq, str_eq→eq, str_eq_refl,
  includes, distinct, includes-append, includes-filter,
}

abbrev pub flat : List (List String) → List String
flat [] = []
flat (g ∷ gs) = g ++ flat gs

-- The group that holds a word.
abbrev pub group_of : List (List String) → String → Option (List String)
group_of gs w = find? (λ g. includes g w) gs

pub distinct-disjoint :
    (xs ys : List String) (v : String)
    → distinct (xs ++ ys) ≡ true
    → includes xs v ≡ true
    → includes ys v ≡ false
distinct-disjoint [] ys v d h = cc
distinct-disjoint (x ∷ xs) ys v d h =
    ground (arith, str_eq→eq x v, includes-append xs ys x, distinct-disjoint xs ys v)

pub distinct-append :
    (xs ys : List String) → distinct (xs ++ ys) ≡ true → (distinct xs ≡ true) × (distinct ys ≡ true)
distinct-append [] ys d = (refl, d)
distinct-append (x ∷ xs) ys d = ground (arith, includes-append xs ys x, distinct-append xs ys)

pub distinct-filter :
    (p : String → Bool) (xs : List String) → distinct xs ≡ true → distinct (filter p xs) ≡ true
distinct-filter p [] d = refl
distinct-filter p (x ∷ xs) d = ground (arith, includes-filter p xs x, distinct-filter p xs)

pub group_of-includes :
    (gs : List (List String)) (w : String) (g : List String)
    → group_of gs w ≡ some g
    → (includes g w ≡ true) × ((v : String) → includes g v ≡ true → includes (flat gs) v ≡ true)
group_of-includes [] w g e = cc
group_of-includes (h ∷ gs) w g e = elim (Bool-cases (includes h w)) [
  | inl here ↦
      let same : h ≡ g = ground (arith, here) in
      (
        subst (λ k. includes k w ≡ true) same here,
        λ v k. rw (includes-append h (flat gs) v, same, k) refl,
      )
  | inr there ↦
      let (a, b) = group_of-includes gs w g (ground (arith, there)) in
      (a, λ v k. ground (arith, includes-append h (flat gs) v, b v k))
]

-- The words of a group have that group.
pub group_of-same :
    (gs : List (List String)) (w v : String) (g : List String)
    → distinct (flat gs) ≡ true
    → group_of gs w ≡ some g
    → includes g v ≡ true
    → group_of gs v ≡ some g
group_of-same [] w v g d e h = cc
group_of-same (k ∷ gs) w v g d e h = elim (Bool-cases (includes k w)) [
  | inl here ↦
      let same : k ≡ g = ground (arith, here) in ground (arith, ap (λ x. includes x v) same)
  | inr there ↦
      let e' : group_of gs w ≡ some g = ground (arith, there) in
      ground (
        arith,
        group_of-same gs w v g (distinct-append k (flat gs) d).1 e' h,
        distinct-disjoint k (flat gs) v d,
        (group_of-includes gs w g e').1 v h,
      )
]

pub group_of-distinct :
    (gs : List (List String)) (w : String) (g : List String)
    → distinct (flat gs) ≡ true
    → group_of gs w ≡ some g
    → distinct g ≡ true
group_of-distinct [] w g d e = cc
group_of-distinct (h ∷ gs) w g d e = elim (Bool-cases (includes h w)) [
  | inl here ↦
      let same : h ≡ g = ground (arith, here) in
      subst (λ k. distinct k ≡ true) same (distinct-append h (flat gs) d).0
  | inr there ↦ group_of-distinct gs w g (distinct-append h (flat gs) d).1 (ground (arith, there))
]

pub group_of-all :
    (p : List String → Bool) (gs : List (List String)) (w : String) (g : List String)
    → all p gs ≡ true
    → group_of gs w ≡ some g
    → p g ≡ true
group_of-all p [] w g a e = cc
group_of-all p (h ∷ gs) w g a e = elim (Bool-cases (includes h w)) [
  | inl here ↦
      let same : h ≡ g = ground (arith, here) in subst (λ k. p k ≡ true) same (ground arith)
  | inr there ↦ group_of-all p gs w g (ground arith) (ground (arith, there))
]

pub group_of-any :
    (p : List String → Bool) (gs : List (List String)) (w : String) (g : List String)
    → group_of gs w ≡ some g
    → p g ≡ true
    → any p gs ≡ true
group_of-any p [] w g e h = cc
group_of-any p (k ∷ gs) w g e h = elim (Bool-cases (includes k w)) [
  | inl here ↦ let same : k ≡ g = ground (arith, here) in rw (same, h) refl
  | inr there ↦ ground (arith, group_of-any p gs w g (ground (arith, there)) h)
]

first_word : (g : List String) → length g ≡ 4 → (w : String) × (includes g w ≡ true)
first_word [] l = absurd (omega arith)
first_word (x ∷ g) l = (x, ground (arith, str_eq_refl x))

-- A group that passes a test is the group of one of its words.
pub any-group_of :
    (p : List String → Bool) (gs : List (List String))
    → distinct (flat gs) ≡ true
    → all (λ g. length g == 4) gs ≡ true
    → any p gs ≡ true
    → (w : String) × (g : List String) × (group_of gs w ≡ some g) × (p g ≡ true)
any-group_of p [] d f h = cc
any-group_of p (k ∷ gs) d f h = elim (Bool-cases (p k)) [
  | inl here ↦ let (w, i) = first_word k (ground arith) in (w, k, rw i refl, here)
  | inr there ↦
      let (w, g, e, q) =
        any-group_of p gs (distinct-append k (flat gs) d).1 (ground arith) (ground arith) in
      let i = group_of-includes gs w g e in
      (w, g, ground (arith, distinct-disjoint k (flat gs) w d, i.1 w i.0), q)
]

-- Normalising keeps membership, and where it keeps all words of a list apart it is injective there.
pub includes-map :
    (f : String → String) (xs : List String) (v : String)
    → includes xs v ≡ true
    → includes (map f xs) (f v) ≡ true
includes-map f [] v h = cc
includes-map f (x ∷ xs) v h = ground (arith, str_eq→eq x v, str_eq_refl (f v), includes-map f xs v)

pub includes-map_inv :
    (f : String → String) (xs : List String) (u : String)
    → includes (map f xs) u ≡ true
    → (v : String) × (includes xs v ≡ true) × (f v ≡ u)
includes-map_inv f [] u h = cc
includes-map_inv f (x ∷ xs) u h = elim (Bool-cases (str_eq (f x) u)) [
  | inl here ↦ (x, ground (arith, str_eq_refl x), str_eq→eq (f x) u here)
  | inr there ↦
      let (v, i, e) = includes-map_inv f xs u (ground (arith, there)) in (v, ground (arith, i), e)
]

pub distinct-map_injective :
    (f : String → String) (xs : List String) (v w : String)
    → distinct (map f xs) ≡ true
    → includes xs v ≡ true
    → includes xs w ≡ true
    → f v ≡ f w
    → v ≡ w
distinct-map_injective f [] v w d h k e = cc
distinct-map_injective f (x ∷ xs) v w d h k e = ground (
  arith,
  str_eq→eq x v,
  str_eq→eq x w,
  includes-map f xs v,
  includes-map f xs w,
  distinct-map_injective f xs v w,
)

pub distinct-map :
    (f : String → String) (xs : List String) → distinct (map f xs) ≡ true → distinct xs ≡ true
distinct-map f [] d = refl
distinct-map f (x ∷ xs) d = ground (arith, includes-map f xs x, distinct-map f xs)
