-- ===== src/Base/Membership.antt =====
-- Membership in a list, as a choice of a place.
use mathlib.Core.Path.{◌≡◌, refl, ap, subst}
use mathlib.Core.Logic.{◌⊎◌, inl, inr}
use mathlib.Core.Bool.{Bool, true}
use mathlib.Core.List.{List, [], ◌∷◌, ◌++◌, map}
use connections.Base.Tests.{if◌then◌else◌, Bool-cases}
use connections.Base.Lists.{filter}

abbrev pub In : {A : Type 0} → A → List A → Type 0
In x [] = ⊥
In x (y ∷ ys) = (y ≡ x) ⊎ In x ys

module _ {A : Type 0} where
  pub In-left : (x : A) (xs ys : List A) → In x xs → In x (xs ++ ys)
  In-left x [] ys i = elim i [ ]
  In-left x (y ∷ xs) ys (inl e) = inl e
  In-left x (y ∷ xs) ys (inr i) = inr (In-left x xs ys i)

  pub In-right : (x : A) (xs ys : List A) → In x ys → In x (xs ++ ys)
  In-right x [] ys i = i
  In-right x (y ∷ xs) ys i = inr (In-right x xs ys i)

  pub In-split : (x : A) (xs ys : List A) → In x (xs ++ ys) → In x xs ⊎ In x ys
  In-split x [] ys i = inr i
  In-split x (y ∷ xs) ys (inl e) = inl (inl e)
  In-split x (y ∷ xs) ys (inr i) = elim (In-split x xs ys i) [ inl l ↦ inl (inr l) | inr r ↦ inr r ]

  pub In-filter : (p : A → Bool) (x : A) (xs : List A) → In x (filter p xs) → In x xs × (p x ≡ true)
  In-filter p x [] i = elim i [ ]
  In-filter p x (y ∷ xs) i = elim (Bool-cases (p y)) [
    | inl is_in ↦ elim (subst (λ b. In x (if b then y ∷ filter p xs else filter p xs)) is_in i) [
      | inl e ↦ (inl e, subst (λ z. p z ≡ true) e is_in)
      | inr k ↦ (inr (In-filter p x xs k).0, (In-filter p x xs k).1)
    ]
    | inr out ↦
        let k =
          In-filter p x xs (subst (λ b. In x (if b then y ∷ filter p xs else filter p xs)) out i) in
        (inr k.0, k.1)
  ]

  pub filter-In : (p : A → Bool) (x : A) (xs : List A) → In x xs → p x ≡ true → In x (filter p xs)
  filter-In p x [] i h = elim i [ ]
  filter-In p x (y ∷ xs) (inl e) h = rw e (rw h (inl refl))
  filter-In p x (y ∷ xs) (inr i) h = elim (Bool-cases (p y)) [
    | inl is_in ↦ rw is_in (inr (filter-In p x xs i h))
    | inr out ↦ rw out (filter-In p x xs i h)
  ]

pub In-map : {A B : Type 0} (f : A → B) (x : A) (xs : List A) → In x xs → In (f x) (map f xs)
In-map f x [] i = elim i [ ]
In-map f x (y ∷ xs) (inl e) = inl (ap f e)
In-map f x (y ∷ xs) (inr i) = inr (In-map f x xs i)

pub In-map-source :
    {A B : Type 0} (f : A → B) (z : B) (xs : List A)
    → In z (map f xs)
    → (x : A) × In x xs × (f x ≡ z)
In-map-source f z [] i = elim i [ ]
In-map-source f z (y ∷ xs) (inl e) = (y, inl refl, e)
In-map-source f z (y ∷ xs) (inr i) = let (x, k, e) = In-map-source f z xs i in (x, inr k, e)
