-- ===== src/Prelude/Members.antt =====
-- Elements of a list, and what the list helpers do with them.
use mathlib.Core.Path.{◌≡◌, refl, ap, subst}
use mathlib.Core.Logic.{◌⊎◌, inl, inr}
use mathlib.Core.Bool.{Bool, true, false}
use mathlib.Core.List.{map, List, [], ◌∷◌, ◌++◌}
use native.Mathlib.Omega.{arith}
use harel.Prelude.Tests.{Bool-cases}
use harel.Prelude.Lists.{any, keep, gather, All}

module _ {A : Type 0} where
  -- The list has the element.
  abbrev pub In : A → List A → Type 0
  In x [] = ⊥
  In x (y ∷ ys) = (y ≡ x) ⊎ In x ys

  pub In-append : (x : A) (xs ys : List A) → In x xs ⊎ In x ys → In x (xs ++ ys)
  In-append x [] ys (inl m) = absurd m
  In-append x [] ys (inr h) = h
  In-append x (z ∷ xs) ys (inl (inl e)) = inl e
  In-append x (z ∷ xs) ys (inl (inr h)) = inr (In-append x xs ys (inl h))
  In-append x (z ∷ xs) ys (inr h) = inr (In-append x xs ys (inr h))

  pub In-keep : (p : A → Bool) (x : A) (xs : List A) → In x xs → p x ≡ true → In x (keep p xs)
  In-keep p x [] m h = absurd m
  In-keep p x (y ∷ xs) (inl e) h = elim (Bool-cases (p y)) [
    | inl q ↦ rw q (inl e)
    | inr q ↦ absurd (ground (arith, ap p e))
  ]
  In-keep p x (y ∷ xs) (inr m) h = elim (Bool-cases (p y)) [
    | inl q ↦ rw q (inr (In-keep p x xs m h))
    | inr q ↦ rw q (In-keep p x xs m h)
  ]

  pub any-In : (p : A → Bool) (x : A) (xs : List A) → In x xs → any p xs ≡ false → p x ≡ false
  any-In p x [] m h = absurd m
  any-In p x (y ∷ xs) (inl e) h = ground (arith, ap p e)
  any-In p x (y ∷ xs) (inr m) h = ground (arith, any-In p x xs m)

  pub any-true : (p : A → Bool) (x : A) (xs : List A) → In x xs → p x ≡ true → any p xs ≡ true
  any-true p x [] m h = absurd m
  any-true p x (y ∷ xs) (inl e) h = ground (arith, ap p e)
  any-true p x (y ∷ xs) (inr m) h = ground (arith, any-true p x xs m)

  pub All-In : (P : A → Type 0) (x : A) (xs : List A) → All P xs → In x xs → P x
  All-In P x [] h m = absurd m
  All-In P x (y ∷ ys) h (inl e) = subst P e h.0
  All-In P x (y ∷ ys) h (inr m) = All-In P x ys h.1 m

  pub each-In : (P : A → Type 0) (xs : List A) → ((x : A) → In x xs → P x) → All P xs
  each-In P [] h = tt
  each-In P (y ∷ ys) h = (h y (inl refl), each-In P ys (λ x m. h x (inr m)))

module _ {A B : Type 0} where
  pub In-map : (f : A → B) (x : A) (xs : List A) → In x xs → In (f x) (map f xs)
  In-map f x [] m = absurd m
  In-map f x (y ∷ xs) (inl e) = inl (ap f e)
  In-map f x (y ∷ xs) (inr h) = inr (In-map f x xs h)

  pub In-gather :
      (f : A → List B) (x : A) (xs : List A) (y : B) → In x xs → In y (f x) → In y (gather f xs)
  In-gather f x [] y m h = absurd m
  In-gather f x (z ∷ xs) y (inl e) h = In-append y (f z) (gather f xs) (inl (rw e h))
  In-gather f x (z ∷ xs) y (inr m) h =
      In-append y (f z) (gather f xs) (inr (In-gather f x xs y m h))
