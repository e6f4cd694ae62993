-- ===== src/Prelude/Firsts.antt =====
-- The first element of a sorted list that a test takes.
use mathlib.Core.Path.{◌≡◌, ap, subst, sym}
use mathlib.Core.Logic.{◌⊎◌, inl, inr}
use mathlib.Core.Bool.{Bool, true, false}
use mathlib.Core.Option.{none, some}
use mathlib.Core.List.{List, [], ◌∷◌}
use native.Mathlib.Omega.{arith}
use harel.Prelude.Tests.{if◌then◌else◌, Bool-cases}
use harel.Prelude.Lists.{find}
use harel.Prelude.Members.{In}
use harel.Prelude.Sorted.{insert, sorted}

module _ {A : Type 0} (p : A → Bool) where
  pub find-none : (xs : List A) (y : A) → find p xs ≡ none → In y xs → p y ≡ false
  find-none [] y h m = absurd m
  find-none (x ∷ xs) y h (inl e) = ground (arith, h, ap p e)
  find-none (x ∷ xs) y h (inr m) = elim (Bool-cases (p x)) [
    | inl q ↦ absurd (ground (arith, h, q))
    | inr q ↦ find-none xs y (ground (arith, h, q)) m
  ]

  pub find-In : (xs : List A) (x : A) → find p xs ≡ some x → In x xs × (p x ≡ true)
  find-In [] x h = absurd (ground (arith, h))
  find-In (y ∷ ys) x h = elim (Bool-cases (p y)) [
    | inl q ↦ let e : y ≡ x = ground (arith, h, q) in (inl e, subst (λ z. p z ≡ true) e q)
    | inr q ↦ let (m, t) = find-In ys x (ground (arith, h, q)) in (inr m, t)
  ]

module _ {A : Type 0} (le : A → A → Bool) where
  pub In-insert : (x y : A) (xs : List A) → In y (x ∷ xs) → In y (insert le x xs)
  In-insert x y [] m = m
  In-insert x y (z ∷ zs) m = elim (Bool-cases (le x z)) [
    | inl q ↦ rw q m
    | inr q ↦ rw q (swap (λ k. In-insert x y zs k) m)
  ]
    where
      swap : (In y (x ∷ zs) → In y (insert le x zs)) → In y (x ∷ z ∷ zs) → In y (z ∷ insert le x zs)
      swap go (inl e) = inr (go (inl e))
      swap go (inr (inl e)) = inl e
      swap go (inr (inr k)) = inr (go (inr k))

  pub In-sorted : (y : A) (xs : List A) → In y xs → In y (sorted le xs)
  In-sorted y [] m = m
  In-sorted y (x ∷ xs) (inl e) = In-insert x y (sorted le xs) (inl e)
  In-sorted y (x ∷ xs) (inr m) = In-insert x y (sorted le xs) (inr (In-sorted y xs m))

  pub insert-In : (x y : A) (xs : List A) → In y (insert le x xs) → In y (x ∷ xs)
  insert-In x y [] m = m
  insert-In x y (z ∷ zs) m = elim (Bool-cases (le x z)) [
    | inl q ↦ subst (λ b. In y (if b then x ∷ z ∷ zs else z ∷ insert le x zs)) q m
    | inr q ↦
        back (λ k. insert-In x y zs k)
          (subst (λ b. In y (if b then x ∷ z ∷ zs else z ∷ insert le x zs)) q m)
  ]
    where
      back : (In y (insert le x zs) → In y (x ∷ zs)) → In y (z ∷ insert le x zs) → In y (x ∷ z ∷ zs)
      back go (inl e) = inr (inl e)
      back go (inr m) = elim (go m) [ inl e ↦ inl e | inr k ↦ inr (inr k) ]

  pub sorted-In : (y : A) (xs : List A) → In y (sorted le xs) → In y xs
  sorted-In y [] m = m
  sorted-In y (x ∷ xs) m = elim (insert-In x y (sorted le xs) m) [
    | inl e ↦ inl e
    | inr k ↦ inr (sorted-In y xs k)
  ]

  -- The head of each tail comes before the rest.
  abbrev pub Ordered : List A → Type 0
  Ordered [] = Unit
  Ordered (x ∷ xs) = ((y : A) → In y xs → le x y ≡ true) × Ordered xs

  module _ (total : (x y : A) → (le x y ≡ true) ⊎ (le y x ≡ true))
      (trans : (x y z : A) → le x y ≡ true → le y z ≡ true → le x z ≡ true) where
    insert-Ordered : (x : A) (xs : List A) → Ordered xs → Ordered (insert le x xs)
    insert-Ordered x [] h = (λ y m. absurd m, tt)
    insert-Ordered x (z ∷ zs) h = elim (Bool-cases (le x z)) [
      | inl q ↦ rw q (before q, h)
      | inr q ↦ rw q (after q, insert-Ordered x zs h.1)
    ]
      where
        before : le x z ≡ true → (y : A) → In y (z ∷ zs) → le x y ≡ true
        before q y (inl e) = subst (λ w. le x w ≡ true) e q
        before q y (inr m) = trans x z y q (h.0 y m)

        flipped : le x z ≡ false → le z x ≡ true
        flipped q = elim (total x z) [ inl t ↦ absurd (ground (arith, q, t)) | inr t ↦ t ]

        after : le x z ≡ false → (y : A) → In y (insert le x zs) → le z y ≡ true
        after q y m = elim (insert-In x y zs m) [
          | inl e ↦ subst (λ w. le z w ≡ true) e (flipped q)
          | inr k ↦ h.0 y k
        ]

    pub sorted-Ordered : (xs : List A) → Ordered (sorted le xs)
    sorted-Ordered [] = tt
    sorted-Ordered (x ∷ xs) = insert-Ordered x (sorted le xs) (sorted-Ordered xs)

    find-Ordered :
        (p : A → Bool) (xs : List A) (x y : A)
        → Ordered xs
        → find p xs ≡ some x
        → In y xs
        → p y ≡ true
        → le x y ≡ true
    find-Ordered p [] x y o h m t = absurd m
    find-Ordered p (z ∷ zs) x y o h m t = elim (Bool-cases (p z)) [
      | inr q ↦ later q (λ k. find-Ordered p zs x y o.1 (ground (arith, h, q)) k t) m
      | inl q ↦ first (ground (arith, h, q)) m
    ]
      where
        self : (w : A) → le w w ≡ true
        self w = elim (total w w) [ inl e ↦ e | inr e ↦ e ]

        first : z ≡ x → In y (z ∷ zs) → le x y ≡ true
        first e (inl f) = subst (λ w. le x w ≡ true) f (subst (λ w. le x w ≡ true) (sym e) (self x))
        first e (inr k) = subst (λ w. le w y ≡ true) e (o.0 y k)

        later : p z ≡ false → (In y zs → le x y ≡ true) → In y (z ∷ zs) → le x y ≡ true
        later q go (inl f) = absurd (ground (arith, q, t, ap p f))
        later q go (inr k) = go k

    -- The first one that the test takes is the least of those.
    pub find-sorted :
        (p : A → Bool) (xs : List A) (x y : A)
        → find p (sorted le xs) ≡ some x
        → In y xs
        → p y ≡ true
        → le x y ≡ true
    find-sorted p xs x y h m t =
        find-Ordered p (sorted le xs) x y (sorted-Ordered xs) h (In-sorted y xs m) t
