-- ===== src/Prelude/Ascents.antt =====
-- Lists whose keys ascend.
use Prim.Native.Nat.{ℕ, ◌≤◌, ◌<◌}
use mathlib.Core.Path.{◌≡◌, ap, subst}
use mathlib.Core.Logic.{inl, inr}
use mathlib.Core.Bool.{Bool}
use mathlib.Core.List.{List, [], ◌∷◌, ◌++◌}
use native.Mathlib.Omega.{arith}
use harel.Prelude.Tests.{Bool-cases}
use harel.Prelude.Lists.{keep}
use harel.Prelude.Members.{In}

-- The keys ascend, above `low` and up to `high`.
abbrev pub Ascending : {A : Type 0} → (A → ℕ) → ℕ → ℕ → List A → Type 0
Ascending key low high [] = low ≤ high
Ascending key low high (x ∷ xs) = (low < key x) × Ascending key (key x) high xs

module _ {A : Type 0} (key : A → ℕ) where
  lower :
      (low mid high : ℕ) (xs : List A)
      → low ≤ mid
      → Ascending key mid high xs
      → Ascending key low high xs
  lower low mid high [] b h = omega (arith, h, b)
  lower low mid high (x ∷ xs) b h = (omega (arith, h.0, b), h.1)

  pub Ascending-append :
      (low mid high : ℕ) (xs ys : List A)
      → Ascending key low mid xs
      → Ascending key mid high ys
      → Ascending key low high (xs ++ ys)
  Ascending-append low mid high [] ys h k = lower low mid high ys h k
  Ascending-append low mid high (x ∷ xs) ys h k =
      (h.0, Ascending-append (key x) mid high xs ys h.1 k)

  pub Ascending-keep :
      (p : A → Bool) (low high : ℕ) (xs : List A)
      → Ascending key low high xs
      → Ascending key low high (keep p xs)
  Ascending-keep p low high [] h = h
  Ascending-keep p low high (x ∷ xs) h =
      let rest = Ascending-keep p (key x) high xs h.1 in
      elim (Bool-cases (p x)) [
        | inl e ↦ rw e (h.0, rest)
        | inr e ↦ rw e (lower low (key x) high (keep p xs) (omega (arith, h.0)) rest)
      ]

  pub Ascending-In :
      (low high : ℕ) (x : A) (xs : List A) → Ascending key low high xs → In x xs → low < key x
  Ascending-In low high x [] h m = absurd m
  Ascending-In low high x (y ∷ ys) h (inl e) = subst (λ z. low < key z) e h.0
  Ascending-In low high x (y ∷ ys) h (inr m) =
      omega (arith, h.0, Ascending-In (key y) high x ys h.1 m)

  -- No two elements have one key.
  pub Ascending-one :
      (low high : ℕ) (x y : A) (xs : List A)
      → Ascending key low high xs
      → In x xs
      → In y xs
      → key x ≡ key y
      → x ≡ y
  Ascending-one low high x y [] h m n e = absurd m
  Ascending-one low high x y (z ∷ zs) h (inl p) (inl q) e = cc
  Ascending-one low high x y (z ∷ zs) h (inl p) (inr n) e =
      absurd (omega (arith, Ascending-In (key z) high y zs h.1 n, ap key p, e))
  Ascending-one low high x y (z ∷ zs) h (inr m) (inl q) e =
      absurd (omega (arith, Ascending-In (key z) high x zs h.1 m, ap key q, e))
  Ascending-one low high x y (z ∷ zs) h (inr m) (inr n) e =
      Ascending-one (key z) high x y zs h.1 m n e
