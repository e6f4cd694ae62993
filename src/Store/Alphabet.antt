-- ===== src/Store/Alphabet.antt =====
-- The order of texts, by which the store sorts.
use Prim.Native.Nat.{Ordering}
use Prim.Native.Char.{Char, code}
use Prim.Native.String.{String, then, compare}
use Prim.Native.String.compare
use harel.Prelude.{
  ◌≡◌, refl, ◌⊎◌, inl, inr, Bool, true, false, ◌||◌, ◌&&◌, ltb, eqb, arith, Bool-cases,
}
use harel.Store.Pending.{text_leb}

by_first :
    (o p : Ordering)
    → (elim (then o p) [ Ordering.gt ↦ false | _ ↦ true ]) ≡ (
        (elim o [ Ordering.lt ↦ true | _ ↦ false ])
        || ((elim o [ Ordering.eq ↦ true | _ ↦ false ])
            && (elim p [ Ordering.gt ↦ false | _ ↦ true ])))
by_first Ordering.lt p = refl
by_first Ordering.eq p = refl
by_first Ordering.gt p = refl

text_leb-cons :
    (c d : Char) (s t : String)
    → text_leb (String.◌∷◌ c s) (String.◌∷◌ d t)
      ≡ (ltb (code c) (code d) || (eqb (code c) (code d) && text_leb s t))
text_leb-cons c d s t = rw (text_leb, compare.cons-cons c d s t) (by_first _ (compare s t))

text_leb-nil : (t : String) → text_leb String.[] t ≡ true
text_leb-nil String.[] = refl
text_leb-nil (String.◌∷◌ d t) = rw (text_leb, compare.nil-cons d t) refl

text_leb-cons_nil : (c : Char) (s : String) → text_leb (String.◌∷◌ c s) String.[] ≡ false
text_leb-cons_nil c s = rw (text_leb, compare.cons-nil c s) refl

-- Of two texts one comes first.
pub text_leb-total : (s t : String) → (text_leb s t ≡ true) ⊎ (text_leb t s ≡ true)
text_leb-total String.[] t = inl (text_leb-nil t)
text_leb-total (String.◌∷◌ c s) String.[] = inr (text_leb-nil (String.◌∷◌ c s))
text_leb-total (String.◌∷◌ c s) (String.◌∷◌ d t) =
    rw (text_leb-cons c d s t, text_leb-cons d c t s)
      (elim (Bool-cases (ltb (code c) (code d))) [
        | inl e ↦ inl (ground (arith, e))
        | inr e ↦ elim (text_leb-total s t) [
          | inl h ↦ elim (Bool-cases (ltb (code d) (code c))) [
            | inl f ↦ inr (ground (arith, f))
            | inr f ↦ inl (ground (arith, e, f, h))
          ]
          | inr h ↦ inr (ground (arith, e, h))
        ]
      ])

-- The order is transitive.
pub text_leb_trans :
    (s t u : String) → text_leb s t ≡ true → text_leb t u ≡ true → text_leb s u ≡ true
text_leb_trans String.[] t u h k = text_leb-nil u
text_leb_trans (String.◌∷◌ c s) String.[] u h k = absurd (ground (arith, h, text_leb-cons_nil c s))
text_leb_trans (String.◌∷◌ c s) (String.◌∷◌ d t) String.[] h k =
    absurd (ground (arith, k, text_leb-cons_nil d t))
text_leb_trans (String.◌∷◌ c s) (String.◌∷◌ d t) (String.◌∷◌ e u) h k = rw (text_leb-cons c e s u) (
    trans_by (code c) (code d) (code e) _ _ _ (text_leb_trans s t u)
      (simp (text_leb-cons c d s t) at h) (simp (text_leb-cons d e t u) at k))
  where
    trans_by :
        (a b c : Prim.Native.Nat.ℕ) (p q r : Bool)
        → (p ≡ true → q ≡ true → r ≡ true)
        → (ltb a b || (eqb a b && p)) ≡ true
        → (ltb b c || (eqb b c && q)) ≡ true
        → (ltb a c || (eqb a c && r)) ≡ true
    trans_by a b c true true r g h k = ground (arith, h, k, g refl refl)
    trans_by a b c false q r g h k = ground (arith, h, k)
    trans_by a b c true false r g h k = ground (arith, h, k)
