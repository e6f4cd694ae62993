-- ===== src/Prelude/Texts.antt =====
-- What the source uses of Python's `str`: equality, `startswith`, `split`, `strip`, and `str(n)`.
use Prim.Native.Nat.{ℕ, zero, suc, ◌+◌, ◌-◌, ◌*◌, ◌/◌, ◌%◌, ◌<◌}
use native.Mathlib.Omega.{arith}
use Prim.Native.Char.{Char, code}
use Prim.Native.String.{String}
use mathlib.Core.Path.{◌≡◌, refl, ap, ◌∙◌}
use mathlib.Core.Logic.{inl, inr}
use mathlib.Core.Bool.{Bool, ◌&&◌, ◌||◌}
use mathlib.Core.List.{List, [], ◌∷◌}
pub use text.Mathlib.Text.{◌==◌, starts_with}
use harel.Prelude.Tests.{Bool-cases, eqb, ltb, if◌then◌else◌}

infixr 65 ◌^^◌
-- `s + t`
abbrev pub ◌^^◌ : String → String → String
s ^^ t = Prim.Native.String.◌++◌ s t

extend_first : Char → List String → List String
extend_first c [] = String.◌∷◌ c String.[] ∷ []
extend_first c (s ∷ rest) = String.◌∷◌ c s ∷ rest

-- `s.split(sep)` for a separator of one character, given by its code.
unfoldable pub split : ℕ → String → List String
unfolding extend_first
split sep String.[] = String.[] ∷ []
split sep (String.◌∷◌ c s) =
    let rest = split sep s in if eqb (code c) sep then String.[] ∷ rest else extend_first c rest

extend_first-some :
    (c : Char) (xs : List String)
    → (x : String) × (rest : List String) × (extend_first c xs ≡ x ∷ rest)
unfolding extend_first
extend_first-some c [] = (_, _, refl)
extend_first-some c (s ∷ rest) = (_, _, refl)

-- There is always a first part.
pub split-some :
    (sep : ℕ) (s : String) → (x : String) × (rest : List String) × (split sep s ≡ x ∷ rest)
unfolding split
split-some sep String.[] = (_, _, refl)
split-some sep (String.◌∷◌ c s) = elim (Bool-cases (eqb (code c) sep)) [
  | inl e ↦ (String.[], split sep s, rw e refl)
  | inr e ↦ let (x, rest, q) = extend_first-some c (split sep s) in (x, rest, rw e q)
]

-- White space below U+0100; the spaces of other scripts are left out.
is_space : ℕ → Bool
is_space c = eqb c 32 || (ltb 8 c && ltb c 14) || (ltb 27 c && ltb c 32) || eqb c 133 || eqb c 160

lstrip : String → String
unfolding is_space
lstrip String.[] = String.[]
lstrip (String.◌∷◌ c s) = let rest = lstrip s in if is_space (code c) then rest else String.◌∷◌ c s

-- `rest` is stripped at its right end already
keep_right : Char → String → String
unfolding is_space
keep_right c String.[] = if is_space (code c) then String.[] else String.◌∷◌ c String.[]
keep_right c (String.◌∷◌ d s) = String.◌∷◌ c (String.◌∷◌ d s)

rstrip : String → String
unfolding keep_right
rstrip String.[] = String.[]
rstrip (String.◌∷◌ c s) = keep_right c (rstrip s)

-- `s.strip()`
unfoldable pub strip : String → String
unfolding lstrip rstrip
strip s = lstrip (rstrip s)

digit : ℕ → String
digit zero = "0"
digit (suc zero) = "1"
digit (suc (suc zero)) = "2"
digit (suc (suc (suc zero))) = "3"
digit (suc (suc (suc (suc zero)))) = "4"
digit (suc (suc (suc (suc (suc zero))))) = "5"
digit (suc (suc (suc (suc (suc (suc zero)))))) = "6"
digit (suc (suc (suc (suc (suc (suc (suc zero))))))) = "7"
digit (suc (suc (suc (suc (suc (suc (suc (suc zero)))))))) = "8"
digit _ = "9"

-- A number below the fuel has fewer digits than the fuel.
digits : ℕ → ℕ → String
unfolding digit
digits zero n = ""
digits (suc f) n =
    let rest = digits f (n / 10) in if ltb n 10 then digit n else rest ^^ digit (n % 10)

-- `str(n)`
unfoldable pub show : ℕ → String
unfolding digits
show n = digits (suc n) n

-- The number that a text of digits writes.
abbrev pub number_from : ℕ → String → ℕ
number_from acc String.[] = acc
number_from acc (String.◌∷◌ c s) = number_from (acc * 10 + (code c - 48)) s

number_from-append :
    (acc : ℕ) (s t : String) → number_from acc (s ^^ t) ≡ number_from (number_from acc s) t
number_from-append acc String.[] t = rw (Prim.Native.String.append.nil t) refl
number_from-append acc (String.◌∷◌ c s) t =
    rw (Prim.Native.String.append.cons c s t) (number_from-append (acc * 10 + (code c - 48)) s t)

number_from-digit : (acc n : ℕ) → n < 10 → number_from acc (digit n) ≡ acc * 10 + n
unfolding digit
number_from-digit acc zero h = refl
number_from-digit acc (suc zero) h = refl
number_from-digit acc (suc (suc zero)) h = refl
number_from-digit acc (suc (suc (suc zero))) h = refl
number_from-digit acc (suc (suc (suc (suc zero)))) h = refl
number_from-digit acc (suc (suc (suc (suc (suc zero))))) h = refl
number_from-digit acc (suc (suc (suc (suc (suc (suc zero)))))) h = refl
number_from-digit acc (suc (suc (suc (suc (suc (suc (suc zero))))))) h = refl
number_from-digit acc (suc (suc (suc (suc (suc (suc (suc (suc zero)))))))) h = refl
number_from-digit acc (suc (suc (suc (suc (suc (suc (suc (suc (suc zero))))))))) h = refl
number_from-digit acc (suc (suc (suc (suc (suc (suc (suc (suc (suc (suc n)))))))))) h =
    absurd (omega arith)

number_from-digits : (f n : ℕ) → n < f → number_from 0 (digits f n) ≡ n
unfolding digits
number_from-digits zero n h = absurd (omega arith)
number_from-digits (suc f) n h = elim (Bool-cases (ltb n 10)) [
  | inl e ↦ rw (e, number_from-digit 0 n (ground (arith, e))) (omega arith)
  | inr e ↦
      let rest = number_from-digits f (n / 10) (ground (arith, e, h)) in
      let last = number_from-digit (n / 10) (n % 10) (omega arith) in
      let whole : n / 10 * 10 + n % 10 ≡ n = omega arith in
      rw (e, number_from-append, rest) (last ∙ whole)
]

pub number_from-show : (n : ℕ) → number_from 0 (show n) ≡ n
unfolding show
number_from-show n = number_from-digits (suc n) n (omega arith)

-- A number is not written as a blank.
pub show-some : (n : ℕ) → show n ≡ "" → ⊥
unfolding show digits digit
show-some zero e = absurd (cc (e))
show-some (suc n) e = absurd (omega (arith, number_from-show (suc n), ap (number_from 0) e))
