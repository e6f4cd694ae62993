-- ===== src/Engine/Resolve/Innermost.antt =====
-- Which transitions the resolution by scope finds: the innermost scope's, and in it the first.
use harel.Prelude.{
  ◌≡◌, refl, ◌⊎◌, inl, inr, Bool, true, false, ◌&&◌, ◌==◌, eq_iff, Option, none, some, List, [],
  ◌∷◌, arith, or_else, Option-cases,
}
use harel.Model.{Node, info, path, Transition}
use harel.Model.Navigation.{chain}
use harel.Engine.Result.{ok}
use harel.Engine.Resolve.{Found, at_scope, nested, resolve_between, any_pred, tail}

-- `f` is the first transition out of `head` that the predicate takes.
abbrev pub FirstOf : Node → Node → (Transition → Bool) → List Transition → Found → Type 0
FirstOf scope head predicate [] f = ⊥
FirstOf scope head predicate (t ∷ ts) f =
    ((f ≡ record { scope = scope; transition = t }) × (t.source ≡ path head) × (predicate t ≡ true))
    ⊎ (((t.source == path head && predicate t) ≡ false) × FirstOf scope head predicate ts f)

-- No transition out of `head` is taken by the predicate.
abbrev pub NoneOf : Node → (Transition → Bool) → List Transition → Type 0
NoneOf head predicate [] = Unit
NoneOf head predicate (t ∷ ts) =
    ((t.source == path head && predicate t) ≡ false) × NoneOf head predicate ts

-- No scope along the way down has a transition that the predicate takes.
abbrev pub NoneBelow : Node → List Node → (Transition → Bool) → Type 0
NoneBelow scope [] predicate = Unit
NoneBelow scope (head ∷ rest) predicate =
    NoneOf head predicate (info scope).transitions × NoneBelow head rest predicate

-- `f` is the first of the innermost scope along the way down that has one.
abbrev pub InnermostOf : Node → List Node → (Transition → Bool) → Found → Type 0
InnermostOf scope [] predicate f = ⊥
InnermostOf scope (head ∷ rest) predicate f =
    InnermostOf head rest predicate f
    ⊎ (NoneBelow head rest predicate × FirstOf scope head predicate (info scope).transitions f)

module _ (scope head : Node) (predicate : Transition → Bool) where
  pub at_scope-FirstOf :
      (ts : List Transition) (f : Found)
      → at_scope scope head predicate ts ≡ some f
      → FirstOf scope head predicate ts f
  unfolding at_scope
  at_scope-FirstOf [] f h = absurd (ground arith)
  at_scope-FirstOf (t ∷ ts) f h = ground (arith, at_scope-FirstOf ts f, eq_iff t.source (path head))

  pub at_scope-NoneOf :
      (ts : List Transition) → at_scope scope head predicate ts ≡ none → NoneOf head predicate ts
  unfolding at_scope
  at_scope-NoneOf [] h = tt
  at_scope-NoneOf (t ∷ ts) h = ground (arith, at_scope-NoneOf ts)

  at_scope_any :
      (ts : List Transition)
      → at_scope scope head any_pred ts ≡ none
      → at_scope scope head predicate ts ≡ none
  unfolding at_scope
  at_scope_any [] h = refl
  at_scope_any (t ∷ ts) h = ground (arith, at_scope_any ts)

-- What a resolution answers is the innermost transition, or there is none on the way.
abbrev pub Resolved : Node → List Node → (Transition → Bool) → Option Found → Type 0
Resolved scope rel predicate none = NoneBelow scope rel predicate
Resolved scope rel predicate (some f) = InnermostOf scope rel predicate f

module _ (predicate : Transition → Bool) where
  at_scope-Resolved :
      (scope head : Node) (r : Option Found)
      → at_scope scope head predicate (info scope).transitions ≡ r
      → Resolved scope (head ∷ []) predicate r
  at_scope-Resolved scope head none h =
      (at_scope-NoneOf scope head predicate (info scope).transitions h, tt)
  at_scope-Resolved scope head (some f) h =
      inr (tt, at_scope-FirstOf scope head predicate (info scope).transitions f h)

  Resolved-else :
      (scope head : Node) (rest : List Node) (r s : Option Found)
      → Resolved head rest predicate r
      → at_scope scope head predicate (info scope).transitions ≡ s
      → Resolved scope (head ∷ rest) predicate (or_else r s)
  Resolved-else scope head rest (some f) s k h = inl k
  Resolved-else scope head rest none none k h =
      (at_scope-NoneOf scope head predicate (info scope).transitions h, k)
  Resolved-else scope head rest none (some f) k h =
      inr (k, at_scope-FirstOf scope head predicate (info scope).transitions f h)

  -- With the parent fallback, the resolution of the chain of nodes below a scope answers the first
  -- transition in document order, out of the node of that chain which stands in it, of the innermost
  -- scope that has one which the predicate takes; or none, and no scope on the way has one.
  pub nested-Resolved :
      (scope : Node) (rel : List Node)
      → Resolved scope rel predicate (nested scope rel predicate true)
  unfolding nested
  nested-Resolved scope [] = tt
  nested-Resolved scope (head ∷ []) = at_scope-Resolved scope head _ refl
  nested-Resolved scope (head ∷ next ∷ rest) =
      Resolved-else scope head (next ∷ rest) (nested head (next ∷ rest) predicate true) _
        (nested-Resolved head (next ∷ rest)) refl

  pub nested_any :
      (scope : Node) (rel : List Node) (allow : Bool)
      → nested scope rel any_pred allow ≡ none
      → nested scope rel predicate allow ≡ none
  unfolding nested
  nested_any scope [] allow h = refl
  nested_any scope (head ∷ []) allow h =
      at_scope_any scope head predicate (info scope).transitions h
  nested_any scope (head ∷ next ∷ rest) allow h = ground (
    arith,
    nested_any head (next ∷ rest) true,
    at_scope_any scope head predicate (info scope).transitions,
  )

  -- Where no transition at all leaves a node's scopes, none does that a predicate takes.
  pub resolve_between_any :
      (root active : Node) (allow : Bool)
      → resolve_between root active any_pred allow ≡ ok none
      → resolve_between root active predicate allow ≡ ok none
  unfolding resolve_between
  resolve_between_any root active allow h = elim (Option-cases (chain root active)) [
    | inl e ↦ ground (arith, e)
    | inr (ns, e) ↦ ground (arith, e, nested_any root (tail ns) allow)
  ]
