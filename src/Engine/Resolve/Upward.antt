-- ===== src/Engine/Resolve/Upward.antt =====
-- The transition that a `Timeout` takes.
use harel.Prelude.{
  String, ◌≡◌, refl, sym, subst, ◌⊎◌, inl, inr, Bool, Option, none, some, or_else, arith,
}
use harel.Prelude.Dict
use harel.Model.{Node, NodeInfo, top, under, info, Transition, Definition}
use harel.Engine.Resolve.{Found, at_scope, resolve_up, resolve_at}
use harel.Engine.Resolve.Innermost.{FirstOf, NoneOf, at_scope-FirstOf, at_scope-NoneOf}

-- `f` leaves the node, or where none does, the nearest ancestor that a transition leaves.
abbrev pub NearestOf : Node → (Transition → Bool) → Found → Type 0
NearestOf (top i) predicate f = ⊥
NearestOf (under i p) predicate f =
    FirstOf p (under i p) predicate (info p).transitions f
    ⊎ (NoneOf (under i p) predicate (info p).transitions × NearestOf p predicate f)

-- No transition leaves the node or an ancestor.
abbrev pub NoneAbove : Node → (Transition → Bool) → Type 0
NoneAbove (top i) predicate = Unit
NoneAbove (under i p) predicate =
    NoneOf (under i p) predicate (info p).transitions × NoneAbove p predicate

abbrev pub ResolvedUp : Node → (Transition → Bool) → Option Found → Type 0
ResolvedUp n predicate none = NoneAbove n predicate
ResolvedUp n predicate (some f) = NearestOf n predicate f

module _ (defn : Definition) (predicate : Transition → Bool) where
  up_else :
      (i : NodeInfo) (p : Node) (r s : Option Found)
      → at_scope p (under i p) predicate (info p).transitions ≡ r
      → ResolvedUp p predicate s
      → ResolvedUp (under i p) predicate (or_else r s)
  up_else i p (some f) s h k =
      inl (at_scope-FirstOf p (under i p) predicate (info p).transitions f h)
  up_else i p none none h k = (at_scope-NoneOf p (under i p) predicate (info p).transitions h, k)
  up_else i p none (some f) h k =
      inr (at_scope-NoneOf p (under i p) predicate (info p).transitions h, k)

  resolve_up-ResolvedUp : (n : Node) → ResolvedUp n predicate (resolve_up defn n predicate)
  unfolding resolve_up
  resolve_up-ResolvedUp (top i) = tt
  resolve_up-ResolvedUp (under i p) = up_else i p _ _ refl (resolve_up-ResolvedUp p)

  resolve_at_found :
      (p : String) (n : Node)
      → Dict.get p defn.index ≡ some n
      → resolve_at defn p predicate ≡ resolve_up defn n predicate
  unfolding resolve_at
  resolve_at_found p n h = ground (arith, h)

  -- The transition that a `Timeout` at a state takes is the first one that leaves that state, or where
  -- none does that leaves the nearest ancestor with one, never one that leaves an inner state; where
  -- there is none, no transition that the predicate takes leaves the state or an ancestor.
  pub resolve_at-ResolvedUp :
      (p : String) (n : Node)
      → Dict.get p defn.index ≡ some n
      → ResolvedUp n predicate (resolve_at defn p predicate)
  resolve_at-ResolvedUp p n h =
      subst (λ r. ResolvedUp n predicate r) (sym (resolve_at_found p n h)) (resolve_up-ResolvedUp n)
