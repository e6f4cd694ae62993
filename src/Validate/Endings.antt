-- ===== src/Validate/Endings.antt =====
-- The rule of the validation for a target that ends its execution, against the engine's.
use harel.Prelude.{
  ◌≡◌, refl, ap, subst, ◌⊎◌, inl, inr, Bool, true, false, not, ◌&&◌, ◌||◌, eq_iff, Option, none,
  some, List, [], ◌∷◌, ◌++◌, arith, any, keep, Bool-cases,
}
use harel.Prelude.Dict
use harel.Model.{
  Node, NodeInfo, top, under, info, path, same, Transition, Definition, is_orthogonal,
}
use harel.Model.Navigation.{is_descendant, climb, chain}
use harel.Execution.{Execution}
use harel.Engine.Result.{ok}
use harel.Engine.Effects.{Env}
use harel.Engine.Resolve.{at_scope, nested, resolve_between, any_pred}
use harel.Engine.Teardown.{would_be_a_sink, sinks_up}
use harel.Engine.Drain.Ending.{Indexed}
use harel.Validate.{
  goes_from, ancestor_scopes, owned_from, all_transitions_from, has_own, is_terminal, catching_from,
  catching_ancestor, execution_root_of, why_not_ending, caught,
}

any-append :
    (p : Transition → Bool) (xs ys : List Transition) → any p (xs ++ ys) ≡ (any p xs || any p ys)
any-append p [] ys = refl
any-append p (x ∷ xs) ys = ground (arith, any-append p xs ys)

at_scope-keep :
    (scope n : Node) (ts : List Transition)
    → any (goes_from n) (keep (goes_from n) ts) ≡ false
    → at_scope scope n any_pred ts ≡ none
unfolding at_scope
at_scope-keep scope n [] h = refl
at_scope-keep scope n (t ∷ ts) h = ground (arith, at_scope-keep scope n ts)

at_scope_bare :
    (p : Node) (i : NodeInfo)
    → has_own (under i p) ≡ false
    → at_scope p (under i p) any_pred (info p).transitions ≡ none
unfolding has_own all_transitions_from owned_from ancestor_scopes
at_scope_bare p i h =
    let kept = keep (goes_from (under i p)) (info p).transitions in
    let above = owned_from (under i p) (ancestor_scopes p) in
    let outer = any-append (goes_from (under i p)) i.transitions (kept ++ above) in
    let inner = any-append (goes_from (under i p)) kept above in
    at_scope-keep p (under i p) (info p).transitions (ground (arith, outer, inner, h))

-- No scope on the way down has a transition.
abbrev Bare : Node → List Node → Type 0
Bare scope [] = Unit
Bare scope (head ∷ rest) =
    (at_scope scope head any_pred (info scope).transitions ≡ none) × Bare head rest

nested-Bare :
    (scope : Node) (rel : List Node) (allow : Bool)
    → Bare scope rel
    → nested scope rel any_pred allow ≡ none
unfolding nested
nested-Bare scope [] allow h = refl
nested-Bare scope (head ∷ []) allow h = h.0
nested-Bare scope (head ∷ next ∷ rest) allow h =
    ground (arith, h.0, nested-Bare head (next ∷ rest) true (h.1))

module _ (defn : Definition) (root : Node)
    (at_root : Dict.get (path root) defn.index ≡ some root) where
  indexed_root : (n : Node) → Dict.get (path n) defn.index ≡ some n → same n root ≡ true → n ≡ root
  indexed_root n h e =
      let k = ap (λ p. Dict.get p defn.index) ((eq_iff (path n) (path root)).0 e) in
      ground (arith, h, k, at_root)

  climb-Bare :
      (cur : Node) (out : List Node)
      → Indexed defn cur
      → is_descendant cur root ≡ true
      → catching_from root cur ≡ none
      → Bare cur out
      → (ns : List Node) × (climb root out cur ≡ some (root ∷ ns)) × Bare root ns
  unfolding climb is_descendant catching_from
  climb-Bare (top i) out x d c b =
      let q = indexed_root (top i) x d in
      (out, rw d (ap (λ n. some (n ∷ out)) q), subst (λ n. Bare n out) q b)
  climb-Bare (under i p) out x d c b = elim (Bool-cases (same (under i p) root)) [
    | inl e ↦
        let q = indexed_root (under i p) (x.0) e in
        (out, rw e (ap (λ n. some (n ∷ out)) q), subst (λ n. Bare n out) q b)
    | inr e ↦
        let own : has_own (under i p) ≡ false = ground (arith, e, c) in
        let (ns, q, k) =
          climb-Bare p (under i p ∷ out) (x.1) (ground (arith, e, d)) (ground (arith, e, c))
            (at_scope_bare p i own, b) in
        (ns, rw e q, k)
  ]

  resolve_between_bare :
      (n : Node)
      → Indexed defn n
      → is_descendant n root ≡ true
      → catching_from root n ≡ none
      → resolve_between root n any_pred false ≡ ok none
  unfolding resolve_between chain
  resolve_between_bare n x d c =
      let (ns, q, k) = climb-Bare n [] x d c tt in
      rw q (ground (arith, nested-Bare root ns false k))

  root-is_descendant :
      (n : Node) → same (execution_root_of n) root ≡ true → is_descendant n root ≡ true
  unfolding execution_root_of is_descendant
  root-is_descendant (top i) h = h
  root-is_descendant (under i p) h = ground (arith, root-is_descendant p)

  sinks_up_bare :
      (n : Node) (first : Bool)
      → Indexed defn n
      → same (execution_root_of n) root ≡ true
      → catching_from root n ≡ none
      → (same n root ≡ true) ⊎ ((not first && is_orthogonal n) ≡ false)
      → sinks_up defn root first n ≡ ok true
  unfolding sinks_up catching_from execution_root_of
  sinks_up_bare (top i) first x h c o = ground (arith, h)
  sinks_up_bare (under i p) first x h c o = elim (Bool-cases (same (under i p) root)) [
    | inl e ↦ rw e refl
    | inr e ↦
        let plain : is_orthogonal p ≡ false = ground (arith, h, e) in
        let above =
          sinks_up_bare p false (x.1) (ground (arith, h, e)) (ground (arith, c, e)) (inr plain) in
        let r = resolve_between_bare (under i p) x (root-is_descendant (under i p) h) c in
        ground (arith, r, above, o, e)
  ]

caught-none : (n : Option Node) → caught n ≡ none → n ≡ none
caught-none none h = refl
caught-none (some n) h = absurd (ground arith)

target_uncaught :
    (root target : Node)
    → same (execution_root_of target) root ≡ true
    → is_terminal target ≡ true
    → catching_ancestor target root ≡ none
    → catching_from root target ≡ none
unfolding catching_from catching_ancestor execution_root_of is_terminal
target_uncaught root (top i) h t c = ground (arith, h)
target_uncaught root (under i p) h t c = ground (arith, t, c)

-- Where the validation accepts a target as one that ends its execution, the engine's own check accepts it
-- too: `_would_be_a_sink` answers True and does not raise. The definition indexes the target with its
-- ancestors and the execution's root.
pub ending_sink :
    (env : Env) (exe : Execution) (root target : Node)
    → exe.root_path ≡ path root
    → Dict.get (path root) env.defn.index ≡ some root
    → Indexed env.defn target
    → why_not_ending target root ≡ none
    → would_be_a_sink env exe target ≡ ok true
unfolding would_be_a_sink why_not_ending is_terminal
ending_sink env exe root target p r x h =
    let own : same (execution_root_of target) root ≡ true = ground (arith, h) in
    let sink : is_terminal target ≡ true = ground (arith, h) in
    let free = caught-none (catching_ancestor target root) (ground (arith, h)) in
    let found : Dict.get exe.root_path env.defn.index ≡ some root = rw p r in
    let walk =
      sinks_up_bare env.defn root r target true x own (target_uncaught root target own sink free)
        (inr refl) in
    let below = root-is_descendant env.defn root r target own in
    ground (arith, found, walk, below, sink)
