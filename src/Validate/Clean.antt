-- ===== src/Validate/Clean.antt =====
-- What a definition that `validate_or_raise` accepts has.
use harel.Prelude.{
  ℕ, String, ◌≡◌, refl, sym, subst, inl, inr, Bool, true, false, Option, none, some, List, [], ◌∷◌,
  ◌++◌, arith, any, gather, map, In,
}
use harel.Prelude.Dict
use harel.Prelude.Dict.{Dict}
use harel.Model.{Node, path, Definition}
use harel.Validate.Issues.{Issue, is_error, error, flag, nodes_of}
use harel.Validate.States.{check_selectors, check_nondeterminism}
use harel.Validate.Fields.{check_events, check_context_refs, check_context_defaults}
use harel.Validate.Teardowns.{check_cancel_targets, join}
use harel.Validate.Whole.{validate, validate_or_raise, valid, check_node, check_references}

-- No issue is an error.
abbrev pub Clean : List Issue → Type 0
Clean issues = any is_error issues ≡ false

pub Clean-append : (xs ys : List Issue) → Clean (xs ++ ys) → Clean xs × Clean ys
Clean-append [] ys h = (refl, h)
Clean-append (x ∷ xs) ys h =
    let (a, b) = Clean-append xs ys (ground (arith, h)) in (ground (arith, h, a), b)

pub Clean-gather :
    {A : Type 0} (f : A → List Issue) (x : A) (xs : List A)
    → In x xs
    → Clean (gather f xs)
    → Clean (f x)
Clean-gather f x [] m h = absurd m
Clean-gather f x (y ∷ xs) (inl e) h =
    subst (λ z. Clean (f z)) e ((Clean-append (f y) (gather f xs) h).0)
Clean-gather f x (y ∷ xs) (inr m) h = Clean-gather f x xs m ((Clean-append (f y) (gather f xs) h).1)

pub Clean-flag : (b : Bool) (code path : String) → Clean (flag b code error path) → b ≡ false
Clean-flag true code path h = absurd (ground (arith, h))
Clean-flag false code path h = refl

In-values :
    (p : String) (n : Node) (d : Dict Node)
    → Dict.get p d ≡ some n
    → In n (map (λ (e : String × Node). e.1) d)
unfolding Dict.get
In-values p n [] h = absurd (ground (arith, h))
In-values p n ((q, m) ∷ d) h = ground (arith, h, In-values p n d)

pub In-nodes_of :
    (defn : Definition) (p : String) (n : Node)
    → Dict.get p defn.index ≡ some n
    → In n (nodes_of defn)
In-nodes_of defn p n h = In-values p n defn.index h

module _ (defn : Definition) (bound : ℕ) (issues : List Issue) where
  valid-Clean :
      validate_or_raise defn bound ≡ valid issues
      → (validate defn bound ≡ some issues) × Clean issues
  unfolding validate_or_raise
  valid-Clean h = (ground (arith, h), ground (arith, h))

  join-some :
      (a : List Issue) (o : Option (List Issue)) (all : List Issue)
      → join (some a) o ≡ some all
      → (b : List Issue) × (o ≡ some b) × (a ++ b ≡ all)
  join-some a none all h = absurd (ground (arith, h))
  join-some a (some b) all h = (b, refl, ground (arith, h))

  join-parts :
      (o p : Option (List Issue)) (all : List Issue)
      → join o p ≡ some all
      → (a : List Issue) × (b : List Issue) × (o ≡ some a) × (p ≡ some b) × (a ++ b ≡ all)
  join-parts none p all h = absurd (ground (arith, h))
  join-parts (some a) p all h = let (b, e, q) = join-some a p all h in (a, b, refl, e, q)

  -- The checks of each state, and those of references, have found no error.
  pub valid_parts :
      validate_or_raise defn bound ≡ valid issues
      → Clean (gather (check_node defn) (nodes_of defn)) × Clean (check_references defn)
  unfolding validate
  valid_parts h =
      let (v, c) = valid-Clean h in
      let (rest, e, q) =
        join-some (gather (check_node defn) (nodes_of defn) ++ check_nondeterminism defn) _ issues
          v in
      let (reach, more, _, e', q') = join-parts _ _ rest e in
      let (last, _, q'') = join-some _ _ more e' in
      let first =
        Clean-append (gather (check_node defn) (nodes_of defn) ++ check_nondeterminism defn) rest
          (subst Clean (sym q) c) in
      let second = Clean-append reach more (subst Clean (sym q') (first.1)) in
      let third = Clean-append (check_references defn) last (subst Clean (sym q'') (second.1)) in
      (
        (Clean-append (gather (check_node defn) (nodes_of defn)) (check_nondeterminism defn)
            (first.0)).0,
        third.0,
      )

  module _ (h : validate_or_raise defn bound ≡ valid issues) where
    pub valid_node : (n : Node) → In n (nodes_of defn) → Clean (check_node defn n)
    valid_node n m = Clean-gather (check_node defn) n (nodes_of defn) m (valid_parts h).0

    pub valid_selectors : (n : Node) → In n (nodes_of defn) → Clean (check_selectors defn n)
    unfolding check_node
    valid_selectors n m = (Clean-append (check_selectors defn n) _ (valid_node n m)).0

    pub valid_cancels : Clean (check_cancel_targets defn)
    valid_cancels =
        let events = Clean-append (check_events defn) _ (valid_parts h).1 in
        let refs = Clean-append (check_context_refs defn) _ events.1 in
        let defaults = Clean-append (check_context_defaults defn) _ refs.1 in
        (Clean-append (check_cancel_targets defn) _ defaults.1).0
