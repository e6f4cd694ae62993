-- ===== src/Validate/Reach/Ends.antt =====
-- The search of `_reachable` ends: each round looks at a state that was not seen before.
use harel.Prelude.{
  ℕ, zero, suc, ◌+◌, ◌≤◌, String, ◌≡◌, refl, ap, subst, inl, inr, false, ◌==◌, eq_iff, Option, none,
  some, List, [], ◌∷◌, arith, mem, length, gather, opt_list, split-some, All, All-append,
  if◌then◌else◌, Bool-cases, Option-cases,
}
use harel.Prelude.Dict
use harel.Prelude.Dict.{Dict}
use harel.Model.{Node, top, under, info, path, Transition, Definition, is_orthogonal}
use harel.Model.Navigation.{child, first_named, descend_by, descend, resolve_relative}
use harel.Engine.Teardown.{is_empty}
use harel.Validate.Teardowns.{at_path, selector_targets, choice_targets}
use harel.Validate.Reach.{
  Search, visit, visit_all, start_child, entered, successors, search, begin, reachable,
}

-- The entries of the index that are not seen.
abbrev unseen : List String → Dict Node → ℕ
unseen seen [] = 0
unseen seen (e ∷ es) = (if mem e.0 seen then 0 else 1) + unseen seen es

unseen-cons :
    (p : String) (seen : List String) (d : Dict Node) → unseen (p ∷ seen) d ≤ unseen seen d
unseen-cons p seen [] = omega arith
unseen-cons p seen (e ∷ es) = ground (arith, unseen-cons p seen es)

unseen-new :
    (p : String) (seen : List String) (d : Dict Node) (n : Node)
    → Dict.get p d ≡ some n
    → mem p seen ≡ false
    → suc (unseen (p ∷ seen) d) ≤ unseen seen d
unfolding Dict.get
unseen-new p seen [] n h m = absurd (ground (arith, h))
unseen-new p seen ((k, v) ∷ es) n h m = elim (Bool-cases (k == p)) [
  | inl e ↦
      let q = (eq_iff k p).0 e in
      let off : mem k seen ≡ false = rw q m in ground (arith, e, off, unseen-cons p seen es)
  | inr e ↦ ground (arith, e, unseen-new p seen es n (ground (arith, h, e)) m)
]

unseen-length : (seen : List String) (d : Dict Node) → unseen seen d ≤ length d
unseen-length seen [] = omega arith
unseen-length seen (e ∷ es) = ground (arith, unseen-length seen es)

module _ (defn : Definition) where
  -- The index holds a node under the node's path.
  abbrev pub Own : Node → Type 0
  Own n = Dict.get (path n) defn.index ≡ some n

  abbrev left : Search → ℕ
  left s = unseen s.seen defn.index + length s.work

  visit-left : (s : Search) (n : Node) → Own n → left (visit s n) ≤ left s
  unfolding visit
  visit-left s n o = elim (Bool-cases (mem (path n) s.seen)) [
    | inl e ↦ rw e (omega arith)
    | inr e ↦ rw e (omega (arith, unseen-new (path n) s.seen defn.index n o e))
  ]

  visit_all-left : (ns : List Node) (s : Search) → All Own ns → left (visit_all ns s) ≤ left s
  unfolding visit_all
  visit_all-left [] s h = omega arith
  visit_all-left (n ∷ ns) s h = omega (arith, visit-left s n h.0, visit_all-left ns (visit s n) h.1)

  module _ (keyed : (p : String) (n : Node) → Dict.get p defn.index ≡ some n → path n ≡ p) where
    pub get-Own : (p : String) (n : Node) → Dict.get p defn.index ≡ some n → Own n
    get-Own p n h = rw (keyed p n h) h

    opt-Own : (o : Option Node) → ((n : Node) → o ≡ some n → Own n) → All Own (opt_list o)
    opt-Own none h = tt
    opt-Own (some n) h = (h n refl, tt)

    gather-Own :
        {A : Type 0} (f : A → List Node) (xs : List A)
        → ((x : A) → All Own (f x))
        → All Own (gather f xs)
    gather-Own f [] h = tt
    gather-Own f (x ∷ xs) h = All-append Own (f x) (gather f xs) (h x) (gather-Own f xs h)

    at_path-Own : (p : String) → All Own (at_path defn p)
    at_path-Own p = opt-Own (Dict.get p defn.index) (get-Own p)

    first_named-Own :
        (name : String) (ps : List String) (n : Node) → first_named defn name ps ≡ some n → Own n
    unfolding first_named
    first_named-Own name [] n h = absurd (ground (arith, h))
    first_named-Own name (p ∷ ps) n h = elim (Option-cases (Dict.get p defn.index)) [
      | inl e ↦ first_named-Own name ps n (ground (arith, h, e))
      | inr (c, e) ↦ elim (Bool-cases ((info c).name == name)) [
        | inl q ↦ get-Own p n (ground (arith, h, e, q))
        | inr q ↦ first_named-Own name ps n (ground (arith, h, e, q))
      ]
    ]

    child-Own : (node : Node) (name : String) (n : Node) → child defn node name ≡ some n → Own n
    unfolding child
    child-Own node name n h = first_named-Own name (info node).children n h

    descend_by-Own :
        (segs : List String) (o : Option Node) (n : Node)
        → ((m : Node) → o ≡ some m → Own m)
        → descend_by defn segs o ≡ some n
        → Own n
    unfolding descend_by
    descend_by-Own [] o n k h = k n h
    descend_by-Own (seg ∷ segs) none n k h = descend_by-Own segs none n k h
    descend_by-Own (seg ∷ segs) (some m) n k h =
        descend_by-Own segs (child defn m seg) n (child-Own m seg) h

    descend-Own :
        (scope : Node) (name : String) (n : Node) → descend defn scope name ≡ some n → Own n
    unfolding descend descend_by
    descend-Own scope name n h =
        let (seg, segs, e) = split-some 46 name in
        descend_by-Own segs (child defn scope seg) n (child-Own scope seg)
          (subst (λ l. descend_by defn l (some scope) ≡ some n) e h)

    pub resolve_relative-Own :
        (node : Node) (name : String) (n : Node) → resolve_relative defn node name ≡ some n → Own n
    unfolding resolve_relative
    resolve_relative-Own (top i) name n h = descend-Own (top i) name n h
    resolve_relative-Own (under i p) name n h =
        elim (Option-cases (descend defn (under i p) name)) [
          | inl e ↦ resolve_relative-Own p name n (ground (arith, h, e))
          | inr (m, e) ↦ descend-Own (under i p) name n (ground (arith, h, e))
        ]

    start_child-Own : (node : Node) (s : Option String) → All Own (start_child defn node s)
    start_child-Own node none = tt
    start_child-Own node (some s) = elim (Bool-cases (s == "")) [
      | inl e ↦ rw e tt
      | inr e ↦ rw e (opt-Own (child defn node s) (child-Own node s))
    ]

    entered-Own : (node : Node) → All Own (entered defn node)
    unfolding entered
    entered-Own node = elim (Bool-cases (is_empty (info node).children)) [
      | inl e ↦ rw e tt
      | inr e ↦ elim (Bool-cases (is_orthogonal node)) [
        | inl o ↦ rw (e, o) (gather-Own (at_path defn) (info node).children at_path-Own)
        | inr o ↦ rw (e, o) (start_child-Own node (info node).start_state)
      ]
    ]

    selected-Own : (node : Node) (t : Transition) → All Own (selector_targets defn node t)
    unfolding selector_targets
    selected-Own node t = elim (Option-cases t.selector) [
      | inl e ↦ rw e tt
      | inr (sel, e) ↦ rw e (
          gather-Own (λ name. opt_list (resolve_relative defn node name)) _
            (λ name. opt-Own (resolve_relative defn node name) (resolve_relative-Own node name)))
    ]

    chosen-Own : (t : Transition) → All Own (choice_targets defn t)
    unfolding choice_targets
    chosen-Own t = elim (Option-cases t.choice) [
      | inl e ↦ rw e tt
      | inr (c, e) ↦ rw e (gather-Own (at_path defn) _ at_path-Own)
    ]

    pub successors-Own : (node : Node) → All Own (successors defn node)
    unfolding successors
    successors-Own node = All-append Own (entered defn node) _ (entered-Own node) (
        gather-Own _ (info node).transitions (λ t.
          All-append Own (gather (at_path defn) (opt_list t.target)) _
            (gather-Own (at_path defn) (opt_list t.target) at_path-Own)
            (All-append Own (selector_targets defn node t) (choice_targets defn t)
              (selected-Own node t) (chosen-Own t))))

    search_ends :
        (k : ℕ) (s : Search) (work : List Node)
        → s.work ≡ work
        → left s ≤ k
        → (seen : List String) × (search defn k s ≡ some seen)
    unfolding search
    search_ends zero s [] e h = (s.seen, ground (arith, e))
    search_ends (suc k) s [] e h = (s.seen, ground (arith, e))
    search_ends zero s (n ∷ ns) e h = let l = ap length e in absurd (omega (arith, h, l))
    search_ends (suc k) s (n ∷ ns) e h =
        let popped : Search = record s { work = ns } in
        let next = visit_all (successors defn n) popped in
        let l : length s.work ≡ suc (length ns) = ap length e in
        let down = visit_all-left (successors defn n) popped (successors-Own n) in
        let (seen, q) = search_ends k next next.work refl (omega (arith, down, l, h)) in
        (seen, ground (arith, e, q))

    -- The search of `_reachable` ends within as many rounds as the index has entries, where the index
    -- holds each node under the node's path, and the root.
    pub reachable_ends :
        (bound : ℕ)
        → Own defn.root
        → length defn.index ≤ bound
        → (seen : List String) × (reachable defn bound ≡ some seen)
    unfolding reachable visit
    reachable_ends bound o b =
        let new = unseen-new (path defn.root) [] defn.index defn.root o refl in
        let all = unseen-length [] defn.index in
        search_ends bound (begin defn) (begin defn).work refl (omega (arith, new, all, b))
