-- ===== src/Validate/Cancels.antt =====
-- Lemmas on the handler of a Cancel or an Expired that the engine resolves, and on its targets.
use harel.Prelude.{
  String, ◌≡◌, refl, sym, ap, subst, ◌⊎◌, inl, inr, Bool, true, false, eq_iff, Option, none, some,
  List, [], ◌∷◌, ◌++◌, arith, map, mem, opt_list, is_some, All, In, In-append, Option-cases,
  Bool-cases,
}
use harel.Prelude.Dict
use harel.Prelude.Dict.{Dict}
use harel.Events.{Event}
use harel.Model.{
  Node, top, under, info, path, Transition, EventFilter, Choice, Predicate, Definition,
  is_orthogonal, same,
}
use harel.Model.Navigation.{chain}
use harel.Execution.{Execution}
use harel.Engine.Result.{ok, ◌>>=◌, bind-ok, need}
use harel.Engine.Guard.{kinds, matches}
use harel.Engine.Effects.{Env}
use harel.Engine.Resolve.{Found, resolve, resolve_between, nested, event_pred, filter_matches, tail}
use harel.Engine.Resolve.Innermost.{FirstOf, InnermostOf, Resolved, nested-Resolved}
use harel.Engine.Teardown.{would_be_a_sink, all_sinks}
use harel.Engine.Drain.Ending.{Indexed}
use harel.Validate.{execution_root_of}

-- The transition is the scope's own, and the predicate takes it.
abbrev pub IsFound : (Transition → Bool) → Found → Type 0
IsFound predicate f = In f.transition (info f.scope).transitions × (predicate f.transition ≡ true)

first-IsFound :
    (scope head : Node) (predicate : Transition → Bool) (ts : List Transition) (f : Found)
    → FirstOf scope head predicate ts f
    → (f.scope ≡ scope) × In f.transition ts × (predicate f.transition ≡ true)
first-IsFound scope head predicate [] f h = absurd h
first-IsFound scope head predicate (t ∷ ts) f (inl (e, s, p)) =
    (ap (λ x. x.scope) e, inl (sym (ap (λ x. x.transition) e)), rw e p)
first-IsFound scope head predicate (t ∷ ts) f (inr (n, h)) =
    let (e, i, p) = first-IsFound scope head predicate ts f h in (e, inr i, p)

innermost-IsFound :
    (scope : Node) (rel : List Node) (predicate : Transition → Bool) (f : Found)
    → InnermostOf scope rel predicate f
    → IsFound predicate f
innermost-IsFound scope [] predicate f h = absurd h
innermost-IsFound scope (head ∷ rest) predicate f (inl h) =
    innermost-IsFound head rest predicate f h
innermost-IsFound scope (head ∷ rest) predicate f (inr (n, h)) =
    let (e, i, p) = first-IsFound scope head predicate (info scope).transitions f h in (rw e i, p)

-- The targets that the definition names are in its index.
abbrev pub Linked : Definition → Transition → Type 0
Linked defn t =
    ((p : String) → In p (opt_list t.target) → (n : Node) × (Dict.get p defn.index ≡ some n))
    × ((c : Choice) (p : String)
        → t.choice ≡ some c
        → In p (map (λ (b : Predicate × String). b.1) c.branches ++ opt_list c.default)
        → (n : Node) × (Dict.get p defn.index ≡ some n))

module _ (env : Env) (exe : Execution) where
  -- A possible target is a state that ends the execution.
  abbrev pub Sink : Option Node → Type 0
  Sink o = (n : Node) × (o ≡ some n) × (would_be_a_sink env exe n ≡ ok true)

  pub all_sinks-Sink : (os : List (Option Node)) → All Sink os → all_sinks env exe os ≡ ok true
  unfolding all_sinks
  all_sinks-Sink [] h = refl
  all_sinks-Sink (o ∷ os) ((n, e, s), h) = rw e (rw s (all_sinks-Sink os h))

  pub map-Sink :
      {A : Type 0} (f : A → Option Node) (xs : List A)
      → ((x : A) → In x xs → Sink (f x))
      → All Sink (map f xs)
  map-Sink f [] h = tt
  map-Sink f (x ∷ xs) h = (h x (inl refl), map-Sink f xs (λ y i. h y (inr i)))

mem-In : (s : String) (ss : List String) → mem s ss ≡ true → In s ss
mem-In s [] h = absurd (ground (arith, h))
mem-In s (t ∷ ts) h = ground (arith, h, eq_iff s t, mem-In s ts)

In-value :
    (name : String) (d : Dict String)
    → In name (map (λ (b : String × String). b.1) d)
    → (k : String) × In (k, name) d
In-value name [] m = absurd m
In-value name ((k, v) ∷ d) (inl e) = (k, inl (ap (λ w. (k, w)) e))
In-value name ((k, v) ∷ d) (inr m) = let (j, i) = In-value name d m in (j, inr i)

In-split : {A : Type 0} (x : A) (xs ys : List A) → In x (xs ++ ys) → In x xs ⊎ In x ys
In-split x [] ys m = inr m
In-split x (z ∷ xs) ys (inl e) = inl (inl e)
In-split x (z ∷ xs) ys (inr m) = elim (In-split x xs ys m) [ inl i ↦ inl (inr i) | inr i ↦ inr i ]

pub In-branches :
    (name : String) (mapper : Dict String) (default : Option String)
    → In name (map (λ (b : String × String). b.1) mapper ++ opt_list default)
    → (k : String) × In
        (k, name)
        (elim default [ none ↦ mapper | some target ↦ mapper ++ ("else", target) ∷ [] ])
In-branches name mapper none m = elim (In-split name _ [] m) [
  | inl i ↦ In-value name mapper i
  | inr i ↦ absurd i
]
In-branches name mapper (some d) m = elim (In-split name _ (d ∷ []) m) [
  | inl i ↦
      let (k, j) = In-value name mapper i in
      (k, In-append (k, name) mapper (("else", d) ∷ []) (inl j))
  | inr (inl e) ↦ (
    "else",
    In-append ("else", name) mapper (("else", d) ∷ []) (inr (inl (ap (λ w. ("else", w)) e))),
  )
  | inr (inr i) ↦ absurd i
]

pub matched_kind :
    (env : Env) (ev : Event) (exe : Execution) (t : Transition)
    → event_pred env.floats ev exe.context t ≡ true
    → (ef : EventFilter) × (t.event_filter ≡ some ef) × In ev.kind (kinds ef.kind)
unfolding event_pred filter_matches matches
matched_kind env ev exe t h = elim (Option-cases t.event_filter) [
  | inl e ↦ absurd (ground (arith, h, e))
  | inr (ef, e) ↦ (ef, e, mem-In ev.kind (kinds ef.kind) (ground (arith, h, e)))
]

-- The index holds each node under the node's path, with its ancestors.
abbrev pub WellIndexed : Definition → Type 0
WellIndexed defn =
    (p : String) (n : Node) → Dict.get p defn.index ≡ some n → (path n ≡ p) × Indexed defn n

pub root-Indexed :
    (defn : Definition) (n : Node)
    → Indexed defn n
    → Dict.get (path (execution_root_of n)) defn.index ≡ some (execution_root_of n)
unfolding execution_root_of
root-Indexed defn (top i) x = x
root-Indexed defn (under i p) x = elim (Bool-cases (is_orthogonal p)) [
  | inl e ↦ rw e x.0
  | inr e ↦ rw e (root-Indexed defn p x.1)
]

pub unflagged : {A : Type 0} (o : Option A) → is_some o ≡ false → o ≡ none
unflagged none h = refl
unflagged (some a) h = absurd (ground (arith, h))

-- What the engine resolves is a transition of the scope's own, which the predicate takes.
pub resolve-IsFound :
    (defn : Definition) (exe : Execution) (predicate : Transition → Bool) (f : Found)
    → resolve defn exe predicate true ≡ ok (some f)
    → IsFound predicate f
unfolding resolve resolve_between
resolve-IsFound defn exe predicate f h =
    let (root, _, h1) = bind-ok (need (Dict.get exe.root_path defn.index)) _ h in
    let (p, _, h2) = bind-ok (need exe.active_path) _ h1 in
    let (active, _, h3) = bind-ok (need (Dict.get p defn.index)) _ h2 in
    elim (Bool-cases (same active root)) [
      | inl e ↦ absurd (ground (arith, h3, e))
      | inr e ↦
          let way : (need (chain root active) >>= λ ns. ok (nested root (tail ns) predicate true))
              ≡ ok (some f) =
            ground (arith, h3, e) in
          let (ns, _, h4) = bind-ok (need (chain root active)) _ way in
          let q : nested root (tail ns) predicate true ≡ some f = ground (arith, h4) in
          innermost-IsFound root (tail ns) predicate f
            (subst (Resolved root (tail ns) predicate) q (nested-Resolved predicate root (tail ns)))
    ]
