-- ===== src/Validate/Reads.antt =====
-- What guards and assignments read, in src/harel/definition/validate.py.
use harel.Prelude.{
  String, Bool, true, false, ◌==◌, Option, none, some, List, [], ◌∷◌, ◌++◌, map, gather, keep,
  if◌then◌else◌, mem,
}
use harel.Model.{
  Op, ordered, Source, event, context, Ref, Predicate, Predicates, leaf, all_of, any_of, negation,
  nil, cons, FlatPredicate, Expr, lit, ref, binary, Assign, Transition,
}

-- A leaf of a guard, without its literal.
pub record Leaf : Type 0 where
  pub source : Source
  pub name : String
  pub op : Op
  pub value_ref : Option Ref

unfoldable mutual
  pub leaves_in : Predicate → List Leaf
  leaves_in (leaf source name op value value_ref) =
      record { source = source; name = name; op = op; value_ref = value_ref } ∷ []
  leaves_in (all_of ps) = leaves_of ps
  leaves_in (any_of ps) = leaves_of ps
  leaves_in (negation p) = leaves_in p

  pub leaves_of : Predicates → List Leaf
  leaves_of nil = []
  leaves_of (cons p ps) = leaves_in p ++ leaves_of ps

unfoldable pub tree_leaves : Option Predicate → List Leaf
tree_leaves none = []
tree_leaves (some p) = leaves_in p

-- A namespace and a field, where the field is named.
abbrev pub reading : Source → String → List (Source × String)
reading source name = if name == "" then [] else (source, name) ∷ []

-- What a leaf reads: its left side, and its right side where that is a reference.
unfoldable pub operands : Leaf → List (Source × String)
operands l =
    reading l.source l.name ++ elim l.value_ref [ none ↦ [] | some r ↦ reading r.source r.name ]

abbrev pub is_event : Source → Bool
is_event event = true
is_event context = false

abbrev pub is_numeric : Op → Bool
is_numeric (ordered o) = true
is_numeric _ = false

-- A field of the event with the operator that it stands under.
unfoldable pub event_reads_of : Leaf → List (String × Op)
event_reads_of l =
    map (λ (r : Source × String). (r.1, l.op))
      (keep (λ (r : Source × String). is_event r.0) (operands l))

unfoldable pub flat_leaves : List FlatPredicate → List (String × Op)
flat_leaves ps = map (λ (p : FlatPredicate). (p.name, p.op)) ps

unfoldable pub choice_leaves : Transition → List Leaf
choice_leaves t = elim t.choice [
  | none ↦ []
  | some c ↦ gather (λ (b : Predicate × String). leaves_in b.0) c.branches
]

-- The leaves of the `where` of a transition, then those of its choice.
unfoldable pub guard_leaves : Transition → List Leaf
guard_leaves t =
    elim t.event_filter [ none ↦ [] | some ef ↦ tree_leaves ef.predicate ] ++ choice_leaves t

-- The references of a right side.
unfoldable pub expr_refs : Expr → List (Source × String)
expr_refs (lit v) = []
expr_refs (ref source name) = (source, name) ∷ []
expr_refs (binary op left right) = expr_refs left ++ expr_refs right

unfoldable pub all_assignments : Transition → List Assign
all_assignments t = elim t.choice [
  | none ↦ t.assignments
  | some c ↦
      t.assignments
      ++ (gather (λ (assigns : List Assign). assigns) c.branch_assignments ++ c.default_assignments)
]

-- A list without what it has said before.
unfoldable pub distinct : List String → List String → List String
distinct said [] = []
distinct said (s ∷ ss) =
    let fresh = distinct (s ∷ said) ss in
    let old = distinct said ss in if mem s said then old else s ∷ fresh
