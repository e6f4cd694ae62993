-- ===== src/Validate/Fields.antt =====
-- The checks of src/harel/definition/validate.py on the fields of events and of the context that guards read.
use harel.Prelude.{
  String, Bool, true, false, ◌==◌, not, ◌&&◌, ◌||◌, Option, none, some, List, [], ◌∷◌, ◌++◌, map,
  gather, keep, all, if◌then◌else◌, mem,
}
use harel.Prelude.Dict
use harel.Prelude.Dict.{Dict}
use harel.Events.{FieldSpec, EventType, reserved_events, value_fits}
use harel.Model.{
  Op, eq, member, Source, event, context, EventFilter, Assign, Transition, Node, info, path,
  Definition, is_automatic,
}
use harel.Engine.Guard.{kinds}
use harel.Validate.Issues.{Issue, error, warning, flag, nodes_of}
use harel.Validate.Reads.{
  Leaf, tree_leaves, operands, is_event, is_numeric, event_reads_of, flat_leaves, choice_leaves,
  guard_leaves, expr_refs, all_assignments, distinct,
}
use harel.Validate.Types.{is_unordered, is_number, is_untyped, check_context_ref, check_assignments}

-- The declared specs of a field in each of these kinds of events.
unfoldable pub specs_in : Definition → String → List String → List (Option FieldSpec)
specs_in defn name ks =
    map
      (λ k. elim (Dict.get k defn.events) [ none ↦ none | some etype ↦ Dict.get name etype.fields ])
      ks

abbrev pub has_type : String → Option FieldSpec → Bool
has_type type none = false
has_type type (some spec) = spec.type == type

-- The type that all these specs have; `none`: a spec is missing, they differ, or it is `any`.
unfoldable pub one_type : List (Option FieldSpec) → Option String
one_type [] = none
one_type (none ∷ specs) = none
one_type (some spec ∷ specs) =
    if all (has_type spec.type) specs && not (spec.type == "any") then some spec.type else none

unfoldable pub operand_type : Definition → Transition → Source × String → Option String
operand_type defn t (context, name) = one_type (Dict.get name defn.context_schema ∷ [])
operand_type defn t (event, name) =
    one_type (specs_in defn name (elim t.event_filter [ none ↦ [] | some ef ↦ kinds ef.kind ]))

unfoldable pub comparable : String → String → Bool
comparable a b = a == b || (is_number a && is_number b)

abbrev pub incomparable : Option String → Option String → Bool
incomparable (some a) (some b) = not (comparable a b)
incomparable _ _ = false

abbrev pub is_member : Op → Bool
is_member member = true
is_member _ = false

unfoldable pub check_compared_types : Definition → Node → Transition → Leaf → List Issue
check_compared_types defn node t l = elim l.value_ref [
  | none ↦ []
  | some r ↦
      flag
        (not (is_member l.op)
          && not (l.name == "")
          && not (r.name == "")
          && incomparable (operand_type defn t (l.source, l.name))
              (operand_type defn t (r.source, r.name)))
        "compare_type_mismatch" warning (path node)
]

unfoldable pub check_default : String × FieldSpec → List Issue
check_default (name, spec) = elim spec.default [
  | none ↦ []
  | some v ↦ flag (not (value_fits spec.type v)) "default_type_mismatch" error ""
]

unfoldable pub check_context_defaults : Definition → List Issue
check_context_defaults defn = gather check_default defn.context_schema

-- A read of a guard.
unfoldable pub check_guard_read : Definition → Node → Transition → Op → Source × String → List Issue
check_guard_read defn node t op (context, name) = check_context_ref defn node name op
check_guard_read defn node t op (event, name) =
    flag (is_automatic t) "event_ref_without_event" error (path node)

unfoldable pub check_leaf : Definition → Node → Transition → Leaf → List Issue
check_leaf defn node t l =
    gather (check_guard_read defn node t l.op) (operands l) ++ check_compared_types defn node t l

-- What a `with` reads; the variable of a fan-out is no field.
unfoldable pub check_with_read : Definition → Node → String × String → List Issue
check_with_read defn node (child_key, parent_key) = elim (info node).invoke_each [
  | none ↦ check_context_ref defn node parent_key eq
  | some each ↦ if parent_key == each.0 then [] else check_context_ref defn node parent_key eq
]

unfoldable pub check_collection : Definition → Node → List Issue
check_collection defn node = elim (info node).invoke_each [
  | none ↦ []
  | some each ↦ check_context_ref defn node each.1 eq
]

unfoldable pub check_transition_refs : Definition → Node → Transition → List Issue
check_transition_refs defn node t =
    gather (check_leaf defn node t) (guard_leaves t) ++ check_assignments defn node t

unfoldable pub check_context_refs : Definition → List Issue
check_context_refs defn =
    gather
      (λ node.
        gather (check_with_read defn node) (info node).invoke_with
        ++ (check_collection defn node
            ++ gather (check_transition_refs defn node) (info node).transitions))
      (nodes_of defn)

-- The checks of a kind that is declared with a schema.
unfoldable pub check_fields : Node → EventType → List String → List (String × Op) → List Issue
check_fields node etype names leaves =
    if is_untyped etype.fields
    then []
    else gather (λ f. flag (not (Dict.has f etype.fields)) "unknown_event_field" error (path node))
        names
      ++ gather
          (λ (r : String × Op). elim (Dict.get r.0 etype.fields) [
            | none ↦ []
            | some spec ↦
                flag (is_numeric r.1 && is_unordered spec.type) "op_type_mismatch" warning
                  (path node)
          ])
          leaves

unfoldable pub check_kind :
    Definition → Node → List String → List (String × Op) → String → List Issue
check_kind defn node names leaves kind =
    if mem kind reserved_events then [] else elim (Dict.get kind defn.events) [
      | none ↦ flag true "unknown_event" error (path node)
      | some etype ↦ check_fields node etype names leaves
    ]

-- The fields that are read are a set in the source: each stands once, in the order of the reads here.
unfoldable pub check_event : Definition → Node → EventFilter → List (String × Op) → List Issue
check_event defn node ef extra =
    let leaves =
      flat_leaves ef.predicates ++ (gather event_reads_of (tree_leaves ef.predicate) ++ extra) in
    gather (check_kind defn node (distinct [] (map (λ (r : String × Op). r.0) leaves)) leaves)
      (kinds ef.kind)

abbrev pub set_reads : Transition → List (String × Op)
set_reads t =
    map (λ (r : Source × String). (r.1, eq))
      (keep (λ (r : Source × String). is_event r.0 && not (r.1 == ""))
        (gather (λ (a : Assign). expr_refs a.expr) (all_assignments t)))

unfoldable pub check_transition_event : Definition → Node → Transition → List Issue
check_transition_event defn node t = elim t.event_filter [
  | none ↦ []
  | some ef ↦ check_event defn node ef (gather event_reads_of (choice_leaves t) ++ set_reads t)
]

unfoldable pub check_events : Definition → List Issue
check_events defn =
    gather (λ node. gather (check_transition_event defn node) (info node).transitions)
      (nodes_of defn)
