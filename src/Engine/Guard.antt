-- ===== src/Engine/Guard.antt =====
-- Guards: `_compare`, `_eval` and `_matches` of src/harel/engine/core.py.
use harel.Prelude.{
  String, Bool, true, false, not, ◌&&◌, ◌||◌, Option, none, some, List, map, mem, split, strip, all,
}
use harel.Prelude.Dict
use harel.Prelude.Dict.{Dict}
use harel.Value.{Value, Floats, value_eq, value_order, value_in}
use harel.Events.{Event}
use harel.Model.{
  Op, eq, ne, member, ordered, Source, event, context, Ref, Predicate, Predicates, leaf, all_of,
  any_of, negation, nil, cons, FlatPredicate, EventFilter,
}

-- The namespaces that a guard or an expression reads.
pub record Scopes : Type 0 where
  pub event_data : Dict Value
  pub context_data : Dict Value

abbrev pub scope_of : Scopes → Source → Dict Value
scope_of s event = s.event_data
scope_of s context = s.context_data

-- A comparison that raises TypeError fails.
abbrev holds_or_fails : Option Bool → Bool
holds_or_fails none = false
holds_or_fails (some b) = b

-- The alternatives `A | B` of a kind.
unfoldable pub kinds : String → List String
unfolding split strip
kinds kind = map strip (split 124 kind)

module _ (fl : Floats) where
  unfoldable pub compare : Op → Value → Value → Bool
  unfolding value_eq value_order value_in
  compare eq actual expected = value_eq fl actual expected
  compare ne actual expected = not (value_eq fl actual expected)
  compare member actual expected = holds_or_fails (value_in fl actual expected)
  compare (ordered o) actual expected = holds_or_fails (value_order fl o actual expected)

  compare_found : Op → Option Value → Option Value → Bool
  unfolding compare
  compare_found op none other = false
  compare_found op (some v) none = false
  compare_found op (some v) (some w) = compare op v w

  -- A leaf on a field that is absent, on either side, fails.
  eval_leaf : Scopes → Source → String → Op → Value → Option Ref → Bool
  unfolding compare_found Dict.get
  eval_leaf scopes source name op value none =
      compare_found op (Dict.get name (scope_of scopes source)) (some value)
  eval_leaf scopes source name op value (some r) =
      compare_found op (Dict.get name (scope_of scopes source))
        (Dict.get r.name (scope_of scopes r.source))

  unfoldable mutual
    unfolding eval_leaf

    pub eval : Scopes → Predicate → Bool
    eval scopes (leaf source name op value value_ref) =
        eval_leaf scopes source name op value value_ref
    eval scopes (all_of ps) = eval_all scopes ps
    eval scopes (any_of ps) = eval_any scopes ps
    eval scopes (negation p) = not (eval scopes p)

    pub eval_all : Scopes → Predicates → Bool
    eval_all scopes nil = true
    eval_all scopes (cons p ps) = eval scopes p && eval_all scopes ps

    pub eval_any : Scopes → Predicates → Bool
    eval_any scopes nil = false
    eval_any scopes (cons p ps) = eval scopes p || eval_any scopes ps

  flat_holds : Dict Value → FlatPredicate → Bool
  unfolding compare_found Dict.get
  flat_holds d p = compare_found p.op (Dict.get p.name d) (some p.value)

  composite_holds : Scopes → Option Predicate → Bool
  unfolding eval
  composite_holds scopes none = true
  composite_holds scopes (some p) = eval scopes p

  unfoldable pub matches : EventFilter → Event → Dict Value → Bool
  unfolding flat_holds composite_holds kinds
  matches ef ev ctx =
      mem ev.kind (kinds ef.kind)
      && all (flat_holds ev.payload) ef.predicates
      && composite_holds (record { event_data = ev.payload; context_data = ctx }) ef.predicate
