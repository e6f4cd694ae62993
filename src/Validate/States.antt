-- ===== src/Validate/States.antt =====
-- The checks of src/harel/definition/validate.py on states and on the transitions that leave them.
use harel.Prelude.{
  ℕ, ◌+◌, String, Bool, true, false, ◌==◌, not, ◌&&◌, ◌||◌, eqb, ltb, none, some, List, [], ◌∷◌,
  ◌++◌, map, gather, keep, any, if◌then◌else◌, mem, is_some,
}
use harel.Prelude.Dict
use harel.Prelude.Dict.{Dict}
use harel.Model.{
  Node, top, under, info, path, same, Transition, Selector, Timeout, Definition, is_orthogonal,
  is_automatic,
}
use harel.Model.Navigation.{child, resolve_relative}
use harel.Engine.Guard.{kinds}
use harel.Engine.Teardown.{is_empty}
use harel.Validate.{
  goes_from, all_transitions_from, has_own, execution_root_of, has_timeout_handler,
}
use harel.Validate.Issues.{Issue, error, warning, flag, nodes_of}

-- The branches of a selector with the one of its `else`.
abbrev pub branches_of : Selector → Dict String
branches_of sel = elim sel.default [
  | none ↦ sel.mapper
  | some target ↦ sel.mapper ++ ("else", target) ∷ []
]

unfoldable pub check_branch : Definition → Node → String × String → List Issue
check_branch defn node (result, target) =
    flag (not (is_some (resolve_relative defn node target))) "selector_target_unresolved" error
      (path node)

-- The branches against the declared results.
unfoldable pub check_enum : Node → Selector → List Issue
check_enum node sel = elim sel.enum [
  | none ↦ []
  | some values ↦
      let phantom =
        keep (λ k. not (mem k values)) (map (λ (b : String × String). b.0) sel.mapper) in
      let uncovered = keep (λ v. not (Dict.has v sel.mapper)) values in
      flag (not (is_empty phantom)) "selector_phantom_branch" error (path node)
      ++ flag (not (is_empty uncovered) && not (is_some sel.default)) "selector_non_exhaustive"
          error (path node)
]

abbrev pub has_branches : Dict String → Bool
has_branches [] = false
has_branches (b ∷ bs) = true

unfoldable pub check_selector : Definition → Node → Transition → List Issue
check_selector defn node t = elim t.selector [
  | none ↦ []
  | some sel ↦
      if not (has_branches sel.mapper)
      then flag true "selector_malformed" error (path node)
      else gather (check_branch defn node) (branches_of sel) ++ check_enum node sel
]

unfoldable pub check_selectors : Definition → Node → List Issue
check_selectors defn node = gather (check_selector defn node) (info node).transitions

unfoldable pub check_initial : Definition → Node → List Issue
check_initial defn node =
    if is_empty (info node).children || is_orthogonal node
    then []
    else elim (info node).start_state [
      | none ↦ flag true "missing_initial" error (path node)
      | some s ↦ flag (not (is_some (child defn node s))) "initial_unresolved" error (path node)
    ]

abbrev pub count_of : String → Dict ℕ → ℕ
count_of k counts = elim (Dict.get k counts) [ none ↦ 0 | some n ↦ n ]

-- The automatic transitions counted by their source, in the order in which the sources are met.
unfoldable pub count_sources : List Transition → Dict ℕ → Dict ℕ
count_sources [] counts = counts
count_sources (t ∷ ts) counts =
    count_sources ts (Dict.put t.source (count_of t.source counts + 1) counts)

unfoldable pub automatic_in : Definition → List Transition
automatic_in defn = gather (λ node. keep is_automatic (info node).transitions) (nodes_of defn)

unfoldable pub check_nondeterminism : Definition → List Issue
check_nondeterminism defn =
    gather (λ (c : String × ℕ). flag (ltb 1 c.1) "nondeterministic_automatic" error c.0)
      (count_sources (automatic_in defn) [])

-- A timeout that is no dictionary with one key, and no whole number, has no place in the model.
unfoldable pub check_timeout_value : Node → Timeout → List Issue
check_timeout_value node (Timeout.from_context k) =
    flag (k == "") "timeout_malformed" error (path node)
check_timeout_value node (Timeout.seconds n) = flag (eqb n 0) "timeout_invalid" error (path node)

unfoldable pub check_timeout : Node → List Issue
check_timeout node = elim (info node).timeout [
  | none ↦ []
  | some t ↦
      check_timeout_value node t
      ++ flag (not (has_timeout_handler node)) "timeout_unhandled" warning (path node)
]

unfoldable pub check_outcome : Node → List Issue
check_outcome node =
    if not (is_some (info node).outcome)
    then []
    else if not (is_empty (info node).children)
    then flag true "outcome_on_composite" warning (path node)
    else flag (has_own node) "outcome_on_nonterminal" warning (path node)

unfoldable pub check_with : Node → List Issue
check_with node =
    flag
      (has_branches (info node).invoke_with
        && not (is_some (info node).invoke)
        && not (is_orthogonal node))
      "with_without_children" warning (path node)

unfoldable pub check_invoke : Node → List Issue
check_invoke node =
    if not (is_some (info node).invoke)
    then []
    else flag (not (is_empty (info node).children)) "invoke_on_composite" error (path node)
      ++ flag
          (not (is_some (info node).invoke_each)
            && any (λ t. goes_from node t && is_automatic t) (all_transitions_from node))
          "invoke_automatic_exit" error (path node)

abbrev pub is_teardown : String → Bool
is_teardown kind = kind == "Cancel" || kind == "Expired"

-- Fires on an event that does not just end the execution.
abbrev pub goes_on_event : Transition → Bool
goes_on_event t = elim t.event_filter [
  | none ↦ false
  | some ef ↦ any (λ k. not (is_teardown k)) (kinds ef.kind)
]

-- The walk from a state up to the root of its execution.
unfoldable pub reruns_from : Node → Node → Bool
reruns_from root (top i) = any goes_on_event (all_transitions_from (top i))
reruns_from root (under i p) =
    let rest = reruns_from root p in
    any goes_on_event (all_transitions_from (under i p))
    || (if same (under i p) root then false else rest)

unfoldable pub can_rerun : Node → Bool
can_rerun source =
    is_some (info source).on_activity || reruns_from (execution_root_of source) source

-- A `choose` without an event and without an `else`.
abbrev pub may_wait : Transition → Bool
may_wait t = elim t.choice [ none ↦ false | some c ↦ is_automatic t && not (is_some c.default) ]

unfoldable pub check_choose : Definition → Transition → List Issue
check_choose defn t = elim (Dict.get t.source defn.index) [
  | none ↦ []
  | some source ↦ flag (may_wait t && not (can_rerun source)) "choose_can_hang" error (path source)
]

unfoldable pub check_choose_can_hang : Definition → List Issue
check_choose_can_hang defn =
    gather (λ node. gather (check_choose defn) (info node).transitions) (nodes_of defn)
