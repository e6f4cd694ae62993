-- ===== src/Validate/Teardowns.antt =====
-- The checks of src/harel/definition/validate.py on the events that end an execution, and on its terminals.
use harel.Prelude.{
  ℕ, zero, suc, String, ◌==◌, not, ◌&&◌, eqb, Option, none, some, List, [], ◌∷◌, ◌++◌, map,
  opt_list, gather, keep, if◌then◌else◌, mem, is_some,
}
use harel.Prelude.Dict
use harel.Prelude.Dict.{Dict}
use harel.Model.{Node, info, path, Transition, Predicate, Definition, is_orthogonal}
use harel.Model.Navigation.{resolve_relative}
use harel.Engine.Guard.{kinds}
use harel.Engine.Teardown.{is_empty}
use harel.Validate.{why_not_ending, is_terminal, catching_ancestor, execution_root_of}
use harel.Validate.Issues.{Issue, error, warning, flag, nodes_of}
use harel.Validate.States.{is_teardown}

-- A node under a path of the index; the source has the node itself.
abbrev pub at_path : Definition → String → List Node
at_path defn p = opt_list (Dict.get p defn.index)

unfoldable pub choice_targets : Definition → Transition → List Node
choice_targets defn t = elim t.choice [
  | none ↦ []
  | some c ↦
      gather (at_path defn) (map (λ (b : Predicate × String). b.1) c.branches ++ opt_list c.default)
]

unfoldable pub selector_targets : Definition → Node → Transition → List Node
selector_targets defn node t = elim t.selector [
  | none ↦ []
  | some sel ↦
      gather (λ name. opt_list (resolve_relative defn node name))
        (map (λ (b : String × String). b.1) sel.mapper ++ opt_list sel.default)
]

-- Where a teardown transition may lead.
unfoldable pub cancel_targets : Definition → Node → Transition → List Node
cancel_targets defn node t =
    gather (at_path defn) (opt_list t.target)
    ++ (selector_targets defn node t ++ choice_targets defn t)

abbrev pub teardown_code : String → String
teardown_code kind =
    if kind == "Cancel" then "cancel_target_not_terminal" else "expired_target_not_terminal"

unfoldable pub check_ending : Node → String → Node → List Issue
check_ending node kind target =
    flag (is_some (why_not_ending target (execution_root_of node))) (teardown_code kind) error
      (path node)

unfoldable pub check_cancel_target : Definition → Node → Transition → List Issue
check_cancel_target defn node t = elim t.event_filter [
  | none ↦ []
  | some ef ↦
      gather (λ kind. gather (check_ending node kind) (cancel_targets defn node t))
        (keep is_teardown (kinds ef.kind))
]

unfoldable pub check_cancel_targets : Definition → List Issue
check_cancel_targets defn =
    gather (λ node. gather (check_cancel_target defn node) (info node).transitions) (nodes_of defn)

unfoldable pub check_expired : Node → Transition → List Issue
check_expired node t = elim t.event_filter [
  | none ↦ []
  | some ef ↦ flag (mem "Expired" (kinds ef.kind)) "expired_without_ttl" warning (path node)
]

unfoldable pub check_ttl : Definition → List Issue
check_ttl defn = elim defn.ttl [
  | some n ↦ flag (eqb n 0) "ttl_not_positive" error ""
  | none ↦ gather (λ node. gather (check_expired node) (info node).transitions) (nodes_of defn)
]

abbrev pub children_of : Definition → Node → List Node
children_of defn node = gather (at_path defn) (info node).children

-- The subtrees that run as executions of their own.
unfoldable pub execution_roots : Definition → List Node
execution_roots defn = defn.root ∷ gather (children_of defn) (keep is_orthogonal (nodes_of defn))

-- The answers of a walk, joined; `none`: the bound on its depth was met.
abbrev pub join {ℓ} : {A : Type ℓ} → Option (List A) → Option (List A) → Option (List A)
join none ys = none
join (some xs) none = none
join (some xs) (some ys) = some (xs ++ ys)

abbrev pub join_all {ℓ κ} :
    {A : Type ℓ} {B : Type κ} → (A → Option (List B)) → List A → Option (List B)
join_all f [] = some []
join_all f (x ∷ xs) = join (f x) (join_all f xs)

-- The walk down a subtree, of at most this depth.
unfoldable pub terminals_below : Definition → Node → ℕ → Node → Option (List Node)
terminals_below defn root zero node = none
terminals_below defn root (suc n) node =
    let below = join_all (terminals_below defn root n) (children_of defn node) in
    if is_empty (info node).children
    then some
        (if is_terminal node && not (is_some (catching_ancestor node root)) then node ∷ [] else [])
    else if is_orthogonal node
    then some []
    else below

unfoldable pub execution_terminals : Definition → ℕ → Node → Option (List Node)
execution_terminals defn bound root = terminals_below defn root bound root

-- One issue for a terminal, however many executions it ends.
unfoldable pub missing_outcomes : List String → List Node → List Issue
missing_outcomes seen [] = []
missing_outcomes seen (n ∷ ns) =
    let rest = missing_outcomes (path n ∷ seen) ns in
    let again = missing_outcomes seen ns in
    if mem (path n) seen
    then again
    else flag (not (is_some (info n).outcome)) "terminal_missing_outcome" error (path n) ++ rest

unfoldable pub check_terminal_outcomes : Definition → ℕ → Option (List Issue)
check_terminal_outcomes defn bound =
    elim (join_all (execution_terminals defn bound) (execution_roots defn)) [
      | none ↦ none
      | some terminals ↦ some (missing_outcomes [] terminals)
    ]
