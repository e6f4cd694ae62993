-- ===== src/Validate/Whole.antt =====
-- `validate` and `validate_or_raise` of src/harel/definition/validate.py.
use harel.Prelude.{ℕ, Option, none, some, List, ◌++◌, any, gather, if◌then◌else◌}
use harel.Model.{Node, Definition}
use harel.Validate.Issues.{Issue, is_error, nodes_of}
use harel.Validate.Fields.{check_events, check_context_refs, check_context_defaults}
use harel.Validate.States.{
  check_selectors, check_initial, check_timeout, check_outcome, check_invoke, check_with,
  check_nondeterminism, check_choose_can_hang,
}
use harel.Validate.Teardowns.{check_cancel_targets, check_ttl, check_terminal_outcomes, join}
use harel.Validate.Reach.{check_reachability}

unfoldable pub check_node : Definition → Node → List Issue
check_node defn node =
    check_selectors defn node
    ++ (check_initial defn node
        ++ (check_timeout node ++ (check_outcome node ++ (check_invoke node ++ check_with node))))

abbrev pub check_references : Definition → List Issue
check_references defn =
    check_events defn
    ++ (check_context_refs defn
        ++ (check_context_defaults defn
            ++ (check_cancel_targets defn ++ (check_choose_can_hang defn ++ check_ttl defn))))

-- All issues. `none`: the bound on the search or on the depth of the tree was met.
unfoldable pub validate : Definition → ℕ → Option (List Issue)
validate defn bound =
    join (some (gather (check_node defn) (nodes_of defn) ++ check_nondeterminism defn)) (
      join (check_reachability defn bound)
        (join (some (check_references defn)) (check_terminal_outcomes defn bound)))

pub data Verdict : Type 0 where
  valid : List Issue → Verdict
  invalid : List Issue → Verdict
  unfinished : Verdict

-- An invalid definition raises ValidationError.
unfoldable pub validate_or_raise : Definition → ℕ → Verdict
validate_or_raise defn bound = elim (validate defn bound) [
  | none ↦ unfinished
  | some issues ↦ if any is_error issues then invalid issues else valid issues
]
