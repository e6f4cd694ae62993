-- ===== src/Validate.antt =====
-- What src/harel/definition/validate.py asks of a node: its transitions, where an execution ends, and
-- whether a timeout is handled. The checks that use them are the children's.
pub mod Issues
pub mod Reads
pub mod Types
pub mod Fields
pub mod States
pub mod Teardowns
pub mod Reach
pub mod Whole
pub mod Rerun
pub mod Clean
pub mod Branches
pub mod Cancels
pub mod Cancelled
pub mod Endings
pub mod Timeouts
use harel.Prelude.{
  String, Bool, true, false, not, ◌&&◌, ◌||◌, ◌==◌, Option, none, some, List, [], ◌∷◌, ◌++◌,
  is_some, any, keep, mem, if◌then◌else◌,
}
use harel.Model.{Node, top, under, info, path, parent, same, Transition, is_orthogonal}
use harel.Engine.Guard.{kinds}
use harel.Engine.Teardown.{is_empty}

-- `t.source is node`
abbrev pub goes_from : Node → Transition → Bool
goes_from n t = t.source == path n

unfoldable pub ancestor_scopes : Node → List Node
ancestor_scopes (top i) = []
ancestor_scopes (under i p) = p ∷ ancestor_scopes p

unfoldable pub owned_from : Node → List Node → List Transition
owned_from n [] = []
owned_from n (scope ∷ scopes) = keep (goes_from n) (info scope).transitions ++ owned_from n scopes

unfoldable pub all_transitions_from : Node → List Transition
all_transitions_from n = (info n).transitions ++ owned_from n (ancestor_scopes n)

-- A transition of the node's own.
unfoldable pub has_own : Node → Bool
has_own n = any (goes_from n) (all_transitions_from n)

unfoldable pub is_terminal : Node → Bool
is_terminal n =
    if not (is_empty (info n).children) || is_some (info n).invoke then false else not (has_own n)

-- The walk up from a node to the root: the first with a transition of its own.
unfoldable pub catching_from : Node → Node → Option Node
catching_from root (top i) =
    if same (top i) root then none else if has_own (top i) then some (top i) else none
catching_from root (under i p) =
    let rest = catching_from root p in
    if same (under i p) root then none else if has_own (under i p) then some (under i p) else rest

unfoldable pub catching_ancestor : Node → Node → Option Node
catching_ancestor (top i) root = none
catching_ancestor (under i p) root = catching_from root p

unfoldable pub execution_root_of : Node → Node
execution_root_of (top i) = top i
execution_root_of (under i p) =
    let rest = execution_root_of p in if is_orthogonal p then under i p else rest

pub data WhyNotEnding : Type 0 where
  elsewhere : WhyNotEnding
  goes_on : WhyNotEnding
  caught_by : Node → WhyNotEnding

abbrev pub caught : Option Node → Option WhyNotEnding
caught none = none
caught (some n) = some (caught_by n)

-- `none`: it ends the execution.
unfoldable pub why_not_ending : Node → Node → Option WhyNotEnding
why_not_ending target root =
    if not (same (execution_root_of target) root)
    then some elsewhere
    else if not (is_terminal target)
    then some goes_on
    else caught (catching_ancestor target root)

abbrev pub handles_timeout : Transition → Bool
handles_timeout t = elim t.event_filter [ none ↦ false | some ef ↦ mem "Timeout" (kinds ef.kind) ]

unfoldable pub has_timeout_handler : Node → Bool
has_timeout_handler (top i) = false
has_timeout_handler (under i p) =
    any (λ t. goes_from (under i p) t && handles_timeout t) (info p).transitions
    || has_timeout_handler p
