-- ===== src/Control.antt =====
-- The check of a redrive target in src/harel/engine/control.py, with a reason for each refusal.
pub mod Redrive
pub mod Commands
pub mod Cancelling
pub mod Quiet
pub mod Suspended
pub mod Cancelled
use harel.Prelude.{String, Bool, true, false, not, Option, none, some, any, if◌then◌else◌}
use harel.Prelude.Dict
use harel.Model.{Node, top, under, path, parent, same, Definition, is_orthogonal, is_composite}
use harel.Model.Navigation.{is_descendant}
use harel.Execution.{Execution, ChildState}
use harel.Engine.Result.{Result, ok, need, ◌>>=◌}

pub data RedriveProblem : Type 0 where
  not_leaf : String → RedriveProblem
  outside : String → RedriveProblem
  in_region : String → RedriveProblem
  unfinished : RedriveProblem

-- The walk from the target's parent: an orthogonal node before the root is passed.
unfoldable pub region_above : Node → Node → Option RedriveProblem
region_above root (top i) = if is_orthogonal (top i) then some (in_region (path (top i))) else none
region_above root (under i p) =
    let rest = region_above root p in
    if is_orthogonal (under i p)
    then some (in_region (path (under i p)))
    else if same (under i p) root
    then none
    else rest

abbrev pub region_from : Node → Option Node → Option RedriveProblem
region_from root none = none
region_from root (some p) = region_above root p

abbrev pub open_child : String × ChildState → Bool
open_child (cid, cs) = not cs.finished

-- The last check: no child is unfinished.
abbrev pub children_problem : Execution → Option RedriveProblem → Option RedriveProblem
children_problem exe (some r) = some r
children_problem exe none = if any open_child exe.children then some unfinished else none

unfoldable pub branch_problem : Execution → Node → Node → Option RedriveProblem
branch_problem exe root node =
    if not (is_descendant node root)
    then some (outside (path node))
    else children_problem exe (region_from root (parent node))

-- `none`: the target is accepted. The root's absence from the index raises KeyError.
unfoldable pub redrive_problem : Definition → Execution → String → Result (Option RedriveProblem)
redrive_problem defn exe target = elim (Dict.get target defn.index) [
  | none ↦ ok (some (not_leaf target))
  | some node ↦
      if is_composite node
      then ok (some (not_leaf target))
      else need (Dict.get exe.root_path defn.index) >>= λ root. ok (branch_problem exe root node)
]
