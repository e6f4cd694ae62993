-- ===== src/Engine/Teardown.antt =====
-- Checks of src/harel/engine/core.py that decide without running anything: `definition_problem`, the
-- handlers of errors and cancels, whether a target ends the execution at once, and the safe targets
-- of a reposition.
pub mod Reposition
pub mod Drivable
use harel.Prelude.{
  opt_list, String, Bool, true, false, not, ◌&&◌, ◌||◌, ◌==◌, Option, none, some, List, [], ◌∷◌,
  ◌++◌, is_some, map, keep, if◌then◌else◌,
}
use harel.Prelude.Dict
use harel.Prelude.Dict.{Dict}
use harel.Events.{Event}
use harel.Model.{Node, top, under, info, parent, same, Definition, is_orthogonal, is_composite}
use harel.Model.Navigation.{is_descendant, resolve_relative}
use harel.Execution.{Execution, Status, is_running}
use harel.Engine.Result.{Result, ok, raised, stuck, need, ◌>>=◌}
use harel.Engine.Effects.{Env}
use harel.Engine.Resolve.{Found, resolve, resolve_between, event_pred, any_pred}

-- Why a definition cannot drive an execution.
pub data DefinitionProblem : Type 0 where
  states_gone : List String → DefinitionProblem
  digest_changed : String → String → DefinitionProblem

abbrev drivable : Status → Bool
drivable Status.running = true
drivable Status.cancelling = true
drivable _ = false

unfoldable pub digests_differ : Option String → Option String → Option DefinitionProblem
digests_differ (some d) (some e) = if d == e then none else some (digest_changed d e)
digests_differ _ _ = none

unfoldable pub gone : Definition → String → Bool
gone defn p = not (p == "") && not (Dict.has p defn.index)

unfoldable pub states_missing : Definition → Execution → List String → Option DefinitionProblem
states_missing defn exe [] = digests_differ exe.definition_digest defn.digest
states_missing defn exe (p ∷ ps) = some (states_gone (p ∷ ps))

unfoldable pub definition_problem : Definition → Execution → Option DefinitionProblem
definition_problem defn exe = elim exe.active_path [
  | none ↦ none
  | some p ↦
      if not (drivable exe.status)
      then none
      else states_missing defn exe (keep (gone defn) (exe.root_path ∷ p ∷ []))
]

-- The walk of `_would_be_a_sink` from `cur` up to the root. `first`: `cur` is the target itself.
unfoldable pub sinks_up : Definition → Node → Bool → Node → Result Bool
sinks_up defn root first (top i) =
    if same (top i) root
    then ok true
    else if not first && is_orthogonal (top i)
    then ok false
    else resolve_between root (top i) any_pred false >>= λ r.
        if is_some r then ok false else raised stuck
sinks_up defn root first (under i p) =
    let rest = sinks_up defn root false p in
    if same (under i p) root
    then ok true
    else if not first && is_orthogonal (under i p)
    then ok false
    else resolve_between root (under i p) any_pred false >>= λ r.
        if is_some r then ok false else rest

abbrev pub is_empty : List String → Bool
is_empty [] = true
is_empty (p ∷ ps) = false

module _ (env : Env) where
  unfoldable pub would_be_a_sink : Execution → Node → Result Bool
  would_be_a_sink exe target =
      let walk : Result Bool = (do
        root ← need (Dict.get exe.root_path env.defn.index)
        if not (is_descendant target root) then ok false else sinks_up env.defn root true target) in
      if not (is_empty (info target).children) || is_some (info target).invoke
      then ok false
      else walk

  unfoldable pub has_error_handler : Execution → Event → Result Bool
  has_error_handler exe ev =
      let found : Result Bool = (do
        r ← resolve env.defn exe (event_pred env.floats ev exe.context) true
        ok (is_some r)) in
      if not (is_some exe.active_path) || not (is_running exe.status) then ok false else found

  -- Every target is a node that would end the execution; a name that leads nowhere is none.
  unfoldable pub all_sinks : Execution → List (Option Node) → Result Bool
  all_sinks exe [] = ok true
  all_sinks exe (none ∷ targets) = ok false
  all_sinks exe (some n ∷ targets) = do
    b ← would_be_a_sink exe n
    if b then all_sinks exe targets else ok false

  -- All the targets that a transition may have.
  unfoldable pub targets_of : Found → List (Option Node)
  targets_of found = elim found.transition.target [
    | some p ↦ Dict.get p env.defn.index ∷ []
    | none ↦ elim found.transition.choice [
      | some c ↦
          map (λ p. Dict.get p env.defn.index) (map (λ b. b.1) c.branches ++ opt_list c.default)
      | none ↦ elim found.transition.selector [
        | some s ↦
            map (resolve_relative env.defn found.scope)
              (map (λ b. b.1) s.mapper ++ opt_list s.default)
        | none ↦ []
      ]
    ]
  ]

  unfoldable pub safe_teardown : Execution → Event → Result (Option Found)
  safe_teardown exe ev =
      let found : Result (Option Found) = (do
        r ← resolve env.defn exe (event_pred env.floats ev exe.context) true
        elim r [
          | none ↦ ok none
          | some f ↦ all_sinks exe (targets_of f) >>= λ b. if b then ok (some f) else ok none
        ]) in
      if not (is_some exe.active_path) then ok none else found

  unfoldable pub has_cancel_handler : Execution → Event → Result Bool
  has_cancel_handler exe ev = safe_teardown exe ev >>= λ r. ok (is_some r)

-- The walk up from the parent of a reposition target: no orthogonal ancestor before the root.
unfoldable pub clear_way : Node → Node → Bool
clear_way root (top i) = not (is_orthogonal (top i)) && same (top i) root
clear_way root (under i p) =
    not (is_orthogonal (under i p)) && (same (under i p) root || clear_way root p)

unfoldable pub way_from : Node → Option Node → Bool
way_from root none = false
way_from root (some p) = clear_way root p

unfoldable pub is_valid_reposition_target : Definition → Execution → String → Result Bool
is_valid_reposition_target defn exe target_path = elim (Dict.get target_path defn.index) [
  | none ↦ ok false
  | some node ↦
      if is_composite node
      then ok false
      else need (Dict.get exe.root_path defn.index) >>= λ root. ok (way_from root (parent node))
]
