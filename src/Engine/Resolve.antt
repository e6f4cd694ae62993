-- ===== src/Engine/Resolve.antt =====
-- The resolution of transitions in src/harel/engine/core.py: `_nested`, `_resolve_between`, `_resolve_at`
-- and the predicates over transitions, with the choice of a `choose` and the assignments of a
-- transition. `_resolve` reads the two nodes from the execution.
pub mod Innermost
pub mod Automatic
pub mod Upward
use harel.Prelude.{
  ℕ, zero, suc, String, Bool, true, false, not, ◌&&◌, ◌||◌, ◌==◌, Option, none, some, List, [], ◌∷◌,
  ◌++◌, is_some, if◌then◌else◌, get_elem?, or_else, any,
}
use harel.Prelude.Dict
use harel.Prelude.Dict.{Dict}
use harel.Value.{Value, Floats}
use harel.Events.{Event}
use harel.Model.{
  Node, top, under, info, path, same, Transition, Choice, Predicate, Assign, Definition,
  is_automatic,
}
use harel.Model.Navigation.{chain}
use harel.Execution.{Execution}
use harel.Engine.Result.{Result, ok, need, ◌>>=◌}
use harel.Engine.Guard.{Scopes, eval, matches}

pub record Found : Type 0 where
  pub scope : Node
  pub transition : Transition

-- The first transition of `scope` out of `head` that the predicate takes.
unfoldable pub at_scope : Node → Node → (Transition → Bool) → List Transition → Option Found
at_scope scope head predicate [] = none
at_scope scope head predicate (t ∷ ts) =
    let rest = at_scope scope head predicate ts in
    if t.source == path head && predicate t
    then some (record { scope = scope; transition = t })
    else rest

-- `rel` leads from a child of `scope` down to the active node.
unfoldable pub nested : Node → List Node → (Transition → Bool) → Bool → Option Found
nested scope [] predicate allow_parent = none
nested scope (head ∷ []) predicate allow_parent =
    at_scope scope head predicate (info scope).transitions
nested scope (head ∷ next ∷ rest) predicate allow_parent =
    or_else (nested head (next ∷ rest) predicate true)
      (if allow_parent then at_scope scope head predicate (info scope).transitions else none)

abbrev pub tail : List Node → List Node
tail [] = []
tail (n ∷ ns) = ns

unfoldable pub resolve_between : Node → Node → (Transition → Bool) → Bool → Result (Option Found)
resolve_between root active predicate allow_parent =
    if same active root
    then ok none
    else need (chain root active) >>= λ ns. ok (nested root (tail ns) predicate allow_parent)

module _ (defn : Definition) where
  unfoldable pub resolve : Execution → (Transition → Bool) → Bool → Result (Option Found)
  resolve exe predicate allow_parent = do
    root ← need (Dict.get exe.root_path defn.index)
    p ← need exe.active_path
    active ← need (Dict.get p defn.index)
    resolve_between root active predicate allow_parent

  -- A `Timeout` at a node: the node itself, then its ancestors, never an inner state.
  unfoldable pub resolve_up : Node → (Transition → Bool) → Option Found
  resolve_up (top i) predicate = none
  resolve_up (under i p) predicate =
      or_else (at_scope p (under i p) predicate (info p).transitions) (resolve_up p predicate)

  unfoldable pub resolve_at : String → (Transition → Bool) → Option Found
  resolve_at p predicate = elim (Dict.get p defn.index) [
    | none ↦ none
    | some n ↦ resolve_up n predicate
  ]

  -- Whether `p` is in the active configuration.
  unfoldable pub is_active : Execution → String → Result Bool
  is_active exe p =
      let walk : Result Bool = (do
        root ← need (Dict.get exe.root_path defn.index)
        at ← need exe.active_path
        active ← need (Dict.get at defn.index)
        ns ← need (chain root active)
        ok (any (λ n. path n == p) ns)) in
      if not (is_some exe.active_path) || not (Dict.has p defn.index) then ok false else walk

module _ (fl : Floats) where
  unfoldable pub first_holding : Scopes → ℕ → List (Predicate × String) → Option ℕ
  first_holding scopes i [] = none
  first_holding scopes i ((guard, target) ∷ branches) =
      let rest = first_holding scopes (suc i) branches in
      if eval fl scopes guard then some i else rest

  unfoldable pub choice_index : Choice → Scopes → Option ℕ
  choice_index c scopes = first_holding scopes zero c.branches

  unfoldable pub choice_branch : Choice → Scopes → Option String
  choice_branch c scopes = elim (choice_index c scopes) [
    | none ↦ c.default
    | some i ↦ elim (get_elem? c.branches i) [ none ↦ none | some b ↦ some (b.1) ]
  ]

  unfoldable pub choice_assignments : Choice → Scopes → List Assign
  choice_assignments c scopes = elim (choice_index c scopes) [
    | none ↦ c.default_assignments
    | some i ↦ elim (get_elem? c.branch_assignments i) [ none ↦ [] | some assigns ↦ assigns ]
  ]

  -- A transition's assignments: its own, then those of the branch that it takes.
  unfoldable pub effect_of : Transition → Scopes → List Assign
  effect_of t scopes = elim t.choice [
    | none ↦ t.assignments
    | some c ↦ t.assignments ++ choice_assignments c scopes
  ]

  unfoldable pub choice_open : Transition → Scopes → Bool
  choice_open t scopes = elim t.choice [ none ↦ true | some c ↦ is_some (choice_branch c scopes) ]

  unfoldable pub filter_matches : Transition → Event → Dict Value → Bool
  filter_matches t ev context = elim t.event_filter [
    | none ↦ false
    | some ef ↦ matches fl ef ev context
  ]

  unfoldable pub event_pred : Event → Dict Value → Transition → Bool
  event_pred ev context t =
      filter_matches t ev context
      && choice_open t (record { event_data = ev.payload; context_data = context })

  unfoldable pub auto_pred_in : Dict Value → Transition → Bool
  auto_pred_in context t =
      is_automatic t && choice_open t (record { event_data = []; context_data = context })

abbrev pub any_pred : Transition → Bool
any_pred t = true

-- The event of a transition, or none, as the namespace of its expressions.
abbrev pub scopes_of : Option Event → Dict Value → Scopes
scopes_of none context = record { event_data = []; context_data = context }
scopes_of (some ev) context = record { event_data = ev.payload; context_data = context }
