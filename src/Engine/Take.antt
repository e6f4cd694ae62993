-- ===== src/Engine/Take.antt =====
-- Taking a transition in src/harel/engine/core.py: hooks and timers of a level (`_run`), the descent into
-- a composite (`_descend`), the destination (`_target_of`), and `_take`.
pub mod Failing
pub mod Ran
pub mod Levels
pub mod Order
use harel.Prelude.{
  String, not, ◌||◌, Option, none, some, List, [], ◌∷◌, reverse, is_some, if◌then◌else◌,
}
use harel.Prelude.Dict
use harel.Prelude.Dict.{Dict}
use harel.Value.{Value, to_str}
use harel.Events.{Event}
use harel.Model.{
  Node, info, path, parent, ActionRef, Timeout, Selector, Choice, Transition, Assign, NodeInfo,
  is_composite, is_orthogonal,
}
use harel.Model.Navigation.{child, chain, lca, resolve_relative}
use harel.Execution.{Execution}
use harel.Engine.Result.{stuck, need}
use harel.Engine.Effects.{
  M, Env, Hook, enter, exit, activity, run_action, run_selector, cancel_timer, assigned, seconds,
  context_key, pure, raise, lift, gets, modify, yields, performs, schedules, node_at, active_node,
  for_each, rounds, ◌>>=◌, ◌>>◌,
}
use harel.Engine.Resolve.{choice_branch, tail, scopes_of}
use harel.Engine.Expression.{evaluate}
use harel.Engine.Regions.{fork, leave_regions}

-- `_hook`
unfoldable pub hook_of : NodeInfo → Hook → Option ActionRef
hook_of n enter = n.on_enter
hook_of n exit = n.on_exit
hook_of n activity = n.on_activity

abbrev pub set_active : String → Execution → Execution
set_active p exe = record exe { active_path = some p }

abbrev pub forget : String → Execution → Execution
forget p exe = record exe { history = Dict.remove p exe.history }

abbrev pub remember : String → String → Execution → Execution
remember p q exe = record exe { history = Dict.put p q exe.history }

module _ (env : Env) where
  unfoldable pub act : Node → Hook → Option ActionRef → Option Event → M (Unit {0})
  act node hook none ev = pure tt
  act node hook (some a) ev = do performs env (run_action node hook a ev); pure tt

  unfoldable pub timer : Node → Hook → Option Timeout → M (Unit {0})
  timer node enter (some (Timeout.from_context k)) = do
    schedules env (path node) (context_key k)
    pure tt
  timer node enter (some (Timeout.seconds n)) = do schedules env (path node) (seconds n); pure tt
  timer node exit (some t) = yields (cancel_timer (path node))
  timer node hook t = pure tt

  -- `_run`: the node's own hook, and its timer.
  unfoldable pub run : Node → Hook → Option Event → M (Unit {0})
  run node hook ev = do
    act node hook (hook_of (info node) hook) ev
    timer node hook (info node).timeout

  -- The initial child of a composite.
  unfoldable pub start_of : Node → Option String
  start_of node = elim (info node).start_state [
    | none ↦ none
    | some s ↦ elim (child env.defn node s) [ none ↦ none | some c ↦ some (path c) ]
  ]

  -- The child to enter: the history's, else the initial one.
  unfoldable pub next_of : Node → Execution → Option String
  next_of node exe = elim (Dict.get (path node) exe.history) [
    | none ↦ start_of node
    | some p ↦ some p
  ]

  unfoldable pub enter_child : Node → Option Event → Option String → M (Option Node)
  enter_child node ev none = pure none
  enter_child node ev (some p) = do
    c ← node_at env p
    modify (set_active p)
    run c enter ev
    modify (remember (path node) p)
    pure (some c)

  -- One round of the loop of `_descend`.
  unfoldable pub descend_round : Option Event → Node → M (Option Node)
  descend_round ev node =
      if not (is_composite node)
      then pure none
      else if is_orthogonal node
      then (do fork node; pure none)
      else do
        modify (λ exe. if (info node).allow_history then exe else forget (path node) exe)
        p ← gets (next_of node)
        enter_child node ev p

  unfoldable pub descend : Node → Option Event → M (Unit {0})
  descend node ev = rounds env.bound (descend_round ev) node

  unfoldable pub select : Node → Selector → Option Event → M Node
  select scope s ev = do
    at ← active_node env
    v ← performs env (run_selector at s ev)
    name ← lift (
        need
          (elim (Dict.get (to_str env.floats v) s.mapper) [ none ↦ s.default | some n ↦ some n ]))
    lift (need (resolve_relative env.defn scope name))

  unfoldable pub choose : Choice → Option Event → M Node
  choose c ev = do
    ctx ← gets (λ exe. exe.context)
    p ← lift (need (choice_branch env.floats c (scopes_of ev ctx)))
    node_at env p

  unfoldable pub static_target : Option String → M Node
  static_target none = raise stuck
  static_target (some p) = node_at env p

  unfoldable pub target_by :
      Node → Option Selector → Option Choice → Option String → Option Event → M Node
  target_by scope (some s) c p ev = select scope s ev
  target_by scope none (some c) p ev = choose c ev
  target_by scope none none p ev = static_target p

  unfoldable pub target_of : Node → Transition → Option Event → M Node
  target_of scope t ev = target_by scope t.selector t.choice t.target ev

  unfoldable pub note_history : Node → Option Node → M (Unit {0})
  note_history node none = pure tt
  note_history node (some p) = modify (remember (path p) (path node))

  -- One exited level: its exit, the history of its parent, its live regions.
  unfoldable pub exit_level : Option Event → Node → M (Unit {0})
  exit_level ev node = do
    modify (set_active (path node))
    run node exit ev
    note_history node (parent node)
    if is_orthogonal node || is_some (info node).invoke_each
        then leave_regions env node
        else pure tt

  -- One entered level.
  unfoldable pub enter_level : Option Event → Node → M (Unit {0})
  enter_level ev node = do
    modify (set_active (path node))
    run node enter ev
    note_history node (parent node)

  unfoldable pub assign : Dict Value → M (Unit {0})
  assign [] = pure tt
  assign (b ∷ values) = do
    modify (λ exe. record exe { context = Dict.update exe.context (b ∷ values) })
    yields (assigned (b ∷ values))

  unfoldable pub evaluated : List Assign → Option Event → M (Dict Value)
  evaluated [] ev = pure []
  evaluated (a ∷ assigns) ev = do
    ctx ← gets (λ exe. exe.context)
    lift (evaluate env.floats env.defn (scopes_of ev ctx) (a ∷ assigns))

  unfoldable pub take : Node → Option Event → List Assign → M (Unit {0})
  take target ev assigns = do
    values ← evaluated assigns ev
    from ← active_node env
    pivot ← lift (need (lca from target))
    left ← lift (need (chain pivot from))
    for_each (exit_level ev) (reverse (tail left))
    modify (set_active (path pivot))
    assign values
    entered ← lift (need (chain pivot target))
    for_each (enter_level ev) (tail entered)
    descend target ev
