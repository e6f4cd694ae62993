-- ===== src/Engine/Drain.antt =====
-- `_drain` of src/harel/engine/core.py: automatic transitions, deferred events, joins, and the bubbling
-- of finished composites up to the end of the execution.
pub mod Deferred
pub mod Joins
pub mod Quiet
pub mod Ending
use harel.Prelude.{
  String, Bool, true, false, not, ◌&&◌, Option, none, some, List, [], ◌∷◌, ◌++◌, is_some, map, any,
  if◌then◌else◌, starts_with, ◌^^◌,
}
use harel.Prelude.Dict
use harel.Prelude.Dict.{Dict}
use harel.Value.{Value, null, seq, to_items}
use harel.Events.{Event}
use harel.Model.{Node, top, under, info, path, parent, same, is_orthogonal}
use harel.Execution.{Execution, Status, is_running, ChildState}
use harel.Engine.Result.{Result, ok, ◌>>=◌ as bind}
use harel.Engine.Effects.{
  M, Env, spawn_children, emit, pure, lift, gets, modify, yields, node_at, exit, new_event,
  active_node, rounds, ◌>>=◌, ◌>>◌,
}
use harel.Engine.Resolve.{Found, resolve, event_pred, auto_pred_in, any_pred, effect_of, scopes_of}
use harel.Engine.Regions.{
  joined, any_region_failed, expose_region_results, seq_of, child_id_at, passed, fan_out, opt_str,
}
use harel.Engine.Take.{run, take, target_of}

-- The kinds that a node and its ancestors defer.
abbrev pub kinds_from : Node → List String
kinds_from (top i) = i.defer
kinds_from (under i p) = i.defer ++ kinds_from p

-- `with` of a submachine: a child record, and what it starts with.
abbrev pub submachine : ChildState
submachine = record {
  root_path = "";
  finished = false;
  outcome = null;
  result = [];
  submachine = true;
  key = "";
}

abbrev pub record_outcome : Option String → Execution → Execution
record_outcome o exe =
    if is_some o && not (is_some exe.outcome) then record exe { outcome = o } else exe

abbrev pub again : Node → Bool → Option Node
again root true = some root
again root false = none

abbrev pub spawned_now : Execution → String → Bool
spawned_now exe p =
    any (λ (c : String × ChildState). starts_with (c.0) (child_id_at exe p (seq_of exe p) ^^ ":"))
      exe.children

-- The search for a deferred event at `ev`, with what the later events give.
abbrev pub keep_back :
    Event → Option (Event × Found × List Event) → Option (Event × Found × List Event)
keep_back ev none = none
keep_back ev (some (e, found, kept)) = some (e, found, ev ∷ kept)

abbrev pub pick_or :
    Event
    → List Event
    → Result (Option (Event × Found × List Event))
    → Option Found
    → Result (Option (Event × Found × List Event))
pick_or ev evs rest (some found) = ok (some (ev, found, evs))
pick_or ev evs rest none = bind rest (λ r. ok (keep_back ev r))

module _ (env : Env) where
  unfoldable pub deferred_kinds : Execution → List String
  deferred_kinds exe = elim exe.active_path [
    | none ↦ []
    | some p ↦ elim (Dict.get p env.defn.index) [ none ↦ [] | some n ↦ kinds_from n ]
  ]

  -- Takes the transition that was found.
  unfoldable pub fire : Option Event → Found → M (Unit {0})
  fire ev found = do
    target ← target_of env found.scope found.transition ev
    ctx ← gets (λ exe. exe.context)
    take env target ev (effect_of env.floats found.transition (scopes_of ev ctx))

  -- The first deferred event that the configuration handles, with the events that stay.
  unfoldable pub pick : Execution → List Event → Result (Option (Event × Found × List Event))
  pick exe [] = ok none
  pick exe (ev ∷ evs) =
      let rest = pick exe evs in
      bind (resolve env.defn exe (event_pred env.floats ev exe.context) true) (pick_or ev evs rest)

  unfoldable pub next_deferred : M (Option (Event × Found))
  next_deferred = do
    exe ← gets (λ exe. exe)
    r ← lift (pick exe exe.deferred)
    elim r [
      | none ↦ pure none
      | some (ev, found, kept) ↦
          modify (λ exe. record exe { deferred = kept }) >> pure (some (ev, found))
    ]

  -- The child of a single `invoke`, forked when the node is first reached.
  unfoldable pub reach_invoke : Node → M (Unit {0})
  reach_invoke active = do
    exe ← gets (λ exe. exe)
    let p = path active
    let cid = child_id_at exe p (seq_of exe p)
    let context =
        Dict.put "__invoke_fqn__" (opt_str (info active).invoke)
          (passed exe.context (info active).invoke_with)
    if Dict.has cid exe.children then pure tt else do
      modify (λ exe. record exe { children = Dict.put cid submachine exe.children })
      yields (spawn_children (record { child_id = cid; root_path = ""; context = context } ∷ []))

  -- What stands before the transitions of a round: `true`, the loop goes on; `false`, it waits.
  unfoldable pub gate_fan_out : Node → M Bool
  gate_fan_out active = do
    exe ← gets (λ exe. exe)
    if spawned_now exe (path active) then pure tt else fan_out active
    all_in ← gets joined
    if not all_in then pure false else modify expose_region_results >> pure true

  unfoldable pub gate_orthogonal : Node → M Bool
  gate_orthogonal active = do
    exe ← gets (λ exe. exe)
    if not (joined exe) && not ((info active).cancel_on_failure && any_region_failed exe)
        then pure false
        else modify expose_region_results >> pure true

  unfoldable pub gate : Node → M Bool
  gate active =
      if is_some (info active).invoke && not (is_some (info active).invoke_each)
      then reach_invoke active >> pure false
      else if is_some (info active).invoke
      then gate_fan_out active
      else if is_orthogonal active
      then gate_orthogonal active
      else pure true

  -- The `Finished` that a region reports to its parent, with the deferred events it still holds.
  unfoldable pub finished_payload : Execution → Node → List (String × Value)
  finished_payload exe root =
      let own =
        Dict.update (("child_id", opt_str exe.child_id) ∷ ("outcome", opt_str exe.outcome) ∷ [])
          (passed exe.context (map (λ (k : String). (k, k)) (info root).carry)) in
      elim exe.deferred [
        | [] ↦ own
        | e ∷ es ↦ Dict.put "__deferred__" (seq (to_items (map env.driver.dump (e ∷ es)))) own
      ]

  unfoldable pub report : Node → M (Unit {0})
  report root = do
    exe ← gets (λ exe. exe)
    modify (λ exe. record exe { deferred = [] })
    ev ← new_event env "Finished" (finished_payload exe root)
    yields (emit ev exe.parent_id)

  -- The end of the execution, at a direct child of the root.
  unfoldable pub settle : Node → M (Unit {0})
  settle root = do
    exe ← gets (λ exe. exe)
    if is_some exe.parent_id then run env root exit none else pure tt
    now ← gets (λ exe. exe)
    if not (is_running now.status) then pure tt else do
      modify (λ exe. record exe { status = Status.done })
      if is_some exe.parent_id then report root else pure tt

  unfoldable pub bubble : Node → Node → Option Node → M Bool
  bubble root active none = settle root >> pure false
  bubble root active (some p) = if same p root then settle root >> pure false else do
    modify (λ exe. record exe {
      history = Dict.remove (path p) exe.history;
      active_path = some (path p);
    })
    pure true

  -- A sink: record its outcome, leave it, and bubble up or end.
  unfoldable pub sink : Node → Node → M Bool
  sink root active = do
    modify (record_outcome (info active).outcome)
    run env active exit none
    bubble root active (parent active)

  -- Takes the deferred event that is handled now, or waits for an event.
  unfoldable pub deferred_or_wait : Option (Event × Found) → M Bool
  deferred_or_wait none = pure false
  deferred_or_wait (some (ev, found)) = fire (some ev) found >> pure true

  -- Below an open gate: an automatic transition, a deferred event, the wait for an event, or a sink.
  unfoldable pub advance_by : Node → Node → Option Found → M Bool
  advance_by root active (some found) = fire none found >> pure true
  advance_by root active none = do
    exe ← gets (λ exe. exe)
    own ← lift (resolve env.defn exe any_pred false)
    if is_some own then (do held ← next_deferred; deferred_or_wait held) else sink root active

  unfoldable pub advance : Node → Node → M Bool
  advance root active = do
    exe ← gets (λ exe. exe)
    auto ← lift (resolve env.defn exe (auto_pred_in env.floats exe.context) false)
    advance_by root active auto

  -- One round of the loop: whether it goes on.
  unfoldable pub drain_round : Node → M Bool
  drain_round root = do
    active ← active_node env
    open_gate ← gate active
    if open_gate then advance root active else pure false

  unfoldable pub drain_body : Node → M (Option Node)
  drain_body root = do more ← drain_round root; pure (again root more)

  unfoldable pub drain : M (Unit {0})
  drain = do p ← gets (λ exe. exe.root_path); root ← node_at env p; rounds env.bound drain_body root
