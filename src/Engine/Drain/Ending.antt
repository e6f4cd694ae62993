-- ===== src/Engine/Drain/Ending.antt =====
-- A target of which `_would_be_a_sink` says that it ends the execution does end it: `_drain` bubbles
-- from it to the root.
use harel.Prelude.{
  ℕ, zero, suc, ◌≤◌, ◌≡◌, refl, ◌∙◌, Bool, true, false, not, ◌&&◌, none, some, arith, length,
  Bool-cases, inl, inr,
}
use harel.Prelude.Dict
use harel.Prelude.Dict.{Dict}
use harel.Model.{Node, NodeInfo, top, under, info, path, same, is_orthogonal, Definition}
use harel.Model.Navigation.{lineage}
use harel.Execution.{Status, is_running}
use harel.Engine.Result.{ok}
use harel.Engine.Effects.{
  Env, World, M, rounds, pure, gets, modify, lift, node_at, active_node, then_do, ◌>>=◌,
}
use harel.Engine.Resolve.{resolve, resolve_between, any_pred, auto_pred_in}
use harel.Engine.Resolve.Innermost.{resolve_between_any}
use harel.Engine.Take.{run}
use harel.Engine.Drain.{
  drain, drain_round, gate, advance, advance_by, drain_body, sink, bubble, record_outcome,
}
use harel.Engine.Teardown.{would_be_a_sink, sinks_up}
use harel.Engine.Drain.Quiet.{NeverRaises, exit_quietly, settle_ends}

-- What the walk of `_would_be_a_sink` has seen at a node below the root.
record SinkAt (defn : Definition) (root cur p : Node) (first : Bool) : Type 0 where
  plain : (not first && is_orthogonal cur) ≡ false
  no_transition : resolve_between root cur any_pred false ≡ ok none
  above : sinks_up defn root false p ≡ ok true

sinks_up-SinkAt :
    (defn : Definition) (root p : Node) (i : NodeInfo) (first : Bool)
    → same (under i p) root ≡ false
    → sinks_up defn root first (under i p) ≡ ok true
    → SinkAt defn root (under i p) p first
unfolding sinks_up
sinks_up-SinkAt defn root p i first d h = ground arith

sinks_up_top :
    (defn : Definition) (root : Node) (i : NodeInfo) (first : Bool)
    → same (top i) root ≡ false
    → sinks_up defn root first (top i) ≡ ok true
    → ⊥
unfolding sinks_up
sinks_up_top defn root i first d h = ground arith

above_plain :
    (defn : Definition) (root p : Node)
    → same p root ≡ false
    → sinks_up defn root false p ≡ ok true
    → is_orthogonal p ≡ false
above_plain defn root (top i) d h = absurd (sinks_up_top defn root i false d h)
above_plain defn root (under i p) d h = (sinks_up-SinkAt defn root p i false d h).plain

-- The definition's index holds the node and its ancestors under their paths.
abbrev pub Indexed : Definition → Node → Type 0
Indexed defn (top i) = Dict.get i.full_path defn.index ≡ some (top i)
Indexed defn (under i p) = (Dict.get i.full_path defn.index ≡ some (under i p)) × Indexed defn p

-- Neither the node nor an ancestor invokes a machine.
abbrev pub InvokesNothing : Node → Type 0
InvokesNothing (top i) = i.invoke ≡ none
InvokesNothing (under i p) = (i.invoke ≡ none) × InvokesNothing p

module _ (env : Env) (quiet : NeverRaises env) where
  -- What a sink leaves for the next round: the parent is active.
  abbrev Bubbled : World → Node → M Bool → Type 0
  Bubbled w p m =
      (v : World) × (m w ≡ (ok true, v))
      × (v.exe.active_path ≡ some (path p))
      × (v.exe.status ≡ w.exe.status)
      × (v.exe.root_path ≡ w.exe.root_path)

  sink_bubbles :
      (root p : Node) (i : NodeInfo) (w : World)
      → same p root ≡ false
      → Bubbled w p (sink env root (under i p))
  unfolding sink bubble modify ◌>>=◌
  sink_bubbles root p i w d =
      let w' : World = record w { exe = record_outcome i.outcome w.exe } in
      let (v, q, s) = exit_quietly env quiet (under i p) w' in
      (
        record v {
          exe = record v.exe {
            history = Dict.remove (path p) v.exe.history;
            active_path = some (path p);
          };
        },
        rw q (rw d refl),
        refl,
        ground (arith, s.exe),
        ground (arith, s.exe),
      )

  sink_settles :
      (root p : Node) (i : NodeInfo) (w : World)
      → same p root ≡ true
      → is_running w.exe.status ≡ true
      → ((sink env root (under i p) w).0 ≡ ok false)
        × ((sink env root (under i p) w).1.exe.status ≡ Status.done)
  unfolding sink bubble modify ◌>>=◌
  sink_settles root p i w d r =
      let w' : World = record w { exe = record_outcome i.outcome w.exe } in
      let (v, q, s) = exit_quietly env quiet (under i p) w' in
      rw q (rw d (ground (arith, s.exe, settle_ends env quiet root v)))

  round_sinks :
      (root cur : Node) (w : World)
      → Dict.get w.exe.root_path env.defn.index ≡ some root
      → w.exe.active_path ≡ some (path cur)
      → Dict.get (path cur) env.defn.index ≡ some cur
      → (info cur).invoke ≡ none
      → is_orthogonal cur ≡ false
      → resolve_between root cur any_pred false ≡ ok none
      → drain_round env root w ≡ sink env root cur w
  unfolding drain_round active_node gate advance advance_by resolve gets lift ◌>>=◌
  round_sinks root cur w r a x i o h =
      ground (arith, resolve_between_any (auto_pred_in env.floats w.exe.context) root cur false h)

  -- One round, by what the sink answers.
  loop_stops :
      (root : Node) (n : ℕ) (w : World)
      → (drain_round env root w).0 ≡ ok false
      → (drain_round env root w).1.exe.status ≡ Status.done
      → ((rounds (suc n) (drain_body env) root w).0 ≡ ok tt)
        × ((rounds (suc n) (drain_body env) root w).1.exe.status ≡ Status.done)
  unfolding rounds pure drain_body ◌>>=◌
  loop_stops root n w a b = ground arith

  loop_goes_on :
      (root : Node) (n : ℕ) (w v : World)
      → drain_round env root w ≡ (ok true, v)
      → rounds (suc n) (drain_body env) root w ≡ rounds n (drain_body env) root v
  unfolding rounds pure drain_body ◌>>=◌
  loop_goes_on root n w v a = rw a

  -- What the loop is given at a node below the root.
  abbrev pub Ready : Node → Node → World → Type 0
  Ready root cur w =
      (Dict.get w.exe.root_path env.defn.index ≡ some root)
      × (w.exe.active_path ≡ some (path cur))
      × (is_running w.exe.status ≡ true)
      × (is_orthogonal cur ≡ false)
      × Indexed env.defn cur
      × InvokesNothing cur

  loop_ends :
      (root cur : Node) (first : Bool) (n : ℕ) (w : World)
      → same cur root ≡ false
      → sinks_up env.defn root first cur ≡ ok true
      → Ready root cur w
      → length (lineage cur) ≤ n
      → ((rounds n (drain_body env) root w).0 ≡ ok tt)
        × ((rounds n (drain_body env) root w).1.exe.status ≡ Status.done)
  loop_ends root (top i) first n w d h k b = absurd (sinks_up_top env.defn root i first d h)
  loop_ends root (under i p) first zero w d h k b = absurd (omega arith)
  loop_ends root (under i p) first (suc n) w d h (r, a, run, o, x, iv) b =
      let at = sinks_up-SinkAt env.defn root p i first d h in
      let round = round_sinks root (under i p) w r a x.0 iv.0 o at.no_transition in
      elim (Bool-cases (same p root)) [
        | inl e ↦
            let (s0, s1) = sink_settles root p i w e run in
            loop_stops root n w (rw round s0) (rw round s1)
        | inr e ↦
            let (v, q, a', st, rp) = sink_bubbles root p i w e in
            rw (loop_goes_on root n w v (round ∙ q)) (
              loop_ends root p false n v e at.above
                (rw rp r, a', rw st run, above_plain env.defn root p e at.above, x.1, iv.1)
                (omega arith))
      ]

  walked :
      (root target : Node) (w : World)
      → Dict.get w.exe.root_path env.defn.index ≡ some root
      → would_be_a_sink env w.exe target ≡ ok true
      → sinks_up env.defn root true target ≡ ok true
  unfolding would_be_a_sink
  walked root target w r h = ground arith

  drain_loop :
      (root : Node) (w : World)
      → Dict.get w.exe.root_path env.defn.index ≡ some root
      → drain env w ≡ rounds env.bound (drain_body env) root w
  unfolding drain node_at gets ◌>>=◌
  drain_loop root w r = rw (r, then_do)

  -- Where `_would_be_a_sink` says of the active state that it ends the execution, and no action raises,
  -- `_drain` returns with the execution DONE. The state is a plain one below the execution's root, in a
  -- definition that indexes it and its ancestors, none of which invokes a machine, and the bound on
  -- the rounds is at least its depth.
  pub drain_ends :
      (root target : Node) (w : World)
      → would_be_a_sink env w.exe target ≡ ok true
      → same target root ≡ false
      → Ready root target w
      → length (lineage target) ≤ env.bound
      → ((drain env w).0 ≡ ok tt) × ((drain env w).1.exe.status ≡ Status.done)
  drain_ends root target w h d k b =
      rw (drain_loop root w k.0)
        (loop_ends root target true env.bound w d (walked root target w k.0 h) k b)
