-- ===== src/Engine/Process/Cooperative.antt =====
-- The cancel that a machine handles itself.
use harel.Prelude.{
  ℕ, suc, ◌≡◌, ◌≤◌, refl, sym, ◌∙◌, ap, String, Bool, true, false, ◌||◌, ◌++◌, none, some, List, [],
  ◌∷◌, arith, is_some, length, reverse, All, eq_iff,
}
use mathlib.Core.List.{append_assoc}
use harel.Prelude.Dict
use harel.Prelude.Dict.{Dict}
use harel.Value.{Value}
use harel.Events.{Event}
use harel.Model.{Node, path, same, is_orthogonal, is_composite}
use harel.Model.Navigation.{lineage, chain}
use harel.Model.Ancestry.{last_of, IsWay, made-IsWay}
use harel.Execution.{Execution, Status, is_running}
use harel.Engine.Result.{ok}
use harel.Engine.Effects.{Env, World, Effect, modify, node_at, ◌>>=◌}
use harel.Engine.Resolve.{Found, resolve, event_pred, effect_of, scopes_of, tail}
use harel.Engine.Take.{take, target_of, target_by, static_target, evaluated}
use harel.Engine.Take.Ran.{IsPlain, active_after}
use harel.Engine.Take.Order.{Route, transition_effects, take_order}
use harel.Engine.Drain.{drain, fire}
use harel.Engine.Drain.Quiet.{NeverRaises}
use harel.Engine.Drain.Ending.{drain_ends, Indexed, InvokesNothing}
use harel.Engine.Evolution.Draining.{Steps-drain}
use harel.Engine.Teardown.{safe_teardown, all_sinks, targets_of, would_be_a_sink}
use harel.Engine.Process.{process, on_cancel, cancel_by, is_cancelling, count_event}

-- The execution takes part in its own cancel.
abbrev pub acts : Execution → Bool
acts exe = is_running exe.status || is_cancelling exe.status

-- The world in which the transition of a cancel is taken.
abbrev pub resumed : World → World
resumed w = record w { exe = record w.exe { status = Status.running } }

-- The last node that a way enters is where it leads.
active_after-last :
    (n : Node) (ns : List Node) → active_after ns (some (path n)) ≡ some (path (last_of n ns))
active_after-last n [] = refl
active_after-last n (m ∷ ns) = active_after-last m ns

-- A transition that goes to one state.
abbrev pub GoesTo : Env → Found → String → Node → Type 0
GoesTo env found p target =
    (found.transition.selector ≡ none)
    × (found.transition.choice ≡ none)
    × (found.transition.target ≡ some p)
    × (Dict.get p env.defn.index ≡ some target)

module _ (env : Env) (ev : Event) (w : World) (found : Found) where
  safe_teardown-resolve :
      safe_teardown env w.exe ev ≡ ok (some found)
      → (is_some w.exe.active_path ≡ true)
        × (resolve env.defn w.exe (event_pred env.floats ev w.exe.context) true ≡ ok (some found))
        × (all_sinks env w.exe (targets_of env found) ≡ ok true)
  unfolding safe_teardown
  safe_teardown-resolve h = (ground (arith, h), ground (arith, h), ground (arith, h))

  cancel_found :
      acts w.exe ≡ true
      → is_some w.exe.active_path ≡ true
      → resolve env.defn w.exe (event_pred env.floats ev w.exe.context) true ≡ ok (some found)
      → on_cancel env ev w ≡ cancel_by env ev (some found) w
  unfolding on_cancel ◌>>=◌
  cancel_found a p r = ground (arith, a, p, r)

  -- `process` takes the transition that the control plane has found.
  cancel_taken :
      acts w.exe ≡ true
      → ev.kind ≡ "Cancel"
      → safe_teardown env w.exe ev ≡ ok (some found)
      → process env ev w ≡ cancel_by env ev (some found) w
  unfolding process
  cancel_taken a k h = let (p, r, s) = safe_teardown-resolve h in simp k (cancel_found a p r)

  only_target :
      (p : String) (target : Node)
      → GoesTo env found p target
      → safe_teardown env w.exe ev ≡ ok (some found)
      → would_be_a_sink env w.exe target ≡ ok true
  unfolding all_sinks targets_of
  only_target p target (s, c, t, i) h =
      let (a, r, k) = safe_teardown-resolve h in ground (arith, t, i, k)

  fire-take :
      (p : String) (target : Node) (v : World)
      → GoesTo env found p target
      → fire env (some ev) found v
        ≡ take env target
            (some ev)
            (effect_of env.floats found.transition (scopes_of (some ev) v.exe.context))
            v
  unfolding fire target_of target_by static_target node_at ◌>>=◌
  fire-take p target v (s, c, t, i) = rw (s, c, t, i)

would_be-root :
    (env : Env) (exe now : Execution) (target : Node)
    → now.root_path ≡ exe.root_path
    → would_be_a_sink env exe target ≡ ok true
    → would_be_a_sink env now target ≡ ok true
unfolding would_be_a_sink
would_be-root env exe now target e h = rw e h

entered_active :
    (pivot target : Node) (ns : List Node)
    → chain pivot target ≡ some ns
    → active_after (tail ns) (some (path pivot)) ≡ some (path target)
entered_active pivot target ns c = go ns (made-IsWay pivot target ns c)
  where
    go :
        (ns : List Node)
        → IsWay pivot target ns
        → active_after (tail ns) (some (path pivot)) ≡ some (path target)
    go [] h = absurd h
    go (n ∷ ns) (s, d, l) =
        ap (λ q. active_after ns (some q)) (sym ((eq_iff (path n) (path pivot)).0 s))
        ∙ active_after-last n ns
        ∙ ap (λ m. some (path m)) l

module _ (env : Env) (quiet : NeverRaises env) (ev : Event) (w : World) (found : Found)
    (root target : Node) (p : String) (values : Dict Value) (n : ℕ) where
  cancel_runs :
      (u : World)
      → fire env (some ev) found (resumed w) ≡ (ok tt, u)
      → (drain env u).0 ≡ ok tt
      → cancel_by env ev (some found) w
        ≡ (ok tt, record (drain env u).1 { exe = count_event (drain env u).1.exe })
  unfolding cancel_by modify ◌>>=◌
  cancel_runs u f d = rw (f, d)

  -- Where the control plane finds a safe `Cancel` handler for an execution that runs or is being
  -- cancelled, `process` of that Cancel runs it and the execution is DONE: it returns, its effects begin
  -- with those of the handler's transition (exits, assigned values, entries, in this order), and the
  -- status it leaves is DONE, not CANCELLED. No action raises, the handler goes to one state, a leaf below
  -- the root in a definition that indexes it and its ancestors, none of which invokes a machine, its
  -- assignments can be evaluated, no level left owns regions, and the bound on the rounds is positive and
  -- at least the depth of the state.
  pub cancel_ends :
      (route : Route env (resumed w) target)
      → acts w.exe ≡ true
      → ev.kind ≡ "Cancel"
      → safe_teardown env w.exe ev ≡ ok (some found)
      → GoesTo env found p target
      → evaluated env
          (effect_of env.floats found.transition (scopes_of (some ev) w.exe.context))
          (some ev)
          (resumed w)
        ≡ (ok values, resumed w)
      → All IsPlain (reverse (tail route.left))
      → is_composite target ≡ false
      → is_orthogonal target ≡ false
      → env.bound ≡ suc n
      → Dict.get w.exe.root_path env.defn.index ≡ some root
      → same target root ≡ false
      → Indexed env.defn target
      → InvokesNothing target
      → length (lineage target) ≤ env.bound
      → (v : World) × (process env ev w ≡ (ok tt, v))
        × (v.exe.status ≡ Status.done)
        × (es : List Effect) × (v.trace
            ≡ w.trace
              ++ (transition_effects env quiet (some ev) target n route.left route.entered values
                  ++ es))
  cancel_ends route a k h g e plain leaf o b r d x iv len =
      let t =
        take_order env quiet (some ev) target n
          (effect_of env.floats found.transition (scopes_of (some ev) w.exe.context)) values
          (resumed w) route e plain leaf b in
      let u = t.after in
      let fired = fire-take env ev w found p target (resumed w) g ∙ t.returns in
      let at = t.active ∙ entered_active route.pivot target route.entered route.enters in
      let sink =
        would_be-root env w.exe u.exe target t.root (only_target env ev w found p target g h) in
      let done =
        drain_ends env quiet root target u sink d (rw t.root r, at, rw t.status refl, o, x, iv)
          len in
      let more = ((Steps-drain env).at u).extended in
      (
        record (drain env u).1 { exe = count_event (drain env u).1.exe },
        cancel_taken env ev w found a k h ∙ cancel_runs u fired done.0,
        done.1,
        more.0,
        more.1 ∙ ap (λ (l : List Effect). l ++ more.0) t.trace ∙ append_assoc w.trace _ more.0,
      )
