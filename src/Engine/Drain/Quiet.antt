-- ===== src/Engine/Drain/Quiet.antt =====
-- Actions that return, and the end of an execution under them.
use harel.Prelude.{
  ◌≡◌, refl, true, Option, none, some, List, [], ◌∷◌, ◌++◌, arith, Option-cases, inl, inr,
}
use harel.Prelude.Dict.{Dict}
use harel.Value.{Value}
use harel.Events.{Event}
use harel.Model.{Node, info, path, ActionRef, Timeout}
use harel.Execution.{Status, is_running}
use harel.Engine.Result.{ok}
use harel.Engine.Effects.{
  Env, World, M, Effect, returned, Hook, exit, gets, modify, yields, performs, new_event, ◌>>=◌,
}
use harel.Engine.Take.{run, act, timer, hook_of}
use harel.Engine.Drain.{settle, report}

-- No action raises.
abbrev pub NeverRaises : Env → Type 0
NeverRaises env =
    (es : List Effect) (e : Effect) (c : Dict Value)
    → (v : Value) × (d : Dict Value) × (env.driver.answer es e c ≡ returned v d)

-- Only the context and the effects have changed.
pub record SameButContext (w v : World) : Type 0 where
  pub context : Dict Value
  pub exe : v.exe ≡ record w.exe { context = context }

-- An action that returns, having changed only the context and the effects.
abbrev pub RunsQuietly : M (Unit {0}) → World → Type 0
RunsQuietly m w = (v : World) × (m w ≡ (ok tt, v)) × SameButContext w v

module _ (env : Env) (quiet : NeverRaises env) where
  pub act_quietly :
      (n : Node) (h : Hook) (a : Option ActionRef) (ev : Option Event) (w : World)
      → RunsQuietly (act env n h a ev) w
  unfolding act performs ◌>>=◌
  act_quietly n h none ev w = (w, refl, record { context = w.exe.context; exe = refl })
  act_quietly n h (some a) ev w =
      let e : Effect = Effect.run_action n h a ev in
      let (v, d, p) = quiet (w.trace ++ e ∷ []) e w.exe.context in
      (
        record { exe = record w.exe { context = d }; trace = w.trace ++ e ∷ [] },
        rw p,
        record { context = d; exe = refl },
      )

  pub timer_quietly :
      (n : Node) (t : Option Timeout) (w : World) → RunsQuietly (timer env n exit t) w
  unfolding timer yields ◌>>=◌
  timer_quietly n none w = (w, refl, record { context = w.exe.context; exe = refl })
  timer_quietly n (some t) w = (
    record w { trace = w.trace ++ Effect.cancel_timer (path n) ∷ [] },
    refl,
    record { context = w.exe.context; exe = refl },
  )

  pub exit_quietly : (n : Node) (w : World) → RunsQuietly (run env n exit none) w
  unfolding run ◌>>=◌
  exit_quietly n w =
      let (v, p, s) = act_quietly n exit (hook_of (info n) exit) none w in
      let (u, q, t) = timer_quietly n (info n).timeout v in
      (u, rw p q, record { context = t.context; exe = ground (arith, s.exe, t.exe) })

  pub report_returns :
      (root : Node) (w : World)
      → ((report env root w).0 ≡ ok tt) × ((report env root w).1.exe.status ≡ w.exe.status)
  unfolding report gets modify yields new_event ◌>>=◌
  report_returns root w = (refl, refl)

  pub settle_ends :
      (root : Node) (w : World)
      → is_running w.exe.status ≡ true
      → ((settle env root w).0 ≡ ok tt) × ((settle env root w).1.exe.status ≡ Status.done)
  unfolding settle gets modify ◌>>=◌
  settle_ends root w r =
      let (v, p, s) = exit_quietly root w in
      let done : World = record v { exe = record v.exe { status = Status.done } } in
      elim (Option-cases w.exe.parent_id) [
        | inl e ↦ ground (arith, e)
        | inr (pid, e) ↦ ground (arith, e, p, s.exe, report_returns root done)
      ]
