-- ===== src/Driving/Unhandled.antt =====
-- A step whose action fails with nothing in the model to handle it.
use harel.Prelude.{
  ℕ, ◌+◌, ◌≡◌, refl, ◌⊎◌, inl, inr, Bool, true, false, Option, none, some, Bool-cases,
  if◌then◌else◌,
}
use harel.Events.{Event}
use harel.Model.{Definition}
use harel.Execution.{Execution, Status}
use harel.Engine.Result.{action_error, ActionError, ok, raised}
use harel.Engine.Effects.{World}
use harel.Engine.Signals.{error_event}
use harel.Engine.Teardown.{definition_problem, has_error_handler}
use harel.Store.Commits.{Batch}
use harel.Control.Commands.{write}
use harel.Driving.{Host, Site, by_engine, raises, give, ◌>>=◌}
use harel.Driving.Texts.{exception_of, error_message}
use harel.Driving.Collected.{nothing}
use harel.Driving.Running
use harel.Driving.Running.{
  Driven, commits, breaks, adopt, last_effect, is_exit, generate, env_at, on_action_error,
  recover_if, route_error, failed_with, driven, checked, drive, batch_of, checkpoint, run_with,
  run_flow,
}

module _ (h : Host) (gen : Definition) (ev : Option Event) (r : ℕ) (s : Site)
    (defn : Definition) where
  -- The `error` event that a driver makes of an exception.
  abbrev pub error_of : ActionError → World → Event
  error_of x w = error_event (h.new_id s.step false w.trace) x.type x.message

  -- No `on error` takes the exception: it is of an exit hook, or the definition that the execution
  -- runs on has no handler in scope.
  abbrev pub Unhandled : ActionError → World → Type 0
  Unhandled x w =
      (is_exit (last_effect w.trace) ≡ true)
      ⊎ ((d : Definition) × (h.lookup (write s.memory r w.exe) w.exe ≡ some d)
          × (has_error_handler (env_at h s.step false d) w.exe (error_of x w) ≡ ok false))

  routed :
      (x : ActionError) (w : World)
      → Unhandled x w
      → failed_with h s.memory r s.step (action_error x) w.trace w.exe (some x)
        ≡ on_action_error h (by_engine (action_error x)) x (h.cause s.step w.trace) w.exe
  unfolding failed_with route_error recover_if
  routed x w (inl e) = rw e refl
  routed x w (inr (d, l, e)) = elim (Bool-cases (is_exit (last_effect w.trace))) [
    | inl q ↦ rw q refl
    | inr q ↦ rw q (rw (l, route_error) (rw (e, recover_if) refl))
  ]

  -- An execution as the production policy leaves it.
  abbrev pub failed_at : ActionError → World → Execution
  failed_at x w = record w.exe {
    status = Status.failed;
    error = some (error_message x (h.cause s.step w.trace));
  }

  driven-Unhandled :
      (x : ActionError) (w : World)
      → Unhandled x w
      → driven h s.memory r s.step gen (raised (action_error x), w)
        ≡ on_action_error h (by_engine (action_error x)) x (h.cause s.step w.trace) w.exe
  unfolding driven exception_of
  driven-Unhandled x w u = routed x w u

  drive-Unhandled :
      (x : ActionError) (w : World)
      → definition_problem defn (adopt defn (s.memory.heap r)) ≡ none
      → generate h s.step false gen ev (adopt defn (s.memory.heap r)) ≡ (raised (action_error x), w)
      → Unhandled x w
      → drive h s.memory r s.step defn gen ev
        ≡ on_action_error h (by_engine (action_error x)) x (h.cause s.step w.trace) w.exe
  unfolding drive checked
  drive-Unhandled x w p g u = rw (p, checked) (rw g (driven-Unhandled x w u))

  abbrev pub empty_batch : ActionError → World → Batch
  empty_batch x w = batch_of h s.step ev (s.memory.heap r).active_path (failed_at x w) nothing

  concluded_by :
      (x : ActionError) (w : World) (b : Bool)
      → Running.conclude h r ev
          (s.memory.heap r).active_path
          (if b then commits nothing (failed_at x w) else breaks (by_engine (action_error x)) w.exe)
          s
        ≡ (if b
            then (checkpoint h r (failed_at x w) (empty_batch x w) >>= λ seqs. give false) s
            else (
              raises (by_engine (action_error x)),
              record s { memory = write s.memory r w.exe; step = s.step + 1 },
            ))
  unfolding Running.conclude
  concluded_by x w true = refl
  concluded_by x w false = refl

  -- A step raises the exception of an action that nothing handles. With the production policy the
  -- execution is committed FAILED, with what was written before the raise, and with the exception as its
  -- error; the step's event counts as processed, and none of its emits, timers and spawns is
  -- committed. The bare driver raises the exception and commits nothing.
  pub run_flow-Unhandled :
      (x : ActionError) (w : World)
      → h.lookup s.memory (s.memory.heap r) ≡ some defn
      → definition_problem defn (adopt defn (s.memory.heap r)) ≡ none
      → generate h s.step false gen ev (adopt defn (s.memory.heap r)) ≡ (raised (action_error x), w)
      → Unhandled x w
      → run_flow h gen ev r s ≡ (
          if h.fails
          then (checkpoint h r (failed_at x w) (empty_batch x w) >>= λ seqs. give false) s
          else (
            raises (by_engine (action_error x)),
            record s { memory = write s.memory r w.exe; step = s.step + 1 },
          ))
  unfolding run_flow run_with on_action_error Running.conclude
  run_flow-Unhandled x w l p g u =
      rw (l, run_with) (rw (drive-Unhandled x w p g u, Running.conclude) (concluded_by x w h.fails))
