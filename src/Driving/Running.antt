-- ===== src/Driving/Running.antt =====
-- `_drive_flow`, `_expression_error_flow` and `_run_flow` of src/harel/engine/driving.py: the engine's step for
-- one event, with the recovery from an action's error, and its commit. Other threads act between the
-- step and the commit (`Host.meanwhile`); the clock stands still during a step.
use harel.Prelude.{
  ℕ, ◌+◌, String, Bool, true, false, not, ◌||◌, Option, none, some, List, [], ◌∷◌, is_some,
  if◌then◌else◌,
}
use harel.Prelude.Dict
use harel.Prelude.Dict.{Dict}
use harel.Value.{dict, to_fields}
use harel.Events.{Event}
use harel.Model.{Definition}
use harel.Execution.{Execution, Status, stamp}
use harel.Engine.Result.{Fault, ActionError, Result, ok, raised}
use harel.Engine.Effects.{
  Env, World, Effect, exit, run_action, schedule_timer, Delay, seconds, context_key,
}
use harel.Engine.Teardown.{DefinitionProblem, definition_problem, has_error_handler}
use harel.Engine.Start.{start}
use harel.Engine.Process.{process}
use harel.Engine.Signals.{error_event}
use harel.Store.{Memory}
use harel.Store.Commits.{Batch, commit}
use harel.Control.Commands.{write}
use harel.Driving.{give, ◌>>◌, Host, Failure, by_engine, changed, not_loaded, raises, Flow, stored}
use harel.Driving.Texts.{exception_of, problem_text, error_message}
use harel.Driving.Collected.{Collected, nothing, collect, trace_step}

-- What a step comes to: what it commits, or what it raises; with the execution.
pub data Driven : Type 0 where
  commits : Collected → Execution → Driven
  breaks : Failure → Execution → Driven

unfoldable pub last_effect : List Effect → Option Effect
last_effect [] = none
last_effect (e ∷ []) = some e
last_effect (e ∷ f ∷ es) = last_effect (f ∷ es)

-- The effect of an exit hook.
abbrev pub is_exit : Option Effect → Bool
is_exit (some (run_action node exit a ev)) = true
is_exit _ = false

abbrev pub with_error : Event → Execution → Execution
with_error ev exe = record exe {
  context = Dict.put "_error" (dict (to_fields ev.payload)) exe.context;
}

-- An execution that has not run yet, or was written before versions existed, takes the source that
-- it runs on.
unfoldable pub adopt : Definition → Execution → Execution
adopt defn exe =
    if not (is_some exe.definition_digest) || not (is_some exe.active_path)
    then record exe { definition_version = some defn.version; definition_digest = defn.digest }
    else exe

abbrev pub event_id_of : Option Event → Option String
event_id_of none = none
event_id_of (some ev) = some ev.id

abbrev pub is_any {ℓ} : {A : Type ℓ} → List A → Bool
is_any [] = false
is_any (x ∷ xs) = true

-- `bool(emits or spawns)`
abbrev pub is_work : Collected → Bool
is_work c = is_any c.emits || is_any c.spawns

module _ (h : Host) where
  unfoldable pub due : ℕ → Bool → List Effect → Delay → ℕ
  due n again trace (seconds k) = h.now n + k
  due n again trace (context_key key) = h.now n + h.waits n again trace

  -- When the timer fires that was scheduled last.
  unfoldable pub fires : ℕ → Bool → List Effect → Option Effect → ℕ
  fires n again trace (some (schedule_timer path d)) = due n again trace d
  fires n again trace _ = h.now n

  unfoldable pub env_at : ℕ → Bool → Definition → Env
  env_at n again defn = record {
    defn = defn;
    floats = h.floats;
    bound = h.bound;
    driver = record {
      answer = h.answer n again;
      fire_time = λ trace. h.time (fires n again trace (last_effect trace));
      new_id = h.new_id n again;
      dump = h.dump;
      validate = h.validate;
    };
  }

  -- `engine.start` or `engine.process`
  unfoldable pub generate :
      ℕ → Bool → Definition → Option Event → Execution → Result (Unit {0}) × World
  generate n again defn none exe = start (env_at n again defn) (record { exe = exe; trace = [] })
  generate n again defn (some ev) exe =
      process (env_at n again defn) ev (record { exe = exe; trace = [] })

  -- `_on_action_error`: the exception, what caused it, and what the bare driver raises.
  unfoldable pub on_action_error : Failure → ActionError → Option ActionError → Execution → Driven
  on_action_error f x cause exe =
      if h.fails
      then commits nothing
          (record exe { status = Status.failed; error = some (error_message x cause) })
      else breaks f exe

  abbrev pub give_up : Fault → ActionError → Execution → Option ActionError → Driven
  give_up f first exe none = breaks (by_engine f) exe
  give_up f first exe (some x) = on_action_error (by_engine f) x (some first) exe

  -- The recovery's own end: no second attempt.
  unfoldable pub recovered : ℕ → Definition → ActionError → Result (Unit {0}) × World → Driven
  recovered n defn first (ok _, w) = commits (collect (due n true) w.trace) w.exe
  recovered n defn first (raised f, w) = give_up f first w.exe (exception_of h.repr defn f)

  unfoldable pub recover_if :
      ℕ
      → Definition
      → Fault
      → ActionError
      → Option ActionError
      → Event
      → Execution
      → Result Bool
      → Driven
  recover_if n defn f x cause ev exe (raised g) = breaks (by_engine g) exe
  recover_if n defn f x cause ev exe (ok false) = on_action_error (by_engine f) x cause exe
  recover_if n defn f x cause ev exe (ok true) =
      recovered n defn x (generate n true defn (some ev) (with_error ev exe))

  -- To an `on error` in scope, else the policy.
  unfoldable pub route_error :
      ℕ
      → Fault
      → ActionError
      → Option ActionError
      → List Effect
      → Execution
      → Option Definition
      → Driven
  route_error n f x cause trace exe none = breaks not_loaded exe
  route_error n f x cause trace exe (some defn) =
      let ev = error_event (h.new_id n false trace) x.type x.message in
      recover_if n defn f x cause ev exe (has_error_handler (env_at n false defn) exe ev)

  -- The `__cause__` of an action's exception; an ExpressionError has none.
  abbrev pub cause_of : ℕ → Fault → List Effect → Option ActionError
  cause_of n (Fault.action_error x) trace = h.cause n trace
  cause_of n _ trace = none

  -- A raise of an exit hook goes straight to the policy.
  abbrev pub from_exit : Fault → List Effect → Bool
  from_exit (Fault.action_error x) trace = is_exit (last_effect trace)
  from_exit _ trace = false

  unfoldable pub failed_with :
      Memory → ℕ → ℕ → Fault → List Effect → Execution → Option ActionError → Driven
  failed_with m r n f trace exe none = breaks (by_engine f) exe
  failed_with m r n f trace exe (some x) =
      if from_exit f trace
      then on_action_error (by_engine f) x (cause_of n f trace) exe
      else route_error n f x (cause_of n f trace) trace exe (h.lookup (write m r exe) exe)

  -- `_drive_flow`
  unfoldable pub driven : Memory → ℕ → ℕ → Definition → Result (Unit {0}) × World → Driven
  driven m r n defn (ok _, w) = commits (collect (due n false) w.trace) w.exe
  driven m r n defn (raised f, w) = failed_with m r n f w.trace w.exe (exception_of h.repr defn f)

  unfoldable pub checked :
      Memory
      → ℕ
      → ℕ
      → Definition
      → Definition
      → Option Event
      → Execution
      → Option DefinitionProblem
      → Driven
  checked m r n defn gen ev exe none = driven m r n gen (generate n false gen ev exe)
  checked m r n defn gen ev exe (some p) =
      on_action_error (changed p)
        (record { type = "DefinitionChanged"; message = problem_text h.repr defn exe p }) none exe

  -- The execution that is driven, and what its step comes to.
  unfoldable pub drive : Memory → ℕ → ℕ → Definition → Definition → Option Event → Driven
  drive m r n defn gen ev =
      let exe = adopt defn (m.heap r) in checked m r n defn gen ev exe (definition_problem defn exe)

  unfoldable pub batch_of : ℕ → Option Event → Option String → Execution → Collected → Batch
  batch_of n ev from_path exe c = record {
    emits = c.emits;
    processed_event_id = event_id_of ev;
    timers = c.timers;
    spawns = c.spawns;
    trace = if h.traced then some (trace_step ev from_path exe (h.time (h.now n)) c) else none;
  }

  -- The execution is stamped and written, other threads act, and it is committed: the numbers of
  -- the emits.
  unfoldable pub checkpoint : ℕ → Execution → Batch → Flow (List ℕ)
  checkpoint r exe b s =
      let m = h.meanwhile s.step (write s.memory r (stamp exe (h.time (h.now s.step)))) in
      stored (commit m r b) (record s { memory = m; step = s.step + 1 })

  -- The commit of a step; it answers whether the relay has work.
  unfoldable pub conclude : ℕ → Option Event → Option String → Driven → Flow Bool
  conclude r ev from_path (breaks f exe) s =
      (raises f, record s { memory = write s.memory r exe; step = s.step + 1 })
  conclude r ev from_path (commits c exe) s =
      let committed = (do
        checkpoint r exe (batch_of s.step ev from_path exe c)
        give (is_work c)) in
      committed s

  unfoldable pub run_with : Definition → Option Event → ℕ → Option Definition → Flow Bool
  run_with gen ev r none s = (raises not_loaded, s)
  run_with gen ev r (some defn) s =
      conclude r ev (s.memory.heap r).active_path (drive s.memory r s.step defn gen ev) s

  -- `_run_flow`: the step of an object for an event, or its start. The engine runs on `gen`.
  unfoldable pub run_flow : Definition → Option Event → ℕ → Flow Bool
  run_flow gen ev r s = run_with gen ev r (h.lookup s.memory (s.memory.heap r)) s
