-- ===== src/Engine/Process.antt =====
-- `process` of src/harel/engine/core.py: one event, by its kind. Each kind of control event is a
-- definition; a kind that is no control event is a domain event.
pub mod Inert
pub mod Cooperative
use harel.Prelude.{
  ℕ, ◌+◌, String, Bool, true, false, not, ◌&&◌, ◌||◌, ◌==◌, Option, none, some, [], ◌∷◌, ◌++◌,
  is_some, if◌then◌else◌, mem, keep,
}
use harel.Prelude.Dict
use harel.Prelude.Dict.{Dict}
use harel.Value.{Value, null, str, seq, dict, value_eq}
use harel.Events.{Event, with_defaults}
use harel.Model.{Node, info, path}
use harel.Execution.{Execution, Status, is_running, ChildState, is_finished}
use harel.Engine.Result.{Result, ok, raised, stuck, need}
use harel.Engine.Effects.{
  M, Env, activity, pure, raise, lift, gets, modify, node_at, active_node, new_event, for_each,
  ◌>>=◌, ◌>>◌,
}
use harel.Engine.Resolve.{Found, resolve, resolve_at, is_active, event_pred}
use harel.Engine.Regions.{iterate, seq_of, child_id_at}
use harel.Engine.Take.{run}
use harel.Engine.Drain.{drain, fire, deferred_kinds}
use harel.Engine.Start.{start, set_state, arm_ttl, ttl_path, leave_site, expire_now}
use harel.Engine.Finished.{get_or_null, as_key, on_finished}

abbrev pub opt_value : Option Value → Value
opt_value none = null
opt_value (some v) = v

abbrev pub is_cancelling : Status → Bool
is_cancelling Status.cancelling = true
is_cancelling _ = false

abbrev pub is_pending : Status → Bool
is_pending Status.pending = true
is_pending _ = false

-- `v == "@ttl"`
abbrev pub is_ttl : Value → Bool
is_ttl (str s) = s == ttl_path
is_ttl _ = false

abbrev pub count_event : Execution → Execution
count_event exe = record exe { processed_events = exe.processed_events + 1 }

module _ (env : Env) where
  -- What a restart keeps: nothing but the identity and the entry counters.
  abbrev pub cleared : Execution → Execution
  cleared exe = record exe {
    children = [];
    context =
        if not (is_some exe.parent_id) || is_some exe.definition_fqn
        then with_defaults env.defn.context_schema []
        else [];
    history = [];
    deferred = [];
    active_path = none;
    outcome = none;
    error = none;
    status = Status.pending;
  }

  unfoldable pub on_reset : M (Unit {0})
  on_reset = do
    exe ← gets (λ exe. exe)
    if is_cancelling exe.status then pure tt else do leave_site env; modify cleared; start env

  unfoldable pub cancel_by : Event → Option Found → M (Unit {0})
  cancel_by ev none = modify (λ exe. record exe { status = Status.cancelled })
  cancel_by ev (some found) = do
    modify (λ exe. record exe { status = Status.running })
    fire env (some ev) found
    drain env
    modify count_event

  -- The transition that an execution that acts has for the event.
  abbrev pub handler_if : Bool → Execution → Event → Result (Option Found)
  handler_if true exe ev = resolve env.defn exe (event_pred env.floats ev exe.context) true
  handler_if false exe ev = ok none

  unfoldable pub on_cancel : Event → M (Unit {0})
  on_cancel ev = do
    exe ← gets (λ exe. exe)
    if is_finished exe.status then pure tt else do
      let acts = (is_running exe.status || is_cancelling exe.status) && is_some exe.active_path
      found ← lift (handler_if acts exe ev)
      cancel_by ev found

  unfoldable pub on_start : Event → M (Unit {0})
  on_start ev = do
    exe ← gets (λ exe. exe)
    if is_pending exe.status
        then (do
          modify (λ exe. record exe { context = Dict.update exe.context ev.payload })
          start env)
        else pure tt

  unfoldable pub set_state_key : Option String → M (Unit {0})
  set_state_key none = pure tt
  set_state_key (some p) = set_state env p

  unfoldable pub on_set_state : Event → M (Unit {0})
  on_set_state ev = do p ← lift (as_key (get_or_null "current_state" ev.payload)); set_state_key p

  unfoldable pub on_expiry : Event → M (Unit {0})
  on_expiry ev = do
    exe ← gets (λ exe. exe)
    if not (is_running exe.status)
          || not (value_eq env.floats (get_or_null "fire_at" ev.payload) (opt_value exe.expires_at))
        then pure tt
        else expire_now env

  unfoldable pub time_out : Event → Option Found → M (Unit {0})
  time_out ev none = pure tt
  time_out ev (some found) = do fire env (some ev) found; drain env; modify count_event

  unfoldable pub time_out_at : Event → Option String → M (Unit {0})
  time_out_at ev none = pure tt
  time_out_at ev (some p) = do
    exe ← gets (λ exe. exe)
    live ← lift (is_active env.defn exe p)
    if not live
        then pure tt
        else time_out ev (resolve_at env.defn p (event_pred env.floats ev exe.context))

  unfoldable pub on_timeout : Event → M (Unit {0})
  on_timeout ev = do
    exe ← gets (λ exe. exe)
    let at = get_or_null "path" ev.payload
    if is_ttl at
        then on_expiry ev
        else if not (is_running exe.status)
        then pure tt
        else (do p ← lift (as_key at); time_out_at ev p)

  -- A domain event that no transition takes: held if it is deferred, else the leaf's activity.
  unfoldable pub unhandled : Event → M (Unit {0})
  unhandled ev = do
    exe ← gets (λ exe. exe)
    if not (is_some exe.active_path)
        then raise stuck
        else if mem ev.kind (deferred_kinds env exe)
        then modify (λ exe. record exe { deferred = exe.deferred ++ ev ∷ [] })
        else (do active ← active_node env; run env active activity (some ev))

  unfoldable pub react : Event → Option Found → M (Unit {0})
  react ev none = unhandled ev
  react ev (some found) = fire env (some ev) found

  unfoldable pub on_domain : Event → M (Unit {0})
  on_domain ev = do
    exe ← gets (λ exe. exe)
    if not (is_running exe.status) then pure tt else do
      found ← lift (resolve env.defn exe (event_pred env.floats ev exe.context) true)
      react ev found
      drain env
      modify count_event
      arm_ttl env

  unfoldable pub process : Event → M (Unit {0})
  process ev =
      if ev.kind == "Reset"
      then on_reset
      else if ev.kind == "Cancel"
      then on_cancel ev
      else if ev.kind == "Start"
      then on_start ev
      else if ev.kind == "SetState"
      then on_set_state ev
      else if ev.kind == "Finished"
      then on_finished env ev
      else if ev.kind == "Timeout"
      then on_timeout ev
      else on_domain ev
