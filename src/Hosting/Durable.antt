-- ===== src/Hosting/Durable.antt =====
-- `DurableLogic` of src/harel/engine/hosting.py: the host that drives an execution's events inline, with a
-- checkpoint at each. `Host.fails` is its `on_action_error`.
use harel.Prelude.{
  ℕ, ◌+◌, String, Bool, true, false, Option, none, some, List, [], ◌∷◌, is_some, if◌then◌else◌,
}
use harel.Prelude.Dict
use harel.Prelude.Dict.{Dict}
use harel.Events.{Event, with_defaults, check_context, check_event}
use harel.Model.{Definition}
use harel.Execution.{Execution}
use harel.Store.{Memory, Timer}
use harel.Store.Commits.{load}
use harel.Store.Pending.{due_timers}
use harel.Control.Commands
use harel.Control.Commands.{Ending, missing, refused, too_deep}
use harel.Control.Cancelling
use harel.Driving.{
  Host, by_engine, not_loaded, unknown_execution, unknown_definition, already_exists,
  redrive_refused, endless, returns, raises, Flow, give, throw, allocate, ◌>>=◌, ◌>>◌,
}
use harel.Driving.Running.{env_at}
use harel.Driving.Inline.{
  inject, flush, deliver_timeout, delete_fired, timeout_of, is_suspended, read_object,
}
use harel.Driving.Inline
use harel.Hosting.{new_defn}
use harel.Hosting.Sender.{Creation, new_execution, raise_misfit, check_priority}

-- What a command of the control plane comes to; its bound on the depth of the children is `endless` here.
abbrev pub as_flow : String → Ending → Flow (Unit {0})
as_flow id (Ending.returned m) s = (returns tt, record s { memory = m })
as_flow id (missing m) s = (raises (unknown_execution id), record s { memory = m })
as_flow id (refused p m) s = (raises (redrive_refused p), record s { memory = m })
as_flow id (Ending.failed x m) s = (raises (by_engine x), record s { memory = m })
as_flow id (too_deep m) s = (raises endless, record s { memory = m })

module _ (h : Host) (rounds : ℕ) where
  unfoldable pub create_with : Creation → Option Definition → Flow (Unit {0})
  create_with c none = throw (unknown_definition c.definition_id)
  create_with c (some defn) = do
    let context = with_defaults defn.context_schema c.context
    raise_misfit (check_context defn.context_schema context true)
    check_priority c.priority
    r ← allocate (new_execution c defn context)
    Inline.start_object h defn rounds r

  -- `create_flow`, whose execution starts at once.
  unfoldable pub create : Dict Definition → Creation → Flow (Unit {0})
  create definitions c s = elim c.execution_id [
    | none ↦ create_with c (new_defn definitions c.definition_id c.version) s
    | some id ↦
        if is_some (load s.memory id)
        then throw (already_exists id) s
        else create_with c (new_defn definitions c.definition_id c.version) s
  ]

  unfoldable pub process_with : ℕ → Event → Option Definition → Flow (Unit {0})
  process_with r ev none = throw not_loaded
  process_with r ev (some defn) =
      raise_misfit (check_event defn.events ev.kind ev.payload) >> inject h defn rounds r ev

  unfoldable pub process_object : String → Event → Option ℕ → Flow (Unit {0})
  process_object id ev none s = throw (unknown_execution id) s
  process_object id ev (some r) s = process_with r ev (h.lookup s.memory (s.memory.heap r)) s

  -- `process_flow`
  unfoldable pub process_event : String → Event → Flow (Unit {0})
  process_event id ev s = process_object id ev (load s.memory id) s

  abbrev pub flush_with : String → Option Definition → Flow (Unit {0})
  flush_with name none = throw (unknown_definition name)
  flush_with name (some defn) = flush h defn rounds

  -- `recover_flow`
  unfoldable pub recover : Dict Definition → String → Flow (Unit {0})
  recover definitions name = flush_with name (Dict.get name definitions)

  -- A due timer of an execution that this host runs; `false`: left armed.
  unfoldable pub fire_with : Timer → Option Definition → Flow Bool
  fire_with t none = give false
  fire_with t (some defn) = do
    deliver_timeout h defn rounds t.execution_id (timeout_of h t)
    delete_fired t
    give true

  abbrev pub is_own : Dict Definition → Option Execution → Bool
  is_own definitions none = false
  is_own definitions (some exe) = Dict.has exe.definition_id definitions

  abbrev pub lookup_of : Memory → Option Execution → Option Definition
  lookup_of m none = none
  lookup_of m (some exe) = h.lookup m exe

  unfoldable pub fire_object : Dict Definition → Timer → Option Execution → Flow Bool
  fire_object definitions t exe s =
      let deleted = delete_fired t >> give true in
      if is_suspended exe
      then give false s
      else if is_own definitions exe
      then fire_with t (lookup_of s.memory exe) s
      else deleted s

  unfoldable pub fire_all : Dict Definition → List Timer → ℕ → Flow ℕ
  fire_all definitions [] fired = give fired
  fire_all definitions (t ∷ ts) fired = do
    one ← (λ s. fire_object definitions t (read_object s.memory (load s.memory t.execution_id)) s)
    fire_all definitions ts (if one then fired + 1 else fired)

  -- `fire_due_timers_flow`
  unfoldable pub fire_due_timers : Dict Definition → Flow ℕ
  fire_due_timers definitions s =
      fire_all definitions (due_timers (h.now s.step) s.memory.store) 0 s

  unfoldable pub cancel_with : ℕ → String → (ℕ → Event) → Option Definition → Flow (Unit {0})
  cancel_with depth id events none s = throw not_loaded s
  cancel_with depth id events (some defn) s =
      (as_flow id (
            Cancelling.cancel (h.meanwhile s.step) h.time (env_at h s.step false defn) events depth
              (h.now s.step) id s.memory)
          >> flush h defn rounds)
        s

  unfoldable pub cancel_object : ℕ → String → (ℕ → Event) → Option ℕ → Flow (Unit {0})
  cancel_object depth id events none s = throw (unknown_execution id) s
  cancel_object depth id events (some r) s =
      cancel_with depth id events (h.lookup s.memory (s.memory.heap r)) s

  -- `cancel_flow`: the injected Cancel is delivered at once, which runs the cleanup.
  unfoldable pub cancel : ℕ → String → (ℕ → Event) → Flow (Unit {0})
  cancel depth id events s = cancel_object depth id events (load s.memory id) s

  unfoldable pub terminate : ℕ → String → Flow (Unit {0})
  terminate depth id s =
      as_flow id (Commands.terminate (h.meanwhile s.step) h.time depth (h.now s.step) id s.memory) s

  unfoldable pub suspend : ℕ → String → Flow (Unit {0})
  suspend depth id s =
      as_flow id (Commands.suspend (h.meanwhile s.step) h.time depth (h.now s.step) id s.memory) s

  unfoldable pub resume : ℕ → String → Flow (Unit {0})
  resume depth id s =
      as_flow id (Commands.resume (h.meanwhile s.step) h.time depth (h.now s.step) id s.memory) s

  unfoldable pub redrive_with : String → String → Option Definition → Flow (Unit {0})
  redrive_with id target none s = throw not_loaded s
  redrive_with id target (some defn) s =
      as_flow id
        (Commands.redrive (h.meanwhile s.step) h.time defn (h.now s.step) id target s.memory) s

  unfoldable pub redrive_object : String → String → Option ℕ → Flow (Unit {0})
  redrive_object id target none s = throw (unknown_execution id) s
  redrive_object id target (some r) s =
      redrive_with id target (h.lookup s.memory (s.memory.heap r)) s

  -- `redrive_flow`
  unfoldable pub redrive : String → String → Flow (Unit {0})
  redrive id target s = redrive_object id target (load s.memory id) s
