-- ===== src/Driving/Inline.antt =====
-- The inline driver of src/harel/engine/driving.py: the children that a step spawns are started, its events
-- delivered, and due timers fired, in the caller's thread.
use harel.Prelude.{
  ℕ, zero, suc, ◌+◌, String, Bool, true, false, not, ◌&&◌, ◌||◌, Option, none, some, List, [], ◌∷◌,
  gather, opt_list, mem, if◌then◌else◌,
}
use harel.Prelude.Dict
use harel.Prelude.Dict.{Dict}
use harel.Value.{Value, str}
use harel.Events.{Event, with_defaults}
use harel.Model.{Definition}
use harel.Execution.{Execution, ChildState, Status, route_of}
use harel.Engine.Signals.{timeout_event}
use harel.Engine.Start.{ttl_delay, ttl_path}
use harel.Store.{Memory, OutboxEntry, SpawnEntry, Timer, TimerOp, schedule}
use harel.Store.Commits.{Batch, load, is_processed}
use harel.Store.Listing.{same_status}
use harel.Store.Pending.{
  pending_outbox, ack_outbox, pending_spawns, ack_spawn, due_timers, delete_timer,
}
use harel.Driving.{
  Host, not_loaded, unresolved, endless, Flow, give, throw, with_store, allocate, in_turn, ◌>>=◌,
  ◌>>◌,
}
use harel.Driving.Running.{checkpoint, run_flow, is_any}

-- The kinds of control events, which drive the execution itself.
abbrev pub control_kinds : List String
control_kinds = "Start" ∷ "Reset" ∷ "Cancel" ∷ "SetState" ∷ "Finished" ∷ "Timeout" ∷ []

abbrev pub invoke_key : String
invoke_key = "__invoke_fqn__"

-- The objects that a list of ids stands for in the store.
abbrev pub stored_among : Memory → List String → List ℕ
stored_among m ids = gather (λ id. opt_list (load m id)) ids

-- A domain event is never broadcast into a submachine.
unfoldable pub live_ids : Dict ChildState → List String
live_ids [] = []
live_ids ((cid, cs) ∷ children) =
    if not cs.finished && not cs.submachine then cid ∷ live_ids children else live_ids children

abbrev pub priority_of : Option Execution → ℕ
priority_of none = 0
priority_of (some exe) = exe.priority

-- The object's execution, if there is an object.
abbrev pub read_object : Memory → Option ℕ → Option Execution
read_object m none = none
read_object m (some r) = some (m.heap r)

-- The Execution of a spawned child, before its first step.
unfoldable pub child_of :
    SpawnEntry → Option Execution → Definition → Option String → Dict Value → Execution
child_of entry parent defn fqn context = record {
  id = entry.child_id;
  definition_id = defn.id;
  definition_fqn = fqn;
  definition_version = some defn.version;
  definition_digest = defn.digest;
  routing_key = elim parent [ none ↦ some defn.id | some p ↦ route_of (some p) ];
  root_path = entry.root_path;
  status = Status.pending;
  outcome = none;
  error = none;
  active_path = none;
  history = [];
  context = context;
  processed_events = 0;
  version = 0;
  priority = priority_of parent;
  parent_id = some entry.parent_id;
  child_id = some entry.child_id;
  deferred = [];
  children = [];
  invoke_seq = [];
  created_at = none;
  updated_at = none;
  finished_at = none;
  expires_at = none;
}

abbrev pub broadcast_batch : Event → List TimerOp → Batch
broadcast_batch ev timers = record {
  emits = [];
  processed_event_id = some ev.id;
  timers = timers;
  spawns = [];
  trace = none;
}

-- A timer of a suspended execution stays armed.
unfoldable pub is_suspended : Option Execution → Bool
is_suspended none = false
is_suspended (some exe) = same_status exe.status Status.suspended

abbrev pub delete_fired : Timer → Flow (Unit {0})
delete_fired t = with_store (delete_timer t.execution_id t.path t.fire_at)

abbrev pub ack_spawn_of : SpawnEntry → Flow (Unit {0})
ack_spawn_of entry = with_store (ack_spawn entry.seq)

abbrev pub timeout_of : Host → Timer → Event
timeout_of h t = timeout_event h.floats t.execution_id t.path (h.time t.fire_at)

module _ (h : Host) (defn : Definition) where
  -- The definition of a parent, or the driver's where the parent is gone.
  unfoldable pub parent_defn : Memory → Option Execution → Option Definition
  parent_defn m none = some defn
  parent_defn m (some parent) = h.lookup m parent

  -- An invoked machine: the parent's own, else the resolver's. `none`: ResolveError.
  unfoldable pub invoked : Definition → String → Option Definition
  invoked parent fqn = elim (h.own parent fqn) [
    | some own ↦ some own
    | none ↦ elim h.resolve_machine [ none ↦ none | some resolve ↦ resolve fqn ]
  ]

  unfoldable pub start_invoked :
      SpawnEntry → Option Execution → String → Dict Value → Option Definition → Flow (Unit {0})
  start_invoked entry parent fqn context none = throw unresolved
  start_invoked entry parent fqn context (some machine) = do
    r ←
        allocate
          (child_of entry parent machine (some fqn) (with_defaults machine.context_schema context))
    run_flow h machine none r
    give tt

  -- A child of the parent's own machine, or of the machine that its context names.
  unfoldable pub start_child :
      SpawnEntry → Option Execution → Definition → Option Value → Flow (Unit {0})
  start_child entry parent own (some (str fqn)) =
      start_invoked entry parent fqn (Dict.remove invoke_key entry.context) (invoked own fqn)
  start_child entry parent own _ = do
    r ← allocate (child_of entry parent own none (Dict.remove invoke_key entry.context))
    run_flow h own none r
    give tt

  unfoldable pub start_under : SpawnEntry → Option Execution → Option Definition → Flow (Unit {0})
  start_under entry parent none = throw not_loaded
  start_under entry parent (some own) =
      start_child entry parent own (Dict.get invoke_key entry.context)

  -- A child that is stored already is left as it is.
  unfoldable pub create_absent : SpawnEntry → Option ℕ → Flow (Unit {0})
  create_absent entry (some r) s = give tt s
  create_absent entry none s =
      let parent = read_object s.memory (load s.memory entry.parent_id) in
      start_under entry parent (parent_defn s.memory parent) s

  -- `_create_spawn_flow`
  unfoldable pub create_spawn : SpawnEntry → Flow (Unit {0})
  create_spawn entry s = create_absent entry (load s.memory entry.child_id) s

  unfoldable pub create_all : List SpawnEntry → Flow (Unit {0})
  create_all spawns = in_turn create_spawn spawns >> in_turn ack_spawn_of spawns

  -- Runs an event on a stored execution, unless it is processed.
  unfoldable pub run_unseen : Event → ℕ → Bool → Option Definition → Flow (Unit {0})
  run_unseen ev r true found = give tt
  run_unseen ev r false none = throw not_loaded
  run_unseen ev r false (some gen) = do run_flow h gen (some ev) r; give tt

  unfoldable pub deliver_object : Event → Option ℕ → Flow (Unit {0})
  deliver_object ev none s = give tt s
  deliver_object ev (some r) s =
      let exe = s.memory.heap r in
      run_unseen ev r (is_processed s.memory.store exe.id ev.id) (h.lookup s.memory exe) s

  unfoldable pub deliver : Event → Option String → Flow (Unit {0})
  deliver ev none s = give tt s
  deliver ev (some id) s = deliver_object ev (load s.memory id) s

  unfoldable pub relay_entry : OutboxEntry → Flow (Unit {0})
  relay_entry entry = deliver entry.event entry.target_id >> with_store (ack_outbox entry.seq)

  unfoldable pub relay_round : List SpawnEntry → List OutboxEntry → Flow (Unit {0})
  relay_round spawns outbox = create_all spawns >> in_turn relay_entry outbox

  unfoldable pub relay : Flow (Unit {0}) → List SpawnEntry → List OutboxEntry → Flow (Unit {0})
  relay again spawns outbox =
      let round = relay_round spawns outbox >> again in
      if is_any spawns || is_any outbox then round else give tt

  -- `_flush_flow`, with the rounds left.
  unfoldable pub flush : ℕ → Flow (Unit {0})
  flush zero s = throw endless s
  flush (suc rounds) s =
      relay (flush rounds) (pending_spawns s.memory.store) (pending_outbox s.memory.store) s

  unfoldable pub timeout_object : ℕ → Event → Option ℕ → Flow (Unit {0})
  timeout_object rounds ev none s = give tt s
  timeout_object rounds ev (some r) s =
      let delivered = run_unseen ev r false (h.lookup s.memory (s.memory.heap r)) >> flush rounds in
      if is_processed s.memory.store (s.memory.heap r).id ev.id then give tt s else delivered s

  -- `_deliver_timeout_flow`: the relay follows a step that was taken.
  unfoldable pub deliver_timeout : ℕ → String → Event → Flow (Unit {0})
  deliver_timeout rounds id ev s = timeout_object rounds ev (load s.memory id) s

  -- One due timer: whether it fired.
  unfoldable pub fire_timer : ℕ → Timer → Flow Bool
  fire_timer rounds t s =
      let fired = (do
        deliver_timeout rounds t.execution_id (timeout_of h t)
        delete_fired t
        give true) in
      if is_suspended (read_object s.memory (load s.memory t.execution_id))
      then give false s
      else fired s

  unfoldable pub fire_timers : ℕ → List Timer → ℕ → Flow ℕ
  fire_timers rounds [] fired = give fired
  fire_timers rounds (t ∷ ts) fired = do
    one ← fire_timer rounds t
    fire_timers rounds ts (if one then fired + 1 else fired)

  -- `fire_due_timers_flow`: how many fired.
  unfoldable pub fire_due_timers : ℕ → Flow ℕ
  fire_due_timers rounds s = fire_timers rounds (due_timers (h.now s.step) s.memory.store) 0 s

  -- `start_flow`
  unfoldable pub start_object : ℕ → ℕ → Flow (Unit {0})
  start_object rounds r = do run_flow h defn none r; flush rounds

  unfoldable pub rearm_with : ℕ → Event → Option ℕ → Flow (Unit {0})
  rearm_with r ev none s = give tt s
  rearm_with r ev (some delay) s =
      let exe = s.memory.heap r in
      let at = h.now s.step + delay in
      let rearmed = (do
        checkpoint h r (record exe { expires_at = some (h.time at) })
            (broadcast_batch ev (schedule ttl_path at ∷ []))
        give tt) in
      if is_processed s.memory.store exe.id ev.id then give tt s else rearmed s

  unfoldable pub rearm_by : ℕ → Event → Option Definition → Flow (Unit {0})
  rearm_by r ev none s = throw not_loaded s
  rearm_by r ev (some own) s = rearm_with r ev (ttl_delay own (s.memory.heap r)) s

  -- `_rearm_ttl_flow`
  unfoldable pub rearm_ttl : ℕ → Event → Flow (Unit {0})
  rearm_ttl r ev s = rearm_by r ev (h.lookup s.memory (s.memory.heap r)) s

  unfoldable pub inject_to : ℕ → ℕ → Event → List ℕ → Flow (Unit {0})
  inject_to rounds r ev live =
      let one = λ (t : ℕ). deliver_object ev (some t) in
      let broadcast = in_turn one live >> rearm_ttl r ev in
      (if not (mem ev.kind control_kinds) && is_any live then broadcast else one r) >> flush rounds

  -- `inject_flow`: a domain event goes to the live regions instead of the execution.
  unfoldable pub inject : ℕ → ℕ → Event → Flow (Unit {0})
  inject rounds r ev s =
      inject_to rounds r ev (stored_among s.memory (live_ids (s.memory.heap r).children)) s
