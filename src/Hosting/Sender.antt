-- ===== src/Hosting/Sender.antt =====
-- `SenderLogic` of src/harel/engine/hosting.py: executions are created, started and sent events by way of the
-- transport. Definitions are found by `Host.lookup`, new ones in the runner's registry.
use harel.Prelude.{
  ℕ, ◌+◌, String, Bool, true, false, not, ◌==◌, leb, Option, none, some, List, [], ◌∷◌, is_some,
  if◌then◌else◌,
}
use harel.Prelude.Dict
use harel.Prelude.Dict.{Dict}
use harel.Value.{Value}
use harel.Events.{Event, Problem, with_defaults, check_context, check_event}
use harel.Model.{Definition}
use harel.Execution.{Execution, Status, stamp}
use harel.Store.{Memory}
use harel.Store.Commits.{Answer, done, conflict, load, save}
use harel.Store.Listing.{same_status}
use harel.Store.Pending.{ack_outbox}
use harel.Control.Commands.{write, batch_of}
use harel.Driving.{
  Host, unknown_execution, unknown_definition, already_exists, start_refused, bad_priority, misfit,
  not_loaded, Flow, give, throw, with_store, allocate, stored, in_turn, ◌>>=◌, ◌>>◌,
}
use harel.Driving.Routed.{publish_to, publish_stored}
use harel.Driving.Running.{checkpoint}
use harel.Hosting.{new_defn}

-- The arguments of `create_flow`; `new_id` is the id that an Execution takes where none is given.
pub record Creation : Type 0 where
  pub definition_id : String
  pub context : Dict Value
  pub execution_id : Option String
  pub new_id : String
  pub priority : ℕ
  pub start_on_create : Bool
  pub version : Option ℕ

abbrev pub id_of : Creation → String
id_of c = elim c.execution_id [ none ↦ c.new_id | some id ↦ id ]

unfoldable pub new_execution : Creation → Definition → Dict Value → Execution
new_execution c defn context = record {
  id = id_of c;
  definition_id = c.definition_id;
  definition_fqn = none;
  definition_version = some defn.version;
  definition_digest = defn.digest;
  routing_key = some c.definition_id;
  root_path = "";
  status = Status.pending;
  outcome = none;
  error = none;
  active_path = none;
  history = [];
  context = context;
  processed_events = 0;
  version = 0;
  priority = c.priority;
  parent_id = none;
  child_id = none;
  deferred = [];
  children = [];
  invoke_seq = [];
  created_at = none;
  updated_at = none;
  finished_at = none;
  expires_at = none;
}

-- `save`, as a call from a flow.
abbrev pub save_answer : Answer Memory → Answer (Unit {0} × Memory)
save_answer (done m) = done (tt, m)
save_answer (conflict expected met) = conflict expected met

-- `priority: int = Field(ge=0, le=4)` of an Execution
abbrev pub check_priority : ℕ → Flow (Unit {0})
check_priority n = if leb n 4 then give tt else throw (bad_priority n)

-- The problems that a check raises with.
abbrev pub raise_misfit : Option (List Problem) → Flow (Unit {0})
raise_misfit none = give tt
raise_misfit (some ps) = throw (misfit ps)

module _ (h : Host) where
  unfoldable pub ack_all : List ℕ → Flow (Unit {0})
  ack_all seqs = in_turn (λ n. with_store (ack_outbox n)) seqs

  -- `_persist_start_flow`: the Start is committed with its execution, then published and taken from the
  -- outbox. The publish and the acks of this store and transport do not fail.
  unfoldable pub persist_start : ℕ → Event → Flow (Unit {0})
  persist_start r ev s =
      let exe = s.memory.heap r in
      let persist = (do
        seqs ← checkpoint h r exe (batch_of ((some exe.id, ev) ∷ []) [])
        publish_to h exe.id ev (some exe)
        ack_all seqs) in
      persist s

  unfoldable pub save_deferred : ℕ → Flow (Unit {0})
  save_deferred r s =
      let m = write s.memory r (stamp (s.memory.heap r) (h.time (h.now s.step))) in
      stored (save_answer (save m r)) (record s { memory = m; step = s.step + 1 })

  -- The `Start` of an execution, with its data.
  abbrev pub start_event : String → Dict Value → Event
  start_event id payload = record { id = id; kind = "Start"; payload = payload }

  unfoldable pub create_with : Creation → String → Option Definition → Flow ℕ
  create_with c event_id none = throw (unknown_definition c.definition_id)
  create_with c event_id (some defn) = do
    let context = with_defaults defn.context_schema c.context
    raise_misfit (check_context defn.context_schema context c.start_on_create)
    check_priority c.priority
    r ← allocate (new_execution c defn context)
    if c.start_on_create then persist_start r (start_event event_id []) else save_deferred r
    give r

  abbrev pub is_taken : Memory → Option String → Bool
  is_taken m none = false
  is_taken m (some id) = is_some (load m id)

  -- `create_flow`; `event_id` is the id of the Start.
  unfoldable pub create : Dict Definition → Creation → String → Flow ℕ
  create definitions c event_id s =
      if is_taken s.memory c.execution_id
      then throw (already_exists (id_of c)) s
      else create_with c event_id (new_defn definitions c.definition_id c.version) s

  unfoldable pub start_with : ℕ → Event → Execution → Option Definition → Flow (Unit {0})
  start_with r ev exe none = throw not_loaded
  start_with r ev exe (some defn) = do
    raise_misfit (check_context defn.context_schema (Dict.update exe.context ev.payload) true)
    persist_start r ev

  unfoldable pub start_object : String → Dict Value → String → Option ℕ → Flow (Unit {0})
  start_object id payload event_id none s = throw (unknown_execution id) s
  start_object id payload event_id (some r) s =
      let exe = s.memory.heap r in
      if not (same_status exe.status Status.pending)
      then give tt s
      else start_with r (start_event event_id payload) exe (h.lookup s.memory exe) s

  -- `start_flow`: one that has started already is left alone.
  unfoldable pub start : String → Dict Value → String → Flow (Unit {0})
  start id payload event_id s = start_object id payload event_id (load s.memory id) s

  unfoldable pub check_with : Event → Option Definition → Flow (Unit {0})
  check_with ev none = throw not_loaded
  check_with ev (some defn) = raise_misfit (check_event defn.events ev.kind ev.payload)

  abbrev pub check_stored : Event → Option ℕ → Flow (Unit {0})
  check_stored ev none s = give tt s
  check_stored ev (some r) s = check_with ev (h.lookup s.memory (s.memory.heap r)) s

  -- `send_flow`: an event that breaks its declaration is never queued.
  unfoldable pub send : String → Event → Flow (Unit {0})
  send id ev s =
      let sent = (do check_stored ev (load s.memory id); publish_stored h id ev) in
      if ev.kind == "Start" then throw start_refused s else sent s
