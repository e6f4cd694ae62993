-- ===== src/Hosting/Worker.antt =====
-- `WorkerLogic` of src/harel/engine/hosting.py: a worker claims a message, handles it by the status of its
-- execution, and publishes the timers that are due.
use harel.Prelude.{
  ℕ, ◌+◌, String, Bool, true, false, not, ◌&&◌, ◌==◌, leb, Option, none, some, List, length, sorted,
  if◌then◌else◌,
}
use mathlib.Core.Option
use harel.Events.{Event}
use harel.Model.{Definition}
use harel.Execution.{Execution, Status}
use harel.Store.{Timer, WorkerRecord}
use harel.Store.Commits.{load, is_processed}
use harel.Store.Listing.{same_status}
use harel.Store.Pending.{text_leb, due_timers, record_worker, forget_worker}
use harel.Transport.{Lease, Wanted, claim, ack, nack}
use harel.Driving.{
  Host, store_conflict, not_loaded, Outcome, returns, raises, Flow, give, throw, with_store,
  with_queue, in_turn, ◌>>=◌, ◌>>◌,
}
use harel.Driving.Inline.{delete_fired, timeout_of}
use harel.Driving.Routed.{publish_stored, route}

-- `seconds` are ticks. A worker without `machines` claims the work of all; `high` is what
-- `random.random() < high_ratio` answers at a step, where the ratio is not 0.
pub record Worker : Type 0 where
  pub worker_id : String
  pub machines : Option (List String)
  pub visibility : ℕ
  pub suspend_recheck : ℕ
  pub priority_threshold : ℕ
  pub high : ℕ → Bool
  pub heartbeat : ℕ

-- The attributes that a heartbeat writes.
pub record Beat : Type 0 where
  pub started_at : Option ℕ
  pub next_beat : ℕ

unfoldable pub heartbeat_due : ℕ → Beat → Bool
heartbeat_due now b = leb b.next_beat now

unfoldable pub heartbeat_failed : Worker → ℕ → Beat → Beat
heartbeat_failed w now b = record b { next_beat = now + w.heartbeat }

abbrev pub since : ℕ → Option ℕ → ℕ
since now none = now
since now (some t) = t

abbrev pub beaten : Worker → ℕ → Beat → WorkerRecord
beaten w now b = record {
  worker_id = w.worker_id;
  machines = Option.map (sorted text_leb) w.machines;
  started_at = since now b.started_at;
  seen_at = now;
  heartbeat = w.heartbeat;
}

unfoldable pub heartbeat : Host → Worker → Beat → Flow Beat
heartbeat h w b s =
    let now = h.now s.step in
    (with_store (record_worker (beaten w now b))
        >> give
            (record { started_at = some (since now b.started_at); next_beat = now + w.heartbeat }))
      s

unfoldable pub forget : Worker → Flow (Unit {0})
forget w = with_store (forget_worker w.worker_id)

-- What a message comes to by the status of its execution: it is dropped, parked, or run.
pub data Handling : Type 0 where
  drop park run : Handling

unfoldable pub handling : Execution → Event → Handling
handling exe ev =
    if same_status exe.status Status.cancelled
    then drop
    else if same_status exe.status Status.suspended
    then park
    else if same_status exe.status Status.pending && not (ev.kind == "Start")
    then drop
    else if same_status exe.status Status.cancelling && not (ev.kind == "Cancel")
    then drop
    else run

module _ (h : Host) (w : Worker) (rounds : ℕ) where
  unfoldable pub acks : Lease → Flow (Unit {0})
  acks lease = with_queue (ack lease)

  unfoldable pub nacks : Lease → ℕ → Flow (Unit {0})
  nacks lease delay s = with_queue (nack (h.now s.step) lease delay) s

  -- A StoreConflict gives the message back; any other exception leaves it with its lease.
  unfoldable pub conclude : Lease → Outcome (Unit {0}) → Flow (Unit {0})
  conclude lease (returns _) = acks lease
  conclude lease (raises (store_conflict expected met)) = nacks lease 0
  conclude lease (raises f) = throw f

  unfoldable pub run_with : Lease → ℕ → Option Definition → Flow (Unit {0})
  run_with lease r none s = throw not_loaded s
  run_with lease r (some defn) s =
      let (o, s') = route h rounds defn r lease.event s in conclude lease o s'

  unfoldable pub handle_by : Lease → ℕ → Handling → Flow (Unit {0})
  handle_by lease r drop s = acks lease s
  handle_by lease r park s = nacks lease w.suspend_recheck s
  handle_by lease r run s = run_with lease r (h.lookup s.memory (s.memory.heap r)) s

  unfoldable pub handle_object : Lease → Option ℕ → Flow (Unit {0})
  handle_object lease none s = acks lease s
  handle_object lease (some r) s =
      if is_processed s.memory.store lease.group_id lease.event.id
      then acks lease s
      else handle_by lease r (handling (s.memory.heap r) lease.event) s

  -- `handle_flow`, which answers True wherever it returns.
  unfoldable pub handle : Lease → Flow (Unit {0})
  handle lease s = handle_object lease (load s.memory lease.group_id) s

  unfoldable pub claims : ℕ → Flow (Option Lease)
  claims min_priority s =
      let wanted : Wanted = record { min_priority = min_priority; routing_keys = w.machines } in
      let (lease, q) = claim (h.now s.step) w.worker_id w.visibility wanted s.queue in
      (returns lease, record s { queue = q })

  abbrev pub or_any : Option Lease → Flow (Option Lease)
  or_any none = claims 0
  or_any (some lease) = give (some lease)

  -- `claim_flow`
  unfoldable pub claim_next : Flow (Option Lease)
  claim_next s = (if w.high s.step then claims w.priority_threshold >>= or_any else claims 0) s

  unfoldable pub handle_claimed : Option Lease → Flow Bool
  handle_claimed none = give false
  handle_claimed (some lease) = handle lease >> give true

  -- `step_flow`
  unfoldable pub step : Flow Bool
  step = claim_next >>= handle_claimed

  unfoldable pub fire_one : Timer → Flow (Unit {0})
  fire_one t = publish_stored h t.execution_id (timeout_of h t) >> delete_fired t

  -- `fire_due_timers_flow`: how many are due.
  unfoldable pub fire_due : Flow ℕ
  fire_due s =
      let due = due_timers (h.now s.step) s.memory.store in
      (in_turn fire_one due >> give (length due)) s
