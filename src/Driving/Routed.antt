-- ===== src/Driving/Routed.antt =====
-- `TransportDriverLogic` of src/harel/engine/driving.py: what a step emits is published, and a domain event goes
-- to the groups of the live regions. The transport reads the driver's clock.
use harel.Prelude.{
  ℕ, zero, suc, ◌+◌, String, Bool, true, false, not, ◌&&◌, ◌||◌, ◌==◌, Option, none, some, List, [],
  ◌∷◌, mem, if◌then◌else◌,
}
use harel.Events.{Event}
use harel.Model.{Definition}
use harel.Execution.{Execution, route_of}
use harel.Engine.Start.{ttl_delay, ttl_path}
use harel.Store.{Memory, OutboxEntry, SpawnEntry, TimerOp, schedule}
use harel.Store.Commits.{load}
use harel.Store.Pending.{pending_outbox, ack_outbox, pending_spawns}
use harel.Transport.{publish}
use harel.Driving.{Host, endless, Flow, give, throw, with_store, with_queue, in_turn, ◌>>=◌, ◌>>◌}
use harel.Driving.Running.{checkpoint, run_flow, is_any}
use harel.Driving.Inline.{
  control_kinds, stored_among, live_ids, read_object, create_all, broadcast_batch,
}
use harel.Driving.Inline

module _ (h : Host) where
  -- At the priority and by the key of the execution that it is for.
  unfoldable pub publish_to : String → Event → Option Execution → Flow (Unit {0})
  publish_to id ev target s =
      with_queue (publish (h.now s.step) id ev (Inline.priority_of target) (route_of target)) s

  -- `_deliver_timeout_flow`
  unfoldable pub publish_stored : String → Event → Flow (Unit {0})
  publish_stored id ev s = publish_to id ev (read_object s.memory (load s.memory id)) s

  -- The execution that the step was of, where it is the target, else the stored one.
  abbrev pub target_in : Memory → Option ℕ → String → Option ℕ
  target_in m none id = load m id
  target_in m (some r) id = if (m.heap r).id == id then some r else load m id

  unfoldable pub publish_entry : Option ℕ → Event → Option String → Flow (Unit {0})
  publish_entry primary ev none s = give tt s
  publish_entry primary ev (some id) s =
      publish_to id ev (read_object s.memory (target_in s.memory primary id)) s

  unfoldable pub send_entry : Option ℕ → OutboxEntry → Flow (Unit {0})
  send_entry primary entry =
      publish_entry primary entry.event entry.target_id >> with_store (ack_outbox entry.seq)

  unfoldable pub send_round :
      Definition → Option ℕ → List SpawnEntry → List OutboxEntry → Flow (Unit {0})
  send_round defn primary spawns outbox =
      create_all h defn spawns >> in_turn (send_entry primary) outbox

  unfoldable pub send_pending :
      Flow (Unit {0}) → Definition → Option ℕ → List SpawnEntry → List OutboxEntry → Flow (Unit {0})
  send_pending again defn primary spawns outbox =
      let round = send_round defn primary spawns outbox >> again in
      if is_any spawns || is_any outbox then round else give tt

  -- `_flush_flow`, with the rounds left.
  unfoldable pub flush_out : ℕ → Definition → Option ℕ → Flow (Unit {0})
  flush_out zero defn primary s = throw endless s
  flush_out (suc rounds) defn primary s =
      send_pending (flush_out rounds defn primary) defn primary (pending_spawns s.memory.store)
        (pending_outbox s.memory.store) s

  abbrev pub publish_object : Event → ℕ → Flow (Unit {0})
  publish_object ev r s = let exe = s.memory.heap r in publish_to exe.id ev (some exe) s

  -- The expiry budget of an execution whose regions take an event starts anew.
  unfoldable pub rearmed : ℕ → Execution → Option ℕ → Execution × List TimerOp
  rearmed now exe none = (exe, [])
  rearmed now exe (some delay) = (
    record exe { expires_at = some (h.time (now + delay)) },
    schedule ttl_path (now + delay) ∷ [],
  )

  unfoldable pub commit_broadcast : ℕ → Event → Execution × List TimerOp → Flow Bool
  commit_broadcast r ev (exe, timers) = do
    checkpoint h r exe (broadcast_batch ev timers)
    give false

  unfoldable pub broadcast : Definition → ℕ → Event → List ℕ → Flow Bool
  broadcast defn r ev live = in_turn (publish_object ev) live >> λ s.
      let exe = s.memory.heap r in
      commit_broadcast r ev (rearmed (h.now s.step) exe (ttl_delay defn exe)) s

  abbrev pub relay_if : ℕ → Definition → ℕ → Bool → Flow (Unit {0})
  relay_if rounds defn r false = give tt
  relay_if rounds defn r true = flush_out rounds defn (some r)

  unfoldable pub route_to : Definition → ℕ → Event → List ℕ → Flow Bool
  route_to defn r ev live =
      if not (mem ev.kind control_kinds) && is_any live
      then broadcast defn r ev live
      else run_flow h defn (some ev) r

  -- `route_flow`: an event for an object, with the driver's definition; the relay runs where there
  -- is work for it.
  unfoldable pub route : ℕ → Definition → ℕ → Event → Flow (Unit {0})
  route rounds defn r ev s =
      (route_to defn r ev (stored_among s.memory (live_ids (s.memory.heap r).children))
          >>= relay_if rounds defn r)
        s
