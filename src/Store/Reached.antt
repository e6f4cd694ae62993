-- ===== src/Store/Reached.antt =====
-- The states that the operations of the in-memory store reach.
use harel.Prelude.{ℕ, String, ◌≡◌, Ascending-keep, List, arith, find}
use harel.Prelude.Dict
use harel.Value.{Value}
use harel.Prelude.Dict.{Dict}
use harel.Execution.{Execution}
use harel.Store.{Memory, WorkerRecord, DefinitionRecord, empty}
use harel.Store.Commits.{done, save, commit, Batch, record_trace, is_timer}
use harel.Store.Pending.{
  ack_outbox, ack_spawn, delete_timer, record_worker, forget_worker, purge, publish_definition,
  load_definition,
}
use harel.Store.Sequences.{outbox_seq, spawn_number}
use harel.Store.Sound.{
  Sound, record_trace-Sound, enqueue-Sound, save-Sound, commit-parts, object-Sound, armed-Sound,
  publish-Sound,
}

-- The operations that change the store; an object that the caller mutates is a write.
pub data Step : Memory → Memory → Type 0 where
  writes : (m : Memory) (heap : ℕ → Execution) → Step m (record m { heap = heap })
  saves : (m n : Memory) (r : ℕ) → save m r ≡ done n → Step m n
  commits :
      (m n : Memory) (r : ℕ) (b : Batch) (seqs : List ℕ) → commit m r b ≡ done (seqs, n) → Step m n
  acks : (m : Memory) (seq : ℕ) → Step m (record m { store = ack_outbox seq m.store })
  acks_spawn : (m : Memory) (seq : ℕ) → Step m (record m { store = ack_spawn seq m.store })
  deletes_timer :
      (m : Memory) (id path : String) (at : ℕ)
      → Step m (record m { store = delete_timer id path at m.store })
  traces :
      (m : Memory) (id : String) (entry : Dict Value)
      → Step m (record m { store = record_trace id entry m.store })
  purges : (m : Memory) (id : String) (expected : ℕ) → Step m (purge m id expected).1
  records_worker :
      (m : Memory) (w : WorkerRecord) → Step m (record m { store = record_worker w m.store })
  forgets_worker :
      (m : Memory) (id : String) → Step m (record m { store = forget_worker id m.store })
  publishes :
      (m : Memory) (d : DefinitionRecord)
      → Step m (record m { store = (publish_definition d m.store).1 })

pub data Reached : Memory → Type 0 where
  begins : (heap : ℕ → Execution) → Reached (record { heap = heap; store = empty })
  steps : (m n : Memory) → Reached m → Step m n → Reached n

pub Step-Sound : (m n : Memory) → Step m n → Sound m.store → Sound n.store
unfolding ack_outbox ack_spawn record_worker forget_worker purge delete_timer publish_definition
Step-Sound m _ (writes _ heap) h = h
Step-Sound m n (saves _ _ r e) h = save-Sound m n r e h
Step-Sound m n (commits _ _ r b seqs e) h =
    let (saved, s, q) = commit-parts m n r b seqs e in
    rw q (enqueue-Sound (m.heap r).id b saved.store (save-Sound m saved r s h))
Step-Sound m _ (acks _ n) h = record {
  outbox = Ascending-keep outbox_seq _ 0 m.store.seq m.store.outbox h.outbox;
  spawns = h.spawns;
  trace = h.trace;
}
Step-Sound m _ (acks_spawn _ n) h = record {
  outbox = h.outbox;
  spawns = Ascending-keep spawn_number _ 0 m.store.spawn_seq m.store.spawns h.spawns;
  trace = h.trace;
}
Step-Sound m _ (deletes_timer _ id path at) h =
    armed-Sound id path at m.store (find (is_timer id path) m.store.timers) h
Step-Sound m _ (traces _ id entry) h = record_trace-Sound id entry m.store h
Step-Sound m _ (purges _ id v) h = object-Sound m id v (Dict.get id m.store.by_id) h
Step-Sound m _ (records_worker _ w) h = record {
  outbox = h.outbox;
  spawns = h.spawns;
  trace = h.trace;
}
Step-Sound m _ (forgets_worker _ id) h = record {
  outbox = h.outbox;
  spawns = h.spawns;
  trace = h.trace;
}
Step-Sound m _ (publishes _ d) h =
    publish-Sound d m.store (load_definition d.definition_id d.version m.store) h

-- In every state that the operations of the store reach from an empty one, whatever the callers write
-- to the objects, the outbox and the spawns stand in strictly ascending order of their numbers, none of
-- which is above its counter, and no trace is longer than the store's limit, where it has one.
pub Reached-Sound : (m : Memory) → Reached m → Sound m.store
unfolding Dict.get
Reached-Sound _ (begins heap) = record {
  outbox = omega arith;
  spawns = omega arith;
  trace = λ id z. omega arith;
}
Reached-Sound n (steps m _ r s) = Step-Sound m n s (Reached-Sound m r)
