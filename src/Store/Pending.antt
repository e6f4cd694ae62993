-- ===== src/Store/Pending.antt =====
-- What waits in the store of src/harel/engine/store/dict.py: outbox, spawns and timers, with their
-- acknowledgements, the purge of an execution, the published definitions and the workers' records.
use harel.Prelude.{
  ℕ, String, Bool, true, false, not, ◌&&◌, ◌||◌, ◌==◌, eqb, ltb, leb, Option, none, some, List, [],
  ◌∷◌, ◌++◌, keep, find, map, mem, sorted, if◌then◌else◌, starts_with,
}
use harel.Prelude.Dict
use harel.Prelude.Dict.{Dict}
use harel.Store.{OutboxEntry, SpawnEntry, Timer, DefinitionRecord, WorkerRecord, DictStore, Memory}
use harel.Store.Commits.{load, version_of, is_timer, drop_timer}

abbrev pub pending_outbox : DictStore → List OutboxEntry
pending_outbox s = s.outbox

unfoldable pub ack_outbox : ℕ → DictStore → DictStore
ack_outbox n s = record s { outbox = keep (λ (e : OutboxEntry). not (eqb e.seq n)) s.outbox }

abbrev pub pending_spawns : DictStore → List SpawnEntry
pending_spawns s = s.spawns

unfoldable pub ack_spawn : ℕ → DictStore → DictStore
ack_spawn n s = record s { spawns = keep (λ (e : SpawnEntry). not (eqb e.seq n)) s.spawns }

unfoldable pub due_timers : ℕ → DictStore → List Timer
due_timers now s = keep (λ (t : Timer). leb t.fire_at now) s.timers

-- A timer that was armed anew in the meantime stays.
unfoldable pub delete_armed : String → String → ℕ → DictStore → Option Timer → DictStore
delete_armed id path at s none = s
delete_armed id path at s (some t) =
    if eqb t.fire_at at then record s { timers = drop_timer id path s.timers } else s

unfoldable pub delete_timer : String → String → ℕ → DictStore → DictStore
delete_timer id path at s = delete_armed id path at s (find (is_timer id path) s.timers)

-- `a <= b` on texts
abbrev pub text_leb : String → String → Bool
text_leb a b = elim (Prim.Native.String.compare a b) [
  | Prim.Native.Nat.Ordering.gt ↦ false
  | _ ↦ true
]

-- The soonest first, and by path at the same time.
abbrev pub timer_leb : Timer → Timer → Bool
timer_leb t u = ltb t.fire_at u.fire_at || (eqb t.fire_at u.fire_at && text_leb t.path u.path)

pub record PendingWork : Type 0 where
  pub timers : List Timer
  pub outbox : List OutboxEntry
  pub spawns : List SpawnEntry

-- `e.target_id == execution_id`
abbrev pub is_for : String → OutboxEntry → Bool
is_for id e = elim e.target_id [ none ↦ false | some t ↦ t == id ]

unfoldable pub pending_work : DictStore → String → PendingWork
pending_work s id = record {
  timers = sorted timer_leb (keep (λ (t : Timer). t.execution_id == id) s.timers);
  outbox = keep (is_for id) s.outbox;
  spawns = keep (λ (e : SpawnEntry). e.parent_id == id) s.spawns;
}

unfoldable pub record_worker : WorkerRecord → DictStore → DictStore
record_worker w s = record s { workers = Dict.put w.worker_id w s.workers }

unfoldable pub list_workers : DictStore → List WorkerRecord
list_workers s =
    map (λ (e : String × WorkerRecord). e.1) (sorted (λ a b. text_leb (a.0) (b.0)) s.workers)

unfoldable pub forget_worker : String → DictStore → DictStore
forget_worker id s = record s { workers = Dict.remove id s.workers }

unfoldable pub ids_with_prefix : String → DictStore → List String
ids_with_prefix prefix s = keep (λ i. starts_with i prefix) (map (λ (e : String × ℕ). e.0) s.by_id)

-- All that the store holds for an execution besides the execution.
unfoldable pub purge_companions : String → DictStore → DictStore
purge_companions id s = record s {
  processed = keep (λ (p : String × String). not (p.0 == id)) s.processed;
  timers = keep (λ (t : Timer). not (t.execution_id == id)) s.timers;
  outbox = keep (λ e. not (is_for id e)) s.outbox;
  spawns = keep (λ (e : SpawnEntry). not (e.parent_id == id)) s.spawns;
  trace = Dict.remove id s.trace;
  trace_idx = Dict.remove id s.trace_idx;
}

abbrev pub remember : String → List String → List String
remember id ids = if mem id ids then ids else id ∷ ids

-- The execution's entry is removed, and its id remembered.
abbrev pub unlist : String → DictStore → DictStore
unlist id s = record s { by_id = Dict.remove id s.by_id; purged = remember id s.purged }

unfoldable pub purge_object : Memory → String → ℕ → Option ℕ → Bool × Memory
purge_object m id expected none = (false, record m { store = purge_companions id m.store })
purge_object m id expected (some r) =
    if not (eqb (version_of m r) expected)
    then (false, m)
    else (true, record m { store = purge_companions id (unlist id m.store) })

-- Whether an execution was removed, and the new state.
unfoldable pub purge : Memory → String → ℕ → Bool × Memory
purge m id expected = purge_object m id expected (load m id)

abbrev pub is_record : String → ℕ → DefinitionRecord → Bool
is_record id version d = d.definition_id == id && eqb d.version version

unfoldable pub load_definition : String → ℕ → DictStore → Option DefinitionRecord
load_definition id version s = find (is_record id version) s.definitions

-- `setdefault`: the first record published of a version stays.
unfoldable pub publish_over :
    DefinitionRecord → DictStore → Option DefinitionRecord → DefinitionRecord × DictStore
publish_over d s (some kept) = (kept, s)
publish_over d s none = (d, record s { definitions = s.definitions ++ d ∷ [] })

-- The record that is stored, and the new state.
unfoldable pub publish_definition : DefinitionRecord → DictStore → DefinitionRecord × DictStore
publish_definition d s = publish_over d s (load_definition d.definition_id d.version s)
