-- ===== src/Store/Commits.antt =====
-- `load`, `save`, `commit` and `is_processed` of src/harel/engine/store/dict.py, with the trace that a
-- commit records.
use harel.Prelude.{
  ℕ, ◌+◌, ◌-◌, String, Bool, true, false, not, ◌&&◌, ◌||◌, ◌==◌, eqb, ltb, Option, none, some, List,
  [], ◌∷◌, ◌++◌, any, keep, mem, length, drop, or_else, if◌then◌else◌,
}
use harel.Prelude.Dict
use harel.Prelude.Dict.{Dict}
use harel.Prelude.Int.{pos}
use harel.Value.{Value, int}
use harel.Events.{Event}
use harel.Execution.{Execution}
use harel.Store.{OutboxEntry, SpawnEntry, TimerOp, schedule, cancel, Timer, DictStore, Memory, both}

-- What a call answers, or the StoreConflict that it raises: the version expected and the one found.
pub data Answer {ℓ} (A : Type ℓ) : Type ℓ where
  done : A → Answer A
  conflict : ℕ → Option ℕ → Answer A

-- `self._by_id.get(execution_id)`
abbrev pub load : Memory → String → Option ℕ
load m id = Dict.get id m.store.by_id

abbrev pub version_of : Memory → ℕ → ℕ
version_of m r = (m.heap r).version

abbrev pub put_object : ℕ → Execution → (ℕ → Execution) → ℕ → Execution
put_object r exe heap q = if eqb q r then exe else heap q

-- `exe.version += 1; self._by_id[exe.id] = exe`
unfoldable pub keep_object : Memory → ℕ → Memory
keep_object m r =
    let exe = m.heap r in
    record {
      heap = put_object r (record exe { version = exe.version + 1 }) m.heap;
      store = record m.store { by_id = Dict.put exe.id r m.store.by_id };
    }

-- The first save of an id that was purged.
abbrev pub forget_purge : Memory → String → Memory
forget_purge m id = record m {
  store = record m.store { purged = keep (λ p. not (p == id)) m.store.purged };
}

unfoldable pub save : Memory → ℕ → Answer Memory
save m r =
    let exe = m.heap r in
    elim (load m exe.id) [
      | some prev ↦
          if not (eqb prev r) && not (eqb (version_of m prev) exe.version)
          then conflict exe.version (some (version_of m prev))
          else done (keep_object m r)
      | none ↦
          if not (mem exe.id m.store.purged)
          then done (keep_object m r)
          else if not (eqb exe.version 0)
          then conflict exe.version none
          else done (keep_object (forget_purge m exe.id) r)
    ]

abbrev pub Emits : Type 0
Emits = List (Option String × Event)

-- The emits are numbered on from the counter.
unfoldable pub numbered : ℕ → Emits → List OutboxEntry
numbered n [] = []
numbered n ((target, ev) ∷ emits) =
    record { seq = n + 1; target_id = target; event = ev } ∷ numbered (n + 1) emits

abbrev pub Spawns : Type 0
Spawns = List (String × String × Dict Value)

unfoldable pub numbered_spawns : String → ℕ → Spawns → List SpawnEntry
numbered_spawns id n [] = []
numbered_spawns id n ((child, root, context) ∷ spawns) =
    record { seq = n + 1; parent_id = id; child_id = child; root_path = root; context = context }
    ∷ numbered_spawns id (n + 1) spawns

abbrev pub is_timer : String → String → Timer → Bool
is_timer id path t = both t.execution_id t.path id path

unfoldable pub put_timer : String → String → ℕ → List Timer → List Timer
put_timer id path at [] = record { execution_id = id; path = path; fire_at = at } ∷ []
put_timer id path at (t ∷ ts) =
    if is_timer id path t
    then record { execution_id = id; path = path; fire_at = at } ∷ ts
    else t ∷ put_timer id path at ts

abbrev pub drop_timer : String → String → List Timer → List Timer
drop_timer id path ts = keep (λ t. not (is_timer id path t)) ts

unfoldable pub apply_timers : String → List TimerOp → List Timer → List Timer
apply_timers id [] ts = ts
apply_timers id (schedule path at ∷ ops) ts = apply_timers id ops (put_timer id path at ts)
apply_timers id (cancel path ∷ ops) ts = apply_timers id ops (drop_timer id path ts)

abbrev pub seen_event : DictStore → String → String → Bool
seen_event s id ev = any (λ (p : String × String). both p.0 p.1 id ev) s.processed

-- `self._processed.add((exe.id, processed_event_id))`
unfoldable pub add_processed : String → Option String → DictStore → DictStore
add_processed id none s = s
add_processed id (some ev) s =
    if seen_event s id ev then s else record s { processed = (id, ev) ∷ s.processed }

-- The last `limit` steps; 0: all of them.
unfoldable pub ring : ℕ → List (Dict Value) → List (Dict Value)
ring limit steps =
    if not (eqb limit 0) && ltb limit (length steps)
    then drop (length steps - limit) steps
    else steps

-- No steps where there is no list.
abbrev pub steps_in : Option (List (Dict Value)) → List (Dict Value)
steps_in none = []
steps_in (some steps) = steps

abbrev pub steps_of : DictStore → String → List (Dict Value)
steps_of s id = steps_in (Dict.get id s.trace)

abbrev pub next_index : DictStore → String → ℕ
next_index s id = elim (Dict.get id s.trace_idx) [ none ↦ 0 | some n ↦ n ]

-- An entry that holds an index keeps it.
abbrev pub with_index : ℕ → Dict Value → Dict Value
with_index i entry = elim (Dict.get "index" entry) [
  | none ↦ Dict.put "index" (int (pos i)) entry
  | some v ↦ Dict.put "index" v entry
]

unfoldable pub record_trace : String → Dict Value → DictStore → DictStore
record_trace id entry s = record s {
  trace_idx = Dict.put id (next_index s id + 1) s.trace_idx;
  trace =
      Dict.put id (ring s.trace_max (steps_of s id ++ with_index (next_index s id) entry ∷ []))
        s.trace;
}

abbrev pub record_step : String → Option (Dict Value) → DictStore → DictStore
record_step id none s = s
record_step id (some entry) s = record_trace id entry s

-- What one commit carries besides the execution.
pub record Batch : Type 0 where
  pub emits : Emits
  pub processed_event_id : Option String
  pub timers : List TimerOp
  pub spawns : Spawns
  pub trace : Option (Dict Value)

abbrev pub queue_emits : Emits → DictStore → DictStore
queue_emits emits s = record s {
  outbox = s.outbox ++ numbered s.seq emits;
  seq = s.seq + length emits;
}

abbrev pub queue_work : String → Batch → DictStore → DictStore
queue_work id b s = record s {
  timers = apply_timers id b.timers s.timers;
  spawns = s.spawns ++ numbered_spawns id s.spawn_seq b.spawns;
  spawn_seq = s.spawn_seq + length b.spawns;
}

unfoldable pub enqueue : String → Batch → DictStore → DictStore
enqueue id b s =
    record_step id b.trace
      (queue_work id b (add_processed id b.processed_event_id (queue_emits b.emits s)))

-- What follows the save: the numbers of the emits, and the new state.
unfoldable pub commit_saved : Memory → ℕ → Batch → Answer Memory → Answer (List ℕ × Memory)
commit_saved m r b (conflict expected met) = conflict expected met
commit_saved m r b (done saved) = done (
  harel.Prelude.map (λ (e : OutboxEntry). e.seq) (numbered m.store.seq b.emits),
  record saved { store = enqueue (m.heap r).id b saved.store },
)

unfoldable pub commit : Memory → ℕ → Batch → Answer (List ℕ × Memory)
commit m r b = commit_saved m r b (save m r)

abbrev pub is_processed : DictStore → String → String → Bool
is_processed s id ev = seen_event s id ev

abbrev pub read_trace : DictStore → String → List (Dict Value)
read_trace s id = steps_of s id
