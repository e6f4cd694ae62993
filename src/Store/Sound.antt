-- ===== src/Store/Sound.antt =====
-- An invariant of the in-memory store, and the operations that keep it.
use harel.Prelude.{
  ℕ, ◌+◌, String, ◌≡◌, refl, sym, Ascending, Ascending-append, Ascending-keep, not, eqb, Option,
  none, some, List, ◌++◌, arith, length, Bool-cases, inl, inr,
}
use harel.Value.{Value}
use harel.Prelude.Dict.{Dict}
use harel.Store.{DictStore, Memory, Timer, DefinitionRecord}
use harel.Store.Commits.{
  Answer, done, conflict, save, commit, commit_saved, Batch, enqueue, add_processed, numbered,
  numbered_spawns, record_trace, record_step, seen_event, keep_object,
}
use harel.Store.Pending.{purge_object, unlist, delete_armed, publish_over, purge_companions, is_for}
use harel.Store.Conflicts.{save-done}
use harel.Store.Sequences.{outbox_seq, spawn_number, numbered-Ascending, numbered_spawns-Ascending}
use harel.Store.Ring.{Ringed, record_trace-Ringed, remove-Ringed}

-- The outbox and the spawns are numbered in ascending order, up to the counters, and the traces are
-- within their limit.
pub record Sound (s : DictStore) : Type 0 where
  pub outbox : Ascending outbox_seq 0 s.seq s.outbox
  pub spawns : Ascending spawn_number 0 s.spawn_seq s.spawns
  pub trace : Ringed s

add_processed-Sound :
    (id : String) (ev : Option String) (s : DictStore) → Sound s → Sound (add_processed id ev s)
unfolding add_processed
add_processed-Sound id none s h = h
add_processed-Sound id (some ev) s h = elim (Bool-cases (seen_event s id ev)) [
  | inl e ↦ rw e h
  | inr e ↦ rw e (record { outbox = h.outbox; spawns = h.spawns; trace = h.trace })
]

pub record_trace-Sound :
    (id : String) (entry : Dict Value) (s : DictStore) → Sound s → Sound (record_trace id entry s)
unfolding record_trace
record_trace-Sound id entry s h = record {
  outbox = h.outbox;
  spawns = h.spawns;
  trace = record_trace-Ringed id entry s h.trace;
}

record_step-Sound :
    (id : String) (entry : Option (Dict Value)) (s : DictStore)
    → Sound s
    → Sound (record_step id entry s)
record_step-Sound id none s h = h
record_step-Sound id (some entry) s h = record_trace-Sound id entry s h

pub enqueue-Sound : (id : String) (b : Batch) (s : DictStore) → Sound s → Sound (enqueue id b s)
unfolding enqueue
enqueue-Sound id b s h =
    let queued : DictStore = record s {
      outbox = s.outbox ++ numbered s.seq b.emits;
      seq = s.seq + length b.emits;
    } in
    let grown : Sound queued = record {
      outbox =
          Ascending-append outbox_seq 0 s.seq (s.seq + length b.emits) s.outbox
            (numbered s.seq b.emits) h.outbox (numbered-Ascending s.seq b.emits);
      spawns = h.spawns;
      trace = h.trace;
    } in
    let known = add_processed id b.processed_event_id queued in
    let k = add_processed-Sound id b.processed_event_id queued grown in
    record_step-Sound id b.trace _ (record {
      outbox = k.outbox;
      spawns =
          Ascending-append spawn_number 0 known.spawn_seq (known.spawn_seq + length b.spawns)
            known.spawns (numbered_spawns id known.spawn_seq b.spawns) k.spawns
            (numbered_spawns-Ascending id known.spawn_seq b.spawns);
      trace = k.trace;
    })

pub save-Sound : (m n : Memory) (r : ℕ) → save m r ≡ done n → Sound m.store → Sound n.store
unfolding keep_object
save-Sound m n r e h = elim (save-done m n r e) [
  | inl q ↦ rw q (record { outbox = h.outbox; spawns = h.spawns; trace = h.trace })
  | inr q ↦ rw q (record { outbox = h.outbox; spawns = h.spawns; trace = h.trace })
]

saved-parts :
    (m n : Memory) (r : ℕ) (b : Batch) (seqs : List ℕ) (a : Answer Memory)
    → commit_saved m r b a ≡ done (seqs, n)
    → (saved : Memory) × (a ≡ done saved) × (n.store ≡ enqueue (m.heap r).id b saved.store)
unfolding commit_saved
saved-parts m n r b seqs (conflict expected met) h = absurd (ground (arith, h))
saved-parts m n r b seqs (done saved) h = (saved, refl, ground (arith, h))

-- The save of a commit that does not conflict, and what it leaves.
pub commit-parts :
    (m n : Memory) (r : ℕ) (b : Batch) (seqs : List ℕ)
    → commit m r b ≡ done (seqs, n)
    → (saved : Memory) × (save m r ≡ done saved) × (n.store ≡ enqueue (m.heap r).id b saved.store)
unfolding commit
commit-parts m n r b seqs h = saved-parts m n r b seqs (save m r) h

companions-Sound : (id : String) (s : DictStore) → Sound s → Sound (purge_companions id s)
unfolding purge_companions
companions-Sound id s h = record {
  outbox = Ascending-keep outbox_seq (λ e. not (is_for id e)) 0 s.seq s.outbox h.outbox;
  spawns = Ascending-keep spawn_number _ 0 s.spawn_seq s.spawns h.spawns;
  trace = remove-Ringed id s h.trace;
}

-- The parts that the invariant does not read.
same_parts :
    (s t : DictStore)
    → Sound s
    → t.outbox ≡ s.outbox
    → t.seq ≡ s.seq
    → t.spawns ≡ s.spawns
    → t.spawn_seq ≡ s.spawn_seq
    → t.trace ≡ s.trace
    → t.trace_max ≡ s.trace_max
    → Sound t
same_parts s t h a b c d e f = record {
  outbox = rw (a, b) h.outbox;
  spawns = rw (c, d) h.spawns;
  trace = λ id z. rw (e, f) (h.trace id (rw (sym f) z));
}

pub object-Sound :
    (m : Memory) (id : String) (v : ℕ) (o : Option ℕ)
    → Sound m.store
    → Sound (purge_object m id v o).1.store
unfolding purge_object
object-Sound m id v none h = companions-Sound id m.store h
object-Sound m id v (some r) h = elim (Bool-cases (eqb (m.heap r).version v)) [
  | inl q ↦ rw q (
      companions-Sound id (unlist id m.store)
        (same_parts m.store (unlist id m.store) h refl refl refl refl refl refl))
  | inr q ↦ rw q h
]

pub armed-Sound :
    (id path : String) (at : ℕ) (s : DictStore) (o : Option Timer)
    → Sound s
    → Sound (delete_armed id path at s o)
unfolding delete_armed
armed-Sound id path at s none h = h
armed-Sound id path at s (some t) h = elim (Bool-cases (eqb t.fire_at at)) [
  | inl q ↦ rw q (same_parts s _ h refl refl refl refl refl refl)
  | inr q ↦ rw q h
]

pub publish-Sound :
    (d : DefinitionRecord) (s : DictStore) (o : Option DefinitionRecord)
    → Sound s
    → Sound (publish_over d s o).1
unfolding publish_over
publish-Sound d s none h = same_parts s _ h refl refl refl refl refl refl
publish-Sound d s (some k) h = h
