-- ===== src/Store/Committed.antt =====
-- What a commit of the in-memory store leaves.
use harel.Prelude.{
  ℕ, ◌+◌, String, ◌≡◌, refl, sym, ap, subst, ◌∙◌, inl, inr, true, eq_iff, Option, none, some, List,
  [], ◌∷◌, ◌++◌, arith, map, Bool-cases,
}
use harel.Prelude.Dict
use harel.Value.{Value}
use harel.Events.{Event}
use harel.Prelude.Dict.{Dict}
use harel.Store.{DictStore, Memory, OutboxEntry}
use harel.Store.Commits.{
  Answer, done, conflict, queue_emits, queue_work, load, save, commit, commit_saved, Batch, Emits,
  enqueue, numbered, version_of, add_processed, is_processed, seen_event, record_trace, record_step,
  keep_object, forget_purge,
}
use harel.Store.Sequences.{outbox_seq}
use harel.Store.Conflicts.{save-done, load-keep_object}

-- The target and the event of an entry, as they were emitted.
abbrev pub emitted : OutboxEntry → Option String × Event
emitted e = (e.target_id, e.event)

map-numbered : (n : ℕ) (emits : Emits) → map emitted (numbered n emits) ≡ emits
unfolding numbered
map-numbered n [] = refl
map-numbered n ((target, ev) ∷ emits) = ap (λ es. (target, ev) ∷ es) (map-numbered (n + 1) emits)

-- What the store tells after a commit of an object, of what it told before.
pub record Committed (m : Memory) (r : ℕ) (b : Batch) (seqs : List ℕ) (n : Memory) : Type 0 where
  pub entries : List OutboxEntry
  pub queued : n.store.outbox ≡ m.store.outbox ++ entries
  pub in_order : map emitted entries ≡ b.emits
  pub numbers : map (λ (e : OutboxEntry). e.seq) entries ≡ seqs
  pub stored : load n (m.heap r).id ≡ some r
  pub written : n.heap r ≡ record (m.heap r) { version = version_of m r + 1 }
  pub known :
      (ev : String) → b.processed_event_id ≡ some ev → is_processed n.store (m.heap r).id ev ≡ true

record_step_keeps :
    (id : String) (entry : Option (Dict Value)) (s : DictStore)
    → ((record_step id entry s).outbox ≡ s.outbox)
      × ((record_step id entry s).by_id ≡ s.by_id)
      × ((record_step id entry s).processed ≡ s.processed)
unfolding record_trace
record_step_keeps id none s = (refl, refl, refl)
record_step_keeps id (some entry) s = (refl, refl, refl)

add_processed_keeps :
    (id : String) (ev : Option String) (s : DictStore)
    → ((add_processed id ev s).outbox ≡ s.outbox) × ((add_processed id ev s).by_id ≡ s.by_id)
unfolding add_processed
add_processed_keeps id none s = (refl, refl)
add_processed_keeps id (some ev) s = elim (Bool-cases (seen_event s id ev)) [
  | inl e ↦ rw e (refl, refl)
  | inr e ↦ rw e (refl, refl)
]

seen-add_processed :
    (id ev : String) (s : DictStore) → seen_event (add_processed id (some ev) s) id ev ≡ true
unfolding add_processed
seen-add_processed id ev s = elim (Bool-cases (seen_event s id ev)) [
  | inl e ↦ rw e e
  | inr e ↦ rw e (ground (arith, eq_iff id id, eq_iff ev ev))
]

pub enqueue-keeps :
    (id : String) (b : Batch) (s : DictStore)
    → ((enqueue id b s).outbox ≡ s.outbox ++ numbered s.seq b.emits)
      × ((enqueue id b s).by_id ≡ s.by_id)
unfolding enqueue
enqueue-keeps id b s =
    let added = add_processed id b.processed_event_id (queue_emits b.emits s) in
    let (o, i, _) = record_step_keeps id b.trace (queue_work id b added) in
    let (p, j) = add_processed_keeps id b.processed_event_id (queue_emits b.emits s) in
    (o ∙ p, i ∙ j)

enqueue-knows :
    (id ev : String) (b : Batch) (s : DictStore)
    → b.processed_event_id ≡ some ev
    → seen_event (enqueue id b s) id ev ≡ true
unfolding enqueue
enqueue-knows id ev b s h =
    let queued = queue_emits b.emits s in
    let added = add_processed id b.processed_event_id queued in
    let (_, _, p) = record_step_keeps id b.trace (queue_work id b added) in
    rw p (rw h (seen-add_processed id ev queued))

heap-keep_object :
    (k : Memory) (r : ℕ)
    → (keep_object k r).heap r ≡ record (k.heap r) { version = version_of k r + 1 }
unfolding keep_object
heap-keep_object k r = ground arith

module _ (m : Memory) (r : ℕ) (b : Batch) where
  -- A save changes nothing that the numbers are taken from.
  saved-Committed :
      (n saved : Memory)
      → (saved.store.outbox ≡ m.store.outbox)
        × (saved.store.seq ≡ m.store.seq)
        × (load saved (m.heap r).id ≡ some r)
        × (saved.heap r ≡ record (m.heap r) { version = version_of m r + 1 })
      → n ≡ record saved { store = enqueue (m.heap r).id b saved.store }
      → Committed m r b (map outbox_seq (numbered m.store.seq b.emits)) n
  saved-Committed n saved (o, s, l, v) e =
      let id = (m.heap r).id in
      let (out, at) = enqueue-keeps id b saved.store in
      let kept = ap (λ (d : Dict ℕ). Dict.get id d) at in
      record {
        entries = numbered m.store.seq b.emits;
        queued = rw e (out ∙ rw (o, s) refl);
        in_order = map-numbered m.store.seq b.emits;
        numbers = refl;
        stored = rw e (kept ∙ l);
        written = rw e v;
        known = λ ev h. rw e (enqueue-knows id ev b saved.store h);
      }

  kept-parts :
      (k saved : Memory)
      → saved ≡ keep_object k r
      → k.heap ≡ m.heap
      → k.store.outbox ≡ m.store.outbox
      → k.store.seq ≡ m.store.seq
      → (saved.store.outbox ≡ m.store.outbox)
        × (saved.store.seq ≡ m.store.seq)
        × (load saved (m.heap r).id ≡ some r)
        × (saved.heap r ≡ record (m.heap r) { version = version_of m r + 1 })
  unfolding keep_object
  kept-parts k saved e h o s =
      let l = load-keep_object k r in
      let v = heap-keep_object k r in (rw e o, rw e s, rw (e, sym h) l, rw (e, sym h) v)

  answered :
      (n : Memory) (seqs : List ℕ) (a : Answer Memory)
      → save m r ≡ a
      → commit_saved m r b a ≡ done (seqs, n)
      → Committed m r b seqs n
  unfolding commit_saved
  answered n seqs (conflict expected met) q h = absurd (ground (arith, h))
  answered n seqs (done saved) q h =
      let e : n ≡ record saved { store = enqueue (m.heap r).id b saved.store } =
        ground (arith, h) in
      let f : map outbox_seq (numbered m.store.seq b.emits) ≡ seqs = ground (arith, h) in
      let parts : (saved.store.outbox ≡ m.store.outbox)
          × (saved.store.seq ≡ m.store.seq)
          × (load saved (m.heap r).id ≡ some r)
          × (saved.heap r ≡ record (m.heap r) { version = version_of m r + 1 }) =
        elim (save-done m saved r q) [
          | inl w ↦ kept-parts m saved w refl refl refl
          | inr w ↦ kept-parts (forget_purge m (m.heap r).id) saved w refl refl refl
        ] in
      subst (λ ns. Committed m r b ns n) f (saved-Committed n saved parts e)

-- A commit that does not conflict stores the object one version further, appends its emits to the
-- outbox in their order, answers with the numbers of these entries, and has the event that it
-- processed, if one, count as processed.
pub commit_lem :
    (m n : Memory) (r : ℕ) (b : Batch) (seqs : List ℕ)
    → commit m r b ≡ done (seqs, n)
    → Committed m r b seqs n
unfolding commit
commit_lem m n r b seqs h = answered m r b n seqs (save m r) refl h
