-- ===== src/Control/Quiet.antt =====
-- A change of status, where nothing else writes to the store meanwhile.
use harel.Prelude.{
  ℕ, suc, ◌+◌, String, ◌≡◌, refl, ap, ◌∙◌, subst, false, some, [], ◌++◌, arith, map,
}
use harel.Prelude.Dict
use harel.Prelude.Dict.{Dict}
use harel.Value.{Value}
use harel.Execution.{Execution, Status, is_finished, stamp}
use harel.Store.{Memory}
use harel.Store.Sequences.{outbox_seq}
use harel.Store.Commits.{
  done, Batch, load, save, commit, commit_saved, keep_object, enqueue, numbered,
}
use harel.Store.Conflicts.{load-keep_object}
use harel.Store.Committed.{enqueue-keeps}
use harel.Control.Commands.{
  returned, to_status, altered, write, batch_of, commit_status, commit_change, attempt, validated,
  propagate, each_child, children_in,
}

save_own : (k : Memory) (r : ℕ) → load k (k.heap r).id ≡ some r → save k r ≡ done (keep_object k r)
unfolding save
save_own k r h = ground (arith, h)

-- The state that a commit of the stored object leaves.
abbrev pub committed : Memory → ℕ → Batch → Memory
committed k r b =
    let saved = keep_object k r in record saved { store = enqueue (k.heap r).id b saved.store }

pub commit_own :
    (k : Memory) (r : ℕ) (b : Batch)
    → load k (k.heap r).id ≡ some r
    → commit k r b ≡ done (map outbox_seq (numbered k.store.seq b.emits), committed k r b)
unfolding commit commit_saved
commit_own k r b h = rw (save_own k r h) refl

pub load-committed :
    (k : Memory) (r : ℕ) (b : Batch) → load (committed k r b) (k.heap r).id ≡ some r
load-committed k r b =
    let (_, at) = enqueue-keeps (k.heap r).id b (keep_object k r).store in
    ap (λ (d : Dict ℕ). Dict.get (k.heap r).id d) at ∙ load-keep_object k r

pub heap-committed :
    (k : Memory) (r : ℕ) (b : Batch)
    → (committed k r b).heap r ≡ record (k.heap r) { version = (k.heap r).version + 1 }
unfolding keep_object
heap-committed k r b = ground arith

pub outbox-committed :
    (k : Memory) (r : ℕ) (b : Batch)
    → (committed k r b).store.outbox ≡ k.store.outbox ++ numbered k.store.seq b.emits
unfolding keep_object
outbox-committed k r b = (enqueue-keeps (k.heap r).id b (keep_object k r).store).0

pub write-heap : (m : Memory) (r : ℕ) (exe : Execution) → (write m r exe).heap r ≡ exe
write-heap m r exe = ground arith

module _ (time : ℕ → Value) where
  -- The object after a change of status alone.
  abbrev pub moved : Status → ℕ → Execution → Execution
  moved s now exe =
      let e = stamp (altered (to_status s) exe) (time now) in record e { version = exe.version + 1 }

  pub commit_status_quiet :
      (n now : ℕ) (id : String) (s : Status) (m : Memory) (r : ℕ)
      → load m id ≡ some r
      → (m.heap r).id ≡ id
      → is_finished (m.heap r).status ≡ false
      → (o : Memory) × (commit_status (λ k. k) time (suc n) now id (to_status s) m ≡ returned o)
        × (load o id ≡ some r)
        × (o.heap r ≡ moved s now (m.heap r))
        × (o.store.outbox ≡ m.store.outbox ++ [])
  unfolding commit_status attempt validated commit_change altered stamp numbered
  commit_status_quiet n now id s m r l i f =
      let exe = stamp (altered (to_status s) (m.heap r)) (time now) in
      let k = write m r exe in
      let same : (k.heap r).id ≡ id = ap (λ x. x.id) (write-heap m r exe) ∙ i in
      let own : load k (k.heap r).id ≡ some r = rw same l in
      let b = batch_of [] [] in
      let bump : Execution → Execution = λ x. record x { version = x.version + 1 } in
      (
        committed k r b,
        rw (l, f) (rw (commit_own k r b own) refl),
        subst (λ x. load (committed k r b) x ≡ some r) same (load-committed k r b),
        heap-committed k r b ∙ ap bump (write-heap m r exe),
        outbox-committed k r b,
      )

  -- With no children, the propagation returns at once.
  pub propagate_alone :
      (depth now : ℕ) (id : String) (s : Status) (m : Memory) (r : ℕ)
      → load m id ≡ some r
      → (m.heap r).children ≡ []
      → propagate (λ k. k) time (suc depth) now id s m ≡ returned m
  unfolding propagate children_in each_child
  propagate_alone depth now id s m r l c = rw (l, c) refl
