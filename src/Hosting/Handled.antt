-- ===== src/Hosting/Handled.antt =====
-- What a worker makes of a message: it is handled once, and never lost.
use harel.Prelude.{
  ℕ, ◌≡◌, refl, ◌⊎◌, inl, inr, Bool, true, false, not, ◌&&◌, ◌==◌, any, subst, Option, none, some,
  List, [], ◌∷◌, arith, Bool-cases,
}
use harel.Events.{Event}
use harel.Model.{Definition}
use harel.Execution.{Execution, Status}
use harel.Store.Listed.{same_status-eq}
use harel.Store.Commits.{load, is_processed}
use harel.Store.Listing.{same_status}
use harel.Transport.{Lease, Message, nack, update_message, release}
use harel.Driving.{Host, Site, store_conflict, Outcome, returns, raises}
use harel.Driving.Routed.{route}
use harel.Driving.Keeping.{Keeps, route-Keeps}
use harel.Driving.Seen.{Peaceful}
use harel.Driving.Processed.{route_seen}
use harel.Driving.Waiting.{Waits, has_number, Waits-Rules}
use harel.Hosting.Worker.{
  Worker, acks, nacks, Handling, drop, park, run, handling, conclude, run_with, handle_by,
  handle_object, handle,
}

-- Why a worker may drop a message: its execution is cancelled, or not started yet with another event than
-- a Start, or on its way out with another event than a Cancel.
abbrev pub Dropped : Execution → Event → Type 0
Dropped exe ev =
    (exe.status ≡ Status.cancelled)
    ⊎ ((exe.status ≡ Status.pending) × ((ev.kind == "Start") ≡ false))
    ⊎ ((exe.status ≡ Status.cancelling) × ((ev.kind == "Cancel") ≡ false))

-- The tests of the statuses, in their order.
drop_by :
    (exe : Execution) (ev : Event) (cancelled pending cancelling : Bool)
    → same_status exe.status Status.cancelled ≡ cancelled
    → (same_status exe.status Status.pending && not (ev.kind == "Start")) ≡ pending
    → (same_status exe.status Status.cancelling && not (ev.kind == "Cancel")) ≡ cancelling
    → handling exe ev ≡ drop
    → Dropped exe ev
unfolding handling
drop_by exe ev true p c a b d e = inl (same_status-eq exe.status Status.cancelled a)
drop_by exe ev false true c a b d e =
    inr (inl (same_status-eq exe.status Status.pending (ground (arith, b)), ground (arith, b)))
drop_by exe ev false false true a b d e =
    inr (inr (same_status-eq exe.status Status.cancelling (ground (arith, d)), ground (arith, d)))
drop_by exe ev false false false a b d e = absurd (ground (arith, a, b, d, e))

handling-Dropped : (exe : Execution) (ev : Event) → handling exe ev ≡ drop → Dropped exe ev
handling-Dropped exe ev e = drop_by exe ev _ _ _ refl refl refl e

update-waits :
    (n k : ℕ) (f : Message → Message) (ms : List Message)
    → ((m : Message) → (f m).seq ≡ m.seq)
    → any (has_number n) ms ≡ true
    → any (has_number n) (update_message k f ms) ≡ true
update-waits n k f [] same e = e
update-waits n k f (m ∷ ms) same e = ground (arith, same m, update-waits n k f ms same)

release-seq : (now delay : ℕ) (m : Message) → (release now delay m).seq ≡ m.seq
release-seq now delay m = ground arith

module _ (h : Host) (peace : Peaceful h) (w : Worker) (rounds : ℕ) where
  nacks-Keeps : (n : ℕ) (lease : Lease) (delay : ℕ) → Keeps (Waits n) (nacks h w rounds lease delay)
  unfolding nacks nack
  nacks-Keeps n lease delay s p =
      update-waits n lease.seq (release (h.now s.step) delay) s.queue.messages
        (release-seq (h.now s.step) delay) p

  -- The message waits on, or its event counts as processed, or it was dropped for a reason.
  abbrev pub Settled : Execution → Lease → Site → Type 0
  Settled exe lease t =
      Waits lease.seq t
      ⊎ (is_processed t.memory.store lease.group_id lease.event.id ≡ true)
      ⊎ Dropped exe lease.event

  concluded :
      (exe : Execution) (lease : Lease) (o : Outcome (Unit {0})) (t : Site)
      → (o ≡ returns tt → is_processed t.memory.store lease.group_id lease.event.id ≡ true)
      → Waits lease.seq t
      → Settled exe lease (conclude h w rounds lease o t).1
  unfolding conclude acks
  concluded exe lease (returns _) t seen p = inr (inl (seen refl))
  concluded exe lease (raises (store_conflict a b)) t seen p =
      inl (nacks-Keeps lease.seq lease 0 t p)
  concluded exe lease (raises f) t seen p = inl p

  module _ (exe : Execution) (lease : Lease) (r : ℕ) where
    ran :
        (o : Option Definition) (s : Site)
        → (s.memory.heap r).id ≡ lease.group_id
        → Waits lease.seq s
        → Settled exe lease (run_with h w rounds lease r o s).1
    unfolding run_with
    ran none s i p = inl p
    ran (some defn) s i p =
        let routed = route h rounds defn r lease.event s in
        concluded exe lease routed.0 routed.1
          (λ e.
            subst (λ k. is_processed routed.1.memory.store k lease.event.id ≡ true) i
              (route_seen h peace defn rounds r lease.event s e))
          (route-Keeps (Waits lease.seq) h (Waits-Rules lease.seq h) defn rounds r lease.event s p)

    handled_by :
        (k : Handling) (s : Site)
        → handling exe lease.event ≡ k
        → (s.memory.heap r).id ≡ lease.group_id
        → Waits lease.seq s
        → Settled exe lease (handle_by h w rounds lease r k s).1
    unfolding handle_by
    handled_by drop s e i p = inr (inr (handling-Dropped exe lease.event e))
    handled_by park s e i p = inl (nacks-Keeps lease.seq lease w.suspend_recheck s p)
    handled_by run s e i p = ran (h.lookup s.memory (s.memory.heap r)) s i p

  -- However a worker's handling of a message of a stored execution ends, an exception of the driver
  -- included: the message still waits in the transport, or its event counts as processed for the
  -- execution, or it was dropped because the execution was cancelled, had not started (and this is no
  -- Start), or was cancelling (and this is no Cancel). No message is lost.
  pub handle-Settled :
      (lease : Lease) (r : ℕ) (s : Site)
      → load s.memory lease.group_id ≡ some r
      → (s.memory.heap r).id ≡ lease.group_id
      → Waits lease.seq s
      → Settled (s.memory.heap r) lease (handle h w rounds lease s).1
  unfolding handle handle_object acks
  handle-Settled lease r s l i p =
      rw (l, handle_object)
        (elim (Bool-cases (is_processed s.memory.store lease.group_id lease.event.id)) [
          | inl e ↦ rw e (inr (inl e))
          | inr e ↦ rw e (
              handled_by (s.memory.heap r) lease r (handling (s.memory.heap r) lease.event) s refl i
                p)
        ])
