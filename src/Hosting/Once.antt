-- ===== src/Hosting/Once.antt =====
-- A worker handles an event once, however often it is delivered.
use harel.Prelude.{
  String, Bool-cases, ℕ, ◌≡◌, refl, ap, inl, inr, true, false, any, Option, none, some, List, [],
  ◌∷◌, arith, subst,
}
use harel.Execution.{Execution, Status}
use harel.Events.{Event}
use harel.Store.Commits.{load, is_processed}
use harel.Transport.{Lease, ack}
use harel.Driving.{Host, Site, Outcome, returns, raises, store_conflict}
use harel.Driving.Seen.{Peaceful, Seen, Seen-Rules}
use harel.Driving.Waiting.{Waits, has_number}
use harel.Model.{Definition}
use harel.Driving.Keeping.{Keeps, route-Keeps}
use harel.Driving.Routed.{route}
use harel.Hosting.Worker.{
  Worker, Handling, drop, park, run, acks, nacks, conclude, run_with, handle_by, handling,
  handle_object, handle,
}
use harel.Hosting.Handled.{Dropped, Settled, handle-Settled}

-- The site after these workers have handled these messages, one after the other.
abbrev pub handles : Host → ℕ → List (Worker × Lease) → Site → Site
handles h rounds [] t = t
handles h rounds ((v, lease) ∷ between) t = handles h rounds between (handle h v rounds lease t).1

module _ (h : Host) (peace : Peaceful h) (w : Worker) (rounds : ℕ) where
  -- A message of an event that is processed is taken from the transport, and nothing else happens.
  seen_object :
      (lease : Lease) (t : Site) (o : Option ℕ)
      → is_processed t.memory.store lease.group_id lease.event.id ≡ true
      → handle_object h w rounds lease o t ≡ (returns tt, record t { queue = ack lease t.queue })
  unfolding handle_object acks
  seen_object lease t none e = refl
  seen_object lease t (some r) e = rw e refl

  not-Dropped : (exe : Execution) (ev : Event) → exe.status ≡ Status.running → Dropped exe ev → ⊥
  not-Dropped exe ev e (inl d) = absurd (ground (arith, e, d))
  not-Dropped exe ev e (inr (inl d)) = absurd (ground (arith, e, d.0))
  not-Dropped exe ev e (inr (inr d)) = absurd (ground (arith, e, d.0))

  handled_seen :
      (exe : Execution) (lease : Lease) (t : Site)
      → exe.status ≡ Status.running
      → any (has_number lease.seq) t.queue.messages ≡ false
      → Settled h peace w rounds exe lease t
      → is_processed t.memory.store lease.group_id lease.event.id ≡ true
  handled_seen exe lease t e gone (inl waits) = absurd (ground (arith, gone, waits))
  handled_seen exe lease t e gone (inr (inl seen)) = seen
  handled_seen exe lease t e gone (inr (inr d)) = absurd (not-Dropped exe lease.event e d)

  -- What a worker does with a message leaves processed events processed.
  module _ (id ev : String) where
    conclude-Keeps :
        (v : Worker) (lease : Lease) (o : Outcome (Unit {0}))
        → Keeps (Seen id ev) (conclude h v rounds lease o)
    unfolding conclude acks nacks
    conclude-Keeps v lease (returns _) t p = p
    conclude-Keeps v lease (raises (store_conflict a b)) t p = p
    conclude-Keeps v lease (raises f) t p = p

    run_with-Keeps :
        (v : Worker) (lease : Lease) (r : ℕ) (o : Option Definition)
        → Keeps (Seen id ev) (run_with h v rounds lease r o)
    unfolding run_with
    run_with-Keeps v lease r none t p = p
    run_with-Keeps v lease r (some defn) t p =
        conclude-Keeps v lease (route h rounds defn r lease.event t).0
          (route h rounds defn r lease.event t).1
          (route-Keeps (Seen id ev) h (Seen-Rules id ev h peace) defn rounds r lease.event t p)

    handle_by-Keeps :
        (v : Worker) (lease : Lease) (r : ℕ) (k : Handling)
        → Keeps (Seen id ev) (handle_by h v rounds lease r k)
    unfolding handle_by acks nacks
    handle_by-Keeps v lease r drop t p = p
    handle_by-Keeps v lease r park t p = p
    handle_by-Keeps v lease r run t p =
        run_with-Keeps v lease r (h.lookup t.memory (t.memory.heap r)) t p

    object-Keeps :
        (v : Worker) (lease : Lease) (o : Option ℕ)
        → Keeps (Seen id ev) (handle_object h v rounds lease o)
    unfolding handle_object acks
    object-Keeps v lease none t p = p
    object-Keeps v lease (some r) t p =
        elim (Bool-cases (is_processed t.memory.store lease.group_id lease.event.id)) [
          | inl e ↦ rw e p
          | inr e ↦ rw e (handle_by-Keeps v lease r (handling (t.memory.heap r) lease.event) t p)
        ]

    -- Workers that handle messages one after the other.
    handles-Seen :
        (between : List (Worker × Lease)) (t : Site)
        → Seen id ev t
        → Seen id ev (handles h rounds between t)
    unfolding handle
    handles-Seen [] t p = p
    handles-Seen ((v, lease) ∷ between) t p =
        handles-Seen between (handle h v rounds lease t).1
          (object-Keeps v lease (load t.memory lease.group_id) t p)

  -- A worker has taken a message of a running execution from the transport. Any other message of the
  -- same event for the execution, handled after that and after any number of other messages that
  -- workers handle in between, is only taken from the transport too: no step is made and the store
  -- stays as it is.
  pub handle_once :
      (lease again : Lease) (r : ℕ) (s t : Site) (o : Outcome (Unit {0}))
      (between : List (Worker × Lease))
      → load s.memory lease.group_id ≡ some r
      → (s.memory.heap r).id ≡ lease.group_id
      → (s.memory.heap r).status ≡ Status.running
      → Waits lease.seq s
      → handle h w rounds lease s ≡ (o, t)
      → any (has_number lease.seq) t.queue.messages ≡ false
      → again.group_id ≡ lease.group_id
      → again.event.id ≡ lease.event.id
      → let u = handles h rounds between t in
        handle h w rounds again u ≡ (returns tt, record u { queue = ack again u.queue })
  unfolding handle
  handle_once lease again r s t o between l i running p e gone g v =
      let settled : Settled h peace w rounds (s.memory.heap r) lease t =
        subst (Settled h peace w rounds (s.memory.heap r) lease)
          (ap (λ (x : Outcome (Unit {0}) × Site). x.1) e)
          (handle-Settled h peace w rounds lease r s l i p) in
      let seen = handled_seen (s.memory.heap r) lease t running gone settled in
      let u = handles h rounds between t in
      let kept = handles-Seen lease.group_id lease.event.id between t seen in
      seen_object again u (load u.memory again.group_id) (rw (g, v) kept)
