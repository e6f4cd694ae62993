-- ===== src/Hosting/Fired.antt =====
-- A worker publishes the timers that are due.
use harel.Prelude.{ℕ, ◌≡◌, refl, ap, ◌∙◌, not, leb, keep, length, Option, none, some, List, [], ◌∷◌}
use harel.Execution.{route_of}
use harel.Store.{Memory, Timer, DictStore}
use harel.Store.Commits.{load}
use harel.Store.Pending.{due_timers}
use harel.Store.Timed.{Distinct, deleted_all, with_timers, delete_timer_lem, deleted_all-keep}
use harel.Transport.{InMemoryTransport, publish}
use harel.Driving.{Host, Site, Outcome, returns, follow, in_turn}
use harel.Driving.Inline.{read_object, timeout_of, delete_fired}
use harel.Driving.Inline
use harel.Driving.Routed.{publish_stored, publish_to}
use harel.Hosting.Worker.{Worker, fire_one, fire_due}

abbrev with_armed : List Timer → Memory → Memory
with_armed ts m = record m { store = with_timers ts m.store }

module _ (h : Host) where
  -- The Timeout of a timer, published to the group of its execution at the execution's priority and by its
  -- routing key.
  abbrev pub timed : ℕ → Memory → Timer → InMemoryTransport → InMemoryTransport
  timed now m t q =
      let target = read_object m (load m t.execution_id) in
      publish now t.execution_id (timeout_of h t) (Inline.priority_of target) (route_of target) q

  abbrev pub timed_all : ℕ → Memory → List Timer → InMemoryTransport → InMemoryTransport
  timed_all now m [] q = q
  timed_all now m (t ∷ ts) q = timed_all now m ts (timed now m t q)

  timed-armed :
      (now : ℕ) (m : Memory) (us : List Timer) (t : Timer) (q : InMemoryTransport)
      → timed now (with_armed us m) t q ≡ timed now m t q
  timed-armed now m us t q = at (load m t.execution_id)
    where
      at :
          (o : Option ℕ)
          → publish now t.execution_id
              (timeout_of h t)
              (Inline.priority_of (read_object (with_armed us m) o))
              (route_of (read_object (with_armed us m) o))
              q
            ≡ publish now t.execution_id
                (timeout_of h t)
                (Inline.priority_of (read_object m o))
                (route_of (read_object m o))
                q
      at none = refl
      at (some r) = refl

  timed_all-armed :
      (now : ℕ) (m : Memory) (us ts : List Timer) (q : InMemoryTransport)
      → timed_all now (with_armed us m) ts q ≡ timed_all now m ts q
  timed_all-armed now m us [] q = refl
  timed_all-armed now m us (t ∷ ts) q =
      ap (timed_all now (with_armed us m) ts) (timed-armed now m us t q)
      ∙ timed_all-armed now m us ts (timed now m t q)

  module _ (w : Worker) (rounds : ℕ) where
    abbrev after : List Timer → Site → Site
    after ts s = record s {
      memory = with_armed (deleted_all ts s.memory.store.timers) s.memory;
      queue = timed_all (h.now s.step) s.memory ts s.queue;
    }

    fired_one : (t : Timer) (s : Site) → fire_one h w rounds t s ≡ (returns tt, after (t ∷ []) s)
    unfolding fire_one publish_stored publish_to
    fired_one t s =
        let q = timed (h.now s.step) s.memory t s.queue in
        let at : DictStore → Outcome (Unit {0}) × Site =
          λ d. (returns tt, record s { memory = record s.memory { store = d }; queue = q }) in
        ap at (delete_timer_lem t s.memory.store)

    fired_all :
        (ts : List Timer) (s : Site) → in_turn (fire_one h w rounds) ts s ≡ (returns tt, after ts s)
    unfolding in_turn
    fired_all [] s = refl
    fired_all (t ∷ ts) s =
        let rest = in_turn (fire_one h w rounds) ts in
        let v = after (t ∷ []) s in
        let at : InMemoryTransport → Outcome (Unit {0}) × Site =
          λ q. (returns tt, record (after (t ∷ ts) s) { queue = q }) in
        ap (λ (x : Outcome (Unit {0}) × Site). follow x.0 (λ _. rest) x.1) (fired_one t s)
        ∙ fired_all ts v
        ∙ ap at (timed_all-armed (h.now s.step) s.memory v.memory.store.timers ts v.queue)

    -- Of timers that are one for each execution and path, a worker's sweep publishes the Timeout of each
    -- that is due, once and in their order, to the group of its execution, at the execution's priority and by
    -- its routing key. It disarms exactly those, leaves the rest of the store alone, and answers with
    -- their number.
    pub fire_due_lem :
        (s : Site)
        → Distinct s.memory.store.timers
        → let now = h.now s.step in
          let due = keep (λ (t : Timer). leb t.fire_at now) s.memory.store.timers in
          fire_due h w rounds s ≡ (
            returns (length due),
            record s {
              memory =
                  with_armed
                    (keep (λ (t : Timer). not (leb t.fire_at now)) s.memory.store.timers)
                    s.memory;
              queue = timed_all now s.memory due s.queue;
            },
          )
    unfolding fire_due due_timers
    fire_due_lem s d =
        let ts = s.memory.store.timers in
        let due = keep (λ (t : Timer). leb t.fire_at (h.now s.step)) ts in
        let at : List Timer → Outcome ℕ × Site =
          λ us. (returns (length due), record (after due s) { memory = with_armed us s.memory }) in
        ap
          (λ (x : Outcome (Unit {0}) × Site).
            follow {B = ℕ} x.0 (λ _ v. (returns (length due), v)) x.1)
          (fired_all due s)
        ∙ ap at (deleted_all-keep (λ t. leb t.fire_at (h.now s.step)) ts d)
