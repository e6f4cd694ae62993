-- ===== src/Driving/Relayed.antt =====
-- The relay of a transport driver with no children to start: all that waits in the outbox is published.
use harel.Prelude.{
  ℕ, suc, String, ◌≡◌, refl, ap, ◌∙◌, Bool, true, not, eqb, any, keep, All, Option, none, some,
  List, [], ◌∷◌, arith, Bool-cases, inl, inr, if◌then◌else◌,
}
use harel.Events.{Event}
use harel.Model.{Definition}
use harel.Execution.{route_of}
use harel.Store.{Memory, OutboxEntry}
use harel.Store.Pending.{ack_outbox}
use harel.Transport.{InMemoryTransport, publish}
use harel.Driving.{Host, Site, Outcome, returns, follow, in_turn, with_store}
use harel.Driving.Running.{is_any}
use harel.Driving.Inline.{read_object, create_all}
use harel.Driving.Inline
use harel.Driving.Routed.{
  publish_to, publish_entry, target_in, send_entry, send_round, send_pending, flush_out,
}

abbrev acked : List OutboxEntry → List OutboxEntry → List OutboxEntry
acked [] out = out
acked (e ∷ es) out = acked es (keep (λ (o : OutboxEntry). not (eqb o.seq e.seq)) out)

-- Entries of which each has the number of one of a list.
abbrev covered : List OutboxEntry → OutboxEntry → Bool
covered es o = any (λ (e : OutboxEntry). eqb o.seq e.seq) es

keep-covered :
    (e : OutboxEntry) (es out : List OutboxEntry)
    → All (λ o. covered (e ∷ es) o ≡ true) out
    → All (λ o. covered es o ≡ true) (keep (λ (o : OutboxEntry). not (eqb o.seq e.seq)) out)
keep-covered e es [] h = tt
keep-covered e es (o ∷ out) h = elim (Bool-cases (eqb o.seq e.seq)) [
  | inl q ↦ rw q (keep-covered e es out h.1)
  | inr q ↦ rw q (rw q at h.0, keep-covered e es out h.1)
]

acked-nil : (es out : List OutboxEntry) → All (λ o. covered es o ≡ true) out → acked es out ≡ []
acked-nil [] [] h = refl
acked-nil [] (o ∷ out) h = absurd (ground (arith, h.0))
acked-nil (e ∷ es) out h = acked-nil es _ (keep-covered e es out h)

covered-cons :
    (e : OutboxEntry) (es out : List OutboxEntry)
    → All (λ o. covered es o ≡ true) out
    → All (λ o. covered (e ∷ es) o ≡ true) out
covered-cons e es [] h = tt
covered-cons e es (o ∷ out) h = (ground (arith, h.0), covered-cons e es out h.1)

covered_self : (es : List OutboxEntry) → All (λ o. covered es o ≡ true) es
covered_self [] = tt
covered_self (e ∷ es) = (ground arith, covered-cons e es es (covered_self es))

abbrev pub with_outbox : List OutboxEntry → Memory → Memory
with_outbox out m = record m { store = record m.store { outbox = out } }

module _ (h : Host) (primary : Option ℕ) where
  -- An entry that has a target is published to the group of its target, with the priority and the routing key
  -- of the target as it is stored.
  abbrev pub post : ℕ → Memory → Event → Option String → InMemoryTransport → InMemoryTransport
  post now m ev none q = q
  post now m ev (some id) q =
      let target = read_object m (target_in h m primary id) in
      publish now id ev (Inline.priority_of target) (route_of target) q

  abbrev pub posted : ℕ → Memory → List OutboxEntry → InMemoryTransport → InMemoryTransport
  posted now m [] q = q
  posted now m (e ∷ es) q = posted now m es (post now m e.event e.target_id q)

  post-outbox :
      (now : ℕ) (m : Memory) (out : List OutboxEntry) (ev : Event) (o : Option String)
      (q : InMemoryTransport)
      → post now (with_outbox out m) ev o q ≡ post now m ev o q
  post-outbox now m out ev none q = refl
  post-outbox now m out ev (some id) q = read_eq primary
    where
      read_eq :
          (p : Option ℕ)
          → publish now id ev
              (Inline.priority_of
                (read_object (with_outbox out m) (target_in h (with_outbox out m) p id)))
              (route_of (read_object (with_outbox out m) (target_in h (with_outbox out m) p id)))
              q
            ≡ publish now id ev
                (Inline.priority_of (read_object m (target_in h m p id)))
                (route_of (read_object m (target_in h m p id)))
                q
      read_eq none = refl
      read_eq (some r) = refl

  posted-outbox :
      (now : ℕ) (m : Memory) (out : List OutboxEntry) (es : List OutboxEntry)
      (q : InMemoryTransport)
      → posted now (with_outbox out m) es q ≡ posted now m es q
  posted-outbox now m out [] q = refl
  posted-outbox now m out (e ∷ es) q =
      ap (posted now (with_outbox out m) es) (post-outbox now m out e.event e.target_id q)
      ∙ posted-outbox now m out es (post now m e.event e.target_id q)

  published :
      (ev : Event) (o : Option String) (s : Site)
      → publish_entry h primary ev o s
        ≡ (returns tt, record s { queue = post (h.now s.step) s.memory ev o s.queue })
  unfolding publish_entry publish_to
  published ev none s = refl
  published ev (some id) s = refl

  -- A site with all these entries published and acknowledged.
  abbrev sent : List OutboxEntry → Site → Site
  sent es s = record s {
    memory = with_outbox (acked es s.memory.store.outbox) s.memory;
    queue = posted (h.now s.step) s.memory es s.queue;
  }

  -- One of them.
  abbrev after : OutboxEntry → Site → Site
  after e s = record s {
    memory =
        with_outbox (keep (λ (o : OutboxEntry). not (eqb o.seq e.seq)) s.memory.store.outbox)
          s.memory;
    queue = post (h.now s.step) s.memory e.event e.target_id s.queue;
  }

  sent_one : (e : OutboxEntry) (s : Site) → send_entry h primary e s ≡ (returns tt, after e s)
  unfolding send_entry ack_outbox
  sent_one e s =
      ap (λ (p : Outcome (Unit {0}) × Site). follow p.0 (λ _. with_store (ack_outbox e.seq)) p.1)
        (published e.event e.target_id s)

  sent_lem :
      (es : List OutboxEntry) (s : Site)
      → in_turn (send_entry h primary) es s ≡ (returns tt, sent es s)
  unfolding in_turn
  sent_lem [] s = refl
  sent_lem (e ∷ es) s =
      let rest = in_turn (send_entry h primary) es in
      let t = after e s in
      let now = h.now s.step in
      let at : InMemoryTransport → Outcome (Unit {0}) × Site =
        λ q. (returns tt, record (sent (e ∷ es) s) { queue = q }) in
      ap (λ (p : Outcome (Unit {0}) × Site). follow p.0 (λ _. rest) p.1) (sent_one e s)
      ∙ sent_lem es t
      ∙ ap at (posted-outbox now s.memory t.memory.store.outbox es t.queue)

module _ (h : Host) (defn : Definition) (primary : Option ℕ) (rounds : ℕ) where
  flushed_empty :
      (s : Site)
      → s.memory.store.spawns ≡ []
      → s.memory.store.outbox ≡ []
      → flush_out h (suc rounds) defn primary s ≡ (returns tt, s)
  unfolding flush_out send_pending
  flushed_empty s p o = rw (p, o) refl

  flushed_round :
      (s : Site) (out : List OutboxEntry)
      → send_pending h (flush_out h (suc rounds) defn primary) defn primary [] out s ≡ (
          if is_any out
          then follow
              (in_turn (send_entry h primary) out s).0
              (λ _. flush_out h (suc rounds) defn primary)
              (in_turn (send_entry h primary) out s).1
          else (returns tt, s))
  unfolding send_pending send_round create_all in_turn
  flushed_round s [] = refl
  flushed_round s (e ∷ out) = refl

  relayed :
      (s : Site) (out : List OutboxEntry)
      → s.memory.store.spawns ≡ []
      → s.memory.store.outbox ≡ out
      → send_pending h (flush_out h (suc rounds) defn primary) defn primary [] out s
        ≡ (returns tt, sent h primary out s)
  relayed s [] p o = flushed_round s []
  relayed s (e ∷ out) p o =
      let es = e ∷ out in
      let gone : acked es s.memory.store.outbox ≡ [] = rw o (acked-nil es es (covered_self es)) in
      flushed_round s es
      ∙ ap
          (λ (q : Outcome (Unit {0}) × Site).
            follow q.0 (λ _. flush_out h (suc rounds) defn primary) q.1)
          (sent_lem h primary es s)
      ∙ flushed_empty (sent h primary es s) p gone

  -- Where no child waits to be started, the relay ends within two rounds. Each entry of the outbox that has a
  -- target has been published, once and in the order of the outbox, to the group of its target, at
  -- the target's priority and by its routing key; the outbox is empty, and nothing else has changed.
  pub flush_out_lem :
      (s : Site)
      → s.memory.store.spawns ≡ []
      → flush_out h (suc (suc rounds)) defn primary s ≡ (
        returns tt,
        record s {
          memory = with_outbox [] s.memory;
          queue = posted h primary (h.now s.step) s.memory s.memory.store.outbox s.queue;
        },
      )
  unfolding flush_out
  flush_out_lem s p =
      let out = s.memory.store.outbox in
      let at : List OutboxEntry → Outcome (Unit {0}) × Site =
        λ es. (returns tt, record (sent h primary out s) { memory = with_outbox es s.memory }) in
      ap (λ ss. send_pending h (flush_out h (suc rounds) defn primary) defn primary ss out s) p
      ∙ relayed s out p refl
      ∙ ap at (acked-nil out out (covered_self out))
