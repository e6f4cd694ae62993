-- ===== src/Transport/Exclusive.antt =====
-- The single consumer of a group, over interleaved operations of the in-process transport.
use harel.Prelude.{
  ℕ, ◌+◌, ◌≤◌, String, ◌≡◌, refl, sym, ap, subst, inl, inr, Bool, true, false, not, ◌==◌, eq_iff,
  eqb, Option, none, some, List, [], ◌∷◌, arith, find, sorted, if◌then◌else◌, Bool-cases, In,
  In-append, In-keep, All, Ascending-one,
}
use harel.Transport.{
  Message, Lease, InMemoryTransport, Wanted, publish, claim, claim_found, claimable, ack, nack,
  release, lock, in_flight, update_message, before,
}
use harel.Transport.Claims.{claim-Claimed, claim_head, found-Taken, free-in_flight}
use harel.Transport.Holding.{
  number, Numbered, Op, publishes, claims, acks, nacks, run, runs, runs-Numbered, run-Numbered,
  Holds, Spares, In-update_other, In-update, Holds-in_flight,
}

module _ (n : ℕ) (id : String) (until : ℕ) where
  -- The list has the message still.
  kept :
      (q r : InMemoryTransport) (h : Holds n id until q)
      → In h.message r.messages
      → Holds n id until r
  kept q r h i = record {
    message = h.message;
    queued = i;
    is_it = h.is_it;
    grouped = h.grouped;
    is_locked = h.is_locked;
    lasts = h.lasts;
  }

  -- A claim meanwhile takes a message of another group.
  taken-Holds :
      (now : ℕ) (worker : String) (visibility : ℕ) (w : Wanted) (q : InMemoryTransport)
      (o : Option Message)
      → find (claimable now w q) (sorted (before q.groups) q.messages) ≡ o
      → now ≤ until
      → Numbered q
      → Holds n id until q
      → Holds n id until (claim_found now worker visibility q o).1
  unfolding claim_found
  taken-Holds now worker visibility w q none e b k h = h
  taken-Holds now worker visibility w q (some m) e b k h =
      let t = found-Taken now w q m e in
      let free = free-in_flight now w q m t.free in
      let busy = Holds-in_flight n id until now q h b in
      kept q _ h (elim (Bool-cases (eqb h.message.seq m.seq)) [
        | inr d ↦
            In-update_other m.seq (lock worker (now + visibility)) h.message q.messages d h.queued
        | inl d ↦
            let one : h.message ≡ m =
              Ascending-one number 0 q.seq h.message m q.messages k h.queued t.queued
                (ground (arith, d)) in
            let group : m.group_id ≡ id = rw (sym one) h.grouped in
            absurd (clash (in_flight now q m.group_id) free (rw group busy))
      ])
    where
      clash : (b : Bool) → b ≡ false → b ≡ true → ⊥
      clash b p q = ground (arith, p, q)

  run-Holds :
      (op : Op) (q : InMemoryTransport)
      → Spares n until op
      → Numbered q
      → Holds n id until q
      → Holds n id until (run op q)
  unfolding run publish claim ack nack
  run-Holds (publishes now group event priority key) q s k h =
      kept q _ h (In-append h.message q.messages _ (inl h.queued))
  run-Holds (claims now worker visibility w) q s k h =
      taken-Holds now worker visibility w q
        (find (claimable now w q) (sorted (before q.groups) q.messages)) refl s k h
  run-Holds (acks lease) q s k h = kept q _ h (
      In-keep (λ m. not (eqb m.seq lease.seq)) h.message q.messages h.queued
        (ground (arith, h.is_it, s)))
  run-Holds (nacks now lease delay) q s k h = kept q _ h (
      In-update_other lease.seq (release now delay) h.message q.messages
        (ground (arith, h.is_it, s)) h.queued)

  runs-Holds :
      (ops : List Op) (q : InMemoryTransport)
      → All (Spares n until) ops
      → Numbered q
      → Holds n id until q
      → Holds n id until (runs ops q)
  unfolding runs
  runs-Holds [] q s k h = h
  runs-Holds (op ∷ ops) q s k h =
      runs-Holds ops (run op q) s.1 (run-Numbered op q k) (run-Holds op q s.0 k h)

claim-Holds :
    (now : ℕ) (worker : String) (visibility : ℕ) (w : Wanted) (q r : InMemoryTransport)
    (lease : Lease)
    → claim now worker visibility w q ≡ (some lease, r)
    → Holds lease.seq lease.group_id (now + visibility) r
claim-Holds now worker visibility w q r lease h =
    let c = claim-Claimed now worker visibility w q r lease h in
    let m = c.message in
    record {
      message = lock worker (now + visibility) m;
      queued =
          subst (λ ms. In (lock worker (now + visibility) m) ms) (sym c.locked)
            (subst
              (λ b.
                In (if b then lock worker (now + visibility) m else m)
                  (update_message m.seq (lock worker (now + visibility)) q.messages))
              (self m.seq)
              (In-update m.seq (lock worker (now + visibility)) m q.messages c.taken.queued));
      is_it = ap (λ l. l.seq) c.is_leased;
      grouped = ap (λ l. l.group_id) c.is_leased;
      is_locked = refl;
      lasts = omega arith;
    }
  where
    self : (k : ℕ) → eqb k k ≡ true
    self k = ground arith

abbrev pub no_messages : InMemoryTransport
no_messages = record { messages = []; seq = 0; groups = [] }

-- A group has one consumer at a time: after a claim, until the visibility of its lease has passed, no
-- claim gives a message of the same group. Before the first claim anything is published, claimed,
-- acknowledged and returned; between the two anything is published, claimed no later than that, and
-- acknowledged and returned under other leases.
pub claim_alone :
    (ops more : List Op) (now : ℕ) (worker : String) (visibility : ℕ) (w : Wanted)
    (r : InMemoryTransport) (lease : Lease) (later : ℕ) (other : String) (time : ℕ) (v : Wanted)
    (s : InMemoryTransport) (second : Lease)
    → claim now worker visibility w (runs ops no_messages) ≡ (some lease, r)
    → All (Spares lease.seq (now + visibility)) more
    → later ≤ now + visibility
    → claim later other time v (runs more r) ≡ (some second, s)
    → (second.group_id == lease.group_id) ≡ false
unfolding run
claim_alone ops more now worker visibility w r lease later other time v s second h a b k =
    let start = runs-Numbered ops no_messages (omega arith) in
    let numbered : Numbered r =
      subst (λ z. Numbered (z.1)) h
        (run-Numbered (claims now worker visibility w) (runs ops no_messages) start) in
    let still =
      runs-Holds lease.seq lease.group_id (now + visibility) more r a numbered
        (claim-Holds now worker visibility w (runs ops no_messages) r lease h) in
    let busy =
      Holds-in_flight lease.seq lease.group_id (now + visibility) later (runs more r) still b in
    let free = (claim_head later other time v (runs more r) s second k).0 in
    apart (eq_iff second.group_id lease.group_id).0 free busy
  where
    apart :
        ((second.group_id == lease.group_id) ≡ true → second.group_id ≡ lease.group_id)
        → in_flight later (runs more r) second.group_id ≡ false
        → in_flight later (runs more r) lease.group_id ≡ true
        → (second.group_id == lease.group_id) ≡ false
    apart e p q = elim (Bool-cases (second.group_id == lease.group_id)) [
      | inr d ↦ d
      | inl d ↦
          absurd (ground (arith, subst (λ g. in_flight later (runs more r) g ≡ false) (e d) p, q))
    ]
