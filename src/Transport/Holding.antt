-- ===== src/Transport/Holding.antt =====
-- The operations of the in-process transport as data, and the lock of a message that is leased.
use harel.Prelude.{
  ℕ, ◌+◌, ◌≤◌, String, ◌≡◌, refl, ap, subst, inl, inr, true, false, not, ◌&&◌, ◌==◌, eq_iff, eqb,
  Option, none, some, List, [], ◌∷◌, arith, is_some, if◌then◌else◌, Bool-cases, In, any-true, find,
  sorted, Ascending, Ascending-append, Ascending-keep,
}
use harel.Events.{Event}
use harel.Transport.{
  Message, Lease, InMemoryTransport, Wanted, publish, claim, claim_found, claimable, ack, nack,
  release, lock, held, in_flight, update_message, before,
}

abbrev pub number : Message → ℕ
number m = m.seq

-- The messages are numbered in ascending order, up to the counter.
abbrev pub Numbered : InMemoryTransport → Type 0
Numbered q = Ascending number 0 q.seq q.messages

-- The operations, with the clock's time at each.
pub data Op : Type 0 where
  publishes : ℕ → String → Event → ℕ → Option String → Op
  claims : ℕ → String → ℕ → Wanted → Op
  acks : Lease → Op
  nacks : ℕ → Lease → ℕ → Op

unfoldable pub run : Op → InMemoryTransport → InMemoryTransport
run (publishes now id event priority key) q = publish now id event priority key q
run (claims now worker visibility w) q = (claim now worker visibility w q).1
run (acks lease) q = ack lease q
run (nacks now lease delay) q = nack now lease delay q

unfoldable pub runs : List Op → InMemoryTransport → InMemoryTransport
runs [] q = q
runs (op ∷ ops) q = runs ops (run op q)

Ascending-update :
    (n : ℕ) (f : Message → Message) (low high : ℕ) (ms : List Message)
    → ((m : Message) → (f m).seq ≡ m.seq)
    → Ascending number low high ms
    → Ascending number low high (update_message n f ms)
Ascending-update n f low high [] same h = h
Ascending-update n f low high (m ∷ ms) same h =
    let k : (if eqb m.seq n then f m else m).seq ≡ m.seq = elim (Bool-cases (eqb m.seq n)) [
      | inl e ↦ rw e (same m)
      | inr e ↦ rw e refl
    ] in
    let rest = Ascending-update n f m.seq high ms same h.1 in (rw k h.0, rw k rest)

release-seq : (now delay : ℕ) (m : Message) → (release now delay m).seq ≡ m.seq
release-seq now delay m = ground arith

found-Numbered :
    (now : ℕ) (worker : String) (visibility : ℕ) (q : InMemoryTransport) (o : Option Message)
    → Numbered q
    → Numbered (claim_found now worker visibility q o).1
unfolding claim_found
found-Numbered now worker visibility q none h = h
found-Numbered now worker visibility q (some m) h =
    Ascending-update m.seq (lock worker (now + visibility)) 0 q.seq q.messages (λ k. refl) h

pub run-Numbered : (op : Op) (q : InMemoryTransport) → Numbered q → Numbered (run op q)
unfolding run publish claim ack nack
run-Numbered (publishes now id event priority key) q h =
    Ascending-append number 0 q.seq (q.seq + 1) q.messages _ h (omega arith, omega arith)
run-Numbered (claims now worker visibility w) q h =
    found-Numbered now worker visibility q
      (find (claimable now w q) (sorted (before q.groups) q.messages)) h
run-Numbered (acks lease) q h =
    Ascending-keep number (λ m. not (eqb m.seq lease.seq)) 0 q.seq q.messages h
run-Numbered (nacks now lease delay) q h =
    Ascending-update lease.seq (release now delay) 0 q.seq q.messages (release-seq now delay) h

pub runs-Numbered : (ops : List Op) (q : InMemoryTransport) → Numbered q → Numbered (runs ops q)
unfolding runs
runs-Numbered [] q h = h
runs-Numbered (op ∷ ops) q h = runs-Numbered ops (run op q) (run-Numbered op q h)

-- A message of the group is locked until then, at least.
pub record Holds (n : ℕ) (id : String) (until : ℕ) (q : InMemoryTransport) : Type 0 where
  pub message : Message
  pub queued : In message q.messages
  pub is_it : message.seq ≡ n
  pub grouped : message.group_id ≡ id
  pub is_locked : is_some message.locked_by ≡ true
  pub lasts : until ≤ message.lock_expiry

-- The operation is by others, while the lease lasts.
abbrev pub Spares : ℕ → ℕ → Op → Type 0
Spares n until (publishes now id event priority key) = Unit
Spares n until (claims now worker visibility w) = now ≤ until
Spares n until (acks lease) = eqb n lease.seq ≡ false
Spares n until (nacks now lease delay) = eqb n lease.seq ≡ false

pub In-update :
    (n : ℕ) (f : Message → Message) (m : Message) (ms : List Message)
    → In m ms
    → In (if eqb m.seq n then f m else m) (update_message n f ms)
In-update n f m [] i = absurd i
In-update n f m (k ∷ ks) (inl e) = inl (ap (λ x. if eqb x.seq n then f x else x) e)
In-update n f m (k ∷ ks) (inr i) = inr (In-update n f m ks i)

-- A message of another number stays as it is.
pub In-update_other :
    (n : ℕ) (f : Message → Message) (m : Message) (ms : List Message)
    → eqb m.seq n ≡ false
    → In m ms
    → In m (update_message n f ms)
In-update_other n f m ms e i =
    subst (λ b. In (if b then f m else m) (update_message n f ms)) e (In-update n f m ms i)

pub Holds-in_flight :
    (n : ℕ) (id : String) (until now : ℕ) (q : InMemoryTransport)
    → Holds n id until q
    → now ≤ until
    → in_flight now q id ≡ true
unfolding held
Holds-in_flight n id until now q h b =
    any-true (λ k. held now k && k.group_id == id) h.message q.messages h.queued
      (ground (arith, h.is_locked, h.lasts, b, (eq_iff h.message.group_id id).1 h.grouped))
