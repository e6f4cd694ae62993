-- ===== src/Transport/Claims.antt =====
-- Which message a claim of the in-process transport takes.
use harel.Prelude.{
  ℕ, ◌+◌, ◌≤◌, String, ◌≡◌, refl, sym, ap, subst, ◌⊎◌, inl, inr, true, false, ◌&&◌, ◌==◌, eq_iff,
  Option, none, some, arith, find, sorted, Bool-cases, In, any-In, find-In, find-sorted, sorted-In,
}
use harel.Prelude.Dict.{Dict}
use harel.Transport.{
  Message, Group, Lease, InMemoryTransport, Wanted, claim, claim_found, claimable, before, held,
  in_flight, last_claimed, lock, update_message, touch_group,
}

before-total :
    (groups : Dict Group) (m n : Message) → (before groups m n ≡ true) ⊎ (before groups n m ≡ true)
unfolding before
before-total groups m n = elim (Bool-cases (before groups m n)) [
  | inl e ↦ inl e
  | inr e ↦ inr (ground (arith, e))
]

before_trans :
    (groups : Dict Group) (m n o : Message)
    → before groups m n ≡ true
    → before groups n o ≡ true
    → before groups m o ≡ true
unfolding before
before_trans groups m n o h k = ground (arith, h, k)

-- The message that a claim takes: one of the queue that it may take, and before all others of those.
pub record Taken (now : ℕ) (w : Wanted) (q : InMemoryTransport) (m : Message) : Type 0 where
  pub queued : In m q.messages
  pub free : claimable now w q m ≡ true
  pub least :
      (n : Message) → In n q.messages → claimable now w q n ≡ true → before q.groups m n ≡ true

pub found-Taken :
    (now : ℕ) (w : Wanted) (q : InMemoryTransport) (m : Message)
    → find (claimable now w q) (sorted (before q.groups) q.messages) ≡ some m
    → Taken now w q m
found-Taken now w q m h =
    let (i, t) = find-In (claimable now w q) (sorted (before q.groups) q.messages) m h in
    record {
      queued = sorted-In (before q.groups) m q.messages i;
      free = t;
      least = λ n j k.
          find-sorted (before q.groups) (before-total q.groups) (before_trans q.groups)
            (claimable now w q) q.messages m n h j k;
    }

-- What a claim that gives a lease has done.
pub record Claimed (now : ℕ) (worker : String) (visibility : ℕ) (w : Wanted) (q : InMemoryTransport)
    (lease : Lease) (r : InMemoryTransport) : Type 0 where
  pub message : Message
  pub taken : Taken now w q message
  pub is_leased :
      record { seq = message.seq; group_id = message.group_id; event = message.event } ≡ lease
  pub locked : r.messages ≡ update_message message.seq (lock worker (now + visibility)) q.messages
  pub touched : r.groups ≡ touch_group now message.group_id q.groups

found-Claimed :
    (now : ℕ) (worker : String) (visibility : ℕ) (w : Wanted) (q r : InMemoryTransport)
    (lease : Lease) (o : Option Message)
    → find (claimable now w q) (sorted (before q.groups) q.messages) ≡ o
    → claim_found now worker visibility q o ≡ (some lease, r)
    → Claimed now worker visibility w q lease r
unfolding claim_found
found-Claimed now worker visibility w q r lease none e h = absurd (ground (arith, h))
found-Claimed now worker visibility w q r lease (some m) e h = record {
  message = m;
  taken = found-Taken now w q m e;
  is_leased = ground (arith, h);
  locked = ground (arith, h);
  touched = ground (arith, h);
}

pub claim-Claimed :
    (now : ℕ) (worker : String) (visibility : ℕ) (w : Wanted) (q r : InMemoryTransport)
    (lease : Lease)
    → claim now worker visibility w q ≡ (some lease, r)
    → Claimed now worker visibility w q lease r
unfolding claim
claim-Claimed now worker visibility w q r lease h =
    found-Claimed now worker visibility w q r lease
      (find (claimable now w q) (sorted (before q.groups) q.messages)) refl h

pub free-in_flight :
    (now : ℕ) (w : Wanted) (q : InMemoryTransport) (m : Message)
    → claimable now w q m ≡ true
    → in_flight now q m.group_id ≡ false
unfolding claimable
free-in_flight now w q m h = ground (arith, h)

-- A message of the same group is free as well.
group-claimable :
    (now : ℕ) (w : Wanted) (q : InMemoryTransport) (m n : Message)
    → claimable now w q m ≡ true
    → In n q.messages
    → n.group_id ≡ m.group_id
    → claimable now w q n ≡ true
unfolding claimable held
group-claimable now w q m n h i e =
    let quiet =
      any-In (λ k. held now k && k.group_id == m.group_id) n q.messages i
        (free-in_flight now w q m h) in
    let same = eq_iff n.group_id m.group_id in rw e (ground (arith, h, quiet, same, e))

group-before :
    (groups : Dict Group) (m n : Message)
    → n.group_id ≡ m.group_id
    → before groups m n ≡ true
    → m.seq ≤ n.seq
unfolding before
group-before groups m n e h = let t = ap (last_claimed groups) e in ground (arith, h, t)

-- A claim gives the oldest message of its group, and only while no message of that group is in flight.
pub claim_head :
    (now : ℕ) (worker : String) (visibility : ℕ) (w : Wanted) (q r : InMemoryTransport)
    (lease : Lease)
    → claim now worker visibility w q ≡ (some lease, r)
    → (in_flight now q lease.group_id ≡ false)
      × ((n : Message) → In n q.messages → n.group_id ≡ lease.group_id → lease.seq ≤ n.seq)
claim_head now worker visibility w q r lease h =
    let c = claim-Claimed now worker visibility w q r lease h in
    let m = c.message in
    let id : m.group_id ≡ lease.group_id = ap (λ l. l.group_id) c.is_leased in
    let number : m.seq ≡ lease.seq = ap (λ l. l.seq) c.is_leased in
    (
      subst (λ g. in_flight now q g ≡ false) id (free-in_flight now w q m c.taken.free),
      λ n i e.
          let same : n.group_id ≡ m.group_id = rw id e in
          let free = group-claimable now w q m n c.taken.free i same in
          let at = group-before q.groups m n same (c.taken.least n i free) in rw (sym number) at,
    )

-- The claim gives no lease and there is no message that it may take; or it gives the oldest message of
-- a group that has none in flight, and of the groups with a message that it may take the one that has
-- waited longest.
abbrev pub Served : ℕ → Wanted → InMemoryTransport → Option Lease → Type 0
Served now w q none = (n : Message) → In n q.messages → claimable now w q n ≡ false
Served now w q (some lease) =
    (in_flight now q lease.group_id ≡ false)
    × ((n : Message) → In n q.messages → n.group_id ≡ lease.group_id → lease.seq ≤ n.seq)
    × ((n : Message)
        → In n q.messages
        → claimable now w q n ≡ true
        → last_claimed q.groups lease.group_id ≤ last_claimed q.groups n.group_id)
