-- ===== src/Transport.antt =====
-- The in-process transport, src/harel/engine/transport/inmemory.py, with the `Lease` of
-- src/harel/engine/transport/_base.py. Each operation holds the transport's lock, so it is one step;
-- the clock is an argument, in ticks. A message is an entry of the queue with its `seq`, which no
-- other has.
pub mod Claims
pub mod Holding
pub mod Exclusive
use harel.Prelude.{
  ℕ, ◌+◌, String, Bool, true, false, not, ◌&&◌, ◌||◌, ◌==◌, eqb, ltb, leb, Option, none, some, List,
  [], ◌∷◌, ◌++◌, any, keep, find, map, mem, sorted, is_some, if◌then◌else◌,
}
use harel.Prelude.Dict
use harel.Prelude.Dict.{Dict}
use harel.Events.{Event}

pub record Message : Type 0 where
  pub seq : ℕ
  pub group_id : String
  pub event : Event
  pub locked_by : Option String
  pub lock_expiry : ℕ
  pub published_at : ℕ

pub record Group : Type 0 where
  pub last_claimed_at : ℕ
  pub priority : ℕ
  pub routing_key : Option String

pub record Lease : Type 0 where
  pub seq : ℕ
  pub group_id : String
  pub event : Event

pub record InMemoryTransport : Type 0 where
  pub messages : List Message
  pub seq : ℕ
  pub groups : Dict Group

-- Who a parked message is locked by.
abbrev pub parked : String
parked = "__parked__"

abbrev pub set_default : String → Group → Dict Group → Dict Group
set_default id g groups = if Dict.has id groups then groups else Dict.put id g groups

unfoldable pub publish :
    ℕ → String → Event → ℕ → Option String → InMemoryTransport → InMemoryTransport
publish now id event priority routing_key q = record {
  seq = q.seq + 1;
  messages =
      q.messages
      ++ record {
        seq = q.seq + 1;
        group_id = id;
        event = event;
        locked_by = none;
        lock_expiry = 0;
        published_at = now;
      }
        ∷ [];
  groups =
      set_default id
        (record { last_claimed_at = 0; priority = priority; routing_key = routing_key }) q.groups;
}

-- Locked, and the lock has not passed.
unfoldable pub held : ℕ → Message → Bool
held now m = is_some m.locked_by && leb now m.lock_expiry

abbrev pub in_flight : ℕ → InMemoryTransport → String → Bool
in_flight now q id = any (λ m. held now m && m.group_id == id) q.messages

abbrev pub last_claimed : Dict Group → String → ℕ
last_claimed groups id = elim (Dict.get id groups) [ none ↦ 0 | some g ↦ g.last_claimed_at ]

-- The order of the claims: the group that waited longest, then the oldest message.
unfoldable pub before : Dict Group → Message → Message → Bool
before groups m n =
    let a = last_claimed groups m.group_id in
    let b = last_claimed groups n.group_id in ltb a b || (eqb a b && leb m.seq n.seq)

abbrev pub priority_of : Dict Group → String → ℕ
priority_of groups id = elim (Dict.get id groups) [ none ↦ 0 | some g ↦ g.priority ]

abbrev pub routing_of : Dict Group → String → Option String
routing_of groups id = elim (Dict.get id groups) [ none ↦ none | some g ↦ g.routing_key ]

-- `routing_key in routing_keys`, where keys are given.
abbrev pub routed : Option (List String) → Option String → Bool
routed none key = true
routed (some keys) none = false
routed (some keys) (some key) = mem key keys

-- The work that a claim asks for.
pub record Wanted : Type 0 where
  pub min_priority : ℕ
  pub routing_keys : Option (List String)

abbrev pub wants : Wanted → Dict Group → String → Bool
wants w groups id =
    leb w.min_priority (priority_of groups id) && routed w.routing_keys (routing_of groups id)

unfoldable pub claimable : ℕ → Wanted → InMemoryTransport → Message → Bool
claimable now w q m =
    (not (is_some m.locked_by) || ltb m.lock_expiry now)
    && (not (in_flight now q m.group_id) && wants w q.groups m.group_id)

-- The message with this number, changed.
abbrev pub update_message : ℕ → (Message → Message) → List Message → List Message
update_message n f [] = []
update_message n f (m ∷ ms) = (if eqb m.seq n then f m else m) ∷ update_message n f ms

abbrev pub touch_group : ℕ → String → Dict Group → Dict Group
touch_group now id groups = elim (Dict.get id groups) [
  | none ↦ groups
  | some g ↦ Dict.put id (record g { last_claimed_at = now }) groups
]

-- The message is locked for the worker, until its visibility ends.
abbrev pub lock : String → ℕ → Message → Message
lock worker until m = record m { locked_by = some worker; lock_expiry = until }

unfoldable pub claim_found :
    ℕ → String → ℕ → InMemoryTransport → Option Message → Option Lease × InMemoryTransport
claim_found now worker visibility q none = (none, q)
claim_found now worker visibility q (some m) = (
  some (record { seq = m.seq; group_id = m.group_id; event = m.event }),
  record q {
    messages = update_message m.seq (lock worker (now + visibility)) q.messages;
    groups = touch_group now m.group_id q.groups;
  },
)

unfoldable pub claim :
    ℕ → String → ℕ → Wanted → InMemoryTransport → Option Lease × InMemoryTransport
claim now worker visibility w q =
    claim_found now worker visibility q
      (find (claimable now w q) (sorted (before q.groups) q.messages))

-- A group goes with its last message.
unfoldable pub ack : Lease → InMemoryTransport → InMemoryTransport
ack lease q =
    let left = keep (λ m. not (eqb m.seq lease.seq)) q.messages in
    record q {
      messages = left;
      groups =
          if any (λ (m : Message). m.group_id == lease.group_id) left
          then q.groups
          else Dict.remove lease.group_id q.groups;
    }

-- Free at once, or parked for the delay.
abbrev pub release : ℕ → ℕ → Message → Message
release now delay m =
    if ltb 0 delay
    then record m { locked_by = some parked; lock_expiry = now + delay }
    else record m { locked_by = none; lock_expiry = 0 }

unfoldable pub nack : ℕ → Lease → ℕ → InMemoryTransport → InMemoryTransport
nack now lease delay q = record q {
  messages = update_message lease.seq (release now delay) q.messages;
}
