-- ===== src/Tests/Transports.antt =====
-- The theorems on the in-process transport at concrete queues.
use harel.Prelude.{◌≡◌, refl, arith, false, ◌==◌, none, some, List, [], ◌∷◌}
use harel.Prelude.Dict
use harel.Transport
use harel.Transport.{InMemoryTransport, Lease, Wanted, claim}
use harel.Transport.Holding
use harel.Transport.Holding.{Op, publishes, claims, acks, nacks, runs}
use harel.Transport.Exclusive.{no_messages, claim_alone}
use harel.Tests.Machines.{plain}

-- Two messages for one order and one for another.
abbrev posts : List Op
posts =
    publishes 1 "o-1" (plain "Paid") 0 none
    ∷ publishes 2 "o-1" (plain "Shipped") 0 none
    ∷ publishes 3 "o-2" (plain "Paid") 0 none
    ∷ []

abbrev anything : Wanted
anything = record { min_priority = 0; routing_keys = none }

abbrev first : Lease
first = record { seq = 1; group_id = "o-1"; event = plain "Paid" }

abbrev second : Lease
second = record { seq = 3; group_id = "o-2"; event = plain "Paid" }

abbrev held_first : InMemoryTransport
held_first = (claim 10 "w-1" 30 anything (runs posts no_messages)).1

abbrev meanwhile : List Op
meanwhile = publishes 12 "o-1" (plain "Returned") 0 none ∷ []

abbrev held_second : InMemoryTransport
held_second = (claim 20 "w-2" 30 anything (runs meanwhile held_first)).1

first_claimed : claim 10 "w-1" 30 anything (runs posts no_messages) ≡ (some first, held_first)
unfolding Transport.claim Transport.claim_found Transport.claimable Transport.publish
    Transport.before Transport.held Holding.runs Holding.run Dict.get Dict.put
first_claimed = refl

second_claimed : claim 20 "w-2" 30 anything (runs meanwhile held_first) ≡ (some second, held_second)
unfolding Transport.claim Transport.claim_found Transport.claimable Transport.publish
    Transport.before Transport.held Holding.runs Holding.run Dict.get Dict.put
second_claimed = refl

claim_alone_example : (second.group_id == first.group_id) ≡ false
claim_alone_example =
    claim_alone posts meanwhile 10 "w-1" 30 anything held_first first 20 "w-2" 30 anything
      held_second second first_claimed (tt, tt) (omega arith) second_claimed
