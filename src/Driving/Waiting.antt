-- ===== src/Driving/Waiting.antt =====
-- A driver only adds messages to the transport.
use harel.Prelude.{ℕ, ◌≡◌, Bool, true, eqb, any, List, [], ◌∷◌, ◌++◌, arith}
use harel.Execution.{Execution}
use harel.Store.{Memory}
use harel.Store.Commits.{Answer, done, conflict, Batch}
use harel.Store.Pending.{ack_outbox, ack_spawn}
use harel.Transport.{Message, publish}
use harel.Driving.{Host, Site, stored, allocate}
use harel.Driving.Running.{checkpoint}
use harel.Driving.Routed.{publish_to}
use harel.Driving.Keeping.{Keeps, Rules}

-- The message of a number.
abbrev pub has_number : ℕ → Message → Bool
has_number n m = eqb m.seq n

pub any-append :
    {A : Type 0} (p : A → Bool) (xs ys : List A) → any p xs ≡ true → any p (xs ++ ys) ≡ true
any-append p [] ys e = absurd (ground (arith, e))
any-append p (x ∷ xs) ys e = ground (arith, any-append p xs ys)

module _ (n : ℕ) where
  -- The message is in the transport.
  abbrev pub Waits : Site → Type 0
  Waits s = any (has_number n) s.queue.messages ≡ true

  answer-Waits : (s : Site) (a : Answer (List ℕ × Memory)) → Waits s → Waits (stored a s).1
  unfolding stored
  answer-Waits s (done (seqs, m)) p = p
  answer-Waits s (conflict expected met) p = p

  module _ (h : Host) where
    checkpoint-Keeps : (r : ℕ) (exe : Execution) (b : Batch) → Keeps Waits (checkpoint h r exe b)
    unfolding checkpoint
    checkpoint-Keeps r exe b s p = answer-Waits _ _ p

    pub Waits-Rules : Rules Waits h
    unfolding allocate ack_outbox ack_spawn publish_to publish
    Waits-Rules = record {
      checkpoints = checkpoint-Keeps;
      writes = λ r exe s p. p;
      allocates = λ exe s p. p;
      acks = λ k s p. p;
      acks_spawn = λ k s p. p;
      publishes = λ k e o s p. any-append (has_number n) s.queue.messages _ p;
    }
