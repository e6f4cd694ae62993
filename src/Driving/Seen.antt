-- ===== src/Driving/Seen.antt =====
-- An event that counts as processed goes on counting as processed through all that a transport driver does.
use harel.Prelude.{
  ℕ, ◌+◌, String, ◌≡◌, refl, sym, ap, ◌∙◌, Bool, true, false, Option, none, some, List, [], ◌∷◌,
  arith, eq_iff, Bool-cases, inl, inr, if◌then◌else◌,
}
use harel.Value.{Value}
use harel.Execution.{Execution, stamp}
use harel.Store.{Memory, DictStore}
use harel.Store.Commits.{
  Answer, done, conflict, Batch, commit, save, enqueue, is_processed, seen_event, add_processed,
  record_step, record_trace, queue_emits, keep_object,
}
use harel.Store.Pending.{ack_outbox, ack_spawn}
use harel.Store.Conflicts.{save-done}
use harel.Store.Sound.{commit-parts}
use harel.Control.Commands.{write}
use harel.Driving.{Host, Site, stored, allocate}
use harel.Driving.Running.{checkpoint}
use harel.Driving.Routed.{publish_to}
use harel.Driving.Keeping.{Keeps, Rules}

-- What other threads do: they let processed events stay processed, and an object keep its id.
pub record Peaceful (h : Host) : Type 0 where
  pub remembers :
      (n : ℕ) (m : Memory) (id ev : String)
      → is_processed m.store id ev ≡ true
      → is_processed (h.meanwhile n m).store id ev ≡ true
  pub same_id : (n r : ℕ) (m : Memory) → ((h.meanwhile n m).heap r).id ≡ (m.heap r).id

module _ (id ev : String) where
  add_processed-seen :
      (k : String) (o : Option String) (s : DictStore)
      → seen_event s id ev ≡ true
      → seen_event (add_processed k o s) id ev ≡ true
  unfolding add_processed
  add_processed-seen k none s p = p
  add_processed-seen k (some e) s p = elim (Bool-cases (seen_event s k e)) [
    | inl q ↦ rw q p
    | inr q ↦ rw q (ground (arith, p))
  ]

  record_step-seen :
      (k : String) (o : Option (harel.Prelude.Dict.Dict Value)) (s : DictStore)
      → seen_event s id ev ≡ true
      → seen_event (record_step k o s) id ev ≡ true
  unfolding record_trace
  record_step-seen k none s p = p
  record_step-seen k (some entry) s p = p

  enqueue-seen :
      (k : String) (b : Batch) (s : DictStore)
      → seen_event s id ev ≡ true
      → seen_event (enqueue k b s) id ev ≡ true
  unfolding enqueue
  enqueue-seen k b s p =
      record_step-seen k b.trace _
        (add_processed-seen k b.processed_event_id (queue_emits b.emits s) p)

  save-seen :
      (m n : Memory) (r : ℕ)
      → save m r ≡ done n
      → is_processed m.store id ev ≡ true
      → is_processed n.store id ev ≡ true
  unfolding keep_object
  save-seen m n r e p = elim (save-done m n r e) [ inl q ↦ rw q p | inr q ↦ rw q p ]

  commit-seen :
      (m n : Memory) (r : ℕ) (b : Batch) (seqs : List ℕ)
      → commit m r b ≡ done (seqs, n)
      → is_processed m.store id ev ≡ true
      → is_processed n.store id ev ≡ true
  commit-seen m n r b seqs e p =
      let (saved, s, q) = commit-parts m n r b seqs e in
      rw q (enqueue-seen (m.heap r).id b saved.store (save-seen m saved r s p))

  abbrev pub Seen : Site → Type 0
  Seen s = is_processed s.memory.store id ev ≡ true

  answer-Seen :
      (m : Memory) (r : ℕ) (b : Batch) (s : Site) (a : Answer (List ℕ × Memory))
      → commit m r b ≡ a
      → s.memory ≡ m
      → Seen s
      → Seen (stored a s).1
  unfolding stored
  answer-Seen m r b s (done (seqs, n)) e q p = commit-seen m n r b seqs e (rw (sym q) p)
  answer-Seen m r b s (conflict expected met) e q p = p

  module _ (h : Host) (peace : Peaceful h) where
    checkpoint-Keeps : (r : ℕ) (exe : Execution) (b : Batch) → Keeps Seen (checkpoint h r exe b)
    unfolding checkpoint
    checkpoint-Keeps r exe b s p =
        let k = write s.memory r (stamp exe (h.time (h.now s.step))) in
        let m = h.meanwhile s.step k in
        answer-Seen m r b (record s { memory = m; step = s.step + 1 }) (commit m r b) refl refl
          (peace.remembers s.step k id ev p)

    pub Seen-Rules : Rules Seen h
    unfolding allocate ack_outbox ack_spawn publish_to
    Seen-Rules = record {
      checkpoints = checkpoint-Keeps;
      writes = λ r exe s p. p;
      allocates = λ exe s p. p;
      acks = λ n s p. p;
      acks_spawn = λ n s p. p;
      publishes = λ k e o s p. p;
    }
