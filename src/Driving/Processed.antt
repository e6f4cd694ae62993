-- ===== src/Driving/Processed.antt =====
-- What a driver's step that returns has committed: its event counts as processed.
use harel.Prelude.{
  ℕ, ◌+◌, String, ◌≡◌, refl, sym, ap, subst, ◌∙◌, Bool, true, false, not, ◌&&◌, Option, none, some,
  List, arith, mem, Bool-cases, inl, inr,
}
use harel.Events.{Event}
use harel.Model.{Definition}
use harel.Execution.{Execution, stamp}
use harel.Engine.Start.{ttl_delay}
use harel.Store.{Memory, TimerOp}
use harel.Store.Commits.{Answer, done, conflict, Batch, commit, is_processed}
use harel.Store.Committed.{Committed, commit_lem}
use harel.Control.Commands.{write}
use harel.Driving.{Host, Site, Outcome, returns, raises, Flow, give, follow, stored, in_turn, ◌>>=◌}
use harel.Driving.Running
use harel.Driving.Running.{
  Driven, commits, breaks, is_work, is_any, checkpoint, run_flow, run_with, drive, batch_of,
}
use harel.Driving.Inline.{broadcast_batch, control_kinds, stored_among, live_ids}
use harel.Driving.Routed.{
  publish_to, publish_object, commit_broadcast, rearmed, broadcast, route_to, relay_if, route,
}
use harel.Driving.Identity.{left_by, drive-anchor}
use harel.Driving.Keeping.{Keeps-in_turn, relay_if-Keeps}
use harel.Driving.Seen.{Peaceful, Seen, Seen-Rules}

module _ {A B : Type 0} where
  follow-returns :
      (o : Outcome A) (next : A → Flow B) (s : Site) (b : B)
      → (follow o next s).0 ≡ returns b
      → (a : A) × (o ≡ returns a) × (follow o next s ≡ next a s)
  follow-returns (returns a) next s b e = (a, refl, refl)
  follow-returns (raises f) next s b e = absurd (ground (arith, e))

  -- A flow that returns has returned from its first part.
  pub bind-returns :
      (m : Flow A) (next : A → Flow B) (s : Site) (b : B)
      → ((m >>= next) s).0 ≡ returns b
      → (a : A) × ((m s).0 ≡ returns a) × ((m >>= next) s ≡ next a (m s).1)
  bind-returns m next s b e = follow-returns (m s).0 next (m s).1 b e

written_self : (m : Memory) (r : ℕ) (exe : Execution) → (write m r exe).heap r ≡ exe
written_self m r exe = ground arith

stamp-id : (exe : Execution) (now : harel.Value.Value) → (stamp exe now).id ≡ exe.id
unfolding stamp
stamp-id exe now = refl

answer-Seen :
    (m : Memory) (r : ℕ) (b : Batch) (s : Site) (ev : String) (seqs : List ℕ)
    (a : Answer (List ℕ × Memory))
    → commit m r b ≡ a
    → (stored a s).0 ≡ returns seqs
    → b.processed_event_id ≡ some ev
    → is_processed (stored a s).1.memory.store (m.heap r).id ev ≡ true
unfolding stored
answer-Seen m r b s ev seqs (done (ns, n)) e q p = Committed.known (commit_lem m n r b ns e) ev p
answer-Seen m r b s ev seqs (conflict expected met) e q p = absurd (ground (arith, q))

module _ (h : Host) (peace : Peaceful h) where
  -- A checkpoint that returns.
  checkpoint_seen :
      (r : ℕ) (exe : Execution) (b : Batch) (s : Site) (ev : String) (seqs : List ℕ)
      → (checkpoint h r exe b s).0 ≡ returns seqs
      → b.processed_event_id ≡ some ev
      → is_processed (checkpoint h r exe b s).1.memory.store exe.id ev ≡ true
  unfolding checkpoint
  checkpoint_seen r exe b s ev seqs e p =
      let now = h.time (h.now s.step) in
      let k = write s.memory r (stamp exe now) in
      let m = h.meanwhile s.step k in
      let id : (m.heap r).id ≡ exe.id =
        peace.same_id s.step r k
        ∙ ap (λ (x : Execution). x.id) (written_self s.memory r (stamp exe now))
        ∙ stamp-id exe now in
      let t = record s { memory = m; step = s.step + 1 } in
      subst (λ i. is_processed (stored (commit m r b) t).1.memory.store i ev ≡ true) id
        (answer-Seen m r b t ev seqs (commit m r b) refl e p)

  concluded_seen :
      (r : ℕ) (ev : Event) (from_path : Option String) (d : Driven) (s : Site) (b : Bool)
      → (Running.conclude h r (some ev) from_path d s).0 ≡ returns b
      → is_processed
          (Running.conclude h r (some ev) from_path d s).1.memory.store
          (left_by d).id
          ev.id
        ≡ true
  unfolding Running.conclude batch_of
  concluded_seen r ev from_path (breaks f exe) s b e = absurd (ground (arith, e))
  concluded_seen r ev from_path (commits c exe) s b e =
      let batch = batch_of h s.step (some ev) from_path exe c in
      let (seqs, q, at) = bind-returns (checkpoint h r exe batch) (λ _. give (is_work c)) s b e in
      rw at (checkpoint_seen r exe batch s ev.id seqs q refl)

  run_with_seen :
      (gen : Definition) (ev : Event) (r : ℕ) (o : Option Definition) (s : Site) (b : Bool)
      → (run_with h gen (some ev) r o s).0 ≡ returns b
      → is_processed (run_with h gen (some ev) r o s).1.memory.store (s.memory.heap r).id ev.id
        ≡ true
  unfolding run_with
  run_with_seen gen ev r none s b e = absurd (ground (arith, e))
  run_with_seen gen ev r (some defn) s b e =
      let d = drive h s.memory r s.step defn gen (some ev) in
      let id = ap (λ (x : Execution). x.id) (drive-anchor h s.memory r s.step defn gen (some ev)) in
      let t = (Running.conclude h r (some ev) (s.memory.heap r).active_path d s).1 in
      subst (λ i. is_processed t.memory.store i ev.id ≡ true) id
        (concluded_seen r ev (s.memory.heap r).active_path d s b e)

  rearmed-id : (now : ℕ) (exe : Execution) (o : Option ℕ) → (rearmed h now exe o).0.id ≡ exe.id
  unfolding rearmed
  rearmed-id now exe none = refl
  rearmed-id now exe (some delay) = refl

  -- Publishing leaves the store and the objects.
  published-memory :
      (ev : Event) (live : List ℕ) (s : Site)
      → (in_turn (publish_object h ev) live s).1.memory ≡ s.memory
  unfolding publish_to
  published-memory ev live s =
      Keeps-in_turn (λ t. t.memory ≡ s.memory) (publish_object h ev) live (λ r t p. p) s refl

  commit_broadcast_seen :
      (r : ℕ) (ev : Event) (exe : Execution) (timers : List TimerOp) (s : Site) (b : Bool)
      → (commit_broadcast h r ev (exe, timers) s).0 ≡ returns b
      → is_processed (commit_broadcast h r ev (exe, timers) s).1.memory.store exe.id ev.id ≡ true
  unfolding commit_broadcast
  commit_broadcast_seen r ev exe timers s b e =
      let batch = broadcast_batch ev timers in
      let (seqs, q, at) = bind-returns (checkpoint h r exe batch) (λ _. give false) s b e in
      rw at (checkpoint_seen r exe batch s ev.id seqs q refl)

  broadcast_seen :
      (defn : Definition) (r : ℕ) (ev : Event) (live : List ℕ) (s : Site) (b : Bool)
      → (broadcast h defn r ev live s).0 ≡ returns b
      → is_processed (broadcast h defn r ev live s).1.memory.store (s.memory.heap r).id ev.id ≡ true
  unfolding broadcast
  broadcast_seen defn r ev live s b e =
      let next : Unit {0} → Flow Bool = λ _ t.
        commit_broadcast h r ev
          (rearmed h (h.now t.step) (t.memory.heap r) (ttl_delay defn (t.memory.heap r))) t in
      let (_, q, at) = bind-returns (in_turn (publish_object h ev) live) next s b e in
      let t = (in_turn (publish_object h ev) live s).1 in
      let x = t.memory.heap r in
      let p = rearmed h (h.now t.step) x (ttl_delay defn x) in
      let id : p.0.id ≡ (s.memory.heap r).id =
        rearmed-id (h.now t.step) x (ttl_delay defn x)
        ∙ ap (λ (m : Memory). (m.heap r).id) (published-memory ev live s) in
      let v = (commit_broadcast h r ev p t).1 in
      rw at (
        subst (λ i. is_processed v.memory.store i ev.id ≡ true) id
          (commit_broadcast_seen r ev p.0 p.1 t b
            (ap (λ (y : Outcome Bool × Site). y.0) (sym at) ∙ e)))

  route_to_seen :
      (defn : Definition) (r : ℕ) (ev : Event) (live : List ℕ) (s : Site) (b : Bool)
      → (route_to h defn r ev live s).0 ≡ returns b
      → is_processed (route_to h defn r ev live s).1.memory.store (s.memory.heap r).id ev.id ≡ true
  unfolding route_to run_flow
  route_to_seen defn r ev live s b e =
      elim (Bool-cases (not (mem ev.kind control_kinds) && is_any live)) [
        | inl c ↦ rw c (broadcast_seen defn r ev live s b (rw c at e))
        | inr c ↦
            rw c (run_with_seen defn ev r (h.lookup s.memory (s.memory.heap r)) s b (rw c at e))
      ]

  -- Where the driver handles an event to its end, the event counts as processed for the execution: it ran
  -- or was broadcast, and was committed.
  pub route_seen :
      (defn : Definition) (rounds r : ℕ) (ev : Event) (s : Site)
      → (route h rounds defn r ev s).0 ≡ returns tt
      → is_processed (route h rounds defn r ev s).1.memory.store (s.memory.heap r).id ev.id ≡ true
  unfolding route
  route_seen defn rounds r ev s e =
      let live = stored_among s.memory (live_ids (s.memory.heap r).children) in
      let (b, q, at) = bind-returns (route_to h defn r ev live) (relay_if h rounds defn r) s tt e in
      let id = (s.memory.heap r).id in
      rw at (
        relay_if-Keeps (Seen id ev.id) h (Seen-Rules id ev.id h peace) defn rounds r b
          (route_to h defn r ev live s).1 (route_to_seen defn r ev live s b q))
