-- ===== src/Driving/Keeping.antt =====
-- What every flow of the transport's driver keeps, of what its port calls keep. A property is kept also where a
-- flow raises.
use harel.Prelude.{
  ℕ, zero, suc, ◌+◌, Bool, true, false, Option, none, some, List, [], ◌∷◌, not, ◌&&◌, mem,
  if◌then◌else◌, ◌||◌, String,
}
use harel.Prelude.Dict
use harel.Prelude.Dict.{Dict}
use harel.Value.{Value, str}
use harel.Events.{Event, with_defaults}
use harel.Model.{Definition}
use harel.Execution.{Execution}
use harel.Engine.Start.{ttl_delay}
use harel.Store.{OutboxEntry, SpawnEntry, TimerOp}
use harel.Store.Commits.{Batch, load}
use harel.Store.Pending.{ack_outbox, ack_spawn}
use harel.Driving.{
  Host, Site, Failure, Outcome, returns, raises, Flow, give, throw, follow, with_store, allocate,
  in_turn, unresolved, not_loaded, ◌>>=◌, ◌>>◌,
}
use harel.Driving.Running
use harel.Driving.Running.{
  Driven, commits, breaks, is_work, is_any, checkpoint, run_flow, run_with, drive, batch_of,
}
use harel.Control.Commands.{write}
use harel.Driving.Inline.{
  broadcast_batch, child_of, start_invoked, start_child, start_under, create_absent, create_spawn,
  create_all, invoke_key, invoked, control_kinds, parent_defn, read_object, stored_among, live_ids,
}
use harel.Driving.Routed.{
  publish_to, publish_entry, target_in, send_entry, send_round, send_pending, flush_out,
  publish_object, commit_broadcast, broadcast, rearmed, relay_if, route_to, route,
}

module _ (P : Site → Type 0) where
  abbrev pub Keeps : {A : Type 0} → Flow A → Type 0
  Keeps m = (s : Site) → P s → P (m s).1

  module _ {A B : Type 0} where
    Keeps-follow :
        (o : Outcome A) (next : A → Flow B) → ((a : A) → Keeps (next a)) → Keeps (follow o next)
    Keeps-follow (returns a) next k s p = k a s p
    Keeps-follow (raises f) next k s p = p

    Keeps-bind :
        (m : Flow A) (next : A → Flow B) → Keeps m → ((a : A) → Keeps (next a)) → Keeps (m >>= next)
    Keeps-bind m next k l s p = Keeps-follow (m s).0 next l (m s).1 (k s p)

  Keeps-give : {A : Type 0} (a : A) → Keeps (give a)
  Keeps-give a s p = p

  Keeps-throw : (A : Type 0) (f : Failure) → Keeps (throw {A = A} f)
  Keeps-throw A f s p = p

  pub Keeps-in_turn {ℓ} :
      {A : Type ℓ} (f : A → Flow (Unit {0})) (xs : List A)
      → ((a : A) → Keeps (f a))
      → Keeps (in_turn f xs)
  unfolding in_turn
  Keeps-in_turn f [] k = Keeps-give tt
  Keeps-in_turn f (x ∷ xs) k = Keeps-bind (f x) _ (k x) (λ _. Keeps-in_turn f xs k)

  Keeps-if : {A : Type 0} (b : Bool) (m n : Flow A) → Keeps m → Keeps n → Keeps (if b then m else n)
  Keeps-if true m n k l = k
  Keeps-if false m n k l = l

  -- The port calls of a driver keep the property.
  pub record Rules (h : Host) : Type 0 where
    pub checkpoints : (r : ℕ) (exe : Execution) (b : Batch) → Keeps (checkpoint h r exe b)
    pub writes :
        (r : ℕ) (exe : Execution) (s : Site)
        → P s
        → P (record s { memory = write s.memory r exe; step = s.step + 1 })
    pub allocates : (exe : Execution) → Keeps (allocate exe)
    pub acks : (n : ℕ) → Keeps (with_store (ack_outbox n))
    pub acks_spawn : (n : ℕ) → Keeps (with_store (ack_spawn n))
    pub publishes : (id : String) (ev : Event) (o : Option Execution) → Keeps (publish_to h id ev o)

  module _ (h : Host) (k : Rules h) where
    concluded-Keeps :
        (r : ℕ) (ev : Option Event) (from_path : Option String) (d : Driven)
        → Keeps (Running.conclude h r ev from_path d)
    unfolding Running.conclude
    concluded-Keeps r ev from_path (breaks f exe) s p = k.writes r exe s p
    concluded-Keeps r ev from_path (commits c exe) s p =
        let batch = batch_of h s.step ev from_path exe c in
        Keeps-bind (checkpoint h r exe batch) _ (k.checkpoints r exe batch)
          (λ _. Keeps-give (is_work c)) s p

    run_with-Keeps :
        (gen : Definition) (ev : Option Event) (r : ℕ) (o : Option Definition)
        → Keeps (run_with h gen ev r o)
    unfolding run_with
    run_with-Keeps gen ev r none s p = p
    run_with-Keeps gen ev r (some defn) s p =
        concluded-Keeps r ev (s.memory.heap r).active_path (drive h s.memory r s.step defn gen ev) s
          p

    run_flow-Keeps : (gen : Definition) (ev : Option Event) (r : ℕ) → Keeps (run_flow h gen ev r)
    unfolding run_flow
    run_flow-Keeps gen ev r s p = run_with-Keeps gen ev r (h.lookup s.memory (s.memory.heap r)) s p

    commit_broadcast-Keeps :
        (r : ℕ) (ev : Event) (p : Execution × List TimerOp) → Keeps (commit_broadcast h r ev p)
    unfolding commit_broadcast
    commit_broadcast-Keeps r ev (exe, timers) =
        Keeps-bind (checkpoint h r exe (broadcast_batch ev timers)) _
          (k.checkpoints r exe (broadcast_batch ev timers)) (λ _. Keeps-give false)

  module _ (h : Host) (k : Rules h) (defn : Definition) where
    started-Keeps :
        (exe : Execution) (gen : Definition)
        → Keeps (allocate exe >>= λ r. run_flow h gen none r >> give tt)
    started-Keeps exe gen = Keeps-bind (allocate exe) _ (k.allocates exe) (λ r.
        Keeps-bind (run_flow h gen none r) _ (run_flow-Keeps h k gen none r) (λ _. Keeps-give tt))

    invoked-Keeps :
        (entry : SpawnEntry) (parent : Option Execution) (fqn : String) (context : Dict Value)
        (o : Option Definition)
        → Keeps (start_invoked h defn entry parent fqn context o)
    unfolding start_invoked
    invoked-Keeps entry parent fqn context none = Keeps-throw (Unit {0}) unresolved
    invoked-Keeps entry parent fqn context (some machine) =
        started-Keeps
          (child_of entry parent machine (some fqn) (with_defaults machine.context_schema context))
          machine

    child-Keeps :
        (entry : SpawnEntry) (parent : Option Execution) (own : Definition) (v : Option Value)
        → Keeps (start_child h defn entry parent own v)
    unfolding start_child
    child-Keeps entry parent own (some (str fqn)) =
        invoked-Keeps entry parent fqn (Dict.remove invoke_key entry.context)
          (invoked h defn own fqn)
    child-Keeps entry parent own v =
        started-Keeps (child_of entry parent own none (Dict.remove invoke_key entry.context)) own

    under-Keeps :
        (entry : SpawnEntry) (parent : Option Execution) (o : Option Definition)
        → Keeps (start_under h defn entry parent o)
    unfolding start_under
    under-Keeps entry parent none = Keeps-throw (Unit {0}) not_loaded
    under-Keeps entry parent (some own) =
        child-Keeps entry parent own (Dict.get invoke_key entry.context)

    absent-Keeps : (entry : SpawnEntry) (o : Option ℕ) → Keeps (create_absent h defn entry o)
    unfolding create_absent
    absent-Keeps entry none s p =
        let parent = read_object s.memory (load s.memory entry.parent_id) in
        under-Keeps entry parent (parent_defn h defn s.memory parent) s p
    absent-Keeps entry (some r) s p = p

    create_all-Keeps : (spawns : List SpawnEntry) → Keeps (create_all h defn spawns)
    unfolding create_all create_spawn
    create_all-Keeps spawns =
        Keeps-bind (in_turn (create_spawn h defn) spawns) _
          (Keeps-in_turn (create_spawn h defn) spawns
            (λ e s. absent-Keeps e (load s.memory e.child_id) s))
          (λ _. Keeps-in_turn _ spawns (λ e. k.acks_spawn e.seq))

    published-Keeps :
        (primary : Option ℕ) (ev : Event) (o : Option String) → Keeps (publish_entry h primary ev o)
    unfolding publish_entry
    published-Keeps primary ev none s p = p
    published-Keeps primary ev (some id) s p =
        k.publishes id ev (read_object s.memory (target_in h s.memory primary id)) s p

    entry-Keeps : (primary : Option ℕ) (e : OutboxEntry) → Keeps (send_entry h primary e)
    unfolding send_entry
    entry-Keeps primary e =
        Keeps-bind (publish_entry h primary e.event e.target_id) _
          (published-Keeps primary e.event e.target_id) (λ _. k.acks e.seq)

    pending-Keeps :
        (again : Flow (Unit {0})) (primary : Option ℕ) (spawns : List SpawnEntry)
        (outbox : List OutboxEntry)
        → Keeps again
        → Keeps (send_pending h again defn primary spawns outbox)
    unfolding send_pending send_round
    pending-Keeps again primary spawns outbox l =
        let sent =
          Keeps-bind (create_all h defn spawns) (λ _. in_turn (send_entry h primary) outbox)
            (create_all-Keeps spawns)
            (λ _. Keeps-in_turn (send_entry h primary) outbox (entry-Keeps primary)) in
        let round =
          Keeps-bind (send_round h defn primary spawns outbox) (λ _. again) sent (λ _. l) in
        Keeps-if (is_any spawns || is_any outbox) _ (give tt) round (Keeps-give tt)

    flush_out-Keeps : (rounds : ℕ) (primary : Option ℕ) → Keeps (flush_out h rounds defn primary)
    unfolding flush_out
    flush_out-Keeps zero primary s p = p
    flush_out-Keeps (suc rounds) primary s p =
        pending-Keeps (flush_out h rounds defn primary) primary s.memory.store.spawns
          s.memory.store.outbox (flush_out-Keeps rounds primary) s p

    broadcast-Keeps : (r : ℕ) (ev : Event) (live : List ℕ) → Keeps (broadcast h defn r ev live)
    unfolding broadcast
    broadcast-Keeps r ev live =
        Keeps-bind (in_turn (publish_object h ev) live) _
          (Keeps-in_turn (publish_object h ev) live
            (λ q s. k.publishes (s.memory.heap q).id ev (some (s.memory.heap q)) s))
          (λ _ s.
            let exe = s.memory.heap r in
            commit_broadcast-Keeps h k r ev (rearmed h (h.now s.step) exe (ttl_delay defn exe)) s)

    route_to-Keeps : (r : ℕ) (ev : Event) (live : List ℕ) → Keeps (route_to h defn r ev live)
    unfolding route_to
    route_to-Keeps r ev live =
        Keeps-if (not (mem ev.kind control_kinds) && is_any live) _ _ (broadcast-Keeps r ev live)
          (run_flow-Keeps h k defn (some ev) r)

    pub relay_if-Keeps : (rounds r : ℕ) (b : Bool) → Keeps (relay_if h rounds defn r b)
    relay_if-Keeps rounds r false = Keeps-give tt
    relay_if-Keeps rounds r true = flush_out-Keeps rounds (some r)

    -- The whole handling of an event by the driver.
    pub route-Keeps : (rounds r : ℕ) (ev : Event) → Keeps (route h rounds defn r ev)
    unfolding route
    route-Keeps rounds r ev s p =
        let live = stored_among s.memory (live_ids (s.memory.heap r).children) in
        Keeps-bind (route_to h defn r ev live) (relay_if h rounds defn r) (route_to-Keeps r ev live)
          (relay_if-Keeps rounds r) s p
