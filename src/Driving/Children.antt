-- ===== src/Driving/Children.antt =====
-- The children that a relay starts.
use harel.Prelude.{
  ℕ, ◌+◌, String, ◌≡◌, refl, sym, ap, subst, ◌∙◌, Bool, Option, none, some, List, arith,
}
use harel.Prelude.Dict
use harel.Prelude.Dict.{Dict}
use harel.Value.{Value, str}
use harel.Events.{with_defaults}
use harel.Model.{Definition}
use harel.Execution.{Execution, route_of, stamp}
use harel.Store.{Memory, SpawnEntry}
use harel.Store.Commits.{Answer, done, conflict, Batch, load, commit, put_object}
use harel.Store.Committed.{commit_lem}
use harel.Control.Commands.{write}
use harel.Control.Quiet.{write-heap}
use harel.Driving.{Host, Site, Outcome, returns, give, stored, allocate, ◌>>=◌, ◌>>◌}
use harel.Driving.Running
use harel.Driving.Running.{
  Driven, commits, breaks, is_work, checkpoint, batch_of, drive, run_with, run_flow,
}
use harel.Driving.Inline.{
  child_of, create_spawn, create_absent, start_under, start_child, start_invoked, invoked,
  invoke_key, parent_defn, read_object,
}
use harel.Driving.Identity.{left_by, drive-anchor}
use harel.Driving.Processed.{bind-returns}

-- What an execution has from its birth.
pub record Birth : Type 0 where
  pub id : String
  pub priority : ℕ
  pub routing_key : Option String
  pub parent_id : Option String
  pub root_path : String

abbrev pub birth : Execution → Birth
birth exe = record {
  id = exe.id;
  priority = exe.priority;
  routing_key = exe.routing_key;
  parent_id = exe.parent_id;
  root_path = exe.root_path;
}

-- The object is stored under its id, with this birth.
abbrev Stored : ℕ → Birth → Memory → Type 0
Stored r b m = (load m b.id ≡ some r) × (birth (m.heap r) ≡ b)

answer-Stored :
    (m : Memory) (r : ℕ) (b : Batch) (s : Site) (seqs : List ℕ) (a : Answer (List ℕ × Memory))
    → commit m r b ≡ a
    → (stored a s).0 ≡ returns seqs
    → Stored r (birth (m.heap r)) (stored a s).1.memory
unfolding stored
answer-Stored m r b s seqs (done (ns, n)) e q =
    let c = commit_lem m n r b ns e in (c.stored, ap birth c.written)
answer-Stored m r b s seqs (conflict expected met) e q = absurd (ground (arith, q))

module _ (h : Host) (quiet : (n : ℕ) (m : Memory) → h.meanwhile n m ≡ m) where
  checkpoint-Stored :
      (r : ℕ) (exe : Execution) (b : Batch) (s : Site) (seqs : List ℕ)
      → (checkpoint h r exe b s).0 ≡ returns seqs
      → Stored r (birth exe) (checkpoint h r exe b s).1.memory
  unfolding checkpoint stamp
  checkpoint-Stored r exe b s seqs e =
      let k = write s.memory r (stamp exe (h.time (h.now s.step))) in
      let m = h.meanwhile s.step k in
      let t = record s { memory = m; step = s.step + 1 } in
      let same : birth (m.heap r) ≡ birth exe =
        ap (λ (n : Memory). birth (n.heap r)) (quiet s.step k)
        ∙ ap birth (write-heap s.memory r (stamp exe (h.time (h.now s.step)))) in
      subst (λ x. Stored r x (stored (commit m r b) t).1.memory) same
        (answer-Stored m r b t seqs (commit m r b) refl e)

  concluded-Stored :
      (r : ℕ) (from_path : Option String) (d : Driven) (s : Site) (b : Bool)
      → (Running.conclude h r none from_path d s).0 ≡ returns b
      → Stored r (birth (left_by d)) (Running.conclude h r none from_path d s).1.memory
  unfolding Running.conclude
  concluded-Stored r from_path (breaks f exe) s b e = absurd (ground (arith, e))
  concluded-Stored r from_path (commits c exe) s b e =
      let batch = batch_of h s.step none from_path exe c in
      let (seqs, q, at) = bind-returns (checkpoint h r exe batch) (λ _. give (is_work c)) s b e in
      rw at (checkpoint-Stored r exe batch s seqs q)

  run_with-Stored :
      (gen : Definition) (r : ℕ) (o : Option Definition) (s : Site) (b : Bool)
      → (run_with h gen none r o s).0 ≡ returns b
      → Stored r (birth (s.memory.heap r)) (run_with h gen none r o s).1.memory
  unfolding run_with
  run_with-Stored gen r none s b e = absurd (ground (arith, e))
  run_with-Stored gen r (some defn) s b e =
      let d = drive h s.memory r s.step defn gen none in
      let path = (s.memory.heap r).active_path in
      subst (λ x. Stored r x (Running.conclude h r none path d s).1.memory)
        (ap birth (drive-anchor h s.memory r s.step defn gen none))
        (concluded-Stored r path d s b e)

  -- A new object whose start returns.
  started-Stored :
      (exe : Execution) (gen : Definition) (s : Site)
      → ((allocate exe >>= λ r. run_flow h gen none r >> give tt) s).0 ≡ returns tt
      → Stored s.objects
          (birth exe)
          ((allocate exe >>= λ r. run_flow h gen none r >> give tt) s).1.memory
  unfolding allocate run_flow
  started-Stored exe gen s e =
      let m = record s.memory { heap = put_object s.objects exe s.memory.heap } in
      let t = record s { memory = m; objects = s.objects + 1 } in
      let (b, q, at) = bind-returns (run_flow h gen none s.objects) (λ _. give tt) t tt e in
      let new : birth (m.heap s.objects) ≡ birth exe =
        ap birth (write-heap s.memory s.objects exe) in
      rw at (
        subst (λ x. Stored s.objects x (run_flow h gen none s.objects t).1.memory) new
          (run_with-Stored gen s.objects (h.lookup m (m.heap s.objects)) t b q))

  module _ (defn : Definition) (entry : SpawnEntry) (parent : Execution) where
    abbrev child_birth : Birth
    child_birth = record {
      id = entry.child_id;
      priority = parent.priority;
      routing_key = route_of (some parent);
      parent_id = some entry.parent_id;
      root_path = entry.root_path;
    }

    invoked-Stored :
        (fqn : String) (context : Dict Value) (o : Option Definition) (s : Site)
        → (start_invoked h defn entry (some parent) fqn context o s).0 ≡ returns tt
        → Stored s.objects child_birth
            (start_invoked h defn entry (some parent) fqn context o s).1.memory
    unfolding start_invoked child_of
    invoked-Stored fqn context none s e = absurd (ground (arith, e))
    invoked-Stored fqn context (some machine) s e =
        started-Stored
          (child_of entry (some parent) machine (some fqn)
            (with_defaults machine.context_schema context))
          machine s e

    child-Stored :
        (own : Definition) (v : Option Value) (s : Site)
        → (start_child h defn entry (some parent) own v s).0 ≡ returns tt
        → Stored s.objects child_birth (start_child h defn entry (some parent) own v s).1.memory
    unfolding start_child child_of
    child-Stored own (some (str fqn)) s e =
        invoked-Stored fqn (Dict.remove invoke_key entry.context) (invoked h defn own fqn) s e
    child-Stored own v s e =
        started-Stored
          (child_of entry (some parent) own none (Dict.remove invoke_key entry.context)) own s e

    under-Stored :
        (o : Option Definition) (s : Site)
        → (start_under h defn entry (some parent) o s).0 ≡ returns tt
        → Stored s.objects child_birth (start_under h defn entry (some parent) o s).1.memory
    unfolding start_under
    under-Stored none s e = absurd (ground (arith, e))
    under-Stored (some own) s e = child-Stored own (Dict.get invoke_key entry.context) s e

  -- A spawn whose child is absent and whose parent is stored.
  absent_spawn :
      (defn : Definition) (entry : SpawnEntry) (p : ℕ) (s : Site)
      → load s.memory entry.child_id ≡ none
      → load s.memory entry.parent_id ≡ some p
      → create_spawn h defn entry s
        ≡ start_under h defn entry (some (s.memory.heap p)) (h.lookup s.memory (s.memory.heap p)) s
  unfolding create_spawn create_absent parent_defn
  absent_spawn defn entry p s absent at =
      ap (λ o. create_absent h defn entry o s) absent
      ∙ ap
          (λ o.
            let parent = read_object s.memory o in
            start_under h defn entry parent (parent_defn h defn s.memory parent) s)
          at

  again_spawn :
      (defn : Definition) (entry : SpawnEntry) (t : Site) (r : ℕ)
      → load t.memory entry.child_id ≡ some r
      → create_spawn h defn entry t ≡ (returns tt, t)
  unfolding create_spawn create_absent
  again_spawn defn entry t r l = ap (λ o. create_absent h defn entry o t) l

  -- Where no other thread writes to the store meanwhile, a pending child of a stored parent whose start
  -- returns is stored under its id, with the parent's priority and the routing key of the parent's
  -- tree. To create it again, as a relay that was interrupted does, changes nothing.
  pub create_spawn_once :
      (defn : Definition) (entry : SpawnEntry) (p : ℕ) (s : Site)
      → load s.memory entry.child_id ≡ none
      → load s.memory entry.parent_id ≡ some p
      → (create_spawn h defn entry s).0 ≡ returns tt
      → let parent = s.memory.heap p in
        let t = (create_spawn h defn entry s).1 in
        (load t.memory entry.child_id ≡ some s.objects)
        × ((t.memory.heap s.objects).priority ≡ parent.priority)
        × ((t.memory.heap s.objects).routing_key ≡ route_of (some parent))
        × ((t.memory.heap s.objects).parent_id ≡ some entry.parent_id)
        × (create_spawn h defn entry t ≡ (returns tt, t))
  create_spawn_once defn entry p s absent at e =
      let parent = s.memory.heap p in
      let same = absent_spawn defn entry p s absent at in
      let (l, b) : Stored s.objects (child_birth defn entry parent)
          (create_spawn h defn entry s).1.memory =
        subst
          (λ (x : Outcome (Unit {0}) × Site).
            Stored s.objects (child_birth defn entry parent) x.1.memory)
          (sym same)
          (under-Stored defn entry parent (h.lookup s.memory parent) s
            (ap (λ (x : Outcome (Unit {0}) × Site). x.0) (sym same) ∙ e)) in
      (
        l,
        ap (λ x. x.priority) b,
        ap (λ x. x.routing_key) b,
        ap (λ x. x.parent_id) b,
        again_spawn defn entry (create_spawn h defn entry s).1 s.objects l,
      )
