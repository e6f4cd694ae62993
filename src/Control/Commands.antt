-- ===== src/Control/Commands.antt =====
-- The lifecycle commands of src/harel/engine/control.py, as their flows run in the caller's thread over the
-- in-memory store. `meanwhile` is what other threads do between a load and the commit that follows; the
-- clock stands still during one attempt of a commit.
use harel.Prelude.{
  ℕ, zero, suc, ◌+◌, String, Bool, true, false, not, ◌||◌, Option, none, some, List, [], ◌∷◌,
  gather, opt_list, or_else, if◌then◌else◌,
}
use harel.Value.{Value}
use harel.Model.{Definition}
use harel.Execution.{Execution, Status, ChildState, is_finished, stamp}
use harel.Engine.Result.{Fault, Result, ok, raised}
use harel.Engine.Start.{ttl_delay, ttl_path}
use harel.Store.{Memory, TimerOp, schedule}
use harel.Store.Commits.{Answer, done, conflict, Batch, Emits, load, commit, put_object}
use harel.Store.Listing.{same_status}
use harel.Control.{RedriveProblem, redrive_problem}

-- How a command ends: it returns, or it raises KeyError, ValueError or what the engine raises;
-- `too_deep`: the bound on the depth of the children was met. Each with the store's state.
pub data Ending : Type 0 where
  returned : Memory → Ending
  missing : Memory → Ending
  refused : RedriveProblem → Memory → Ending
  failed : Fault → Memory → Ending
  too_deep : Memory → Ending

infixl 5 ◌then◌
abbrev pub ◌then◌ : Ending → (Memory → Ending) → Ending
returned m then next = next m
missing m then next = missing m
refused p m then next = refused p m
failed x m then next = failed x m
too_deep m then next = too_deep m

-- The arguments of `_commit_status_flow`.
pub record Change : Type 0 where
  pub new_status : Status
  pub require_status : Option Status
  pub validate : Execution → Result (Option RedriveProblem)
  pub active_path : Option String
  pub clear_error : Bool
  pub clear_history : Bool
  pub rearm_ttl_of : Option Definition
  pub adopt : Option Definition

abbrev pub to_status : Status → Change
to_status s = record {
  new_status = s;
  require_status = none;
  validate = λ exe. ok none;
  active_path = none;
  clear_error = false;
  clear_history = false;
  rearm_ttl_of = none;
  adopt = none;
}

abbrev pub is_required : Option Status → Execution → Bool
is_required none exe = true
is_required (some s) exe = same_status exe.status s

unfoldable pub altered : Change → Execution → Execution
altered c exe = record exe {
  status = c.new_status;
  active_path = or_else c.active_path exe.active_path;
  error = if c.clear_error then none else exe.error;
  history = if c.clear_history then [] else exe.history;
  definition_version = elim c.adopt [ none ↦ exe.definition_version | some d ↦ some d.version ];
  definition_digest = elim c.adopt [ none ↦ exe.definition_digest | some d ↦ d.digest ];
}

abbrev pub delay_of : Change → Execution → Option ℕ
delay_of c exe = elim c.rearm_ttl_of [ none ↦ none | some defn ↦ ttl_delay defn exe ]

abbrev pub write : Memory → ℕ → Execution → Memory
write m r exe = record m { heap = put_object r exe m.heap }

abbrev pub batch_of : Emits → List TimerOp → Batch
batch_of emits timers = record {
  emits = emits;
  processed_event_id = none;
  timers = timers;
  spawns = [];
  trace = none;
}

-- A conflict is retried.
abbrev pub conclude : (Memory → Ending) → Memory → Answer (List ℕ × Memory) → Ending
conclude again m (done (seqs, n)) = returned n
conclude again m (conflict expected met) = again m

abbrev pub retries : ℕ
retries = 5

module _ (meanwhile : Memory → Memory) (time : ℕ → Value) where
  -- The object is written and committed.
  unfoldable pub commit_change : (Memory → Ending) → ℕ → Memory → ℕ → Execution → Option ℕ → Ending
  commit_change again now m r exe none =
      let n = meanwhile (write m r (stamp exe (time now))) in
      conclude again n (commit n r (batch_of [] []))
  commit_change again now m r exe (some delay) =
      let at = now + delay in
      let n =
        meanwhile (write m r (stamp (record exe { expires_at = some (time at) }) (time now))) in
      conclude again n (commit n r (batch_of [] (schedule ttl_path at ∷ [])))

  unfoldable pub validated :
      (Memory → Ending) → ℕ → Change → Memory → ℕ → Result (Option RedriveProblem) → Ending
  validated again now c m r (raised x) = failed x m
  validated again now c m r (ok (some p)) = refused p m
  validated again now c m r (ok none) =
      let exe = altered c (m.heap r) in commit_change again now m r exe (delay_of c exe)

  unfoldable pub attempt : (Memory → Ending) → ℕ → Change → Memory → Option ℕ → Ending
  attempt again now c m none = missing m
  attempt again now c m (some r) =
      let exe = m.heap r in
      if not (is_required c.require_status exe) || is_finished exe.status
      then returned m
      else validated again now c m r (c.validate exe)

  -- The attempts left; after the last conflict the flow returns as after a commit.
  unfoldable pub commit_status : ℕ → ℕ → String → Change → Memory → Ending
  commit_status zero now id c m = returned m
  commit_status (suc n) now id c m = attempt (commit_status n now id c) now c m (load m id)

  -- The children that are stored.
  unfoldable pub children_in : Memory → Option ℕ → List ℕ
  children_in m none = []
  children_in m (some r) =
      gather (λ (c : String × ChildState). opt_list (load m c.0)) (m.heap r).children

  unfoldable pub each_child : (String → Memory → Ending) → List ℕ → Memory → Ending
  each_child one [] m = returned m
  each_child one (r ∷ rs) m = one (m.heap r).id m then each_child one rs

  -- To the children and to theirs, down to a depth.
  unfoldable pub propagate : ℕ → ℕ → String → Status → Memory → Ending
  propagate zero now id s m = too_deep m
  propagate (suc depth) now id s m =
      each_child
        (λ child k.
          commit_status retries now child (to_status s) k then propagate depth now child s)
        (children_in m (load m id)) m

  unfoldable pub terminate : ℕ → ℕ → String → Memory → Ending
  terminate depth now id m =
      commit_status retries now id (to_status Status.cancelled) m
      then propagate depth now id Status.cancelled

  -- A command on an execution in a status; on one in another it does nothing.
  unfoldable pub from_status : Status → Status → ℕ → ℕ → String → Memory → Option ℕ → Ending
  from_status old new depth now id m none = missing m
  from_status old new depth now id m (some r) =
      if not (same_status (m.heap r).status old)
      then returned m
      else commit_status retries now id (to_status new) m then propagate depth now id new

  unfoldable pub suspend : ℕ → ℕ → String → Memory → Ending
  suspend depth now id m = from_status Status.running Status.suspended depth now id m (load m id)

  unfoldable pub resume : ℕ → ℕ → String → Memory → Ending
  resume depth now id m = from_status Status.suspended Status.running depth now id m (load m id)

  -- The change of a redrive, which moves the execution to the source of its definition.
  abbrev pub redriven : Definition → String → Change
  redriven defn target = record {
    new_status = Status.running;
    require_status = some Status.failed;
    validate = λ exe. redrive_problem defn exe target;
    active_path = some target;
    clear_error = true;
    clear_history = true;
    rearm_ttl_of = some defn;
    adopt = some defn;
  }

  unfoldable pub redrive_checked :
      Definition → ℕ → String → String → Memory → Result (Option RedriveProblem) → Ending
  redrive_checked defn now id target m (raised x) = failed x m
  redrive_checked defn now id target m (ok (some p)) = refused p m
  redrive_checked defn now id target m (ok none) =
      commit_status retries now id (redriven defn target) m

  unfoldable pub redrive_object : Definition → ℕ → String → String → Memory → Option ℕ → Ending
  redrive_object defn now id target m none = missing m
  redrive_object defn now id target m (some r) =
      if not (same_status (m.heap r).status Status.failed)
      then returned m
      else redrive_checked defn now id target m (redrive_problem defn (m.heap r) target)

  unfoldable pub redrive : Definition → ℕ → String → String → Memory → Ending
  redrive defn now id target m = redrive_object defn now id target m (load m id)
