-- ===== src/Control/Cancelling.antt =====
-- `cancel_flow` of src/harel/engine/control.py: with the machine's own cleanup, or by force.
use harel.Prelude.{
  ℕ, zero, suc, String, Bool, true, not, Option, none, some, List, [], ◌∷◌, is_some, if◌then◌else◌,
}
use harel.Value.{Value}
use harel.Events.{Event}
use harel.Execution.{Execution, Status, is_finished, stamp}
use harel.Engine.Result.{Result, ok, raised, ◌>>=◌}
use harel.Engine.Effects.{Env}
use harel.Engine.Teardown.{definition_problem, has_cancel_handler}
use harel.Store.{Memory}
use harel.Store.Commits.{Answer, done, conflict, load, commit}
use harel.Store.Listing.{same_status}
use harel.Control.Commands.{
  Ending, returned, missing, failed, write, batch_of, terminate, propagate, retries,
}

-- Whether there is no cleanup to run: a dead letter, a definition that does not fit, or no handler.
unfoldable pub is_forceful : Env → Execution → Event → Result Bool
is_forceful env exe ev =
    let handled = has_cancel_handler env exe ev >>= λ b. ok (not b) in
    if same_status exe.status Status.failed
    then ok true
    else if is_some (definition_problem env.defn exe)
    then ok true
    else handled

-- `Event(kind="Cancel", …)` makes an event of its own at each attempt; they are given by the attempts left.
module _ (meanwhile : Memory → Memory) (time : ℕ → Value) (env : Env) (events : ℕ → Event) where
  -- The children do not outlive the execution; a conflict is retried.
  unfoldable pub cancelling :
      (Memory → Ending) → ℕ → ℕ → String → Memory → Answer (List ℕ × Memory) → Ending
  cancelling again depth now id m (conflict expected met) = again m
  cancelling again depth now id m (done (seqs, n)) =
      propagate meanwhile time depth now id Status.cancelled n

  -- CANCELLING, with the Cancel in the same commit.
  unfoldable pub cooperate : (Memory → Ending) → ℕ → ℕ → String → Memory → ℕ → Event → Ending
  cooperate again depth now id m r ev =
      let exe = stamp (record (m.heap r) { status = Status.cancelling }) (time now) in
      let n = meanwhile (write m r exe) in
      cancelling again depth now id n (commit n r (batch_of ((some exe.id, ev) ∷ []) []))

  unfoldable pub cancel_object :
      (Memory → Ending)
      → (Memory → Ending)
      → ℕ
      → ℕ
      → String
      → Memory
      → ℕ
      → Event
      → Result Bool
      → Ending
  cancel_object again forced depth now id m r ev (raised x) = failed x m
  cancel_object again forced depth now id m r ev (ok b) =
      if b then forced m else cooperate again depth now id m r ev

  unfoldable pub cancel_attempt :
      (Memory → Ending) → (Memory → Ending) → ℕ → ℕ → String → Memory → Event → Option ℕ → Ending
  cancel_attempt again forced depth now id m ev none = missing m
  cancel_attempt again forced depth now id m ev (some r) =
      if is_finished (m.heap r).status
      then returned m
      else cancel_object again forced depth now id m r ev (is_forceful env (m.heap r) ev)

  -- The attempts left.
  unfoldable pub cancel_from : ℕ → ℕ → ℕ → String → Memory → Ending
  cancel_from zero depth now id m = returned m
  cancel_from (suc n) depth now id m =
      cancel_attempt (cancel_from n depth now id) (terminate meanwhile time depth now id) depth now
        id m (events n) (load m id)

  unfoldable pub cancel : ℕ → ℕ → String → Memory → Ending
  cancel depth now id m = cancel_from retries depth now id m
