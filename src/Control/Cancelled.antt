-- ===== src/Control/Cancelled.antt =====
-- What `cancel` leaves of an execution that runs alone.
use harel.Prelude.{
  ℕ, ◌+◌, String, ◌≡◌, Bool, not, ◌||◌, some, [], ◌∷◌, ◌++◌, is_some, if◌then◌else◌,
}
use harel.Value.{Value}
use harel.Events.{Event}
use harel.Execution.{Execution, Status}
use harel.Engine.Effects.{Env}
use harel.Engine.Teardown.{definition_problem}
use harel.Store.Listing.{same_status}
use harel.Store.{Memory}
use harel.Store.Commits.{load}
use harel.Control.Cancelling.{cancelling}

-- By force, the status is CANCELLED and nothing is queued; otherwise it is CANCELLING, and the Cancel is
-- queued for the execution. The active state and the context are the ones before.
pub record Cancelled (m : Memory) (r : ℕ) (id : String) (ev : Event) (b : Bool) (o : Memory)
    : Type 0 where
  pub stored : load o id ≡ some r
  pub status : (o.heap r).status ≡ (if b then Status.cancelled else Status.cancelling)
  pub queued :
      o.store.outbox
      ≡ m.store.outbox
        ++ (if b
            then []
            else record { seq = m.store.seq + 1; target_id = some id; event = ev } ∷ [])
  pub active_path : (o.heap r).active_path ≡ (m.heap r).active_path
  pub context : (o.heap r).context ≡ (m.heap r).context

-- What decides whether a cancel is by force: the execution is a dead letter, the definition has a problem
-- with it, or no handler is found.
abbrev pub by_force : Env → Execution → Bool → Bool
by_force env exe handled =
    same_status exe.status Status.failed
    || (is_some (definition_problem env.defn exe) || not handled)
