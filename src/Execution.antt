-- ===== src/Execution.antt =====
-- src/harel/engine/execution.py: the running instance of a definition, the time stamps of a commit, and
-- the projection of a monitor's list. Times are floats, kept as the values that hold them.
pub mod Stamps
use harel.Prelude.{ℕ, String, Bool, true, false, not, ◌==◌, Option, none, some, List, if◌then◌else◌}
use harel.Prelude.Dict.{Dict}
use harel.Value.{Value}
use harel.Events.{Event}

pub data Status : Type 0 where
  pending running done cancelled suspended cancelling failed : Status

abbrev pub is_running : Status → Bool
is_running Status.running = true
is_running _ = false

-- An `outcome` is a text or None, unless a carried context value took its place.
pub record ChildState : Type 0 where
  pub root_path : String
  pub finished : Bool
  pub outcome : Value
  pub result : Dict Value
  pub submachine : Bool
  pub key : String

pub record Execution : Type 0 where
  pub id : String
  pub definition_id : String
  pub definition_fqn : Option String
  pub definition_version : Option ℕ
  pub definition_digest : Option String
  pub routing_key : Option String
  pub root_path : String
  pub status : Status
  pub outcome : Option String
  pub error : Option String
  pub active_path : Option String
  pub history : Dict String
  pub context : Dict Value
  pub processed_events : ℕ
  pub version : ℕ
  pub priority : ℕ
  pub parent_id : Option String
  pub child_id : Option String
  pub deferred : List Event
  pub children : Dict ChildState
  pub invoke_seq : Dict ℕ
  pub created_at : Option Value
  pub updated_at : Option Value
  pub finished_at : Option Value
  pub expires_at : Option Value

-- The key that the transport routes by: the tree's root machine.
unfoldable pub route_of : Option Execution → Option String
route_of none = none
route_of (some exe) = elim exe.routing_key [ none ↦ some exe.definition_id | some k ↦ some k ]

abbrev pub is_finished : Status → Bool
is_finished Status.done = true
is_finished Status.cancelled = true
is_finished _ = false

unfoldable pub stamp : Execution → Value → Execution
stamp exe now = record exe {
  created_at = elim exe.created_at [ none ↦ some now | some t ↦ some t ];
  updated_at = some now;
  finished_at =
      if not (is_finished exe.status)
      then none
      else elim exe.finished_at [ none ↦ some now | some t ↦ some t ];
}

pub record ExecutionSummary : Type 0 where
  pub id : String
  pub definition_id : String
  pub status : Status
  pub outcome : Option String
  pub active_path : Option String
  pub version : ℕ
  pub parent_id : Option String
  pub finished_at : Option Value
  pub definition_version : Option ℕ
  pub updated_at : Option Value

unfoldable pub summary_of : Execution → ExecutionSummary
summary_of exe = record {
  id = exe.id;
  definition_id = exe.definition_id;
  status = exe.status;
  outcome = exe.outcome;
  active_path = exe.active_path;
  version = exe.version;
  parent_id = exe.parent_id;
  finished_at = exe.finished_at;
  definition_version = exe.definition_version;
  updated_at = exe.updated_at;
}
