-- ===== src/Store.antt =====
-- The records of src/harel/engine/store/_base.py and the state of the in-memory store,
-- src/harel/engine/store/dict.py. The store hands out the objects that it was given, so an object is
-- named by a number, and a heap holds what each object is. The clock counts in ticks.
pub mod Commits
pub mod Pending
pub mod Listing
pub mod Conflicts
pub mod Sequences
pub mod Ring
pub mod Sound
pub mod Reached
pub mod Purged
pub mod Committed
pub mod Alphabet
pub mod Listed
pub mod Pages
pub mod Timed
pub mod Keyed
use harel.Prelude.{
  ℕ, ◌+◌, ◌*◌, String, Bool, true, ◌==◌, ◌&&◌, eqb, leb, Option, none, some, List, [], ◌∷◌, mem,
  if◌then◌else◌,
}
use harel.Prelude.Dict
use harel.Prelude.Dict.{Dict}
use harel.Value.{Value}
use harel.Events.{Event}
use harel.Execution.{Execution}

pub record OutboxEntry : Type 0 where
  pub seq : ℕ
  pub target_id : Option String
  pub event : Event

pub record SpawnEntry : Type 0 where
  pub seq : ℕ
  pub parent_id : String
  pub child_id : String
  pub root_path : String
  pub context : Dict Value

pub data TimerOp : Type 0 where
  schedule : String → ℕ → TimerOp
  cancel : String → TimerOp

pub record DefinitionRecord : Type 0 where
  pub definition_id : String
  pub version : ℕ
  pub digest : String
  pub source : Dict Value
  pub published_at : Option ℕ

pub record WorkerRecord : Type 0 where
  pub worker_id : String
  pub machines : Option (List String)
  pub started_at : ℕ
  pub seen_at : ℕ
  pub heartbeat : ℕ

-- Seen within the last `beats` heartbeats.
unfoldable pub alive : WorkerRecord → ℕ → ℕ → Bool
alive w now beats = leb now (w.seen_at + beats * w.heartbeat)

unfoldable pub covers : WorkerRecord → Option String → Bool
covers w machine = elim w.machines [
  | none ↦ true
  | some names ↦ elim machine [ none ↦ harel.Prelude.false | some m ↦ mem m names ]
]

-- An armed timer: the entry of `_timers` under its execution and path.
pub record Timer : Type 0 where
  pub execution_id : String
  pub path : String
  pub fire_at : ℕ

pub record DictStore : Type 0 where
  pub by_id : Dict ℕ
  pub outbox : List OutboxEntry
  pub processed : List (String × String)
  pub timers : List Timer
  pub spawns : List SpawnEntry
  pub trace : Dict (List (Dict Value))
  pub trace_idx : Dict ℕ
  pub trace_max : ℕ
  pub seq : ℕ
  pub spawn_seq : ℕ
  pub purged : List String
  pub definitions : List DefinitionRecord
  pub workers : Dict WorkerRecord

-- `DictStore()`
abbrev pub empty : DictStore
empty = record {
  by_id = [];
  outbox = [];
  processed = [];
  timers = [];
  spawns = [];
  trace = [];
  trace_idx = [];
  trace_max = 200;
  seq = 0;
  spawn_seq = 0;
  purged = [];
  definitions = [];
  workers = [];
}

-- The objects, and the store that refers to them.
pub record Memory : Type 0 where
  pub heap : ℕ → Execution
  pub store : DictStore

-- The pair of an execution and an event, or of an execution and a path, is the one asked for.
abbrev pub both : String → String → String → String → Bool
both a b c d = a == c && b == d
