-- ===== src/Driving.antt =====
-- The drivers of src/harel/engine/driving.py: what a flow runs on, and how it ends. A flow is a function from
-- the site, the store and the transport with the objects, to what it returns or raises with the site
-- that it leaves. The port calls of src/harel/engine/flow.py are the operations of Store and Transport.
pub mod Texts
pub mod Collected
pub mod Running
pub mod Inline
pub mod Routed
pub mod Keeping
pub mod Identity
pub mod Seen
pub mod Processed
pub mod Waiting
pub mod Unhandled
pub mod Relayed
pub mod Children
use harel.Prelude.{ℕ, ◌+◌, String, Bool, Option, none, some, List, [], ◌∷◌, if◌then◌else◌}
use harel.Prelude.Dict.{Dict}
use harel.Value.{Value, Floats}
use harel.Events.{Event, Problem}
use harel.Model.{Definition}
use harel.Execution.{Execution}
use harel.Engine.Result.{Fault, ActionError}
use harel.Engine.Effects.{Effect, Reply}
use harel.Engine.Teardown.{DefinitionProblem}
use harel.Store.{Memory, DictStore}
use harel.Store.Commits.{Answer, done, conflict, load, put_object}
use harel.Control.{RedriveProblem}
use harel.Transport.{InMemoryTransport}

-- What a driver is built with, and what answers it. A flow's steps are numbered, and the flag tells a step
-- from its recovery. `waits` is the number of ticks that a context key holds for a timer; `cause` the
-- `__cause__` that an action gave its exception; `repr` Python's. `own` has the definitions of a machine's
-- inline submachines.
pub record Host : Type 0 where
  pub floats : Floats
  pub repr : Value → String
  pub bound : ℕ
  pub now : ℕ → ℕ
  pub time : ℕ → Value
  pub waits : ℕ → Bool → List Effect → ℕ
  pub answer : ℕ → Bool → List Effect → Effect → Dict Value → Reply
  pub cause : ℕ → List Effect → Option ActionError
  pub new_id : ℕ → Bool → List Effect → String
  pub dump : Event → Value
  pub validate : Value → Option Event
  -- `FailOnActionError`
  pub fails : Bool
  pub traced : Bool
  -- `_definition_flow`; `none`: DefinitionNotLoaded.
  pub lookup : Memory → Execution → Option Definition
  pub own : Definition → String → Option Definition
  pub resolve_machine : Option (String → Option Definition)
  -- What other threads do to the store between a step and its commit.
  pub meanwhile : ℕ → Memory → Memory

-- The objects from number `objects` on are not in use; `step` counts the steps.
pub record Site : Type 0 where
  pub memory : Memory
  pub queue : InMemoryTransport
  pub step : ℕ
  pub objects : ℕ

-- What a flow raises. `endless`: the bound on the rounds of a relay.
pub data Failure : Type 0 where
  by_engine : Fault → Failure
  changed : DefinitionProblem → Failure
  not_loaded : Failure
  unresolved : Failure
  store_conflict : ℕ → Option ℕ → Failure
  unknown_execution : String → Failure
  unknown_definition : String → Failure
  already_exists : String → Failure
  start_refused : Failure
  bad_priority : ℕ → Failure
  redrive_refused : RedriveProblem → Failure
  misfit : List Problem → Failure
  endless : Failure

pub data Outcome (A : Type 0) : Type 0 where
  returns : A → Outcome A
  raises : Failure → Outcome A

abbrev pub Flow : Type 0 → Type 0
Flow A = Site → Outcome A × Site

module _ {A : Type 0} where
  abbrev pub give : A → Flow A
  give a s = (returns a, s)

  abbrev pub throw : Failure → Flow A
  throw f s = (raises f, s)

module _ {A B : Type 0} where
  abbrev pub follow : Outcome A → (A → Flow B) → Flow B
  follow (returns a) next s = next a s
  follow (raises f) next s = (raises f, s)

  infixl 5 ◌>>=◌ ◌>>◌
  abbrev pub ◌>>=◌ : Flow A → (A → Flow B) → Flow B
  ◌>>=◌ m next s = let (o, s') = m s in follow o next s'

  abbrev pub ◌>>◌ : Flow A → Flow B → Flow B
  m >> n = m >>= λ _. n

abbrev pub with_memory : (Memory → Memory) → Flow (Unit {0})
with_memory f s = (returns tt, record s { memory = f s.memory })

abbrev pub with_store : (DictStore → DictStore) → Flow (Unit {0})
with_store f = with_memory (λ m. record m { store = f m.store })

abbrev pub with_queue : (InMemoryTransport → InMemoryTransport) → Flow (Unit {0})
with_queue f s = (returns tt, record s { queue = f s.queue })

-- `load`, as the number of the object.
abbrev pub loads : String → Flow (Option ℕ)
loads id s = (returns (load s.memory id), s)

-- A new object.
unfoldable pub allocate : Execution → Flow ℕ
allocate exe s = (
  returns s.objects,
  record s {
    memory = record s.memory { heap = put_object s.objects exe s.memory.heap };
    objects = s.objects + 1;
  },
)

-- An answer of the store, or its StoreConflict.
unfoldable pub stored : {A : Type 0} → Answer (A × Memory) → Flow A
stored (done (a, m)) s = (returns a, record s { memory = m })
stored (conflict expected met) s = (raises (store_conflict expected met), s)

-- `parallel`, in the caller's thread: one flow after the other.
unfoldable pub in_turn {ℓ} : {A : Type ℓ} → (A → Flow (Unit {0})) → List A → Flow (Unit {0})
in_turn f [] = give tt
in_turn f (x ∷ xs) = f x >> in_turn f xs
