-- ===== src/Lib.antt =====
-- The core of harel, an engine for hierarchical state machines: the sans-IO interpreter of src/harel/engine/core.py,
-- over the built definitions of src/harel/definition/model.py and the records of src/harel/engine/execution.py.
--
-- An execution is a record with one active state of its definition. `process` handles one event: it finds a
-- transition, takes it (exits, assignments, entries), and drains what follows of itself, up to the end of
-- the execution. An orthogonal state and an `invoke` run as child executions that report back with a
-- `Finished`. The engine does no input and output: a step is a generator that yields effects, and a driver
-- answers them. Around it stand the validation, which a built definition passes before it runs; the store, where a
-- commit writes an execution with the events that it emits, its timers and its spawns; the transport, which hands
-- the events of an execution to one worker at a time; and the lifecycle commands, which write to the store beside
-- the events.
--
-- Prelude: shared names, dictionaries (Prelude/Dict), integers and Python's texts.
-- Value: Python values with the comparisons of `operator`. Events: src/harel/definition/events.py and the Event of
-- src/harel/spec/states.py. Model: src/harel/definition/model.py, with its navigation in Model/Navigation.
-- Execution: src/harel/engine/execution.py.
-- Engine: src/harel/engine/core.py. Engine/Effects has the effects and the steps; Engine/Guard `_compare`, `_eval` and
-- `_matches`; Engine/Resolve the resolution of transitions; Engine/Expression `_value_of` and `_evaluate`;
-- Engine/Regions forks, fan-outs and joins; Engine/Take `_run`, `_descend`, `_target_of` and `_take`;
-- Engine/Drain `_drain`; Engine/Teardown the checks that run nothing; Engine/Start `start`, `set_state` and the
-- expiry; Engine/Process `process`, with a definition for each kind of control event, of which `Finished` has
-- Engine/Finished; Engine/Signals the events that drivers make. Engine/Evolution is what any step may do to an execution.
-- Control: src/harel/engine/control.py, the check of a redrive target; Control/Commands has the commands terminate,
-- suspend, resume and redrive with `_commit_status_flow`, Control/Cancelling `cancel_flow`. Registry: the registry of
-- src/harel/engine/resolve.py and `definition_for` of src/harel/engine/driving.py.
-- Validate: src/harel/definition/validate.py. Validate/Issues has the issues; Validate/Reads the fields that guards and
-- assignments read; Validate/Types the checks of types and assignments, Validate/Fields those of events and of
-- the context; Validate/States those of states and of the transitions that leave them; Validate/Teardowns those of the events that end an execution and of its
-- terminals; Validate/Reach the search for reachable states; Validate/Whole `validate` and
-- `validate_or_raise`. The other modules of Validate have theorems.
-- Store: the in-memory store of src/harel/engine/store/dict.py, with the records of src/harel/engine/store/_base.py.
-- Store/Commits has `load`, `save` and `commit`; Store/Pending the outbox, spawns, timers, `purge`, definitions and
-- workers; Store/Listing `list_executions` with its cursors.
-- Transport: the in-process transport of src/harel/engine/transport/inmemory.py. Transport/Holding has its operations as
-- data, so that a run is a list of them.
-- Driving: src/harel/engine/driving.py. Driving/Running has `_drive_flow` and `_run_flow`, the step for one event with
-- its recovery and its commit; Driving/Collected what a step commits; Driving/Texts the texts of errors;
-- Driving/Inline the inline driver (`_create_spawn_flow`, `_flush_flow`, `inject_flow`, `fire_due_timers_flow`);
-- Driving/Routed the transport driver (`_flush_flow`, `route_flow`). The other modules of Driving have theorems.
-- Hosting: src/harel/engine/hosting.py, with the lookup of definitions; Hosting/Worker has `WorkerLogic`,
-- Hosting/Sender `SenderLogic` and Hosting/Durable `DurableLogic`. The other modules of Hosting have theorems.
-- Tests: machines, runs of the engine on them, and the theorems at concrete inputs.
--
-- How the code is modelled. A step is a function from a world, the execution and the effects yielded so
-- far, to an answer or an exception with the world it leaves: what was written before a raise stays written.
-- The driver is a parameter (`Driver`): how an action or a selector answers, when a timer fires, new ids, and
-- pydantic's dump and validation of events. Floats are 64-bit patterns, and their comparisons and
-- arithmetic are a parameter (`Floats`). A node is compared by its full path, carries its parent, and names
-- its children and the ends of transitions by their paths in the index. A dictionary is an association list in
-- insertion order. The flat predicate keys of an event filter are taken apart into a field, an operator and a
-- value, and a `not` has its one operand. A `Fault.stuck` is a KeyError, AssertionError, ValueError or
-- TypeError. Timeouts and budgets are whole seconds. Python's shortcut that an object equals itself
-- (a NaN in a list) is left out.
--
-- The store hands out the object that it was given, and its compare-and-swap asks whether two references
-- are one object. So an object is named by a number, a heap says what each holds, and a caller that writes to
-- an object is a step of its own (`Store.Reached.Step`). A set is a list without repetitions. The cursors of a listing
-- take base64 and the `int` of a text from `Store.Listing.Codec`. The transport
-- holds its lock for the whole of an operation, so an interleaving of workers is a list of operations with the
-- clock's time at each, in any order. The clocks of both count in ticks, and a priority is not negative.
-- The lifecycle commands run as their flows do in the caller's thread, over the in-memory store: what other
-- threads do between a load and the commit after it is a parameter (`meanwhile`), each commit is attempted five
-- times as in the source, the clock stands still during an attempt, and a bound on the depth of the children
-- ends in `too_deep`; an execution without children needs a depth of one.
-- A driver's flow runs as in the caller's thread, over that store and that transport, and flows in parallel run one
-- after the other. `Host` has what the flow does not decide: what actions answer, the clock, new ids, the lookup
-- of definitions, and what other threads do to the store between a step and its commit. The clock stands
-- still during a step, and the transport reads the driver's. What a machine resolver adds to the registry is not
-- kept between lookups, and a context key that a timer reads holds a number.
-- In the validation, the set of fields that an event's guards read stands in the order of the reads.
-- A timeout that the loader refuses, of no number and no key, has no place in the model.
--
-- A loop of the engine without a bound of its own, in `_drain` and `_descend`, has the bound `Env.bound` on its
-- rounds; running out of it is the fault `exhausted`, and the theorems on these loops say which bound is enough. The validation
-- has a bound on the rounds of its search and on the depth of the tree below a node, and `validate` answers
-- `none` where it is met; each round of the search looks at another state, so the number of states is enough. The
-- relay of a driver has a bound on its rounds, with the exception `endless` where it is met; two rounds are enough
-- where no child waits to be started. The lookup of a child's definition goes as many parents up as its bound. All
-- other loops follow a list or the parents of a node.
--
-- Not modelled: the creation and receipt times of events, callables, the definitions of inline submachines,
-- the texts of the validation's issues, the backlog of a transport, the idempotency keys of actions, the `Step` that a
-- commit passes to a store with steps, and what is around the engine: parsing and building of definitions, the
-- purge of a tree, the stores and transports over a service, the facades and loops of the runners, the command line
-- and the views.
pub mod Prelude
pub mod Value
pub mod Events
pub mod Model
pub mod Execution
pub mod Engine
pub mod Control
pub mod Driving
pub mod Hosting
pub mod Registry
pub mod Validate
pub mod Store
pub mod Transport
pub mod Tests
