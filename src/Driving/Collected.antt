-- ===== src/Driving/Collected.antt =====
-- What one step commits, collected from the effects in their order by `_drive_flow` of
-- src/harel/engine/driving.py, and the step of its trace (`_trace_step` of src/harel/engine/runtime.py).
use harel.Prelude.{ℕ, String, Option, none, some, List, [], ◌∷◌, ◌++◌, map}
use harel.Prelude.Dict
use harel.Prelude.Dict.{Dict}
use harel.Value.{Value, null, str, seq, dict, to_items, to_fields}
use harel.Events.{Event}
use harel.Execution.{Execution}
use harel.Engine.Effects.{
  Effect, run_action, run_selector, emit, spawn_children, schedule_timer, cancel_timer, assigned,
  ChildSpec, Delay,
}
use harel.Store.{TimerOp, schedule, cancel}
use harel.Store.Commits.{Emits, Spawns}

pub record Collected : Type 0 where
  pub emits : Emits
  pub timers : List TimerOp
  pub spawns : Spawns
  pub actions : List String
  pub set : Dict Value

-- `[], [], [], [], {}`
abbrev pub nothing : Collected
nothing = record { emits = []; timers = []; spawns = []; actions = []; set = [] }

abbrev pub spawn_of : ChildSpec → String × String × Dict Value
spawn_of s = (s.child_id, s.root_path, s.context)

-- One round of the loop over the effects; `due` is when a timer fires that is scheduled now.
unfoldable pub add_effect : (Delay → ℕ) → Collected → Effect → Collected
add_effect due c (run_action node hook a ev) = record c { actions = c.actions ++ a.function ∷ [] }
add_effect due c (run_selector node s ev) = record c {
  actions = c.actions ++ s.action.function ∷ [];
}
add_effect due c (emit ev to) = record c { emits = c.emits ++ (to, ev) ∷ [] }
add_effect due c (spawn_children specs) = record c { spawns = c.spawns ++ map spawn_of specs }
add_effect due c (schedule_timer path d) = record c {
  timers = c.timers ++ schedule path (due d) ∷ [];
}
add_effect due c (cancel_timer path) = record c { timers = c.timers ++ cancel path ∷ [] }
add_effect due c (assigned values) = record c { set = Dict.update c.set values }

-- `seen`: the effects before these.
unfoldable pub collect_from :
    (List Effect → Delay → ℕ) → List Effect → Collected → List Effect → Collected
collect_from due seen c [] = c
collect_from due seen c (e ∷ es) =
    let seen' = seen ++ e ∷ [] in collect_from due seen' (add_effect (due seen') c e) es

abbrev pub collect : (List Effect → Delay → ℕ) → List Effect → Collected
collect due es = collect_from due [] nothing es

abbrev pub opt_str : Option String → Value
opt_str none = null
opt_str (some s) = str s

abbrev pub kind_of : Option Event → String
kind_of none = "Start"
kind_of (some ev) = ev.kind

abbrev pub payload_of : Option Event → Dict Value
payload_of none = []
payload_of (some ev) = ev.payload

abbrev pub set_entry : Dict Value → Dict Value
set_entry [] = []
set_entry (v ∷ vs) = ("assigned", dict (to_fields (v ∷ vs))) ∷ []

-- `_trace_step`
unfoldable pub trace_step :
    Option Event → Option String → Execution → Value → Collected → Dict Value
trace_step ev from_path exe ts c =
    ("event_kind", str (kind_of ev))
    ∷ ("event_data", dict (to_fields (payload_of ev)))
    ∷ ("from_path", opt_str from_path)
    ∷ ("to_path", opt_str exe.active_path)
    ∷ ("actions", seq (to_items (map str c.actions)))
    ∷ ("context_out", dict (to_fields exe.context))
    ∷ ("timestamp", ts)
    ∷ set_entry c.set
