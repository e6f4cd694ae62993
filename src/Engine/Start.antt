-- ===== src/Engine/Start.antt =====
-- The start of an execution, the inactivity budget of a root (`ttl`), and the reposition of
-- `SetState`, in src/harel/engine/core.py.
use harel.Prelude.{ℕ, ◌+◌, String, Bool, true, not, Option, none, some, [], is_some, if◌then◌else◌}
use harel.Prelude.Dict
use harel.Events.{Event}
use harel.Model.{Node, info, path, is_orthogonal, Definition}
use harel.Model.Navigation.{child}
use harel.Execution.{Execution, Status, is_running}
use harel.Engine.Result.{need}
use harel.Engine.Effects.{
  M, Env, enter, seconds, pure, lift, gets, modify, schedules, node_at, new_event, ◌>>=◌, ◌>>◌,
}
use harel.Engine.Resolve.{Found}
use harel.Engine.Regions.{joined, leave_regions}
use harel.Engine.Take.{run, descend}
use harel.Engine.Drain.{drain, fire}
use harel.Engine.Teardown.{safe_teardown, is_valid_reposition_target}

-- The timer path of a machine's `ttl`.
abbrev pub ttl_path : String
ttl_path = "@ttl"

-- The budget to arm: of a running root of a machine that declares one.
unfoldable pub ttl_delay : Definition → Execution → Option ℕ
ttl_delay defn exe = elim defn.ttl [
  | none ↦ none
  | some n ↦ if is_some exe.parent_id then none else if is_running exe.status then some n else none
]

-- A node whose entry spawns children.
abbrev pub spawn_site : Node → Bool
spawn_site n =
    if is_orthogonal n
    then true
    else if is_some (info n).invoke
    then true
    else is_some (info n).invoke_each

module _ (env : Env) where
  unfoldable pub arm : Option ℕ → M (Unit {0})
  arm none = pure tt
  arm (some n) = do
    t ← schedules env ttl_path (seconds n)
    modify (λ exe. record exe { expires_at = some t })

  unfoldable pub arm_ttl : M (Unit {0})
  arm_ttl = do delay ← gets (ttl_delay env.defn); arm delay

  unfoldable pub start_node : Node → Option Node
  start_node root = elim (info root).start_state [ none ↦ none | some s ↦ child env.defn root s ]

  unfoldable pub start : M (Unit {0})
  start = do
    modify (λ exe. record exe { status = Status.running })
    p ← gets (λ exe. exe.root_path)
    root ← node_at env p
    first ← lift (need (start_node root))
    is_child ← gets (λ exe. is_some exe.parent_id)
    if is_child then run env root enter none else pure tt
    modify (λ exe. record exe { active_path = some (path first) })
    run env first enter none
    descend env first none
    drain env
    arm_ttl

  -- Positions at a safe target and follows what is automatic from there.
  unfoldable pub set_state : String → M (Unit {0})
  set_state p = do
    exe ← gets (λ exe. exe)
    valid ← lift (is_valid_reposition_target env.defn exe p)
    if not valid
        then pure tt
        else if not (joined exe)
        then pure tt
        else if not (is_running exe.status)
        then pure tt
        else do
          modify
              (λ exe. record exe { deferred = []; active_path = some p; status = Status.running })
          drain env

  abbrev pub active_site : Execution → Option Node
  active_site exe = elim exe.active_path [ none ↦ none | some p ↦ Dict.get p env.defn.index ]

  unfoldable pub leave_node : Option Node → M (Unit {0})
  leave_node none = pure tt
  leave_node (some n) = if spawn_site n then leave_regions env n else pure tt

  -- Cancels what the active node has spawned, if it spawns.
  unfoldable pub leave_site : M (Unit {0})
  leave_site = do site ← gets active_site; leave_node site

  unfoldable pub by_model : Event → Option Found → M (Unit {0})
  by_model ev (some found) = do fire env (some ev) found; drain env
  by_model ev none = do
    leave_site
    modify (λ exe. record exe { status = Status.cancelled; outcome = some "expired" })

  -- `_expire`, past its test that the deadline is the armed one.
  unfoldable pub expire_now : M (Unit {0})
  expire_now = do
    modify (λ exe. record exe { processed_events = exe.processed_events + 1 })
    ev ← new_event env "Expired" []
    exe ← gets (λ exe. exe)
    found ← lift (safe_teardown env exe ev)
    by_model ev found
