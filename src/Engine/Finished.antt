-- ===== src/Engine/Finished.antt =====
-- The report of a child that has finished: the `Finished` events of `process` in
-- src/harel/engine/core.py.
use harel.Prelude.{
  ℕ, ◌+◌, String, Bool, true, false, not, ◌&&◌, ◌==◌, Option, none, some, [], ◌∷◌, ◌++◌, is_some,
  if◌then◌else◌, mem, keep,
}
use harel.Prelude.Dict
use harel.Prelude.Dict.{Dict}
use harel.Value.{Value, null, str, seq, dict}
use harel.Events.{Event}
use harel.Model.{Node, info, path}
use harel.Execution.{Execution, is_running, ChildState}
use harel.Engine.Result.{Result, ok, raised, stuck, need}
use harel.Engine.Effects.{
  M, Env, pure, lift, gets, modify, node_at, new_event, for_each, ◌>>=◌, ◌>>◌,
}
use harel.Engine.Resolve.{Found, resolve, event_pred}
use harel.Engine.Regions.{iterate, seq_of, child_id_at}
use harel.Engine.Drain.{drain, fire}

-- `d.get(k)`: None where the key is absent
abbrev pub get_or_null : String → Dict Value → Value
get_or_null k d = elim (Dict.get k d) [ none ↦ null | some v ↦ v ]

-- A value as the key of a dictionary with texts for keys: `none` is in no such dictionary, and a
-- list or a dictionary raises TypeError.
abbrev pub as_key : Value → Result (Option String)
as_key (str s) = ok (some s)
as_key (seq xs) = raised stuck
as_key (dict d) = raised stuck
as_key _ = ok none

abbrev pub reserved_key : String × Value → Bool
reserved_key (k, v) = not (mem k ("child_id" ∷ "outcome" ∷ "__deferred__" ∷ []))

abbrev pub finish_child : Event → ChildState → ChildState
finish_child ev cs = record cs {
  finished = true;
  outcome = get_or_null "outcome" ev.payload;
  result = keep reserved_key ev.payload;
}

unfoldable pub record_child : Event → Option String → Execution → Execution
record_child ev none exe = exe
record_child ev (some cid) exe = elim (Dict.get cid exe.children) [
  | none ↦ exe
  | some cs ↦ record exe { children = Dict.put cid (finish_child ev cs) exe.children }
]

abbrev pub is_child : Option String → String → Bool
is_child none cid = false
is_child (some s) cid = s == cid

abbrev pub waits_single : Option Node → Bool
waits_single none = false
waits_single (some n) = is_some (info n).invoke && not (is_some (info n).invoke_each)

module _ (env : Env) where
  unfoldable pub adopt : Value → M (Unit {0})
  adopt raw = do
    ev ← lift (need (env.driver.validate raw))
    modify (λ exe. record exe { deferred = exe.deferred ++ ev ∷ [] })

  -- The deferred events that a finished child hands over.
  unfoldable pub adopt_deferred : Event → M (Unit {0})
  adopt_deferred ev = do
    raws ←
        lift
          (need (elim (Dict.get "__deferred__" ev.payload) [ none ↦ some [] | some v ↦ iterate v ]))
    for_each adopt raws

  unfoldable pub leave_invoke : Event → String → String → ℕ → Option Found → M (Unit {0})
  leave_invoke completion p cid entry none = pure tt
  leave_invoke completion p cid entry (some found) = do
    modify (λ exe. record exe {
      invoke_seq = Dict.put p (entry + 1) exe.invoke_seq;
      children = Dict.remove cid exe.children;
    })
    fire env (some completion) found
    drain env

  -- The completion of the single submachine that the active node runs.
  unfoldable pub returned : Node → Option String → M (Unit {0})
  returned node cid = do
    exe ← gets (λ exe. exe)
    let p = path node
    let own = child_id_at exe p (seq_of exe p)
    if not (is_child cid own) then pure tt else do
      cs ← lift (need (Dict.get own exe.children))
      completion ← new_event env "Returned" (Dict.update (("outcome", cs.outcome) ∷ []) cs.result)
      found ← lift (resolve env.defn exe (event_pred env.floats completion exe.context) true)
      leave_invoke completion p own (seq_of exe p) found

  unfoldable pub opt_active : M (Option Node)
  opt_active = do
    p ← gets (λ exe. exe.active_path)
    elim p [ none ↦ pure none | some q ↦ node_at env q >>= λ n. pure (some n) ]

  unfoldable pub after_finish : Option String → Option Node → Execution → M (Unit {0})
  after_finish cid none exe = if is_running exe.status then drain env else pure tt
  after_finish cid (some n) exe =
      if not (is_running exe.status)
      then pure tt
      else if waits_single (some n)
      then returned n cid
      else drain env

  unfoldable pub on_finished : Event → M (Unit {0})
  on_finished ev = do
    cid ← lift (as_key (get_or_null "child_id" ev.payload))
    modify (record_child ev cid)
    adopt_deferred ev
    active ← opt_active
    exe ← gets (λ exe. exe)
    after_finish cid active exe
