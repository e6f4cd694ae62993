-- ===== src/Engine/Regions.antt =====
-- Child executions in src/harel/engine/core.py: the fork of an orthogonal node, the fan-out of an
-- `invoke_each`, the join, and the leaving of either. The ids of children are the source's texts.
pub mod Forks
use Prim.Native.String.{slice, len}
use harel.Prelude.{
  ℕ, zero, suc, ◌+◌, String, Bool, true, false, not, ◌&&◌, ◌||◌, ◌==◌, Option, none, some, List, [],
  ◌∷◌, ◌++◌, if◌then◌else◌, any, all, length, ltb, starts_with, show, ◌^^◌, map, keep,
}
use harel.Prelude.Dict
use harel.Prelude.Dict.{Dict}
use harel.Value.{Value, null, str, dict, seq, Fields, to_fields, of_items}
use harel.Model.{Node, info, path, NodeInfo}
use harel.Execution.{Execution, ChildState}
use harel.Engine.Result.{stuck}
use harel.Engine.Effects.{
  M, Env, ChildSpec, spawn_children, emit, raise, gets, modify, yields, new_event, for_each, ◌>>=◌,
  ◌>>◌,
}

abbrev pub finished_of : String × ChildState → Bool
finished_of (cid, cs) = cs.finished

-- Every spawned region has reported `Finished`.
unfoldable pub joined : Execution → Bool
joined exe = all finished_of exe.children

abbrev pub is_verdict : Value → Bool
is_verdict null = false
is_verdict (str o) = not (o == "success")
is_verdict _ = true

abbrev pub failed_region : String × ChildState → Bool
failed_region (cid, cs) = cs.finished && is_verdict cs.outcome

-- A region has finished with a verdict that is not `success`.
unfoldable pub any_region_failed : Execution → Bool
any_region_failed exe = any failed_region exe.children

unfoldable pub region_key : Execution → String → String
region_key exe cid =
    let prefix = exe.id ^^ ":" in
    if starts_with cid prefix then slice cid (len prefix) (len cid) else cid

abbrev pub opt_str : Option String → Value
opt_str none = null
opt_str (some s) = str s

-- `{"outcome": cs.outcome, **cs.result}`
unfoldable pub region_result : ChildState → Dict Value
region_result cs = Dict.update (("outcome", cs.outcome) ∷ []) cs.result

unfoldable pub results_of : Execution → Dict ChildState → Dict (Dict Value) → Dict (Dict Value)
results_of exe [] results = results
results_of exe ((cid, cs) ∷ children) results =
    results_of exe children
      (Dict.put (if cs.key == "" then region_key exe cid else cs.key) (region_result cs) results)

unfoldable pub reported : String × Dict Value → Bool
reported (key, r) =
    elim (Dict.get "outcome" r) [ none ↦ false | some null ↦ false | some _ ↦ true ]
    || ltb 1 (length r)

abbrev pub as_value : String × Dict Value → String × Value
as_value (key, r) = (key, dict (to_fields r))

unfoldable pub expose_region_results : Execution → Execution
expose_region_results exe =
    let results = results_of exe exe.children [] in
    if any reported results
    then record exe {
      context = Dict.put "region_results" (dict (to_fields (map as_value results))) exe.context;
    }
    else exe

-- `exe.invoke_seq.get(p, 0)`
unfoldable pub seq_of : Execution → String → ℕ
seq_of exe p = elim (Dict.get p exe.invoke_seq) [ none ↦ 0 | some n ↦ n ]

-- `f"{exe.id}:{p}"`, and the id of the child of entry `n` of `p`
abbrev pub owned_by : Execution → String → String
owned_by exe p = exe.id ^^ ":" ^^ p

unfoldable pub child_id_at : Execution → String → ℕ → String
child_id_at exe p n = owned_by exe p ^^ ":" ^^ show n

unfoldable pub characters : String → List Value
characters String.[] = []
characters (String.◌∷◌ c s) = str (String.◌∷◌ c String.[]) ∷ characters s

unfoldable pub keys : Fields → List Value
keys Fields.end = []
keys (Fields.field k v d) = str k ∷ keys d

-- Iteration over a value; `none`: TypeError.
unfoldable pub iterate : Value → Option (List Value)
iterate (seq xs) = some (of_items xs)
iterate (str s) = some (characters s)
iterate (dict d) = some (keys d)
iterate _ = none

-- What an instance starts with: its own item, and what it is given of the context.
unfoldable pub instance_context : Execution → NodeInfo → String → Value → Dict String → Dict Value
instance_context exe n loop_var item [] = []
instance_context exe n loop_var item ((ck, src) ∷ with_args) =
    (
      ck,
      if src == loop_var
          then item
          else elim (Dict.get src exe.context) [ none ↦ null | some v ↦ v ],
    )
    ∷ instance_context exe n loop_var item with_args

abbrev pub instance_of : String → ℕ → ChildState
instance_of p i = record {
  root_path = "";
  finished = false;
  outcome = null;
  result = [];
  submachine = true;
  key = p ^^ ":" ^^ show i;
}

-- The loop over the collection: the children and the specs so far.
unfoldable pub instances :
    Execution
    → NodeInfo
    → String
    → String
    → ℕ
    → List Value
    → Dict ChildState
    → List ChildSpec
    → Dict ChildState × List ChildSpec
instances exe n loop_var base i [] children specs = (children, specs)
instances exe n loop_var base i (item ∷ items) children specs =
    let cid = base ^^ ":" ^^ show i in
    let context =
      Dict.put "__invoke_fqn__" (opt_str n.invoke)
        (instance_context exe n loop_var item n.invoke_with) in
    instances exe n loop_var base (suc i) items (Dict.put cid (instance_of n.full_path i) children)
      (specs ++ record { child_id = cid; root_path = ""; context = context } ∷ [])

-- Drops the instances of an earlier entry.
unfoldable pub without_owned : String → Dict ChildState → Dict ChildState
without_owned prefix [] = []
without_owned prefix ((cid, cs) ∷ children) =
    let rest = without_owned prefix children in
    if starts_with cid prefix then rest else (cid, cs) ∷ rest

unfoldable pub fan_out_from :
    Execution → NodeInfo → String → List Value → Dict ChildState × List ChildSpec
fan_out_from exe n loop_var items =
    instances exe n loop_var (child_id_at exe n.full_path (seq_of exe n.full_path)) zero items
      (without_owned (owned_by exe n.full_path ^^ ":") exe.children) []

unfoldable pub fan_out_over : NodeInfo → String → Option (List Value) → M (Unit {0})
fan_out_over n loop_var none = do
  modify (λ exe. record exe {
    children = without_owned (owned_by exe n.full_path ^^ ":") exe.children;
  })
  raise stuck
fan_out_over n loop_var (some items) = do
  r ← gets (λ exe. fan_out_from exe n loop_var items)
  modify (λ exe. record exe { children = r.0 })
  yields (spawn_children (r.1))

unfoldable pub collection : String → Execution → Option (List Value)
collection key exe = elim (Dict.get key exe.context) [ none ↦ some [] | some v ↦ iterate v ]

unfoldable pub fan_out_each : NodeInfo → Option (String × String) → M (Unit {0})
fan_out_each n none = raise stuck
fan_out_each n (some (loop_var, coll_key)) = do
  items ← gets (collection coll_key)
  fan_out_over n loop_var items

unfoldable pub fan_out : Node → M (Unit {0})
fan_out node = fan_out_each (info node) (info node).invoke_each

-- `{ck: context[pk] for ck, pk in invoke_with if pk in context}`
unfoldable pub passed : Dict Value → Dict String → Dict Value
passed context [] = []
passed context ((ck, pk) ∷ with_args) =
    let rest = passed context with_args in
    elim (Dict.get pk context) [ none ↦ rest | some v ↦ (ck, v) ∷ rest ]

abbrev pub region_at : String → ChildState
region_at p = record {
  root_path = p;
  finished = false;
  outcome = null;
  result = [];
  submachine = false;
  key = p;
}

-- The loop over the regions of a fork.
unfoldable pub regions :
    Execution
    → NodeInfo
    → ℕ
    → List String
    → Dict ChildState
    → List ChildSpec
    → Dict ChildState × List ChildSpec
regions exe n entry [] children specs = (children, specs)
regions exe n entry (p ∷ ps) children specs =
    let cid = child_id_at exe p entry in
    regions exe n entry ps (Dict.put cid (region_at p) children) (
      specs
      ++ record { child_id = cid; root_path = p; context = passed exe.context n.invoke_with } ∷ [])

unfoldable pub fork_from : Execution → NodeInfo → Dict ChildState × List ChildSpec
fork_from exe n = regions exe n (seq_of exe n.full_path) n.children [] []

unfoldable pub fork : Node → M (Unit {0})
fork node = do
  r ← gets (λ exe. fork_from exe (info node))
  modify (λ exe. record exe { children = r.0 })
  yields (spawn_children (r.1))

-- Whether `cid` is a child that the node at `p` spawned.
unfoldable pub region_of : Execution → String → String → Bool
region_of exe p cid =
    starts_with cid (owned_by exe p ^^ ".") || starts_with cid (owned_by exe p ^^ ":")

abbrev pub live_region : Execution → String → String × ChildState → Bool
live_region exe p (cid, cs) = not cs.finished && region_of exe p cid

abbrev pub bump : String → Execution → Execution
bump p exe = record exe { invoke_seq = Dict.put p (seq_of exe p + 1) exe.invoke_seq }

module _ (env : Env) where
  unfoldable pub cancel_child : String × ChildState → M (Unit {0})
  cancel_child (cid, cs) = do ev ← new_event env "Cancel" []; yields (emit ev (some cid))

  unfoldable pub leave_regions : Node → M (Unit {0})
  leave_regions node = do
    modify (bump (path node))
    live ← gets (λ exe. keep (live_region exe (path node)) exe.children)
    for_each cancel_child live
