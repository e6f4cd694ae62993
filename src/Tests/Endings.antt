-- ===== src/Tests/Endings.antt =====
-- The theorems on ends, events at rest and transitions at concrete executions.
use harel.Prelude.{true, ◌≡◌, ◌⊎◌, List, ◌++◌, refl, arith, none, some, [], ◌∷◌}
use harel.Prelude.Dict
use harel.Prelude.Dict.{Dict}
use harel.Value.{null}
use harel.Model.{Definition, Node, under, leaf, context}
use harel.Model.Navigation
use harel.Execution.{Status}
use harel.Engine.Result.{ok, raised, expression_error, not_set}
use harel.Engine.Effects.{World, Env, M, Effect}
use harel.Engine.Guard
use harel.Engine.Resolve
use harel.Engine.Regions.{expose_region_results}
use harel.Engine.Process.Cooperative.{resumed, cancel_ends}
use harel.Engine.Expression
use harel.Engine.Take.{take}
use harel.Engine.Take
use harel.Engine.Take.Failing.{take_fails}
use harel.Engine.Take.Ran.{Ran}
use harel.Engine.Take.Order.{take_order, Route, transition_effects}
use harel.Engine.Resolve.{tail}
use harel.Engine.Drain.{drain, gate}
use harel.Engine.Drain.Quiet.{NeverRaises}
use harel.Engine.Drain.Ending.{drain_ends}
use harel.Engine.Drain.Joins.{IsOpen, IsShut, drain_joins}
use harel.Engine.Process.{process}
use harel.Engine.Process.Inert.{process_inert}
use harel.Engine.Evolution.{Evolves}
use harel.Engine.Evolution.Processing.{process-Evolves}
use harel.Engine.Teardown
use harel.Tests.Machines.{
  shop, shop_root, state, closing, order, order_root, order_leaf, env_of, running_at, plain, estate,
  grounds, house, room, garden, shipping, parcel, prepare, forked, done_order, total_plus,
}

-- The actions of the tests return.
quiet_never_raises : (defn : Definition) → NeverRaises (env_of defn)
quiet_never_raises defn es e c = (null, c, refl)

drain_ends_example :
    ((drain (env_of order) (running_at "Delivered")).0 ≡ ok tt)
    × ((drain (env_of order) (running_at "Delivered")).1.exe.status ≡ Status.done)
unfolding Teardown.would_be_a_sink Teardown.sinks_up Resolve.resolve_between Resolve.nested
    Resolve.at_scope Navigation.chain Navigation.climb Navigation.is_descendant Dict.get
drain_ends_example =
    drain_ends (env_of order) (quiet_never_raises order) order_root
      (order_leaf "Delivered" (some "success")) (running_at "Delivered") refl refl
      (refl, refl, refl, refl, (refl, refl), (refl, refl)) (omega arith)

drain_joins_example :
    (IsOpen prepare forked
      × (gate (env_of shipping) prepare forked
          ≡ (ok true, record forked { exe = expose_region_results forked.exe })))
    ⊎ (IsShut prepare forked × (drain (env_of shipping) forked ≡ (ok tt, forked)))
unfolding Dict.get
drain_joins_example =
    drain_joins (env_of shipping) parcel prepare "Prepare" forked 19 refl refl refl refl refl refl

process_inert_example : process (env_of order) (plain "Cancel") done_order ≡ (ok tt, done_order)
process_inert_example = process_inert (env_of order) (plain "Cancel") done_order refl refl refl refl

process-Evolves_example :
    Evolves (running_at "Cart") (process (env_of order) (plain "PlaceOrder") (running_at "Cart")).1
process-Evolves_example = process-Evolves (env_of order) (plain "PlaceOrder") (running_at "Cart")

take_fails_example :
    take (env_of order) (order_leaf "Paid" none) none (total_plus ∷ []) (running_at "Cart")
    ≡ (raised (expression_error (not_set context "total")), running_at "Cart")
unfolding Expression.evaluate Expression.evaluate_into Expression.value_of Dict.get
take_fails_example =
    take_fails (env_of order) (order_leaf "Paid" none) none (total_plus ∷ []) (running_at "Cart")
      (expression_error (not_set context "total")) refl

way_out : Route (env_of estate) (running_at "House.Room") garden
unfolding Navigation.chain Navigation.climb Navigation.lca Navigation.meet Navigation.among
    Navigation.ancestors Dict.get
way_out = record {
  at = "House.Room";
  from = room;
  pivot = grounds;
  left = grounds ∷ house ∷ room ∷ [];
  entered = grounds ∷ garden ∷ [];
  is_active = refl;
  is_indexed = refl;
  is_lca = refl;
  leaves = refl;
  enters = refl;
}

take_order_example :
    Ran
      (take (env_of estate) garden none [])
      (running_at "House.Room")
      (transition_effects
        (env_of estate)
        (quiet_never_raises estate)
        none
        garden
        19
        (grounds ∷ house ∷ room ∷ [])
        (grounds ∷ garden ∷ [])
        [])
      (some "Garden")
unfolding Take.evaluated harel.Engine.Effects.pure way_out
take_order_example =
    take_order (env_of estate) (quiet_never_raises estate) none garden 19 [] []
      (running_at "House.Room") way_out refl (refl, (refl, tt)) refl refl

abbrev open_shop : Node
open_shop = under (state leaf "Open" "Open" [] none []) shop_root

abbrev closed_shop : Node
closed_shop = under (state leaf "Closed" "Closed" [] none []) shop_root

to_closed : Route (env_of shop) (resumed (running_at "Open")) closed_shop
unfolding Navigation.chain Navigation.climb Navigation.lca Navigation.meet Navigation.among
    Navigation.ancestors Dict.get
to_closed = record {
  at = "Open";
  from = open_shop;
  pivot = shop_root;
  left = shop_root ∷ open_shop ∷ [];
  entered = shop_root ∷ closed_shop ∷ [];
  is_active = refl;
  is_indexed = refl;
  is_lca = refl;
  leaves = refl;
  enters = refl;
}

cancel_ends_example :
    (v : World) × (process (env_of shop) (plain "Cancel") (running_at "Open") ≡ (ok tt, v))
    × (v.exe.status ≡ Status.done)
    × (es : List Effect) × (v.trace
        ≡ (running_at "Open").trace
          ++ (transition_effects
                (env_of shop)
                (quiet_never_raises shop)
                (some (plain "Cancel"))
                closed_shop
                19
                (shop_root ∷ open_shop ∷ [])
                (shop_root ∷ closed_shop ∷ [])
                []
              ++ es))
unfolding Teardown.safe_teardown Teardown.all_sinks Teardown.targets_of Teardown.would_be_a_sink
    Teardown.sinks_up Resolve.resolve Resolve.resolve_between Resolve.nested Resolve.at_scope
    Resolve.event_pred Resolve.filter_matches Resolve.choice_open Resolve.effect_of Guard.matches
    Navigation.chain Navigation.climb Navigation.is_descendant Dict.get Take.evaluated
    harel.Engine.Effects.pure to_closed
cancel_ends_example =
    cancel_ends (env_of shop) (quiet_never_raises shop) (plain "Cancel") (running_at "Open") closing
      shop_root closed_shop "Closed" [] 19 to_closed refl refl refl (refl, refl, refl, refl) refl
      (refl, tt) refl refl refl refl refl (refl, refl) (refl, refl) (omega arith)
