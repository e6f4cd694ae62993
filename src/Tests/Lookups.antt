-- ===== src/Tests/Lookups.antt =====
-- The theorems on resolution, forks, the tree of states and schemas at concrete inputs.
use harel.Prelude.{
  ℕ, String, ◌≡◌, refl, ◌↔◌, ◌⊎◌, is_some, Bool, true, false, Option, none, some, List, [], ◌∷◌,
  map, or_else, All,
}
use harel.Prelude.Dict
use harel.Prelude.Dict.{Dict}
use harel.Prelude.Int.{pos}
use harel.Value.{int}
use harel.Events.{check_context}
use harel.Events.Defaults.{check_context-FitsSchema, FitsSchema}
use harel.Model.{Node, info, parent, is_composite}
use harel.Model.Navigation
use harel.Model.Navigation.{lca, chain, is_descendant}
use harel.Model.Ancestry.{IsWay}
use harel.Engine.Guard.{Scopes}
use harel.Engine.Guard
use harel.Engine.Resolve
use harel.Engine.Resolve.{Found, nested, resolve_at, any_pred}
use harel.Engine.Resolve.Innermost.{Resolved, nested-Resolved}
use harel.Engine.Resolve.Automatic.{nested-automatic}
use harel.Engine.Resolve.Upward.{ResolvedUp, resolve_at-ResolvedUp}
use harel.Engine.Expression
use harel.Engine.Expression.{evaluate}
use harel.Engine.Expression.Assigned.{evaluate-LastAssigned, LastAssigned}
use harel.Engine.Drain.{pick}
use harel.Engine.Drain
use harel.Engine.Drain.Deferred.{pick-Picked, Picked}
use harel.Engine.Regions.{joined, fork_from}
use harel.Engine.Regions.Forks.{fork-regions, spec_at, Holds}
use harel.Engine.Teardown
use harel.Engine.Teardown.{is_valid_reposition_target, definition_problem}
use harel.Engine.Teardown.Reposition.{reposition-IsWay, NoRegion}
use harel.Tests.Machines.{
  order, env_of, fresh, running_at, plain, estate, grounds, house, room, prepare, no_floats,
  count_up, counting, leaving, shop_schema,
}

nested-Resolved_example :
    Resolved grounds (house ∷ room ∷ []) any_pred (nested grounds (house ∷ room ∷ []) any_pred true)
nested-Resolved_example = nested-Resolved any_pred grounds (house ∷ room ∷ [])

nested-automatic_example :
    Resolved house (room ∷ []) any_pred (nested grounds (house ∷ room ∷ []) any_pred false)
nested-automatic_example = nested-automatic any_pred grounds house room []

resolve_at-ResolvedUp_example : ResolvedUp room any_pred (resolve_at estate "House.Room" any_pred)
unfolding Dict.get
resolve_at-ResolvedUp_example = resolve_at-ResolvedUp estate any_pred "House.Room" room refl

pick-Picked_example :
    Picked
      (env_of estate)
      (running_at "House.Room").exe
      (plain "Bell" ∷ plain "Leave" ∷ [])
      (some (plain "Leave", record { scope = grounds; transition = leaving }, plain "Bell" ∷ []))
unfolding Drain.pick Resolve.resolve Resolve.resolve_between Resolve.nested Resolve.at_scope
    Resolve.event_pred Resolve.filter_matches Resolve.choice_open Navigation.chain Navigation.climb
    Dict.get Guard.matches
pick-Picked_example =
    pick-Picked (env_of estate) (running_at "House.Room").exe (plain "Bell" ∷ plain "Leave" ∷ [])
      (some (plain "Leave", record { scope = grounds; transition = leaving }, plain "Bell" ∷ []))
      refl

evaluate-LastAssigned_example :
    LastAssigned no_floats order counting "n"
      (count_up ∷ count_up ∷ [])
      none
      (Dict.get "n" (("n", int (pos 2)) ∷ []))
unfolding Expression.evaluate Expression.evaluate_into Expression.value_of Expression.combine
    Expression.arithmetic Dict.get Dict.put Expression.check_number Expression.is_zero_division
    Expression.check_schema harel.Prelude.Int.◌+ℤ◌
evaluate-LastAssigned_example =
    evaluate-LastAssigned no_floats order counting (count_up ∷ count_up ∷ [])
      (("n", int (pos 2)) ∷ []) refl "n"

fork-regions_example :
    ((fork_from fresh (info prepare)).1
      ≡ map (spec_at fresh (info prepare) 0) (info prepare).children)
    × All (Holds fresh (info prepare) 0 (fork_from fresh (info prepare)).0) (info prepare).children
unfolding harel.Engine.Regions.seq_of Dict.get
fork-regions_example = fork-regions fresh (info prepare)

check_context-FitsSchema_example :
    (check_context shop_schema (("size", int (pos 3)) ∷ []) true ≡ none)
    ↔ FitsSchema shop_schema (("size", int (pos 3)) ∷ []) true
check_context-FitsSchema_example =
    check_context-FitsSchema shop_schema (("size", int (pos 3)) ∷ []) true

reposition-IsWay_example :
    (n : Node) × (Dict.get "House.Room" estate.index ≡ some n)
    × (is_composite n ≡ false)
    × ((p : Node) × (parent n ≡ some p) × NoRegion grounds p)
    × ((ns : List Node) × (chain grounds n ≡ some ns) × IsWay grounds n ns)
unfolding Teardown.is_valid_reposition_target Teardown.way_from Teardown.clear_way Dict.get
reposition-IsWay_example = reposition-IsWay estate fresh "House.Room" grounds refl refl
