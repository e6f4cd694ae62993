-- ===== src/Tests/Runs.antt =====
-- Runs of the engine on the machines of the tests.
use harel.Prelude.{String, ◌≡◌, refl, some, List, [], ◌∷◌}
use harel.Prelude.Dict
use harel.Model.Navigation
use harel.Execution.{Status}
use harel.Engine.Effects
use harel.Engine.Effects.{World}
use harel.Engine.Guard
use harel.Engine.Resolve
use harel.Engine.Take
use harel.Engine.Drain
use harel.Engine.Start
use harel.Engine.Start.{start}
use harel.Engine.Process
use harel.Engine.Process.{process}
use harel.Tests.Machines.{order, env_of, fresh, at_rest, plain}

feed : List String → World → World
unfolding process Process.on_domain Process.react Process.unhandled Start.arm_ttl Start.arm
    Start.ttl_delay Drain.deferred_kinds Drain.fire Drain.drain Drain.drain_body Drain.drain_round
    Drain.gate Drain.advance Drain.advance_by Drain.sink Drain.bubble Drain.settle
    Drain.next_deferred Drain.pick Drain.deferred_or_wait Take.take Take.evaluated Take.exit_level
    Take.enter_level Take.note_history Take.assign Take.run Take.act Take.timer Take.hook_of
    Take.target_of Take.target_by Take.static_target Take.descend Take.descend_round Resolve.resolve
    Resolve.resolve_between Resolve.nested Resolve.at_scope Resolve.event_pred
    Resolve.filter_matches Resolve.choice_open Resolve.auto_pred_in Resolve.effect_of Effects.modify
    Effects.active_node Effects.node_at Effects.for_each Effects.rounds Effects.◌>>=◌
    Navigation.chain Navigation.climb Navigation.lca Navigation.meet Navigation.among
    Navigation.ancestors Dict.get Dict.put Dict.remove
feed [] w = w
feed (k ∷ ks) w = feed ks (process (env_of order) (plain k) w).1

started : World
unfolding feed start Start.start_node Navigation.child Navigation.first_named
started = (start (env_of order) (at_rest fresh)).1

started_at_cart : started.exe.active_path ≡ some "Cart"
unfolding started
started_at_cart = refl

delivered : World
unfolding started
delivered = feed ("PlaceOrder" ∷ "PaymentAuthorized" ∷ "Delivered" ∷ []) started

delivered_done :
    (delivered.exe.status ≡ Status.done)
    × (delivered.exe.outcome ≡ some "success")
    × (delivered.exe.active_path ≡ some "Delivered")
unfolding delivered Guard.matches
delivered_done = (refl, refl, refl)
