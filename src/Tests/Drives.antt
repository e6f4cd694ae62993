-- ===== src/Tests/Drives.antt =====
-- The theorems on the handling of events by drivers and workers, at orders that run.
use harel.Prelude.{◌≡◌, refl, true, false, Option, none, some, [], ◌∷◌, inl, any}
use harel.Prelude.Dict
use harel.Events.{Event}
use harel.Model.{Definition, Node, under, leaf}
use harel.Model.Navigation
use harel.Execution
use harel.Execution.{Execution, Status, route_of}
use harel.Engine.Effects
use harel.Engine.Guard
use harel.Engine.Resolve
use harel.Engine.Take
use harel.Engine.Drain
use harel.Engine.Start
use harel.Engine.Process
use harel.Engine.Teardown
use harel.Engine.Result.{ActionError, action_error, raised}
use harel.Engine.Effects.{World, returned, failed}
use harel.Store.Commits
use harel.Transport
use harel.Transport.{InMemoryTransport, Message, Lease, publish, ack}
use harel.Driving
use harel.Driving.Running
use harel.Driving.Inline
use harel.Driving.Routed
use harel.Driving.Collected
use harel.Driving.Waiting.{has_number}
use harel.Hosting.Once.{handles, handle_once}
use harel.Driving.{Host, Site, Outcome, returns, give, ◌>>=◌}
use harel.Driving.Texts
use harel.Driving.Unhandled.{run_flow-Unhandled}
use harel.Driving.Inline.{create_spawn}
use harel.Driving.Routed.{flush_out}
use harel.Store.Commits.{load}
use harel.Driving.Running.{drive, generate, adopt, run_flow, checkpoint, is_exit, last_effect}
use harel.Hosting.Worker.{handle, handle_object, handle_by, run_with, conclude, handling, acks}
use harel.Hosting.Handled.{Settled, handle-Settled}
use harel.Tests.Machines.{order_root, order_leaf, machine, state, action, order, plain}
use harel.Tests.Hosts.{host_of, peaceful, at_cart, shop_floor, worker, lease_of}

handle-Settled_example :
    Settled
      (host_of order)
      (peaceful order)
      worker
      5
      at_cart
      (lease_of 1)
      (handle (host_of order) worker 5 (lease_of 1) shop_floor).1
unfolding Dict.get
handle-Settled_example =
    handle-Settled (host_of order) (peaceful order) worker 5 (lease_of 1) 0 shop_floor refl refl
      refl

-- The first of the two messages is handled, and gone.
abbrev ordered : Site
ordered = (handle (host_of order) worker 5 (lease_of 1) shop_floor).1

abbrev answered : Outcome (Unit {0})
answered = (handle (host_of order) worker 5 (lease_of 1) shop_floor).0

taken : any (has_number 1) ordered.queue.messages ≡ false
unfolding handle handle_object handle_by run_with conclude handling acks Routed.route
    Routed.route_to Running.run_flow Running.run_with Running.conclude Running.checkpoint
    Running.drive Running.adopt Running.checked Running.driven Running.generate Running.env_at
    Running.batch_of Driving.stored Inline.live_ids Transport.ack Collected.collect_from
    Collected.add_effect Teardown.definition_problem Teardown.states_missing Teardown.gone
    Teardown.digests_differ Commits.commit Commits.commit_saved Commits.save Commits.keep_object
    Commits.enqueue Commits.add_processed Commits.numbered Commits.numbered_spawns
    Commits.apply_timers Execution.stamp Process.process Process.on_domain Process.react
    Process.unhandled Start.arm_ttl Start.arm Start.ttl_delay Drain.deferred_kinds Drain.fire
    Drain.drain Drain.drain_body Drain.drain_round Drain.gate Drain.advance Drain.advance_by
    Drain.sink Drain.bubble Drain.settle Drain.next_deferred Drain.pick Drain.deferred_or_wait
    Take.take Take.evaluated Take.exit_level Take.enter_level Take.note_history Take.assign Take.run
    Take.act Take.timer Take.hook_of Take.target_of Take.target_by Take.static_target Take.descend
    Take.descend_round Resolve.resolve Resolve.resolve_between Resolve.nested Resolve.at_scope
    Resolve.event_pred Resolve.filter_matches Resolve.choice_open Resolve.auto_pred_in
    Resolve.effect_of Effects.modify Effects.active_node Effects.node_at Effects.for_each
    Effects.rounds Effects.◌>>=◌ Navigation.chain Navigation.climb Navigation.lca Navigation.meet
    Navigation.among Navigation.ancestors Dict.get Dict.put Dict.remove Guard.matches
taken = refl

handle_once_example :
    let u = handles (host_of order) 5 ((worker, lease_of 3) ∷ []) ordered in
    handle (host_of order) worker 5 (lease_of 2) u
    ≡ (returns tt, record u { queue = ack (lease_of 2) u.queue })
unfolding Dict.get
handle_once_example =
    handle_once (host_of order) (peaceful order) worker 5 (lease_of 1) (lease_of 2) 0 shop_floor
      ordered answered ((worker, lease_of 3) ∷ []) refl refl refl refl refl taken refl refl

-- An order that pays on its way out of the cart, where the payment fails.
abbrev paying_cart : Node
paying_cart =
    under (record (state leaf "Cart" "Cart" [] none []) { on_exit = action "pay" }) order_root

abbrev paying : Definition
paying = machine order_root (order_root ∷ paying_cart ∷ order_leaf "AwaitingPayment" none ∷ []) none

abbrev declined : ActionError
declined = record { type = "PaymentError"; message = "declined" }

abbrev failing : Host
failing = record (host_of paying) { answer = λ n again trace e context. failed declined context }

abbrev placed : Option Event
placed = some (plain "PlaceOrder")

abbrev after_payment : World
after_payment = (generate failing 0 false paying placed (adopt paying at_cart)).1

payment_fails :
    (generate failing 0 false paying placed (adopt paying at_cart)
      ≡ (raised (action_error declined), after_payment))
    × (is_exit (last_effect after_payment.trace) ≡ true)
unfolding last_effect generate Running.env_at adopt Process.process Process.on_domain Process.react
    Process.unhandled Start.arm_ttl Start.arm Start.ttl_delay Drain.deferred_kinds Drain.fire
    Drain.drain Take.take Take.evaluated Take.exit_level Take.enter_level Take.note_history
    Take.assign Take.run Take.act Take.timer Take.hook_of Take.target_of Take.target_by
    Take.static_target Resolve.resolve Effects.performs Resolve.resolve_between Resolve.nested
    Resolve.at_scope Resolve.event_pred Resolve.filter_matches Resolve.choice_open Resolve.effect_of
    Effects.modify Effects.active_node Effects.node_at Effects.for_each Effects.◌>>=◌
    Navigation.chain Navigation.climb Navigation.lca Navigation.meet Navigation.among
    Navigation.ancestors Dict.get Dict.put Guard.matches
payment_fails = (refl, refl)

run_flow-Unhandled_example :
    run_flow failing paying placed 0 shop_floor
    ≡ (checkpoint failing 0
            (record after_payment.exe {
              status = Status.failed;
              error = some "PaymentError: declined";
            })
            (record {
              emits = [];
              processed_event_id = some "PlaceOrder";
              timers = [];
              spawns = [];
              trace = none;
            })
          >>= λ seqs. give false)
        shop_floor
unfolding adopt Running.batch_of Texts.error_message Teardown.definition_problem
    Teardown.states_missing Teardown.gone Teardown.digests_differ Dict.get
run_flow-Unhandled_example =
    run_flow-Unhandled failing paying placed 0 shop_floor paying declined after_payment refl refl
      payment_fails.0 (inl payment_fails.1)
