-- ===== src/Tests/Relays.antt =====
-- The theorems on relays, senders and timers, at orders that run.
use harel.Prelude.{◌≡◌, refl, true, false, none, some, [], ◌∷◌}
use harel.Prelude.Dict
use harel.Prelude.Int.{pos}
use harel.Value.{int}
use harel.Events.{Event}
use harel.Model.{Definition}
use harel.Model.Navigation
use harel.Execution
use harel.Execution.{Execution, Status, route_of}
use harel.Engine.Effects
use harel.Engine.Resolve
use harel.Engine.Take
use harel.Engine.Drain
use harel.Engine.Start
use harel.Engine.Teardown
use harel.Engine.Effects.{World, returned, failed}
use harel.Store.{empty, SpawnEntry}
use harel.Store.Commits
use harel.Transport.{publish}
use harel.Driving
use harel.Driving.Running
use harel.Driving.Inline
use harel.Driving.Routed
use harel.Driving.Collected
use harel.Driving.{Host, Site, Outcome, returns, give, ◌>>=◌}
use harel.Driving.Inline.{create_spawn}
use harel.Driving.Routed.{flush_out}
use harel.Driving.Relayed.{with_outbox, flush_out_lem}
use harel.Driving.Children.{create_spawn_once}
use harel.Store.Commits.{load}
use harel.Driving.Running.{drive, generate, adopt, run_flow, checkpoint, is_exit, last_effect}
use harel.Tests.Machines.{no_floats, order, plain}
use harel.Events.{check_event, check_context, schema_problems, value_fits}
use harel.Engine.Signals.{timeout_event}
use harel.Store.{Timer}
use harel.Hosting.Sender
use harel.Hosting.Sender.{send}
use harel.Hosting.Typed.{IsTyped, send-IsTyped}
use harel.Hosting.Fired.{fire_due_lem}
use harel.Hosting.Worker.{fire_due}
use harel.Prelude.{◌==◌}
use harel.Tests.Hosts.{host_of, at_cart, shop_floor, worker}

-- Two events wait in the outbox, one of them for no execution.
abbrev waiting : Site
waiting = record shop_floor {
  memory = record {
    heap = λ n. at_cart;
    store = record empty {
      by_id = ("x", 0) ∷ [];
      outbox =
          record { seq = 1; target_id = some "x"; event = plain "PlaceOrder" }
          ∷ record { seq = 2; target_id = none; event = plain "Noted" }
          ∷ [];
      seq = 2;
    };
  };
}

flush_out_lem_example : flush_out (host_of order) 2 order none waiting ≡ (
  returns tt,
  record waiting {
    memory = with_outbox [] waiting.memory;
    queue = publish 5 "x" (plain "PlaceOrder") 0 (some "") waiting.queue;
  },
)
unfolding Dict.get route_of
flush_out_lem_example = flush_out_lem (host_of order) order none 0 waiting refl

-- An order with a child to start.
abbrev parcel_entry : SpawnEntry
parcel_entry = record { seq = 1; parent_id = "x"; child_id = "x:1"; root_path = ""; context = [] }

abbrev parent : Execution
parent = record at_cart { priority = 3; routing_key = some "order" }

abbrev spawning : Site
spawning = record shop_floor {
  memory = record { heap = λ n. parent; store = record empty { by_id = ("x", 0) ∷ [] } };
}

abbrev spawned : Site
spawned = (create_spawn (host_of order) order parcel_entry spawning).1

child_starts : (create_spawn (host_of order) order parcel_entry spawning).0 ≡ returns tt
unfolding create_spawn Inline.create_absent Inline.start_under Inline.start_child Inline.parent_defn
    Inline.child_of Driving.allocate run_flow Running.run_with Running.conclude checkpoint drive
    adopt Running.checked Running.driven generate Running.env_at Running.batch_of Driving.stored
    Collected.collect_from Collected.add_effect Teardown.definition_problem Commits.commit
    Commits.commit_saved Commits.save Commits.keep_object Commits.enqueue Commits.add_processed
    Commits.numbered Commits.numbered_spawns Commits.apply_timers Execution.stamp Start.start
    Start.start_node Navigation.child Navigation.first_named Start.arm_ttl Start.arm Start.ttl_delay
    Drain.drain Drain.drain_body Drain.drain_round Drain.gate Drain.advance Drain.advance_by
    Drain.sink Drain.bubble Drain.settle Drain.next_deferred Drain.pick Drain.deferred_or_wait
    Drain.deferred_kinds Take.run Take.act Take.timer Take.hook_of Take.descend Take.descend_round
    Resolve.resolve Resolve.resolve_between Resolve.nested Resolve.at_scope Resolve.auto_pred_in
    Resolve.effect_of Effects.modify Effects.active_node Effects.node_at Effects.for_each
    Effects.rounds Effects.◌>>=◌ Navigation.chain Navigation.climb Navigation.lca Navigation.meet
    Navigation.among Navigation.ancestors Dict.get Dict.put Dict.remove
child_starts = refl

create_spawn_once_example :
    (load spawned.memory "x:1" ≡ some 1)
    × ((spawned.memory.heap 1).priority ≡ 3)
    × ((spawned.memory.heap 1).routing_key ≡ some "order")
    × ((spawned.memory.heap 1).parent_id ≡ some "x")
    × (create_spawn (host_of order) order parcel_entry spawned ≡ (returns tt, spawned))
unfolding Dict.get route_of
create_spawn_once_example =
    create_spawn_once (host_of order) (λ n m. refl) order parcel_entry 0 spawning refl refl
      child_starts

-- A sender, to a machine that declares its event.
abbrev typed : Definition
typed = record order {
  events =
      (
        "PlaceOrder",
        record {
          name = "PlaceOrder";
          fields = ("items", record { type = "int"; required = true; default = none }) ∷ [];
        },
      )
      ∷ [];
}

abbrev two_items : Event
two_items = record { id = "e-1"; kind = "PlaceOrder"; payload = ("items", int (pos 2)) ∷ [] }

accepted : (send (host_of typed) "x" two_items shop_floor).0 ≡ returns tt
unfolding send Sender.check_with Routed.publish_stored Routed.publish_to check_event check_context
    schema_problems value_fits Dict.get
accepted = refl

send-IsTyped_example :
    (("PlaceOrder" == "Start") ≡ false)
    × IsTyped typed two_items
    × (send (host_of typed) "x" two_items shop_floor ≡ (
      returns tt,
      record shop_floor { queue = publish 5 "x" two_items 0 (some "") shop_floor.queue },
    ))
unfolding Dict.get route_of
send-IsTyped_example =
    send-IsTyped (host_of typed) "x" two_items 0 typed shop_floor refl refl accepted

-- Of two timers of an order, one is due.
abbrev due_timer : Timer
due_timer = record { execution_id = "x"; path = "AwaitingPayment"; fire_at = 4 }

abbrev later_timer : Timer
later_timer = record { execution_id = "x"; path = "@ttl"; fire_at = 60 }

abbrev timed_floor : Site
timed_floor = record shop_floor {
  memory = record {
    heap = λ n. at_cart;
    store = record empty { by_id = ("x", 0) ∷ []; timers = due_timer ∷ later_timer ∷ [] };
  };
}

fire_due_lem_example : fire_due (host_of order) worker 5 timed_floor ≡ (
  returns 1,
  record timed_floor {
    memory = record {
      heap = λ n. at_cart;
      store = record empty { by_id = ("x", 0) ∷ []; timers = later_timer ∷ [] };
    };
    queue =
        publish 5 "x"
          (timeout_event no_floats "x" "AwaitingPayment" (int (pos 4)))
          0
          (some "")
          timed_floor.queue;
  },
)
unfolding Dict.get route_of
fire_due_lem_example = fire_due_lem (host_of order) worker 5 timed_floor (refl, (refl, tt))
