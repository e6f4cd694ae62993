-- ===== src/Tests/Hosts.antt =====
-- A host, a worker and the messages of an order, for the tests of the drivers.
use harel.Prelude.{ℕ, refl, true, false, none, some, [], ◌∷◌}
use harel.Prelude.Int.{pos}
use harel.Value.{int}
use harel.Events.{Event}
use harel.Model.{Definition}
use harel.Execution.{Execution}
use harel.Store.{empty}
use harel.Transport.{Message, Lease}
use harel.Driving.{Host, Site}
use harel.Driving.Seen.{Peaceful}
use harel.Hosting.Worker.{Worker}
use harel.Tests.Machines.{no_floats, quiet, running_at, plain}

-- A host whose actions return at once, with a clock that stands still.
abbrev pub host_of : Definition → Host
host_of defn = record {
  floats = no_floats;
  repr = λ v. "";
  bound = 20;
  now = λ n. 5;
  time = λ n. int (pos n);
  waits = λ n again trace. 0;
  answer = λ n again. quiet.answer;
  cause = λ n trace. none;
  new_id = λ n again trace. "fresh";
  dump = quiet.dump;
  validate = quiet.validate;
  fails = true;
  traced = false;
  lookup = λ m exe. some defn;
  own = λ d fqn. none;
  resolve_machine = none;
  meanwhile = λ n m. m;
}

pub peaceful : (defn : Definition) → Peaceful (host_of defn)
peaceful defn = record { remembers = λ n m id ev e. e; same_id = λ n r m. refl }

abbrev pub at_cart : Execution
at_cart = (running_at "Cart").exe

abbrev pub post : ℕ → Event → Message
post n ev = record {
  seq = n;
  group_id = "x";
  event = ev;
  locked_by = none;
  lock_expiry = 0;
  published_at = 0;
}

abbrev pub shop_floor : Site
shop_floor = record {
  memory = record { heap = λ n. at_cart; store = record empty { by_id = ("x", 0) ∷ [] } };
  queue = record {
    messages = post 1 (plain "PlaceOrder") ∷ post 2 (plain "PlaceOrder") ∷ [];
    seq = 2;
    groups = [];
  };
  step = 0;
  objects = 1;
}

abbrev pub worker : Worker
worker = record {
  worker_id = "w-1";
  machines = none;
  visibility = 30;
  suspend_recheck = 5;
  priority_threshold = 1;
  high = λ n. false;
  heartbeat = 10;
}

abbrev pub lease_of : ℕ → Lease
lease_of n = record { seq = n; group_id = "x"; event = plain "PlaceOrder" }
