-- ===== src/Tests/Machines.antt =====
-- Machines for the tests: the order of the README, and a nested machine with hooks, timers and a
-- deferred event.
use harel.Prelude.{ℕ, String, true, false, Option, none, some, List, [], ◌∷◌}
use harel.Prelude.Dict.{Dict}
use harel.Prelude.Int.{pos}
use harel.Value.{null, int, float, Floats, add}
use harel.Events.{Event, FieldSpec}
use harel.Engine.Guard.{Scopes}
use harel.Model.{
  NodeKind, leaf, composite, orthogonal, ActionRef, Transition, NodeInfo, Node, top, under,
  Definition, path, Timeout, Assign, binary, ref, lit, context,
}
use harel.Execution.{Execution, Status, ChildState}
use harel.Engine.Resolve.{Found}
use harel.Engine.Effects.{Driver, returned, Env, World}

abbrev pub no_floats : Floats
no_floats = record {
  float_eq = λ a b. false;
  float_order = λ o a b. false;
  float_arith = λ o a b. none;
  repr = λ v. "";
}

-- Every action returns at once and leaves the context as it is.
abbrev pub quiet : Driver
quiet = record {
  answer = λ trace e context. returned null context;
  fire_time = λ trace. float 7;
  new_id = λ trace. "fresh";
  dump = λ ev. null;
  validate = λ v. none;
}

abbrev pub on : String → String → String → Transition
on source kind target = record {
  source = source;
  target = some target;
  event_filter = some (record { kind = kind; predicates = []; predicate = none });
  selector = none;
  choice = none;
  assignments = [];
}

abbrev pub auto : String → String → Transition
auto source target = record {
  source = source;
  target = some target;
  event_filter = none;
  selector = none;
  choice = none;
  assignments = [];
}

abbrev pub state :
    NodeKind → String → String → List String → Option String → List Transition → NodeInfo
state kind name p children start transitions = record {
  name = name;
  full_path = p;
  kind = kind;
  children = children;
  on_enter = none;
  on_activity = none;
  on_exit = none;
  timeout = none;
  outcome = none;
  carry = [];
  defer = [];
  invoke = none;
  invoke_with = [];
  invoke_each = none;
  start_state = start;
  allow_history = true;
  cancel_on_failure = false;
  transitions = transitions;
}

abbrev pub action : String → Option ActionRef
action name = some (record { function = name; inputs = []; package_name = none })

abbrev pub machine : Node → List Node → Option ℕ → Definition
machine root nodes ttl = record {
  id = path root;
  root = root;
  index = index_of nodes;
  events = [];
  ttl = ttl;
  context_schema = [];
  version = 1;
  digest = none;
}
  where
    index_of : List Node → Dict Node
    index_of [] = []
    index_of (n ∷ ns) = (path n, n) ∷ index_of ns

-- The order machine of the README.
abbrev pub order_root : Node
order_root = top (
    state composite "order" ""
      ("Cart" ∷ "AwaitingPayment" ∷ "Paid" ∷ "Delivered" ∷ "Cancelled" ∷ []) (some "Cart")
      (on "Cart" "PlaceOrder" "AwaitingPayment"
        ∷ on "AwaitingPayment" "PaymentAuthorized" "Paid"
        ∷ on "AwaitingPayment" "CancelOrder" "Cancelled"
        ∷ on "Paid" "Delivered" "Delivered"
        ∷ []))

abbrev pub order_leaf : String → Option String → Node
order_leaf name outcome =
    under (record (state leaf name name [] none []) { outcome = outcome }) order_root

abbrev pub order : Definition
order =
    machine order_root
      (order_root
        ∷ order_leaf "Cart" none
        ∷ order_leaf "AwaitingPayment" none
        ∷ order_leaf "Paid" none
        ∷ order_leaf "Delivered" (some "success")
        ∷ order_leaf "Cancelled" (some "cancelled")
        ∷ [])
      none

abbrev pub env_of : Definition → Env
env_of defn = record { defn = defn; floats = no_floats; driver = quiet; bound = 20 }

abbrev pub fresh : Execution
fresh = record {
  id = "x";
  definition_id = "";
  definition_fqn = none;
  definition_version = none;
  definition_digest = none;
  routing_key = none;
  root_path = "";
  status = Status.pending;
  outcome = none;
  error = none;
  active_path = none;
  history = [];
  context = [];
  processed_events = 0;
  version = 0;
  priority = 0;
  parent_id = none;
  child_id = none;
  deferred = [];
  children = [];
  invoke_seq = [];
  created_at = none;
  updated_at = none;
  finished_at = none;
  expires_at = none;
}

abbrev pub at_rest : Execution → World
at_rest exe = record { exe = exe; trace = [] }

abbrev pub plain : String → Event
plain kind = record { id = kind; kind = kind; payload = [] }

-- A running execution at a state, its root machine at the top.
abbrev pub running_at : String → World
running_at p = at_rest (record fresh { status = Status.running; active_path = some p })

-- A house with a hook and a timer on each of its two floors, and a garden beside it.
abbrev pub grounds : Node
grounds = top (
    state composite "grounds" "" ("House" ∷ "Garden" ∷ []) (some "House")
      (on "House" "Leave" "Garden" ∷ []))

abbrev pub house : Node
house =
    under
      (record (state composite "House" "House" ("House.Room" ∷ []) (some "Room")
        (auto "House.Room" "Garden" ∷ [])) {
          on_exit = action "lock";
          timeout = some (Timeout.seconds 60);
        })
      grounds

abbrev pub room : Node
room =
    under
      (record (state leaf "Room" "House.Room" [] none []) {
        on_exit = action "dark";
        defer = "Bell" ∷ [];
      })
      house

abbrev pub garden : Node
garden =
    under (record (state leaf "Garden" "Garden" [] none []) { on_enter = action "breathe" }) grounds

abbrev pub estate : Definition
estate = machine grounds (grounds ∷ house ∷ room ∷ garden ∷ []) (some 3600)

-- A parcel that is packed and labelled side by side.
abbrev pub parcel : Node
parcel = top (
    state composite "parcel" "" ("Prepare" ∷ "Sent" ∷ []) (some "Prepare")
      (auto "Prepare" "Sent" ∷ []))

abbrev pub prepare : Node
prepare =
    under (state orthogonal "Prepare" "Prepare" ("Prepare.Pack" ∷ "Prepare.Label" ∷ []) none [])
      parcel

abbrev pub region : String → Node
region name = under (state composite name name [] none []) prepare

abbrev pub shipping : Definition
shipping =
    machine parcel
      (parcel
        ∷ prepare
        ∷ region "Prepare.Pack"
        ∷ region "Prepare.Label"
        ∷ under (state leaf "Sent" "Sent" [] none []) parcel
        ∷ [])
      none

-- A region that has not reported, and the parcel that waits for it.
abbrev pub unreported : String → ChildState
unreported p = record {
  root_path = p;
  finished = false;
  outcome = null;
  result = [];
  submachine = false;
  key = p;
}

abbrev pub forked : World
forked = at_rest (record fresh {
  status = Status.running;
  active_path = some "Prepare";
  children =
      ("x:Prepare.Pack:0", unreported "Prepare.Pack")
      ∷ ("x:Prepare.Label:0", unreported "Prepare.Label")
      ∷ [];
})

-- An order that was delivered.
abbrev pub done_order : World
done_order = at_rest (record fresh {
  status = Status.done;
  outcome = some "success";
  active_path = some "Delivered";
  finished_at = some (float 8);
})

-- `total = context.total + 1`
abbrev pub total_plus : Assign
total_plus = record { name = "total"; expr = binary add (ref context "total") (lit (int (pos 1))) }

-- `n = context.n + 1`, where `n` is 1
abbrev pub count_up : Assign
count_up = record { name = "n"; expr = binary add (ref context "n") (lit (int (pos 1))) }

abbrev pub counting : Scopes
counting = record { event_data = []; context_data = ("n", int (pos 1)) ∷ [] }

abbrev pub leaving : Transition
leaving = on "House" "Leave" "Garden"

abbrev pub shop_schema : Dict FieldSpec
shop_schema =
    ("size", record { type = "int"; required = true; default = some (int (pos 1)) })
    ∷ ("note", record { type = "string"; required = false; default = none })
    ∷ []

-- A shop that handles its own Cancel.
abbrev pub shop_root : Node
shop_root = top (
    state composite "shop" "" ("Open" ∷ "Closed" ∷ []) (some "Open")
      (on "Open" "Cancel" "Closed" ∷ []))

abbrev pub shop : Definition
shop =
    machine shop_root
      (shop_root
        ∷ under (state leaf "Open" "Open" [] none []) shop_root
        ∷ under (state leaf "Closed" "Closed" [] none []) shop_root
        ∷ [])
      none

abbrev pub closing : Found
closing = record { scope = shop_root; transition = on "Open" "Cancel" "Closed" }
