-- ===== src/Model.antt =====
-- The data of src/harel/definition/model.py: the immutable definition of a machine. A `Node` carries its
-- parent, the way the source's reference does; children, and the ends of transitions, are named by
-- the `full_path` under which the definition's index holds them, so two nodes of a definition are
-- one (`is`) when their paths are. Callables as actions are left out: a function is a name.
pub mod Navigation
pub mod Ancestry
use harel.Prelude.{ℕ, String, Bool, true, false, Option, none, some, List, ◌==◌, is_some, not}
use harel.Prelude.Dict.{Dict}
use harel.Value.{Value, Order, ArithOp}
use harel.Events.{FieldSpec, EventType}

pub data NodeKind : Type 0 where
  leaf composite parallel orthogonal : NodeKind

pub record ActionRef : Type 0 where
  pub function : String
  pub inputs : Dict Value
  pub package_name : Option String

-- The operators of a guard: `eq`, `ne`, `in`, and the four orders.
pub data Op : Type 0 where
  eq ne member : Op
  ordered : Order → Op

-- The namespace that a leaf or a reference reads.
pub data Source : Type 0 where
  event context : Source

pub record Ref : Type 0 where
  pub source : Source
  pub name : String

-- `all`, `any` and `not` over children; a leaf compares a field with a literal or a reference.
mutual
  pub data Predicate : Type 0 where
    leaf : Source → String → Op → Value → Option Ref → Predicate
    all_of : Predicates → Predicate
    any_of : Predicates → Predicate
    negation : Predicate → Predicate

  pub data Predicates : Type 0 where
    nil : Predicates
    cons : Predicate → Predicates → Predicates

-- A flat predicate `field__op -> value`, with its key taken apart.
pub record FlatPredicate : Type 0 where
  pub name : String
  pub op : Op
  pub value : Value

pub record EventFilter : Type 0 where
  pub kind : String
  pub predicates : List FlatPredicate
  pub predicate : Option Predicate

pub record Selector : Type 0 where
  pub action : ActionRef
  pub mapper : Dict String
  pub default : Option String
  pub enum : Option (List String)

pub data Expr : Type 0 where
  lit : Value → Expr
  ref : Source → String → Expr
  binary : ArithOp → Expr → Expr → Expr

pub record Assign : Type 0 where
  pub name : String
  pub expr : Expr

pub record Choice : Type 0 where
  pub branches : List (Predicate × String)
  pub default : Option String
  pub branch_assignments : List (List Assign)
  pub default_assignments : List Assign

pub record Transition : Type 0 where
  pub source : String
  pub target : Option String
  pub event_filter : Option EventFilter
  pub selector : Option Selector
  pub choice : Option Choice
  pub assignments : List Assign

-- Literal seconds, or the context key that holds them.
pub data Timeout : Type 0 where
  seconds : ℕ → Timeout
  from_context : String → Timeout

pub record NodeInfo : Type 0 where
  pub name : String
  pub full_path : String
  pub kind : NodeKind
  pub children : List String
  pub on_enter : Option ActionRef
  pub on_activity : Option ActionRef
  pub on_exit : Option ActionRef
  pub timeout : Option Timeout
  pub outcome : Option String
  pub carry : List String
  pub defer : List String
  pub invoke : Option String
  pub invoke_with : Dict String
  pub invoke_each : Option (String × String)
  pub start_state : Option String
  pub allow_history : Bool
  pub cancel_on_failure : Bool
  pub transitions : List Transition

pub data Node : Type 0 where
  top : NodeInfo → Node
  under : NodeInfo → Node → Node

abbrev pub info : Node → NodeInfo
info (top i) = i
info (under i p) = i

abbrev pub parent : Node → Option Node
parent (top i) = none
parent (under i p) = some p

abbrev pub path : Node → String
path n = (info n).full_path

-- `a is b`
abbrev pub same : Node → Node → Bool
same a b = path a == path b

abbrev pub is_leaf : NodeKind → Bool
is_leaf NodeKind.leaf = true
is_leaf _ = false

abbrev pub is_orthogonal : Node → Bool
is_orthogonal n = elim (info n).kind [ NodeKind.orthogonal ↦ true | _ ↦ false ]

abbrev pub is_composite : Node → Bool
is_composite n = not (is_leaf (info n).kind)

abbrev pub is_automatic : Transition → Bool
is_automatic t = not (is_some t.event_filter)

-- The definitions of inline submachines are left out: they are definitions of their own.
pub record Definition : Type 0 where
  pub id : String
  pub root : Node
  pub index : Dict Node
  pub events : Dict EventType
  pub ttl : Option ℕ
  pub context_schema : Dict FieldSpec
  pub version : ℕ
  pub digest : Option String
