-- ===== src/Driving/Texts.antt =====
-- The texts of the errors that a driver keeps: those of the engine in src/harel/engine/core.py, and
-- `_error_message` of src/harel/engine/driving.py.
use harel.Prelude.{String, Option, none, some, List, [], ◌∷◌, ◌^^◌, show}
use harel.Prelude.Dict
use harel.Value.{Value, null, bool, int, float, str, seq, dict, ArithOp, add, sub, mul, div}
use harel.Model.{Source, event, context, Definition}
use harel.Execution.{Execution}
use harel.Engine.Result.{
  Fault, ActionError, action_error, expression_error, ExpressionProblem, not_set, needs_numbers,
  division_by_zero, breaks_schema,
}
use harel.Engine.Teardown.{DefinitionProblem, states_gone, digest_changed}

-- `type(value).__name__`
abbrev pub type_name : Value → String
type_name null = "NoneType"
type_name (bool b) = "bool"
type_name (int i) = "int"
type_name (float x) = "float"
type_name (str s) = "str"
type_name (seq xs) = "list"
type_name (dict fs) = "dict"

abbrev pub op_text : ArithOp → String
op_text add = "+"
op_text sub = "-"
op_text mul = "*"
op_text div = "/"

abbrev pub source_text : Source → String
source_text event = "event"
source_text context = "context"

-- The type that the schema declares for a name.
abbrev pub declared_type : Definition → String → String
declared_type defn name = elim (Dict.get name defn.context_schema) [
  | none ↦ ""
  | some spec ↦ spec.type
]

module _ (repr : Value → String) where
  unfoldable pub expression_message : Definition → ExpressionProblem → String
  expression_message defn (not_set source name) = source_text source ^^ "." ^^ name ^^ " is not set"
  expression_message defn (needs_numbers op v) =
      "`" ^^ op_text op ^^ "` needs numbers, got " ^^ type_name v ^^ " " ^^ repr v
  expression_message defn division_by_zero = "division by zero"
  expression_message defn (breaks_schema name v) =
      "context."
      ^^ name
      ^^ " is declared "
      ^^ declared_type defn name
      ^^ ", `set` gave "
      ^^ type_name v
      ^^ " "
      ^^ repr v

  -- `" and ".join(repr(p) for p in missing)`
  unfoldable pub joined_states : List String → String
  joined_states [] = ""
  joined_states (p ∷ []) = repr (str p)
  joined_states (p ∷ q ∷ ps) = repr (str p) ^^ " and " ^^ joined_states (q ∷ ps)

  unfoldable pub problem_text : Definition → Execution → DefinitionProblem → String
  problem_text defn exe (states_gone ps) =
      "execution "
      ^^ repr (str exe.id)
      ^^ " is in "
      ^^ joined_states ps
      ^^ ", which machine "
      ^^ repr (str defn.id)
      ^^ " no longer has: the definition changed under a running execution (redrive it to a state the machine has)"
  problem_text defn exe (digest_changed d e) =
      "machine "
      ^^ repr (str defn.id)
      ^^ " version "
      ^^ show defn.version
      ^^ " changed under execution "
      ^^ repr (str exe.id)
      ^^ " (source digest "
      ^^ d
      ^^ ", now "
      ^^ e
      ^^ "): a changed machine needs a new version, with the old one kept loaded for the executions running on it"

  -- The faults that are routed as an action's error: an exception of an action, and ExpressionError.
  unfoldable pub exception_of : Definition → Fault → Option ActionError
  exception_of defn (action_error x) = some x
  exception_of defn (expression_error p) =
      some (record { type = "ExpressionError"; message = expression_message defn p })
  exception_of defn _ = none

-- `_error_message`, with the exception's `__cause__`.
unfoldable pub error_message : ActionError → Option ActionError → String
error_message x none = x.type ^^ ": " ^^ x.message
error_message x (some c) =
    x.type ^^ ": " ^^ x.message ^^ " (while recovering from " ^^ c.type ^^ ": " ^^ c.message ^^ ")"
