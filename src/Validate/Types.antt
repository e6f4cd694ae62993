-- ===== src/Validate/Types.antt =====
-- The checks of src/harel/definition/validate.py on the types of values and on assignments.
use harel.Prelude.{
  String, Bool, true, false, ◌==◌, not, ◌&&◌, ◌||◌, Option, none, some, List, [], ◌∷◌, ◌++◌, gather,
  if◌then◌else◌,
}
use harel.Prelude.Dict
use harel.Prelude.Dict.{Dict}
use harel.Value.{Value, bool, int, float, str, ArithOp, div}
use harel.Events.{FieldSpec}
use harel.Model.{
  Op, eq, Source, event, context, Expr, lit, ref, binary, Assign, Transition, Node, path,
  Definition, is_automatic,
}
use harel.Validate.Issues.{Issue, error, warning, flag}
use harel.Validate.Reads.{is_numeric, expr_refs, all_assignments}

abbrev pub is_unordered : String → Bool
is_unordered type = type == "string" || type == "bool"

unfoldable pub literal_type : Value → String
literal_type (bool b) = "bool"
literal_type (int i) = "int"
literal_type (float x) = "float"
literal_type (str s) = "string"
literal_type _ = "list"

abbrev pub is_number : String → Bool
is_number type = type == "int" || type == "float"

-- The type of `+ - *` on two sides of known types.
unfoldable pub sides_type : Option String → Option String → Option String
sides_type (some a) (some b) =
    if a == "int" && b == "int"
    then some "int"
    else if is_number a && is_number b
    then some "float"
    else none
sides_type _ _ = none

abbrev pub is_division : ArithOp → Bool
is_division div = true
is_division _ = false

abbrev pub known_type : Option FieldSpec → Option String
known_type none = none
known_type (some spec) = if spec.type == "any" then none else some spec.type

-- `none`: not knowable.
unfoldable pub expr_type : Definition → Expr → Option String
expr_type defn (lit v) = some (literal_type v)
expr_type defn (ref event name) = none
expr_type defn (ref context name) = known_type (Dict.get name defn.context_schema)
expr_type defn (binary op left right) =
    let sides = sides_type (expr_type defn left) (expr_type defn right) in
    if is_division op then some "float" else sides

abbrev pub is_untyped {ℓ} : {A : Type ℓ} → Dict A → Bool
is_untyped [] = true
is_untyped (e ∷ d) = false

unfoldable pub check_context_ref : Definition → Node → String → Op → List Issue
check_context_ref defn node name op =
    if is_untyped defn.context_schema then [] else elim (Dict.get name defn.context_schema) [
      | none ↦ flag true "unknown_context_field" error (path node)
      | some spec ↦
          flag (is_numeric op && is_unordered spec.type) "op_type_mismatch" warning (path node)
    ]

-- A reference in a right side.
unfoldable pub check_ref : Definition → Node → Transition → Source × String → List Issue
check_ref defn node t (context, name) =
    if name == "" then [] else check_context_ref defn node name eq
check_ref defn node t (event, name) =
    flag (is_automatic t) "event_ref_without_event" error (path node)

-- A type that arithmetic does not take.
abbrev pub no_number : Option String → Bool
no_number none = false
no_number (some type) = type == "string" || type == "bool" || type == "list"

unfoldable pub check_operands : Definition → Node → Expr → List Issue
check_operands defn node (binary op left right) =
    flag (no_number (expr_type defn left)) "assign_type_mismatch" error (path node)
    ++ flag (no_number (expr_type defn right)) "assign_type_mismatch" error (path node)
check_operands defn node _ = []

unfoldable pub type_fits : FieldSpec → Option String → Bool
type_fits spec none = true
type_fits spec (some kind) =
    spec.type == "any" || kind == spec.type || (spec.type == "float" && kind == "int")

unfoldable pub check_written : Definition → Node → Assign → List Issue
check_written defn node a =
    if is_untyped defn.context_schema then [] else elim (Dict.get a.name defn.context_schema) [
      | none ↦ flag true "unknown_context_field" error (path node)
      | some spec ↦
          flag (not (type_fits spec (expr_type defn a.expr))) "assign_type_mismatch" error
            (path node)
    ]

unfoldable pub check_assignment : Definition → Node → Transition → Assign → List Issue
check_assignment defn node t a =
    gather (check_ref defn node t) (expr_refs a.expr)
    ++ (check_operands defn node a.expr ++ check_written defn node a)

unfoldable pub check_assignments : Definition → Node → Transition → List Issue
check_assignments defn node t = gather (check_assignment defn node t) (all_assignments t)
