-- ===== src/Engine/Expression.antt =====
-- Assignments: `_value_of` and `_evaluate` of src/harel/engine/core.py. Values are immutable here, so
-- the source's deep copies are the values themselves.
pub mod Assigned
use harel.Prelude.{String, Bool, true, not, ◌&&◌, Option, none, some, List, [], ◌∷◌, if◌then◌else◌}
use harel.Prelude.Dict
use harel.Prelude.Dict.{Dict}
use harel.Prelude.Int.{pos, ◌+ℤ◌, ◌-ℤ◌, ◌*ℤ◌}
use harel.Value.{Value, int, bool, ArithOp, add, sub, mul, div, Floats, value_eq, is_num}
use harel.Events.{FieldSpec, value_fits, is_null}
use harel.Model.{Expr, lit, ref, binary, Assign, Definition}
use harel.Engine.Result.{
  Result, ok, raised, expression_error, overflow, not_set, needs_numbers, division_by_zero,
  breaks_schema, ◌>>=◌, ◌>>◌,
}
use harel.Engine.Guard.{Scopes, scope_of}

abbrev is_bool : Value → Bool
is_bool (bool b) = true
is_bool _ = Bool.false

-- `isinstance(side, bool) or not isinstance(side, (int, float))` raises
unfoldable pub check_number : ArithOp → Value → Result (Unit {0})
check_number op side =
    if not (is_bool side) && is_num side
    then ok tt
    else raised (expression_error (needs_numbers op side))

unfoldable pub or_overflow : Option Value → Result Value
or_overflow none = raised overflow
or_overflow (some v) = ok v

-- The check of an assigned value against the context schema.
unfoldable pub check_schema : String → Option FieldSpec → Value → Result Value
check_schema name none v = ok v
check_schema name (some spec) v =
    if not (is_null v && not spec.required) && not (value_fits spec.type v)
    then raised (expression_error (breaks_schema name v))
    else ok v

module _ (fl : Floats) where
  -- Two integers stay exact, but for true division; all else is a float's.
  unfoldable pub arithmetic : ArithOp → Value → Value → Result Value
  arithmetic add (int i) (int j) = ok (int (i +ℤ j))
  arithmetic sub (int i) (int j) = ok (int (i -ℤ j))
  arithmetic mul (int i) (int j) = ok (int (i *ℤ j))
  arithmetic op a b = or_overflow (fl.float_arith op a b)

  unfoldable pub is_zero_division : ArithOp → Value → Bool
  is_zero_division div right = value_eq fl right (int (pos 0))
  is_zero_division _ right = Bool.false

  unfoldable pub combine : ArithOp → Value → Value → Result Value
  combine op left right = do
    check_number op left
    check_number op right
    if is_zero_division op right
        then raised (expression_error division_by_zero)
        else arithmetic op left right

  unfoldable pub value_of : Scopes → Expr → Result Value
  value_of scopes (lit v) = ok v
  value_of scopes (ref source name) = elim (Dict.get name (scope_of scopes source)) [
    | none ↦ raised (expression_error (not_set source name))
    | some v ↦ ok v
  ]
  value_of scopes (binary op left right) = do
    l ← value_of scopes left
    r ← value_of scopes right
    combine op l r

  -- Every right side is evaluated in the same namespaces.
  unfoldable pub evaluate_into :
      Definition → Scopes → Dict Value → List Assign → Result (Dict Value)
  evaluate_into defn scopes values [] = ok values
  evaluate_into defn scopes values (a ∷ assigns) = do
    v ← value_of scopes a.expr
    w ← check_schema a.name (Dict.get a.name defn.context_schema) v
    evaluate_into defn scopes (Dict.put a.name w values) assigns

  unfoldable pub evaluate : Definition → Scopes → List Assign → Result (Dict Value)
  evaluate defn scopes assigns = evaluate_into defn scopes [] assigns
