-- ===== src/Events.antt =====
-- src/harel/definition/events.py and the `Event` of src/harel/spec/states.py: declared field types, the
-- checks of events and contexts against them, and the defaults of a context.
pub mod Defaults
use harel.Prelude.{
  ℕ, String, Bool, true, false, not, ◌&&◌, ◌||◌, Option, none, some, List, [], ◌∷◌, ◌++◌, is_some,
  if◌then◌else◌, ◌==◌, mem,
}
use harel.Prelude.Dict
use harel.Prelude.Dict.{Dict}
use harel.Value.{Value, null, bool, int, float, str}

-- The fields that the engine reads; `created_time` and `received_time` are left out.
pub record Event : Type 0 where
  pub id : String
  pub kind : String
  pub payload : Dict Value

abbrev pub reserved_events : List String
reserved_events =
    "Timeout" ∷ "Finished" ∷ "Cancel" ∷ "Reset" ∷ "SetState" ∷ "Start" ∷ "Returned" ∷ "error"
    ∷ "Expired" ∷ []

pub record FieldSpec : Type 0 where
  pub type : String
  pub required : Bool
  pub default : Option Value

pub record EventType : Type 0 where
  pub name : String
  pub fields : Dict FieldSpec

abbrev is_str : Value → Bool
is_str (str s) = true
is_str _ = false

abbrev is_bool : Value → Bool
is_bool (bool b) = true
is_bool _ = false

abbrev is_int : Value → Bool
is_int (int i) = true
is_int _ = false

abbrev is_real : Value → Bool
is_real (int i) = true
is_real (float x) = true
is_real _ = false

abbrev pub is_null : Value → Bool
is_null null = true
is_null _ = false

unfoldable pub value_fits : String → Value → Bool
value_fits type v =
    if type == "any"
    then true
    else if type == "string"
    then is_str v
    else if type == "bool"
    then is_bool v
    else if type == "int"
    then is_int v
    else if type == "float"
    then is_real v
    else false

-- The messages of `schema_problems`, by what they say.
pub data Problem : Type 0 where
  missing : String → Problem
  mistyped : String → Value → Problem

field_problems : String → FieldSpec → Option Value → Bool → List Problem
unfolding value_fits
field_problems name spec none check_required =
    if check_required && spec.required then missing name ∷ [] else []
field_problems name spec (some v) check_required =
    if is_null v && not spec.required
    then []
    else if not (value_fits spec.type v)
    then mistyped name v ∷ []
    else []

unfoldable pub schema_problems : Dict FieldSpec → Dict Value → Bool → List Problem
unfolding field_problems Dict.get
schema_problems [] values check_required = []
schema_problems ((name, spec) ∷ schema) values check_required =
    field_problems name spec (Dict.get name values) check_required
    ++ schema_problems schema values check_required

fill : FieldSpec → String → Dict Value → Dict Value
unfolding Dict.put Dict.get
fill spec name filled = elim spec.default [
  | none ↦ filled
  | some v ↦ if not (Dict.has name filled) then Dict.put name v filled else filled
]

-- The loop over the schema, with the context filled so far.
unfoldable pub with_defaults : Dict FieldSpec → Dict Value → Dict Value
unfolding fill
with_defaults [] context = context
with_defaults ((name, spec) ∷ schema) context = with_defaults schema (fill spec name context)

-- `none`: nothing is raised. `check_context` and `check_event` raise with these problems.
unfoldable pub check_context : Dict FieldSpec → Dict Value → Bool → Option (List Problem)
unfolding schema_problems
check_context schema context check_required = elim (schema_problems schema context check_required) [
  | [] ↦ none
  | p ∷ ps ↦ some (p ∷ ps)
]

unfoldable pub check_event : Dict EventType → String → Dict Value → Option (List Problem)
unfolding check_context Dict.get
check_event events kind payload =
    elim (if not (mem kind reserved_events) then Dict.get kind events else none) [
      | none ↦ none
      | some etype ↦ check_context etype.fields payload true
    ]
