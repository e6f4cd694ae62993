-- ===== src/Engine/Expression/Assigned.antt =====
-- What the assignments of a transition write.
use harel.Prelude.{
  ◌≡◌, ◌⊎◌, String, true, not, ◌&&◌, ◌==◌, Option, none, some, List, [], ◌∷◌, arith, if◌then◌else◌,
}
use harel.Prelude.Dict
use harel.Prelude.Dict.{Dict, get-put}
use harel.Value.{Value, Floats}
use harel.Events.{FieldSpec, value_fits, is_null}
use harel.Model.{Assign, Definition}
use harel.Engine.Result.{ok, bind-ok}
use harel.Engine.Guard.{Scopes}
use harel.Engine.Expression.{value_of, check_schema, evaluate, evaluate_into}

-- What a declared context field accepts.
abbrev pub Accepts : Option FieldSpec → Value → Type 0
Accepts none v = Unit
Accepts (some spec) v = ((is_null v && not spec.required) ≡ true) ⊎ (value_fits spec.type v ≡ true)

checked :
    (name : String) (spec : Option FieldSpec) (v w : Value)
    → check_schema name spec v ≡ ok w
    → (w ≡ v) × Accepts spec v
unfolding check_schema
checked name none v w h = (ground arith, tt)
checked name (some spec) v w h = (ground arith, ground arith)

module _ (fl : Floats) (defn : Definition) (scopes : Scopes) where
  -- The value of the last assignment to a name, with its right side read in the given namespaces.
  abbrev pub LastAssigned : String → List Assign → Option Value → Option Value → Type 0
  LastAssigned name [] before v = v ≡ before
  LastAssigned name (a ∷ assigns) before v =
      (w : Value) × (value_of fl scopes a.expr ≡ ok w)
      × Accepts (Dict.get a.name defn.context_schema) w
      × LastAssigned name assigns (if a.name == name then some w else before) v

  into-LastAssigned :
      (assigns : List Assign) (values out : Dict Value)
      → evaluate_into fl defn scopes values assigns ≡ ok out
      → (name : String) → LastAssigned name assigns (Dict.get name values) (Dict.get name out)
  unfolding evaluate_into
  into-LastAssigned [] values out h name = ground arith
  into-LastAssigned (a ∷ assigns) values out h name =
      let (v, p, h') = bind-ok (value_of fl scopes a.expr) _ h in
      let (w, q, k) = bind-ok (check_schema a.name (Dict.get a.name defn.context_schema) v) _ h' in
      let (e, acc) = checked a.name (Dict.get a.name defn.context_schema) v w q in
      let ih = into-LastAssigned assigns (Dict.put a.name w values) out k name in
      (v, p, acc, rw (← e) (rw get-put at ih))

  -- When `_evaluate` answers, each name has the value of its last assignment, none is written that no
  -- assignment names, every right side is read in the namespaces as they were before any assignment,
  -- and every value is one that the context schema accepts.
  pub evaluate-LastAssigned :
      (assigns : List Assign) (values : Dict Value)
      → evaluate fl defn scopes assigns ≡ ok values
      → (name : String) → LastAssigned name assigns none (Dict.get name values)
  unfolding evaluate Dict.get
  evaluate-LastAssigned assigns values h name = into-LastAssigned assigns [] values h name
