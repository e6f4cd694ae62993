-- ===== src/Events/Defaults.antt =====
-- `with_defaults`, and the checks of a context against its schema.
use harel.Prelude.{
  ◌≡◌, refl, ◌∙◌, ◌↔◌, ◌⊎◌, inl, inr, String, Bool, true, false, not, ◌&&◌, ◌==◌, eq_iff, Option,
  none, some, List, [], ◌∷◌, ◌++◌, arith, if◌then◌else◌, or_else, Option-cases,
}
use harel.Prelude.Dict
use harel.Prelude.Dict.{Dict, get-put}
use harel.Value.{Value}
use harel.Events.{
  FieldSpec, Problem, fill, with_defaults, value_fits, is_null, field_problems, schema_problems,
  check_context,
}

-- The default that a schema gives a field.
abbrev pub default_of : String → Dict FieldSpec → Option Value
default_of k [] = none
default_of k ((name, spec) ∷ schema) =
    or_else (if name == k then spec.default else none) (default_of k schema)

get-fill :
    (spec : FieldSpec) (name k : String) (filled : Dict Value)
    → Dict.get k (fill spec name filled)
      ≡ or_else (Dict.get k filled) (if name == k then spec.default else none)
unfolding fill
get-fill spec name k filled = elim (Option-cases spec.default) [
  | inl e ↦ ground (arith, e)
  | inr (v, e) ↦ ground (arith, e, get-put name k v filled, eq_iff name k)
]

or_else_assoc : (a b c : Option Value) → or_else (or_else a b) c ≡ or_else a (or_else b c)
or_else_assoc none b c = refl
or_else_assoc (some v) b c = refl

-- After `with_defaults` a key has the value that it had, or else the default that the schema declares for
-- it; a key with neither stays absent.
get-with_defaults :
    (schema : Dict FieldSpec) (k : String) (context : Dict Value)
    → Dict.get k (with_defaults schema context) ≡ or_else (Dict.get k context) (default_of k schema)
unfolding with_defaults
get-with_defaults [] k context = ground arith
get-with_defaults ((name, spec) ∷ schema) k context =
    get-with_defaults schema k (fill spec name context)
    ∙ rw get-fill (or_else_assoc (Dict.get k context) _ (default_of k schema))

-- A value, or its absence, that a declared field allows.
abbrev pub Allows : FieldSpec → Option Value → Bool → Type 0
Allows spec none check_required = (check_required && spec.required) ≡ false
Allows spec (some v) check_required =
    ((is_null v && not spec.required) ≡ true) ⊎ (value_fits spec.type v ≡ true)

abbrev pub FitsSchema : Dict FieldSpec → Dict Value → Bool → Type 0
FitsSchema [] values check_required = Unit
FitsSchema ((name, spec) ∷ schema) values check_required =
    Allows spec (Dict.get name values) check_required × FitsSchema schema values check_required

no_problem :
    (name : String) (spec : FieldSpec) (v : Option Value) (r : Bool)
    → (field_problems name spec v r ≡ []) ↔ Allows spec v r
unfolding field_problems
no_problem name spec none r = (λ h. ground arith, λ h. ground arith)
no_problem name spec (some v) r = (λ h. ground arith, λ h. ground arith)

append-nil_iff : (xs ys : List Problem) → ((xs ++ ys) ≡ []) ↔ ((xs ≡ []) × (ys ≡ []))
append-nil_iff [] ys = (λ h. (refl, h), λ h. h.1)
append-nil_iff (x ∷ xs) ys = (λ h. cc, λ h. cc (h.0))

problems-FitsSchema :
    (schema : Dict FieldSpec) (values : Dict Value) (r : Bool)
    → (schema_problems schema values r ≡ []) ↔ FitsSchema schema values r
unfolding schema_problems
problems-FitsSchema [] values r = (λ h. tt, λ h. refl)
problems-FitsSchema ((name, spec) ∷ schema) values r =
    let here = no_problem name spec (Dict.get name values) r in
    let there = problems-FitsSchema schema values r in
    let both =
      append-nil_iff (field_problems name spec (Dict.get name values) r)
        (schema_problems schema values r) in
    (
      λ h. (here.0 ((both.0 h).0), there.0 ((both.0 h).1)),
      λ h. both.1 (here.1 (h.0), there.1 (h.1)),
    )

-- `check_context` raises nothing exactly when every declared field is absent and not required, or
-- holds a value of its type, or holds None and is optional.
pub check_context-FitsSchema :
    (schema : Dict FieldSpec) (values : Dict Value) (check_required : Bool)
    → (check_context schema values check_required ≡ none) ↔ FitsSchema schema values check_required
unfolding check_context
check_context-FitsSchema schema values r =
    let fits = problems-FitsSchema schema values r in
    (λ h. fits.0 (ground arith), λ h. rw (fits.1 h, check_context))
