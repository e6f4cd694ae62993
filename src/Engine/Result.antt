-- ===== src/Engine/Result.antt =====
-- What a part of the engine that yields nothing answers: a value, or the exception that it raises.
use harel.Prelude.{String, Option, none, some, ◌≡◌, refl}
use harel.Value.{Value, ArithOp}
use harel.Model.{Source}

-- The ways in which `_value_of` and `_evaluate` raise ExpressionError.
pub data ExpressionProblem : Type 0 where
  not_set : Source → String → ExpressionProblem
  needs_numbers : ArithOp → Value → ExpressionProblem
  division_by_zero : ExpressionProblem
  breaks_schema : String → Value → ExpressionProblem

-- An exception of an action, by the name of its type and its message.
pub record ActionError : Type 0 where
  pub type : String
  pub message : String

-- `stuck`: KeyError, AssertionError, ValueError or TypeError, on a definition or a record that does
-- not fit; `exhausted`: the bound on a loop of the model.
pub data Fault : Type 0 where
  action_error : ActionError → Fault
  expression_error : ExpressionProblem → Fault
  overflow : Fault
  stuck : Fault
  exhausted : Fault

pub data Result {ℓ} (A : Type ℓ) : Type ℓ where
  ok : A → Result A
  raised : Fault → Result A

module _ {ℓ κ} {A : Type ℓ} {B : Type κ} where
  infixl 5 ◌>>=◌ ◌>>◌
  -- An exception skips what follows.
  abbrev pub ◌>>=◌ : Result A → (A → Result B) → Result B
  raised x >>= next = raised x
  ok a >>= next = next a

  abbrev pub ◌>>◌ : Result A → Result B → Result B
  before >> next = before >>= λ _. next

-- `d[k]`, `assert x is not None`
abbrev pub need {ℓ} : {A : Type ℓ} → Option A → Result A
need none = raised stuck
need (some a) = ok a

module _ {ℓ κ} {A : Type ℓ} {B : Type κ} where
  -- A chain that answers has answered at each of its steps.
  pub bind-ok :
      (r : Result A) (next : A → Result B) {b : B}
      → (r >>= next) ≡ ok b
      → (a : A) × (r ≡ ok a) × (next a ≡ ok b)
  bind-ok (raised x) next h = cc
  bind-ok (ok a) next h = (a, refl, h)
