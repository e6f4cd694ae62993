-- ===== src/Driving/Identity.antt =====
-- What a step of the driver may change of an execution.
use harel.Prelude.{
  ℕ, ◌≡◌, refl, ap, ◌∙◌, Bool, true, false, Option, none, some, List, [], Bool-cases, inl, inr, not,
  ◌||◌, is_some,
}
use harel.Events.{Event}
use harel.Model.{Definition}
use harel.Execution.{Execution}
use harel.Engine.Result.{Fault, ActionError, Result, ok, raised}
use harel.Engine.Effects.{World, Effect}
use harel.Engine.Evolution.{identity, Evolves, Steps}
use harel.Engine.Evolution.Processing.{process-Evolves, Steps-start}
use harel.Engine.Signals.{error_event}
use harel.Engine.Teardown.{DefinitionProblem, definition_problem, has_error_handler}
use harel.Store.{Memory}
use harel.Control.Commands.{write}
use harel.Driving.{Host, Failure, changed, by_engine}
use harel.Driving.Texts.{exception_of}
use harel.Driving.Running.{
  Driven, commits, breaks, adopt, with_error, generate, env_at, on_action_error, give_up, recovered,
  recover_if, route_error, from_exit, cause_of, failed_with, driven, checked, drive,
}

abbrev unversioned : Execution → Execution
unversioned exe = record exe { definition_version = none; definition_digest = none }

-- An execution without what its steps may write: its definition's version and digest, and all that
-- the engine writes.
abbrev pub anchor : Execution → Execution
anchor exe = unversioned (identity exe)

abbrev pub left_by : Driven → Execution
left_by (commits c exe) = exe
left_by (breaks f exe) = exe

adopt-anchor : (defn : Definition) (exe : Execution) → anchor (adopt defn exe) ≡ anchor exe
unfolding adopt
adopt-anchor defn exe =
    elim (Bool-cases (not (is_some exe.definition_digest) || not (is_some exe.active_path))) [
      | inl e ↦ rw e refl
      | inr e ↦ rw e refl
    ]

module _ (h : Host) where
  generate-anchor :
      (n : ℕ) (again : Bool) (defn : Definition) (ev : Option Event) (exe : Execution)
      → anchor (generate h n again defn ev exe).1.exe ≡ anchor exe
  unfolding generate
  generate-anchor n again defn none exe = ap unversioned (
      Evolves.identical
        (Steps.at (Steps-start (env_at h n again defn)) (record { exe = exe; trace = [] })))
  generate-anchor n again defn (some ev) exe = ap unversioned (
      Evolves.identical
        (process-Evolves (env_at h n again defn) ev (record { exe = exe; trace = [] })))

  policy-anchor :
      (f : Failure) (x : ActionError) (cause : Option ActionError) (exe : Execution)
      → anchor (left_by (on_action_error h f x cause exe)) ≡ anchor exe
  unfolding on_action_error
  policy-anchor f x cause exe = elim (Bool-cases h.fails) [ inl e ↦ rw e refl | inr e ↦ rw e refl ]

  give_up-anchor :
      (f : Fault) (first : ActionError) (exe : Execution) (o : Option ActionError)
      → anchor (left_by (give_up h f first exe o)) ≡ anchor exe
  give_up-anchor f first exe none = refl
  give_up-anchor f first exe (some x) = policy-anchor (by_engine f) x (some first) exe

  recovered-anchor :
      (n : ℕ) (defn : Definition) (first : ActionError) (p : Result (Unit {0}) × World)
      → anchor (left_by (recovered h n defn first p)) ≡ anchor p.1.exe
  unfolding recovered
  recovered-anchor n defn first (ok _, w) = refl
  recovered-anchor n defn first (raised f, w) =
      give_up-anchor f first w.exe (exception_of h.repr defn f)

  recover_if-anchor :
      (n : ℕ) (defn : Definition) (f : Fault) (x : ActionError) (cause : Option ActionError)
      (ev : Event) (exe : Execution) (b : Result Bool)
      → anchor (left_by (recover_if h n defn f x cause ev exe b)) ≡ anchor exe
  unfolding recover_if
  recover_if-anchor n defn f x cause ev exe (raised g) = refl
  recover_if-anchor n defn f x cause ev exe (ok false) = policy-anchor (by_engine f) x cause exe
  recover_if-anchor n defn f x cause ev exe (ok true) =
      recovered-anchor n defn x (generate h n true defn (some ev) (with_error ev exe))
      ∙ generate-anchor n true defn (some ev) (with_error ev exe)

  route_error-anchor :
      (n : ℕ) (f : Fault) (x : ActionError) (cause : Option ActionError) (trace : List Effect)
      (exe : Execution) (o : Option Definition)
      → anchor (left_by (route_error h n f x cause trace exe o)) ≡ anchor exe
  unfolding route_error
  route_error-anchor n f x cause trace exe none = refl
  route_error-anchor n f x cause trace exe (some defn) =
      let ev = error_event (h.new_id n false trace) x.type x.message in
      recover_if-anchor n defn f x cause ev exe (has_error_handler (env_at h n false defn) exe ev)

  failed-anchor :
      (m : Memory) (r n : ℕ) (f : Fault) (trace : List Effect) (exe : Execution)
      (o : Option ActionError)
      → anchor (left_by (failed_with h m r n f trace exe o)) ≡ anchor exe
  unfolding failed_with
  failed-anchor m r n f trace exe none = refl
  failed-anchor m r n f trace exe (some x) = elim (Bool-cases (from_exit h f trace)) [
    | inl e ↦ rw e (policy-anchor (by_engine f) x (cause_of h n f trace) exe)
    | inr e ↦
        rw e
          (route_error-anchor n f x (cause_of h n f trace) trace exe (h.lookup (write m r exe) exe))
  ]

  driven-anchor :
      (m : Memory) (r n : ℕ) (defn : Definition) (p : Result (Unit {0}) × World)
      → anchor (left_by (driven h m r n defn p)) ≡ anchor p.1.exe
  unfolding driven
  driven-anchor m r n defn (ok _, w) = refl
  driven-anchor m r n defn (raised f, w) =
      failed-anchor m r n f w.trace w.exe (exception_of h.repr defn f)

  checked-anchor :
      (m : Memory) (r n : ℕ) (defn gen : Definition) (ev : Option Event) (exe : Execution)
      (o : Option DefinitionProblem)
      → anchor (left_by (checked h m r n defn gen ev exe o)) ≡ anchor exe
  unfolding checked
  checked-anchor m r n defn gen ev exe none =
      driven-anchor m r n gen (generate h n false gen ev exe) ∙ generate-anchor n false gen ev exe
  checked-anchor m r n defn gen ev exe (some p) = policy-anchor (changed p) _ none exe

  -- A step of the driver, however it ends, leaves an execution's ids, its parent, its priority, its
  -- routing key and its version token: it writes the engine's fields and the definition's version and
  -- digest only.
  pub drive-anchor :
      (m : Memory) (r n : ℕ) (defn gen : Definition) (ev : Option Event)
      → anchor (left_by (drive h m r n defn gen ev)) ≡ anchor (m.heap r)
  unfolding drive
  drive-anchor m r n defn gen ev =
      let exe = adopt defn (m.heap r) in
      checked-anchor m r n defn gen ev exe (definition_problem defn exe)
      ∙ adopt-anchor defn (m.heap r)
