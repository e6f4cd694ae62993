-- ===== src/Engine/Effects.antt =====
-- The effects that a step of src/harel/engine/core.py yields, and steps as actions over the execution.
-- A generator's driver is a parameter: what an action does to the context and returns or raises,
-- what a selector returns, when a timer fires, the ids of new events. It sees the effects yielded so
-- far, so it may answer the same effect differently each time. A raise ends the step where it is,
-- with what was written before it.
use harel.Prelude.{ℕ, zero, suc, String, Option, none, some, List, [], ◌∷◌, ◌++◌}
use harel.Prelude.Dict
use harel.Prelude.Dict.{Dict}
use harel.Value.{Value, Floats}
use harel.Events.{Event}
use harel.Model.{ActionRef, Selector, Node, Definition}
use harel.Execution.{Execution}
use harel.Engine.Result.{
  Fault, action_error, stuck, exhausted, ActionError, Result, ok, raised, need,
}

pub data Hook : Type 0 where
  enter exit activity : Hook

pub record ChildSpec : Type 0 where
  pub child_id : String
  pub root_path : String
  pub context : Dict Value

-- Seconds, or the context key to read them from when the timer is scheduled.
pub data Delay : Type 0 where
  seconds : ℕ → Delay
  context_key : String → Delay

pub data Effect : Type 0 where
  run_action : Node → Hook → ActionRef → Option Event → Effect
  run_selector : Node → Selector → Option Event → Effect
  emit : Event → Option String → Effect
  spawn_children : List ChildSpec → Effect
  schedule_timer : String → Delay → Effect
  cancel_timer : String → Effect
  assigned : Dict Value → Effect

-- What a blocking effect comes back with, beside the context as the action left it.
pub data Reply : Type 0 where
  returned : Value → Dict Value → Reply
  failed : ActionError → Dict Value → Reply

pub record Driver : Type 0 where
  pub answer : List Effect → Effect → Dict Value → Reply
  pub fire_time : List Effect → Value
  pub new_id : List Effect → String
  -- pydantic's `model_dump` and `model_validate` of an event
  pub dump : Event → Value
  pub validate : Value → Option Event

-- `bound` bounds the rounds of each `while` loop of the engine.
pub record Env : Type 0 where
  pub defn : Definition
  pub floats : Floats
  pub driver : Driver
  pub bound : ℕ

pub record World : Type 0 where
  pub exe : Execution
  pub trace : List Effect

abbrev pub M : Type 0 → Type 0
M A = World → Result A × World

module _ {A : Type 0} where
  unfoldable pub pure : A → M A
  pure a w = (ok a, w)

  unfoldable pub raise : Fault → M A
  raise x w = (raised x, w)

  unfoldable pub lift : Result A → M A
  lift r w = (r, w)

  unfoldable pub gets : (Execution → A) → M A
  gets f w = (ok (f w.exe), w)

module _ {A B : Type 0} where
  abbrev pub then_do : Result A → (A → M B) → M B
  then_do (ok a) f w = f a w
  then_do (raised x) f w = (raised x, w)

  infixl 5 ◌>>=◌ ◌>>◌
  -- Opening this opens the actions above too.
  unfoldable pub ◌>>=◌ : M A → (A → M B) → M B
  unfolding pure raise lift gets
  ◌>>=◌ m f w = let (r, w') = m w in then_do r f w'

  abbrev pub ◌>>◌ : M A → M B → M B
  m >> n = m >>= λ _. n

unfoldable pub modify : (Execution → Execution) → M (Unit {0})
modify f w = (ok tt, record w { exe = f w.exe })

-- An effect that the driver collects.
unfoldable pub yields : Effect → M (Unit {0})
yields e w = (ok tt, record w { trace = w.trace ++ e ∷ [] })

abbrev pub reply_to : World → Reply → Result Value × World
reply_to w (returned v c) = (ok v, record w { exe = record w.exe { context = c } })
reply_to w (failed x c) = (raised (action_error x), record w { exe = record w.exe { context = c } })

module _ (env : Env) where
  -- A blocking effect.
  unfoldable pub performs : Effect → M Value
  performs e w =
      let w' = record w { trace = w.trace ++ e ∷ [] } in
      reply_to w' (env.driver.answer w'.trace e w'.exe.context)

  unfoldable pub schedules : String → Delay → M Value
  schedules p d w =
      let w' = record w { trace = w.trace ++ schedule_timer p d ∷ [] } in
      (ok (env.driver.fire_time w'.trace), w')

  -- `Event(kind=..., data=...)`: its id is new.
  unfoldable pub new_event : String → Dict Value → M Event
  new_event kind payload w =
      (ok (record { id = env.driver.new_id w.trace; kind = kind; payload = payload }), w)

  -- `defn.index[p]`
  unfoldable pub node_at : String → M Node
  node_at p w = (need (Dict.get p env.defn.index), w)

  unfoldable pub active_node : M Node
  active_node w = (
    elim w.exe.active_path [ none ↦ raised stuck | some p ↦ need (Dict.get p env.defn.index) ],
    w,
  )

-- `for x in xs: f(x)`
unfoldable pub for_each {ℓ} : {A : Type ℓ} → (A → M (Unit {0})) → List A → M (Unit {0})
for_each f [] = pure tt
for_each f (x ∷ xs) = do f x; for_each f xs

-- `while True: ...`: the body hands over the next round's state, or ends the loop with `none`.
unfoldable pub rounds : {S : Type 0} → ℕ → (S → M (Option S)) → S → M (Unit {0})
rounds zero body s = raise exhausted
rounds (suc n) body s = body s >>= λ next. elim next [ none ↦ pure tt | some t ↦ rounds n body t ]
