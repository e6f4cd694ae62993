-- ===== src/Engine/Take/Failing.antt =====
-- A transition whose assignments cannot be evaluated.
use harel.Prelude.{◌≡◌, refl, Option, List, [], ◌∷◌, arith}
use harel.Events.{Event}
use harel.Value.{Floats}
use harel.Model.{Node, Assign, Definition}
use harel.Engine.Guard.{Scopes}
use harel.Engine.Result.{ok, raised, Fault}
use harel.Engine.Effects.{Env, World, gets, lift, ◌>>=◌}
use harel.Engine.Resolve.{scopes_of}
use harel.Engine.Expression.{evaluate, evaluate_into}
use harel.Engine.Take.{take, evaluated}

evaluate-nil :
    (fl : Floats) (defn : Definition) (scopes : Scopes) → evaluate fl defn scopes [] ≡ ok []
unfolding evaluate evaluate_into
evaluate-nil fl defn scopes = refl

module _ (env : Env) (target : Node) (ev : Option Event) where
  -- Where an assignment of a transition raises, the transition is not begun: the exception is the
  -- transition's, no state is left, nothing is written and nothing is yielded.
  pub take_fails :
      (assigns : List Assign) (w : World) (x : Fault)
      → evaluate env.floats env.defn (scopes_of ev w.exe.context) assigns ≡ raised x
      → take env target ev assigns w ≡ (raised x, w)
  unfolding take evaluated gets lift ◌>>=◌
  take_fails [] w x h =
      absurd (ground (arith, evaluate-nil env.floats env.defn (scopes_of ev w.exe.context)))
  take_fails (a ∷ assigns) w x h = rw h
