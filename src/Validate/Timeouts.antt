-- ===== src/Validate/Timeouts.antt =====
-- Timeouts that no transition handles.
use harel.Prelude.{◌≡◌, refl, false, ◌&&◌, none, List, [], ◌∷◌, arith, any}
use harel.Prelude.Dict.{Dict}
use harel.Value.{Value, Floats}
use harel.Events.{Event}
use harel.Model.{Node, top, under, info, Transition, Definition}
use harel.Engine.Guard
use harel.Engine.Resolve.{event_pred, filter_matches, at_scope, resolve_up}
use harel.Validate.{goes_from, handles_timeout, has_timeout_handler}

module _ (fl : Floats) (ev : Event) (context : Dict Value) (timed : ev.kind ≡ "Timeout") where
  unhandled_not_taken :
      (t : Transition) → handles_timeout t ≡ false → event_pred fl ev context t ≡ false
  unfolding event_pred filter_matches Guard.matches
  unhandled_not_taken t h = ground (arith, timed, h)

  at_scope_unhandled :
      (scope head : Node) (ts : List Transition)
      → any (λ t. goes_from head t && handles_timeout t) ts ≡ false
      → at_scope scope head (event_pred fl ev context) ts ≡ none
  unfolding at_scope
  at_scope_unhandled scope head [] h = refl
  at_scope_unhandled scope head (t ∷ ts) h =
      ground (arith, unhandled_not_taken t, at_scope_unhandled scope head ts)

  -- Where the validation finds no handler of a state's timeout, no `Timeout` at that state takes a
  -- transition, whatever its payload and the context are.
  timeout_unhandled :
      (defn : Definition) (n : Node)
      → has_timeout_handler n ≡ false
      → resolve_up defn n (event_pred fl ev context) ≡ none
  unfolding has_timeout_handler resolve_up
  timeout_unhandled defn (top i) h = refl
  timeout_unhandled defn (under i p) h =
      ground
        (arith, at_scope_unhandled p (under i p) (info p).transitions, timeout_unhandled defn p)
