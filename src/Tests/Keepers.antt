-- ===== src/Tests/Keepers.antt =====
-- The theorems on timers, redrives and registries at concrete inputs.
use harel.Prelude.{
  In, ◌≡◌, refl, ◌↔◌, inl, inr, Bool, true, false, Option, none, some, List, [], ◌∷◌,
}
use harel.Prelude.Dict
use harel.Prelude.Dict.{Dict}
use harel.Value.{float}
use harel.Model.{Definition}
use harel.Model.Navigation
use harel.Engine.Result.{ok}
use harel.Engine.Resolve
use harel.Engine.Resolve.{resolve_up, event_pred}
use harel.Engine.Regions.{joined}
use harel.Engine.Teardown.{is_valid_reposition_target}
use harel.Engine.Process.{process}
use harel.Engine.Signals.{timeout_event}
use harel.Engine.Signals.Stale.{timeout_stale}
use harel.Control.{redrive_problem}
use harel.Control.Redrive.{redrive-reposition}
use harel.Registry
use harel.Registry.{definition_registry, find_definition, register_definition}
use harel.Registry.Loaded.{registry-find}
use harel.Tests.Machines.{order, env_of, running_at, estate, grounds, room, no_floats, fresh}

timeout_stale_example :
    process
      (env_of estate)
      (timeout_event no_floats "x" "House.Room" (float 3))
      (running_at "Garden")
    ≡ (ok tt, running_at "Garden")
unfolding Resolve.is_active Navigation.chain Navigation.climb Dict.get
timeout_stale_example =
    timeout_stale (env_of estate) (running_at "Garden") (float 3) "House.Room" (inr (refl, refl))

redrive-reposition_example :
    (redrive_problem estate fresh "House.Room" ≡ ok none)
    ↔ ((is_valid_reposition_target estate fresh "House.Room" ≡ ok true) × (joined fresh ≡ true))
unfolding Dict.get
redrive-reposition_example =
    redrive-reposition estate fresh "House.Room" grounds room refl refl refl

abbrev second_order : Definition
second_order = record order { version = 2; digest = some "d2" }

abbrev loaded : Dict Definition
loaded = ("@2", second_order) ∷ ("", second_order) ∷ ("@1", order) ∷ []

registry-find_example :
    (e : Definition) × (find_definition loaded order.id order.version ≡ some e)
    × In e (second_order ∷ order ∷ [])
    × (Registry.versioned e.id e.version ≡ Registry.versioned order.id order.version)
    × (e.digest ≡ order.digest)
unfolding Registry.definition_registry Registry.registry_from Registry.register_definition
    Registry.raise_to Registry.clashes Dict.get Dict.put harel.Prelude.show
registry-find_example =
    registry-find order (second_order ∷ order ∷ []) loaded (refl, (refl, tt)) (inr (inl refl)) refl
