-- ===== src/Engine/Signals/Stale.antt =====
-- Timers that fire after what they were armed for is over.
use harel.Prelude.{String, ◌≡◌, refl, ◌⊎◌, inl, inr, true, false, ◌==◌, some, arith, Bool-cases}
use harel.Prelude.Dict
use harel.Value.{Value, value_eq}
use harel.Events.{Event}
use harel.Execution.{is_running}
use harel.Engine.Result.{ok}
use harel.Engine.Effects.{Env, World, ◌>>=◌}
use harel.Engine.Resolve.{is_active}
use harel.Engine.Start.{ttl_path}
use harel.Engine.Process.{process, on_timeout, on_expiry, time_out_at, opt_value}
use harel.Engine.Signals.{timeout_event}

module _ (env : Env) (w : World) (fire_at : Value) where
  expiry_stale :
      (p : String)
      → value_eq env.floats fire_at (opt_value w.exe.expires_at) ≡ false
      → on_expiry env (timeout_event env.floats w.exe.id p fire_at) w ≡ (ok tt, w)
  unfolding on_expiry timeout_event Dict.get ◌>>=◌
  expiry_stale p h = ground (arith, h)

  time_out_stale :
      (p : String) (ev : Event)
      → is_active env.defn w.exe p ≡ ok false
      → time_out_at env ev (some p) w ≡ (ok tt, w)
  unfolding time_out_at ◌>>=◌
  time_out_stale p ev h = ground (arith, h)

  -- A timer's event changes nothing and yields nothing where it is stale: it is the `ttl` timer's with a
  -- deadline that is not the one armed last, or a state's that is not in the active configuration.
  pub timeout_stale :
      (p : String)
      → ((p == ttl_path) ≡ true)
          × (value_eq env.floats fire_at (opt_value w.exe.expires_at) ≡ false)
        ⊎ ((p == ttl_path) ≡ false) × (is_active env.defn w.exe p ≡ ok false)
      → process env (timeout_event env.floats w.exe.id p fire_at) w ≡ (ok tt, w)
  unfolding process on_timeout timeout_event Dict.get ◌>>=◌
  timeout_stale p (inl (q, h)) = rw (q, expiry_stale p h)
  timeout_stale p (inr (q, h)) = rw q (elim (Bool-cases (is_running w.exe.status)) [
    | inl r ↦ rw r (time_out_stale p _ h)
    | inr r ↦ rw r refl
  ])
