-- ===== src/Engine/Process/Inert.antt =====
-- The events that an execution at rest ignores.
use harel.Prelude.{◌≡◌, true, false, [], ◌∷◌, arith, mem, not, ◌&&◌, ◌==◌}
use harel.Events.{Event}
use harel.Execution.{is_running, is_finished}
use harel.Engine.Result.{ok}
use harel.Engine.Effects.{Env, World, ◌>>=◌}
use harel.Engine.Process.{
  process, on_cancel, on_start, on_timeout, on_expiry, on_domain, is_pending,
}

module _ (env : Env) (ev : Event) (w : World) where
  on_start_inert : is_pending w.exe.status ≡ false → on_start env ev w ≡ (ok tt, w)
  unfolding on_start ◌>>=◌
  on_start_inert h = ground arith

  on_expiry_inert : is_running w.exe.status ≡ false → on_expiry env ev w ≡ (ok tt, w)
  unfolding on_expiry ◌>>=◌
  on_expiry_inert h = ground arith

  on_timeout_inert : is_running w.exe.status ≡ false → on_timeout env ev w ≡ (ok tt, w)
  unfolding on_timeout ◌>>=◌
  on_timeout_inert h = ground (arith, on_expiry_inert h)

  on_domain_inert : is_running w.exe.status ≡ false → on_domain env ev w ≡ (ok tt, w)
  unfolding on_domain ◌>>=◌
  on_domain_inert h = ground arith

  on_cancel_inert : is_finished w.exe.status ≡ true → on_cancel env ev w ≡ (ok tt, w)
  unfolding on_cancel ◌>>=◌
  on_cancel_inert h = ground arith

  -- An execution that neither runs nor waits to be started is left as it is, with nothing yielded, by
  -- every event but Reset, SetState and Finished, and by a Cancel where it is done or cancelled.
  pub process_inert :
      is_running w.exe.status ≡ false
      → is_pending w.exe.status ≡ false
      → mem ev.kind ("Reset" ∷ "SetState" ∷ "Finished" ∷ []) ≡ false
      → (ev.kind == "Cancel" && not (is_finished w.exe.status)) ≡ false
      → process env ev w ≡ (ok tt, w)
  unfolding process
  process_inert h g k c =
      ground (arith, on_start_inert g, on_timeout_inert h, on_domain_inert h, on_cancel_inert)
