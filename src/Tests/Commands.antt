-- ===== src/Tests/Commands.antt =====
-- The theorems on the lifecycle commands at a shop that is open.
use harel.Prelude.{ℕ, ◌≡◌, refl, some, [], ◌∷◌}
use harel.Prelude.Dict
use harel.Prelude.Int.{pos}
use harel.Value.{Value, int}
use harel.Model.Navigation
use harel.Execution.{Status}
use harel.Engine.Guard
use harel.Engine.Resolve
use harel.Engine.Teardown
use harel.Store.{Memory, empty}
use harel.Store.Commits.{load}
use harel.Control.Commands.{returned, suspend, resume}
use harel.Control.Cancelling
use harel.Control.Suspended.{Restored, suspend-resume}
use harel.Control.Cancelled.{Cancelled}
use harel.Tests.Machines.{running_at}

abbrev open_shop : Memory
open_shop = record {
  heap = λ n. (running_at "Open").exe;
  store = record empty { by_id = ("x", 0) ∷ [] };
}

-- A reading of the clock as a value.
abbrev ticks : ℕ → Value
ticks n = int (pos n)

suspend-resume_example :
    (n : Memory) × (o : Memory) × (suspend (λ k. k) ticks 1 5 "x" open_shop ≡ returned n)
    × ((n.heap 0).status ≡ Status.suspended)
    × (resume (λ k. k) ticks 1 9 "x" n ≡ returned o)
    × (load o "x" ≡ some 0)
    × Restored (running_at "Open").exe (o.heap 0)
unfolding Dict.get
suspend-resume_example = suspend-resume ticks 0 5 9 "x" open_shop 0 refl refl refl refl
