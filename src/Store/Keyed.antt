-- ===== src/Store/Keyed.antt =====
-- Every state of the in-memory store that its operations reach has one timer for each execution and path.
use harel.Prelude.Dict.{Dict}
use harel.Value.{Value}
use harel.Store.{DictStore}
use harel.Store.Timed.{Distinct}
use harel.Store.Reached.{Reached}

abbrev pub IsKeyed : DictStore → Type 0
IsKeyed s = Distinct s.timers
