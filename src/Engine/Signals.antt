-- ===== src/Engine/Signals.antt =====
-- The events that a driver of src/harel/engine/core.py makes: a due timer's `Timeout` and a failed
-- action's `error`.
pub mod Stale
use harel.Prelude.{String, [], ◌∷◌, ◌^^◌}
use harel.Value.{Value, Floats, str, to_str}
use harel.Events.{Event}

-- The id is the same for every sweep of one timer.
unfoldable pub timeout_event : Floats → String → String → Value → Event
timeout_event fl execution_id path fire_at = record {
  id = "timeout:" ^^ execution_id ^^ ":" ^^ path ^^ ":" ^^ to_str fl fire_at;
  kind = "Timeout";
  payload = ("path", str path) ∷ ("fire_at", fire_at) ∷ [];
}

-- From an id, and the exception's type name and message.
unfoldable pub error_event : String → String → String → Event
error_event id name message = record {
  id = id;
  kind = "error";
  payload = ("type", str name) ∷ ("message", str message) ∷ [];
}
