-- ===== src/Hosting.antt =====
-- How a runner of src/harel/engine/hosting.py finds the definition that an execution runs on. The runner's
-- registry is an argument; what the store has published is read there, and built by `PublishedDefinitions`.
pub mod Worker
pub mod Sender
pub mod Durable
pub mod Handled
pub mod Once
pub mod Typed
pub mod Fired
use harel.Prelude.{
  ℕ, zero, suc, String, Bool, true, false, not, ◌&&◌, ◌||◌, ◌==◌, eqb, Option, none, some, List, [],
  ◌∷◌, is_some, if◌then◌else◌,
}
use harel.Prelude.Dict
use harel.Prelude.Dict.{Dict}
use harel.Model.{Definition}
use harel.Execution.{Execution}
use harel.Registry.{version_of, of_version, find_definition, register_definition}
use harel.Store.{Memory, DefinitionRecord}
use harel.Store.Commits.{load}
use harel.Store.Pending.{load_definition}

-- `own` has the definitions of a machine's inline submachines; `resolver` is the runner's, if it has one; `build`
-- makes a definition of a published record, or fails.
pub record Runner : Type 0 where
  pub definitions : Dict Definition
  pub own : Definition → String → Option Definition
  pub resolver : Option (String → Option Definition)
  pub build : DefinitionRecord → Option Definition

-- A lookup's end: `unusable` is a DefinitionNotLoaded raised for a record that cannot be built.
pub data Lookup : Type 0 where
  found : Definition → Lookup
  absent : Lookup
  unusable : Lookup

-- `local.digest is None or exe.definition_digest in (None, local.digest)`
abbrev pub agrees : Option String → Option String → Bool
agrees none kept = true
agrees (some d) none = true
agrees (some d) (some e) = e == d

-- `exe.definition_digest in (None, published.digest)`
abbrev pub is_same_source : Option String → Option String → Bool
is_same_source d none = true
is_same_source none (some e) = false
is_same_source (some d) (some e) = e == d

module _ (w : Runner) where
  -- The registry with the machine of a name, or `none` for ResolveError.
  unfoldable pub resolve_into : String → Option (Dict Definition)
  resolve_into fqn = elim (Dict.get fqn w.definitions) [
    | some defn ↦ some w.definitions
    | none ↦ elim w.resolver [
      | none ↦ none
      | some resolve ↦ elim (resolve fqn) [
        | none ↦ none
        | some defn ↦ some (register_definition w.definitions defn)
      ]
    ]
  ]

  abbrev pub find_in : Option (Dict Definition) → String → ℕ → Option Definition
  find_in none name version = none
  find_in (some definitions) name version = find_definition definitions name version

  unfoldable pub find_by_name : Execution → Option String → Option Definition
  find_by_name exe none = none
  find_by_name exe (some fqn) =
      find_in (resolve_into fqn) exe.definition_id (version_of exe.definition_version)

  -- `_find_local`
  unfoldable pub find_local : Execution → Option Definition
  find_local exe =
      elim (find_definition w.definitions exe.definition_id (version_of exe.definition_version)) [
        | some defn ↦ some defn
        | none ↦ find_by_name exe exe.definition_fqn
      ]

  abbrev pub built : Option DefinitionRecord → Lookup
  built none = absent
  built (some r) = elim (w.build r) [ none ↦ unusable | some defn ↦ found defn ]

  -- What remains when the runner's own definition is not on the execution's source.
  abbrev pub or_local : Option Definition → Lookup
  or_local none = absent
  or_local (some defn) = found defn

  unfoldable pub choose_published : Execution → Option Definition → Lookup → Lookup
  choose_published exe mine absent = or_local mine
  choose_published exe mine unusable = unusable
  choose_published exe mine (found published) =
      if is_same_source published.digest exe.definition_digest
      then found published
      else or_local mine

  unfoldable pub choose_local : Execution → Option Definition → Lookup → Lookup
  choose_local exe none published = choose_published exe none published
  choose_local exe (some mine) published =
      if agrees mine.digest exe.definition_digest
      then found mine
      else choose_published exe (some mine) published

  -- A submachine of the parent's definition, in the execution's version.
  abbrev pub child_in : Execution → String → Lookup → Lookup
  child_in exe fqn absent = unusable
  child_in exe fqn unusable = unusable
  child_in exe fqn (found parent) =
      or_local (of_version (version_of exe.definition_version) (w.own parent fqn))

  unfoldable pub published_child :
      (Execution → Lookup) → Memory → Execution → String → Option ℕ → Lookup
  published_child up m exe fqn none = absent
  published_child up m exe fqn (some r) = child_in exe fqn (up (m.heap r))

  -- `_published_flow`, where `up` is the lookup for the parent.
  unfoldable pub published : (Execution → Lookup) → Memory → Execution → Lookup
  published up m exe = elim exe.definition_fqn [
    | none ↦ built (load_definition exe.definition_id (version_of exe.definition_version) m.store)
    | some fqn ↦ elim exe.parent_id [
      | none ↦ absent
      | some id ↦ published_child up m exe fqn (load m id)
    ]
  ]

  -- `_defn_flow`, for an execution at most so many parents deep.
  unfoldable pub defn_of : ℕ → Memory → Execution → Lookup
  defn_of zero m exe = absent
  defn_of (suc depth) m exe = choose_local exe (find_local exe) (published (defn_of depth m) m exe)

  -- `none`: DefinitionNotLoaded.
  abbrev pub loaded : Lookup → Option Definition
  loaded absent = none
  loaded unusable = none
  loaded (found defn) = some defn

-- `_new_defn`: a version, else the highest. `none`: KeyError.
unfoldable pub new_defn : Dict Definition → String → Option ℕ → Option Definition
new_defn definitions id none = Dict.get id definitions
new_defn definitions id (some version) = find_definition definitions id version
