-- ===== src/Registry.antt =====
-- The registry of definitions in src/harel/engine/resolve.py, and `definition_for` of
-- src/harel/engine/driving.py: which definition drives an execution.
pub mod Loaded
use harel.Prelude.{
  ℕ, zero, suc, String, Bool, true, false, not, ◌&&◌, ◌||◌, ◌==◌, eqb, ltb, Option, none, some,
  List, [], ◌∷◌, is_some, if◌then◌else◌, show, ◌^^◌,
}
use harel.Prelude.Dict
use harel.Prelude.Dict.{Dict}
use harel.Model.{Definition}
use harel.Execution.{Execution}

-- f"{name}@{version}"
abbrev pub versioned : String → ℕ → String
versioned name version = name ^^ "@" ^^ show version

-- Adds the definition under its name where it is the highest version there.
unfoldable pub raise_to : Definition → Option Definition → Dict Definition → Dict Definition
raise_to defn none definitions = Dict.put defn.id defn definitions
raise_to defn (some current) definitions =
    if ltb current.version defn.version then Dict.put defn.id defn definitions else definitions

unfoldable pub register_definition : Dict Definition → Definition → Dict Definition
register_definition definitions defn =
    let added : Dict Definition = Dict.put (versioned defn.id defn.version) defn definitions in
    raise_to defn (Dict.get defn.id added) added

-- `a == b` of two digests
abbrev pub same_digest : Option String → Option String → Bool
same_digest none none = true
same_digest (some d) (some e) = d == e
same_digest _ _ = false

-- Whether the version is loaded with different content.
unfoldable pub clashes : Dict Definition → Definition → Bool
clashes out defn = elim (Dict.get (versioned defn.id defn.version) out) [
  | none ↦ false
  | some prev ↦ not (same_digest prev.digest defn.digest)
]

-- `none`: ValueError.
unfoldable pub registry_from : Dict Definition → List Definition → Option (Dict Definition)
registry_from out [] = some out
registry_from out (defn ∷ definitions) =
    let rest = registry_from (register_definition out defn) definitions in
    if clashes out defn then none else rest

unfoldable pub definition_registry : List Definition → Option (Dict Definition)
definition_registry definitions = registry_from [] definitions

abbrev pub of_version : ℕ → Option Definition → Option Definition
of_version version none = none
of_version version (some defn) = if not (eqb defn.version version) then none else some defn

unfoldable pub find_definition : Dict Definition → String → ℕ → Option Definition
find_definition definitions name version = elim (Dict.get (versioned name version) definitions) [
  | some defn ↦ some defn
  | none ↦ of_version version (Dict.get name definitions)
]

-- `exe.definition_version or 1`
abbrev pub version_of : Option ℕ → ℕ
version_of none = 1
version_of (some zero) = 1
version_of (some (suc n)) = suc n

abbrev pub found_in : Option (Dict Definition) → Execution → Option Definition
found_in none exe = none
found_in (some definitions) exe =
    find_definition definitions exe.definition_id (version_of exe.definition_version)

abbrev pub is_unlisted : Option (Dict Definition) → Execution → Bool
is_unlisted none exe = true
is_unlisted (some definitions) exe = not (Dict.has exe.definition_id definitions)

-- `none`: DefinitionNotLoaded.
unfoldable pub definition_for :
    Definition → Option (Dict Definition) → Execution → Option Definition
definition_for defn definitions exe = elim (found_in definitions exe) [
  | some found ↦ some found
  | none ↦
      if eqb defn.version (version_of exe.definition_version) && is_unlisted definitions exe
      then some defn
      else none
]
