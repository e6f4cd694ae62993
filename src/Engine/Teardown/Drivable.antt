-- ===== src/Engine/Teardown/Drivable.antt =====
-- When a definition can drive an execution.
use harel.Prelude.{◌≡◌, refl, ◌↔◌, ◌⊎◌, String, true, eq_iff, Option, none, some, arith}
use harel.Prelude.Dict
use harel.Model.{Definition}
use harel.Execution.{Execution}
use harel.Engine.Teardown.{definition_problem, states_missing, digests_differ, gone, drivable}

-- A state of the definition, or no state.
abbrev pub Stands : Definition → String → Type 0
Stands defn p = (p ≡ "") ⊎ (Dict.has p defn.index ≡ true)

-- Both digests are the same, where both are known.
abbrev pub SameDigest : Option String → Option String → Type 0
SameDigest (some d) (some e) = d ≡ e
SameDigest _ _ = Unit

same_digest : (d e : Option String) → (digests_differ d e ≡ none) ↔ SameDigest d e
unfolding digests_differ
same_digest none none = (λ h. tt, λ h. refl)
same_digest none (some e) = (λ h. tt, λ h. refl)
same_digest (some d) none = (λ h. tt, λ h. refl)
same_digest (some d) (some e) = (λ h. ground (arith, eq_iff d e), λ h. ground (arith, eq_iff d e))

-- A definition has no problem with an execution that has started and runs or is being cancelled exactly
-- when it has the states of its root and of its position and its source is the one that the execution
-- started on, where both are known.
definition_problem_iff :
    (defn : Definition) (exe : Execution) (p : String)
    → exe.active_path ≡ some p
    → drivable exe.status ≡ true
    → (definition_problem defn exe ≡ none)
      ↔ (Stands defn exe.root_path × Stands defn p × SameDigest exe.definition_digest defn.digest)
unfolding definition_problem states_missing gone
definition_problem_iff defn exe p a d =
    let digests = same_digest exe.definition_digest defn.digest in
    (
      λ h. (
        ground (arith, eq_iff exe.root_path ""),
        ground (arith, eq_iff p ""),
        digests.0 (ground arith),
      ),
      λ h. ground (arith, digests.1 (h.2), eq_iff exe.root_path "", eq_iff p ""),
    )
