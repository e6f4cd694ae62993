-- ===== src/Engine/Teardown/Reposition.antt =====
-- The targets to which an execution may be moved.
use harel.Prelude.{
  ◌≡◌, refl, String, true, false, some, List, arith, Option-cases, Bool-cases, ◌⊎◌, inl, inr,
}
use harel.Prelude.Dict
use harel.Model.{Node, top, under, parent, same, Definition, is_orthogonal, is_composite}
use harel.Model.Navigation.{is_descendant, chain}
use harel.Model.Ancestry.{IsWay, chain-IsWay}
use harel.Execution.{Execution}
use harel.Engine.Result.{ok}
use harel.Engine.Teardown.{clear_way, way_from, is_valid_reposition_target}

clear_way-is_descendant :
    (root n : Node)
    → clear_way root n ≡ true
    → (is_descendant n root ≡ true) × (is_orthogonal n ≡ false)
unfolding clear_way is_descendant
clear_way-is_descendant root (top i) h = ground arith
clear_way-is_descendant root (under i p) h = ground (arith, clear_way-is_descendant root p)

-- From `n` up to the root no node is orthogonal.
abbrev pub NoRegion : Node → Node → Type 0
NoRegion root (top i) = is_orthogonal (top i) ≡ false
NoRegion root (under i p) =
    (is_orthogonal (under i p) ≡ false) × ((same (under i p) root ≡ true) ⊎ NoRegion root p)

clear_way-NoRegion : (root n : Node) → clear_way root n ≡ true → NoRegion root n
unfolding clear_way
clear_way-NoRegion root (top i) h = ground arith
clear_way-NoRegion root (under i p) h = (
  ground arith,
  elim (Bool-cases (same (under i p) root)) [
    | inl e ↦ inl e
    | inr e ↦ inr (clear_way-NoRegion root p (ground (arith, e)))
  ],
)

way_from-descends :
    (root n : Node)
    → way_from root (parent n) ≡ true
    → (p : Node) × (parent n ≡ some p) × NoRegion root p × (is_descendant n root ≡ true)
unfolding way_from is_descendant
way_from-descends root (top i) h = absurd (ground arith)
way_from-descends root (under i p) h =
    (p, refl, clear_way-NoRegion root p h, ground (arith, clear_way-is_descendant root p h))

-- A valid target of a reposition is a leaf of the definition, below the execution's root with no
-- orthogonal node between them or at the root, so the chain from the root to it exists, on which the
-- engine resolves transitions.
pub reposition-IsWay :
    (defn : Definition) (exe : Execution) (target : String) (root : Node)
    → Dict.get exe.root_path defn.index ≡ some root
    → is_valid_reposition_target defn exe target ≡ ok true
    → (n : Node) × (Dict.get target defn.index ≡ some n)
      × (is_composite n ≡ false)
      × ((p : Node) × (parent n ≡ some p) × NoRegion root p)
      × ((ns : List Node) × (chain root n ≡ some ns) × IsWay root n ns)
unfolding is_valid_reposition_target
reposition-IsWay defn exe target root r h = elim (Option-cases (Dict.get target defn.index)) [
  | inl e ↦ absurd (ground (arith, e))
  | inr (n, e) ↦
      let (p, q, region, below) = way_from-descends root n (ground (arith, e)) in
      (n, e, ground (arith, e), (p, q, region), chain-IsWay root n below)
]
