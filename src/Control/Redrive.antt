-- ===== src/Control/Redrive.antt =====
-- The check of a redrive against the one of a reposition.
use harel.Prelude.{
  ◌≡◌, refl, ◌↔◌, inl, inr, String, true, false, not, none, some, [], ◌∷◌, arith, any, all,
  Bool-cases,
}
use harel.Prelude.Dict
use harel.Prelude.Dict.{Dict}
use harel.Model.{Node, top, under, parent, same, Definition}
use harel.Model.Navigation.{is_descendant}
use harel.Execution.{Execution, ChildState}
use harel.Engine.Result.{ok}
use harel.Engine.Regions.{joined, finished_of}
use harel.Engine.Teardown.{clear_way, way_from, is_valid_reposition_target}
use harel.Control.{region_above, redrive_problem, branch_problem, open_child}

-- The two walks agree on the ancestors of the root's branch.
region_above-clear_way :
    (root n : Node)
    → ((is_descendant n root ≡ true) × (region_above root n ≡ none)) ↔ (clear_way root n ≡ true)
unfolding region_above clear_way is_descendant
region_above-clear_way root (top i) = (λ h. ground arith, λ h. (ground arith, ground arith))
region_above-clear_way root (under i p) =
    let ih = region_above-clear_way root p in
    elim (Bool-cases (same (under i p) root)) [
      | inl e ↦ (λ h. ground (arith, e), λ h. (ground (arith, e), ground (arith, e)))
      | inr e ↦ (
        λ h. ground (arith, e, ih.0 (ground (arith, e), ground (arith, e))),
        λ h. let k = ih.1 (ground (arith, e)) in (ground (arith, e, k.0), ground (arith, e, k.1)),
      )
    ]

open-joined : (d : Dict ChildState) → any open_child d ≡ not (all finished_of d)
open-joined [] = refl
open-joined ((cid, cs) ∷ d) = ground (arith, open-joined d)

module _ (exe : Execution) (root : Node) where
  branch_problem-way_from :
      (n : Node)
      → same n root ≡ false
      → (branch_problem exe root n ≡ none)
        ↔ ((way_from root (parent n) ≡ true) × (joined exe ≡ true))
  unfolding branch_problem is_descendant joined way_from
  branch_problem-way_from (top i) d =
      (λ h. absurd (ground arith), λ h. let k : false ≡ true = h.0 in absurd (ground (arith, k)))
  branch_problem-way_from (under i p) d =
      let walk = region_above-clear_way root p in
      let closed = open-joined exe.children in
      (
        λ h. (walk.0 (ground arith, ground arith), ground (arith, closed)),
        λ h. let k = walk.1 (h.0) in ground (arith, closed, k.0, k.1),
      )

-- A redrive accepts a state other than the execution's root exactly when a reposition accepts it and
-- every child of the execution has finished.
pub redrive-reposition :
    (defn : Definition) (exe : Execution) (target : String) (root n : Node)
    → Dict.get exe.root_path defn.index ≡ some root
    → Dict.get target defn.index ≡ some n
    → same n root ≡ false
    → (redrive_problem defn exe target ≡ ok none)
      ↔ ((is_valid_reposition_target defn exe target ≡ ok true) × (joined exe ≡ true))
unfolding redrive_problem is_valid_reposition_target
redrive-reposition defn exe target root n r t d =
    let both = branch_problem-way_from exe root n d in
    (
      λ h. let k = both.0 (ground (arith, r, t)) in (ground (arith, r, t, k.0), k.1),
      λ h. ground (arith, r, t, both.1 (ground (arith, r, t), h.1)),
    )
