-- ===== src/Validate/Branches.antt =====
-- What the validation promises of the branches of a selector.
use harel.Prelude.{
  String, ◌≡◌, refl, inl, inr, false, not, Option, none, some, arith, gather, In, is_some,
  Bool-cases,
}
use harel.Model.{Node, info, path, Transition, Selector, Definition}
use harel.Model.Navigation.{resolve_relative}
use harel.Validate.States.{
  check_selectors, check_selector, check_branch, branches_of, check_enum, has_branches,
}
use harel.Validate.Clean.{Clean, Clean-append, Clean-gather, Clean-flag}

found : {A : Type 0} (o : Option A) → not (is_some o) ≡ false → (a : A) × (o ≡ some a)
found none h = absurd (ground (arith, h))
found (some a) h = (a, refl)

selector-Clean :
    (defn : Definition) (n : Node) (t : Transition) (sel : Selector)
    → t.selector ≡ some sel
    → Clean (check_selector defn n t)
    → Clean (gather (check_branch defn n) (branches_of sel))
unfolding check_selector
selector-Clean defn n t sel e h = elim (Bool-cases (has_branches sel.mapper)) [
  | inl q ↦
      (Clean-append (gather (check_branch defn n) (branches_of sel)) (check_enum n sel)
        (ground (arith, h, e, q))).0
  | inr q ↦ absurd (ground (arith, h, e, q))
]

-- Each branch of a selector without an error names a state.
pub branch-resolves :
    (defn : Definition) (n : Node) (t : Transition) (sel : Selector) (k name : String)
    → Clean (check_selectors defn n)
    → In t (info n).transitions
    → t.selector ≡ some sel
    → In (k, name) (branches_of sel)
    → (target : Node) × (resolve_relative defn n name ≡ some target)
unfolding check_selectors check_branch
branch-resolves defn n t sel k name all m e b =
    let own = Clean-gather (check_selector defn n) t (info n).transitions m all in
    let branch =
      Clean-gather (check_branch defn n) (k, name) (branches_of sel) b
        (selector-Clean defn n t sel e own) in
    found (resolve_relative defn n name) (
      Clean-flag (not (is_some (resolve_relative defn n name))) "selector_target_unresolved"
        (path n) branch)
