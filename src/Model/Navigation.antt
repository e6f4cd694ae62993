-- ===== src/Model/Navigation.antt =====
-- The navigation helpers of src/harel/definition/model.py. A loop that follows `.parent` recurs on the
-- node, whose parent it carries.
use harel.Prelude.{
  String, Bool, ◌||◌, Option, none, some, List, [], ◌∷◌, ◌==◌, any, split, or_else, if◌then◌else◌,
}
use harel.Prelude.Dict
use harel.Model.{Node, top, under, info, same, Definition}

-- `node` and its ancestors, innermost first.
abbrev pub lineage : Node → List Node
lineage (top i) = top i ∷ []
lineage (under i p) = under i p ∷ lineage p

unfoldable pub ancestors : Node → List Node
ancestors (top i) = []
ancestors (under i p) = lineage p

unfoldable pub is_descendant : Node → Node → Bool
is_descendant (top i) ancestor = same (top i) ancestor
is_descendant (under i p) ancestor = same (under i p) ancestor || is_descendant p ancestor

-- `out` holds the nodes met so far, in the order of the result. `none`: ValueError.
unfoldable pub climb : Node → List Node → Node → Option (List Node)
climb first out (top i) = if same (top i) first then some (top i ∷ out) else none
climb first out (under i p) =
    let rest = climb first (under i p ∷ out) p in
    if same (under i p) first then some (under i p ∷ out) else rest

unfoldable pub chain : Node → Node → Option (List Node)
chain first leaf = climb first [] leaf

-- `id(cur) in a_anc`
unfoldable pub among : Node → List Node → Bool
among n ns = any (λ m. same m n) ns

unfoldable pub meet : List Node → Node → Option Node
meet a_anc (top i) = if among (top i) a_anc then some (top i) else none
meet a_anc (under i p) =
    let rest = meet a_anc p in if among (under i p) a_anc then some (under i p) else rest

unfoldable pub lca : Node → Node → Option Node
lca a b = meet (a ∷ ancestors a) b

module _ (defn : Definition) where
  unfoldable pub first_named : String → List String → Option Node
  first_named name [] = none
  first_named name (p ∷ ps) =
      let rest = first_named name ps in
      elim (Dict.get p defn.index) [
        | none ↦ rest
        | some c ↦ if (info c).name == name then some c else rest
      ]

  unfoldable pub child : Node → String → Option Node
  child node name = first_named name (info node).children

  unfoldable pub descend_by : List String → Option Node → Option Node
  descend_by [] node = node
  descend_by (seg ∷ segs) none = descend_by segs none
  descend_by (seg ∷ segs) (some n) = descend_by segs (child n seg)

  unfoldable pub descend : Node → String → Option Node
  descend scope name = descend_by (split 46 name) (some scope)

  unfoldable pub resolve_relative : Node → String → Option Node
  resolve_relative (top i) name = descend (top i) name
  resolve_relative (under i p) name = or_else (descend (under i p) name) (resolve_relative p name)
