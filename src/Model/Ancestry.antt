-- ===== src/Model/Ancestry.antt =====
-- The navigation helpers against the tree: least common ancestors and chains.
use text.Mathlib.TextPositions.{eq_refl}
use harel.Prelude.{
  ◌≡◌, refl, sym, subst, ◌∙◌, ap, inl, inr, true, ◌==◌, eq_iff, Option, none, some, List, [], ◌∷◌,
  arith, any, Bool-cases,
}
use harel.Model.{Node, top, under, path, parent, same}
use harel.Model.Navigation.{lineage, ancestors, is_descendant, climb, chain, among, meet, lca}

is_descendant-among : (a c : Node) → is_descendant a c ≡ among c (lineage a)
unfolding is_descendant among
is_descendant-among (top i) c = ground arith
is_descendant-among (under i p) c = ground (arith, is_descendant-among p c)

self-ancestors : (a : Node) → lineage a ≡ a ∷ ancestors a
unfolding ancestors
self-ancestors (top i) = refl
self-ancestors (under i p) = refl

among-same : (m n : Node) (ns : List Node) → same m n ≡ true → among m ns ≡ among n ns
unfolding among
among-same m n ns h = ap (λ p. any (λ k. path k == p) ns) ((eq_iff (path m) (path n)).0 h)

module _ (ns : List Node) where
  meet-common : (b c : Node) → meet ns b ≡ some c → (among c ns ≡ true) × (is_descendant b c ≡ true)
  unfolding meet is_descendant
  meet-common (top i) c h = ground (arith, eq_refl i.full_path)
  meet-common (under i p) c h = ground (arith, eq_refl i.full_path, meet-common p c)

  meet-lowest :
      (b c d : Node)
      → meet ns b ≡ some c
      → among d ns ≡ true
      → is_descendant b d ≡ true
      → is_descendant c d ≡ true
  unfolding meet is_descendant
  meet-lowest (top i) c d h k e = ground (arith, among-same (top i) d ns)
  meet-lowest (under i p) c d h k e = ground (arith, among-same (under i p) d ns, meet-lowest p c d)

  meet-total :
      (b r : Node)
      → among r ns ≡ true
      → is_descendant b r ≡ true
      → (c : Node) × (meet ns b ≡ some c)
  unfolding meet is_descendant
  meet-total (top i) r k e = (top i, rw (among-same (top i) r ns e) (rw k))
  meet-total (under i p) r k e = elim (Bool-cases (among (under i p) ns)) [
    | inl a ↦ (under i p, rw a)
    | inr a ↦
        let (c, q) = meet-total p r k (ground (arith, among-same (under i p) r ns)) in (c, rw a q)
  ]

module _ (a b : Node) where
  lca-meet : lca a b ≡ meet (lineage a) b
  unfolding lca
  lca-meet = rw self-ancestors

  -- The least common ancestor is an ancestor of both nodes, or one of them.
  lca-common :
      (c : Node) → lca a b ≡ some c → (is_descendant a c ≡ true) × (is_descendant b c ≡ true)
  lca-common c h =
      let (in_a, of_b) = meet-common (lineage a) b c (sym lca-meet ∙ h) in
      (is_descendant-among a c ∙ in_a, of_b)

  -- Where two nodes have a common ancestor, which may be one of them, `lca` does not raise and answers
  -- a common ancestor that is below every other one, or is it.
  lca-lowest :
      (d : Node)
      → is_descendant a d ≡ true
      → is_descendant b d ≡ true
      → (c : Node) × (lca a b ≡ some c)
        × (is_descendant a c ≡ true)
        × (is_descendant b c ≡ true)
        × (is_descendant c d ≡ true)
  lca-lowest d p q =
      let k = sym (is_descendant-among a d) ∙ p in
      let (c, e) = meet-total (lineage a) b d k q in
      let h = lca-meet ∙ e in
      (c, h, (lca-common c h).0, (lca-common c h).1, meet-lowest (lineage a) b c d e k q)

-- `ns` leads down from `n`: each node is the parent of the next.
abbrev pub LeadsDown : Node → List Node → Type 0
LeadsDown n [] = Unit
LeadsDown n (m ∷ ms) = (parent m ≡ some n) × LeadsDown m ms

abbrev pub last_of : Node → List Node → Node
last_of n [] = n
last_of n (m ∷ ms) = last_of m ms

-- A way from a node at the path of `first` down to `leaf`, both included.
abbrev pub IsWay : Node → Node → List Node → Type 0
IsWay first leaf [] = ⊥
IsWay first leaf (n ∷ ns) = (same n first ≡ true) × LeadsDown n ns × (last_of n ns ≡ leaf)

abbrev WayIfAny : Node → Node → Option (List Node) → Type 0
WayIfAny first leaf none = Unit
WayIfAny first leaf (some ns) = IsWay first leaf ns

climb_way :
    (first leaf cur : Node) (out : List Node)
    → LeadsDown cur out
    → last_of cur out ≡ leaf
    → WayIfAny first leaf (climb first out cur)
unfolding climb
climb_way first leaf (top i) out d l = elim (Bool-cases (same (top i) first)) [
  | inl e ↦ rw e (e, d, l)
  | inr e ↦ rw e tt
]
climb_way first leaf (under i p) out d l = elim (Bool-cases (same (under i p) first)) [
  | inl e ↦ rw e (e, d, l)
  | inr e ↦ rw e (climb_way first leaf p (under i p ∷ out) (refl, d) l)
]

climb-total :
    (first cur : Node) (out : List Node)
    → is_descendant cur first ≡ true
    → (ns : List Node) × (climb first out cur ≡ some ns)
unfolding climb is_descendant
climb-total first (top i) out h = (top i ∷ out, rw h)
climb-total first (under i p) out h = elim (Bool-cases (same (under i p) first)) [
  | inl e ↦ (under i p ∷ out, rw e)
  | inr e ↦ let (ns, q) = climb-total first p (under i p ∷ out) (ground (arith, e)) in (ns, rw e q)
]

-- Where `first` is `leaf` or an ancestor of it, `chain` answers a list that leads from the one down to
-- the other, each node the parent of the next.
pub chain-IsWay :
    (first leaf : Node)
    → is_descendant leaf first ≡ true
    → (ns : List Node) × (chain first leaf ≡ some ns) × IsWay first leaf ns
unfolding chain
chain-IsWay first leaf h =
    let (ns, q) = climb-total first leaf [] h in
    (ns, q, subst (WayIfAny first leaf) q (climb_way first leaf leaf [] tt refl))

pub made-IsWay :
    (first leaf : Node) (ns : List Node) → chain first leaf ≡ some ns → IsWay first leaf ns
unfolding chain
made-IsWay first leaf ns h = subst (WayIfAny first leaf) h (climb_way first leaf leaf [] tt refl)
