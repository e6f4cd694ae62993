-- ===== src/Engine/Regions/Forks.antt =====
-- The children that a fork creates.
use mathlib.Core.List.{append-nil, append_assoc}
use text.Mathlib.TextPositions.{eq_refl}
use text.Mathlib.TextLemmas.{append_cancel_left, append_cancel_right}
use harel.Prelude.{
  ℕ, ◌≡◌, refl, sym, subst, ◌∙◌, All, ap, inl, inr, String, false, ◌==◌, eq_iff, some, List, [],
  ◌∷◌, ◌++◌, arith, show, ◌^^◌, all, map, Bool-cases,
}
use harel.Prelude.Dict
use harel.Prelude.Dict.{Dict, get-put}
use harel.Model.{NodeInfo}
use harel.Execution.{Execution, ChildState}
use harel.Engine.Effects.{ChildSpec}
use harel.Engine.Regions.{
  regions, fork_from, region_at, child_id_at, owned_by, seq_of, joined, passed, finished_of,
}

-- The ids of two regions are apart where their paths are.
pub child_id_at-injective :
    (exe : Execution) (n : ℕ) (p q : String) → child_id_at exe p n ≡ child_id_at exe q n → p ≡ q
unfolding child_id_at
child_id_at-injective exe n p q h = append_cancel_left ":" p q (
    append_cancel_left exe.id (":" ^^ p) (":" ^^ q)
      (append_cancel_right (owned_by exe p) (owned_by exe q) (":" ^^ show n) h))

all-get :
    (d : Dict ChildState) (k : String) (cs : ChildState)
    → Dict.get k d ≡ some cs
    → cs.finished ≡ false
    → all finished_of d ≡ false
unfolding Dict.get
all-get [] k cs h f = absurd (ground arith)
all-get ((j, c) ∷ d) k cs h f = ground (arith, all-get d k cs)

module _ (exe : Execution) (n : NodeInfo) (entry : ℕ) where
  abbrev pub spec_at : String → ChildSpec
  spec_at p = record {
    child_id = child_id_at exe p entry;
    root_path = p;
    context = passed exe.context n.invoke_with;
  }

  regions-specs :
      (ps : List String) (children : Dict ChildState) (specs : List ChildSpec)
      → (regions exe n entry ps children specs).1 ≡ specs ++ map spec_at ps
  unfolding regions
  regions-specs [] children specs = sym (append-nil specs)
  regions-specs (p ∷ ps) children specs =
      regions-specs ps (Dict.put (child_id_at exe p entry) (region_at p) children)
        (specs ++ spec_at p ∷ [])
      ∙ append_assoc specs (spec_at p ∷ []) (map spec_at ps)

  abbrev pub Holds : Dict ChildState → String → Type 0
  Holds children p = Dict.get (child_id_at exe p entry) children ≡ some (region_at p)

  put-Holds :
      (p r : String) (children : Dict ChildState)
      → Holds children r
      → Holds (Dict.put (child_id_at exe p entry) (region_at p) children) r
  put-Holds p r children h =
      rw get-put (elim (Bool-cases (child_id_at exe p entry == child_id_at exe r entry)) [
        | inl e ↦
            rw e (
              ap (λ q. some (region_at q)) (child_id_at-injective exe entry p r ((eq_iff _ _).0 e)))
        | inr e ↦ rw e h
      ])

  put-Holds_self :
      (p : String) (children : Dict ChildState)
      → Holds (Dict.put (child_id_at exe p entry) (region_at p) children) p
  put-Holds_self p children = rw (get-put, eq_refl (child_id_at exe p entry))

  regions-keeps :
      (ps : List String) (children : Dict ChildState) (specs : List ChildSpec) (r : String)
      → Holds children r
      → Holds (regions exe n entry ps children specs).0 r
  unfolding regions
  regions-keeps [] children specs r h = h
  regions-keeps (p ∷ ps) children specs r h =
      regions-keeps ps (Dict.put (child_id_at exe p entry) (region_at p) children)
        (specs ++ spec_at p ∷ []) r (put-Holds p r children h)

  regions-Holds :
      (ps : List String) (children : Dict ChildState) (specs : List ChildSpec)
      → All (Holds (regions exe n entry ps children specs).0) ps
  unfolding regions
  regions-Holds [] children specs = tt
  regions-Holds (p ∷ ps) children specs =
      let children' : Dict ChildState = Dict.put (child_id_at exe p entry) (region_at p) children in
      (
        regions-keeps ps children' (specs ++ spec_at p ∷ []) p (put-Holds_self p children),
        regions-Holds ps children' (specs ++ spec_at p ∷ []),
      )

module _ (exe : Execution) (n : NodeInfo) where
  -- A fork asks for one child for each region of the node, in order, rooted at the region and started
  -- with what the node passes down, and records each under its id as a region that has not finished.
  pub fork-regions :
      ((fork_from exe n).1 ≡ map (spec_at exe n (seq_of exe n.full_path)) n.children)
      × All (Holds exe n (seq_of exe n.full_path) (fork_from exe n).0) n.children
  unfolding fork_from
  fork-regions = (
    regions-specs exe n (seq_of exe n.full_path) n.children [] [],
    regions-Holds exe n (seq_of exe n.full_path) n.children [] [],
  )

  -- After the fork of a node with a region at all, the join is shut.
  joined-fork :
      (p : String) (ps : List String)
      → n.children ≡ p ∷ ps
      → joined (record exe { children = (fork_from exe n).0 }) ≡ false
  unfolding joined
  joined-fork p ps h =
      all-get (fork_from exe n).0 (child_id_at exe p (seq_of exe n.full_path)) (region_at p)
        (subst (All (Holds exe n (seq_of exe n.full_path) (fork_from exe n).0)) h fork-regions.1).0
        refl
