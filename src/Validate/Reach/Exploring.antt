-- ===== src/Validate/Reach/Exploring.antt =====
-- The invariants of the search of `_reachable`: what is seen is reached, and what is seen is looked at.
use harel.Prelude.{
  String, ◌≡◌, refl, sym, subst, ◌⊎◌, inl, inr, true, false, ◌==◌, eq_iff, List, [], ◌∷◌, arith,
  mem, Bool-cases, In,
}
use harel.Model.{Node, path, Definition}
use harel.Validate.Reach.{Search, visit, visit_all, successors}

-- The root, and the successors of what is reached.
pub data Reaches (defn : Definition) : Node → Type 0 where
  at_root : Reaches defn defn.root
  by_step : (n m : Node) → Reaches defn n → In m (successors defn n) → Reaches defn m

abbrev pub Seen : Search → Node → Type 0
Seen s n = mem (path n) s.seen ≡ true

pub visit-Seen : (s : Search) (n m : Node) → Seen s m → Seen (visit s n) m
unfolding visit
visit-Seen s n m h = ground (arith, h)

visit_self : (s : Search) (n : Node) → Seen (visit s n) n
unfolding visit
visit_self s n = ground (arith, eq_iff (path n) (path n))

pub visit_all-Seen : (ns : List Node) (s : Search) (m : Node) → Seen s m → Seen (visit_all ns s) m
unfolding visit_all
visit_all-Seen [] s m h = h
visit_all-Seen (n ∷ ns) s m h = visit_all-Seen ns (visit s n) m (visit-Seen s n m h)

visit_all-members : (ns : List Node) (s : Search) (m : Node) → In m ns → Seen (visit_all ns s) m
unfolding visit_all
visit_all-members [] s m i = absurd i
visit_all-members (n ∷ ns) s m (inl e) =
    visit_all-Seen ns (visit s n) m (subst (λ k. Seen (visit s n) k) e (visit_self s n))
visit_all-members (n ∷ ns) s m (inr i) = visit_all-members ns (visit s n) m i

module _ (defn : Definition) where
  -- Each state seen is to be looked at, or its successors are seen.
  abbrev pub Explored : Search → Type 0
  Explored s =
      (n : Node)
      → Reaches defn n
      → Seen s n
      → In n s.work ⊎ ((m : Node) → In m (successors defn n) → Seen s m)

  -- The same of all states but the one that is looked at.
  abbrev ExploredBut : Node → Search → Type 0
  ExploredBut at s =
      (n : Node)
      → Reaches defn n
      → Seen s n
      → (n ≡ at) ⊎ (In n s.work ⊎ ((m : Node) → In m (successors defn n) → Seen s m))

  -- What is to be looked at is reached, and so is what is seen.
  pub record Sound (s : Search) : Type 0 where
    pub at_work : (n : Node) → In n s.work → Reaches defn n
    pub of_seen : (p : String) → mem p s.seen ≡ true → (n : Node) × (path n ≡ p) × Reaches defn n

  pub visit-Sound : (s : Search) (n : Node) → Reaches defn n → Sound s → Sound (visit s n)
  unfolding visit
  visit-Sound s n r h = elim (Bool-cases (mem (path n) s.seen)) [
    | inl e ↦ rw e h
    | inr e ↦ rw e added
  ]
    where
      work : (m : Node) → In m (n ∷ s.work) → Reaches defn m
      work m (inl e) = subst (Reaches defn) e r
      work m (inr i) = h.at_work m i

      seen :
          (p : String) → mem p (path n ∷ s.seen) ≡ true → (m : Node) × (path m ≡ p) × Reaches defn m
      seen p k = elim (Bool-cases (p == path n)) [
        | inl q ↦ (n, sym ((eq_iff p (path n)).0 q), r)
        | inr q ↦ h.of_seen p (ground (arith, k, q))
      ]

      added : Sound (record { seen = path n ∷ s.seen; work = n ∷ s.work })
      added = record { at_work = work; of_seen = seen }

  pub visit_all-Sound :
      (ns : List Node) (s : Search)
      → ((n : Node) → In n ns → Reaches defn n)
      → Sound s
      → Sound (visit_all ns s)
  unfolding visit_all
  visit_all-Sound [] s r h = h
  visit_all-Sound (n ∷ ns) s r h =
      visit_all-Sound ns (visit s n) (λ m i. r m (inr i)) (visit-Sound s n (r n (inl refl)) h)

  -- Reached states are told apart by their paths.
  abbrev pub Distinct : Type 0
  Distinct = (n m : Node) → Reaches defn n → Reaches defn m → path n ≡ path m → n ≡ m

  module _ (distinct : Distinct) where
    visit-Explored :
        (at : Node) (s : Search) (n : Node)
        → Reaches defn n
        → ExploredBut at s
        → ExploredBut at (visit s n)
    unfolding visit
    visit-Explored at s n r h = elim (Bool-cases (mem (path n) s.seen)) [
      | inl e ↦ subst (ExploredBut at) (sym (same e)) h
      | inr e ↦ subst (ExploredBut at) (sym (new e)) grown
    ]
      where
        added : Search
        added = record { seen = path n ∷ s.seen; work = n ∷ s.work }

        same : mem (path n) s.seen ≡ true → visit s n ≡ s
        same e = rw e refl

        new : mem (path n) s.seen ≡ false → visit s n ≡ added
        new e = rw e refl

        grown : ExploredBut at added
        grown m t k = elim (Bool-cases (path m == path n)) [
          | inl q ↦ inr (inl (inl (distinct n m r t (sym ((eq_iff (path m) (path n)).0 q)))))
          | inr q ↦ elim (h m t (ground (arith, k, q))) [
            | inl e ↦ inl e
            | inr (inl i) ↦ inr (inl (inr i))
            | inr (inr c) ↦ inr (inr (λ o i. ground (arith, c o i)))
          ]
        ]

    visit_all-Explored :
        (at : Node) (ns : List Node) (s : Search)
        → ((n : Node) → In n ns → Reaches defn n)
        → ExploredBut at s
        → ExploredBut at (visit_all ns s)
    unfolding visit_all
    visit_all-Explored at [] s r h = h
    visit_all-Explored at (n ∷ ns) s r h =
        visit_all-Explored at ns (visit s n) (λ m i. r m (inr i))
          (visit-Explored at s n (r n (inl refl)) h)

    -- One round: the state on top is looked at.
    pub round-Explored :
        (s : Search) (n : Node) (ns : List Node)
        → s.work ≡ n ∷ ns
        → Sound s
        → Explored s
        → Explored (visit_all (successors defn n) (record s { work = ns }))
    round-Explored s n ns e k h =
        let r : Reaches defn n = k.at_work n (rw e (inl refl)) in
        let next : (m : Node) → In m (successors defn n) → Reaches defn m =
          λ m i. by_step n m r i in
        let but = visit_all-Explored n (successors defn n) (record s { work = ns }) next popped in
        closed (visit_all (successors defn n) (record s { work = ns })) but
          (visit_all-members (successors defn n) (record s { work = ns }))
      where
        popped : ExploredBut n (record s { work = ns })
        popped m t q = elim (h m t q) [ inr c ↦ inr (inr c) | inl i ↦ at_top (subst (In m) e i) ]
          where
            at_top :
                In m (n ∷ ns)
                → (m ≡ n) ⊎ (In m ns ⊎ ((o : Node) → In o (successors defn m) → Seen s o))
            at_top (inl q) = inl (sym q)
            at_top (inr i) = inr (inl i)

        closed :
            (u : Search)
            → ExploredBut n u
            → ((m : Node) → In m (successors defn n) → Seen u m)
            → Explored u
        closed u but all m t q = elim (but m t q) [
          | inr o ↦ o
          | inl f ↦ inr (subst (λ k. (o : Node) → In o (successors defn k) → Seen u o) (sym f) all)
        ]
