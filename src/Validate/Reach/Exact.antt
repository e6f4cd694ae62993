-- ===== src/Validate/Reach/Exact.antt =====
-- The states that `_reachable` finds are those that the relation of its steps reaches.
use harel.Prelude.{
  ℕ, zero, suc, String, ◌≡◌, refl, sym, subst, inl, inr, true, eq_iff, some, List, [], ◌∷◌, arith,
  mem, In, All-In, ap,
}
use harel.Prelude.Dict
use harel.Prelude.Dict.{Dict}
use harel.Validate.Reach.Ends.{Own, successors-Own}
use harel.Model.{Node, path, Definition}
use harel.Validate.Reach.{Search, visit, visit_all, successors, search, begin, reachable}
use harel.Validate.Reach.Exploring.{
  Reaches, at_root, by_step, Seen, Distinct, Explored, Sound, visit_all-Seen, visit-Sound,
  visit_all-Sound, round-Explored,
}

module _ (defn : Definition) (distinct : Distinct defn) where
  -- What the loop leaves is closed, and has what was seen before.
  record Closed (s : Search) (seen : List String) : Type 0 where
    keeps : (n : Node) → Seen s n → mem (path n) seen ≡ true
    closed :
        (n m : Node)
        → Reaches defn n
        → mem (path n) seen ≡ true
        → In m (successors defn n)
        → mem (path m) seen ≡ true
    sound : (p : String) → mem p seen ≡ true → (n : Node) × (path n ≡ p) × Reaches defn n

  finished :
      (s : Search) (seen : List String)
      → s.work ≡ []
      → s.seen ≡ seen
      → Sound defn s
      → Explored defn s
      → Closed s seen
  finished s seen e f k h = record {
    keeps = λ n q. rw (sym f) q;
    closed = λ n m r q i. rw (sym f) (done n r (rw f q) m i);
    sound = λ p q. k.of_seen p (rw f q);
  }
    where
      done :
          (n : Node) → Reaches defn n → Seen s n → (m : Node) → In m (successors defn n) → Seen s m
      done n r q = elim (h n r q) [ inr c ↦ c | inl i ↦ absurd (subst (In n) e i) ]

  search-Closed :
      (k : ℕ) (s : Search) (work : List Node) (seen : List String)
      → s.work ≡ work
      → search defn k s ≡ some seen
      → Sound defn s
      → Explored defn s
      → Closed s seen
  unfolding search
  search-Closed zero s [] seen e h k x = finished s seen e (ground (arith, h, e)) k x
  search-Closed (suc b) s [] seen e h k x = finished s seen e (ground (arith, h, e)) k x
  search-Closed zero s (n ∷ ns) seen e h k x = absurd (ground (arith, h, e))
  search-Closed (suc b) s (n ∷ ns) seen e h k x =
      let popped : Search = record s { work = ns } in
      let next = visit_all (successors defn n) popped in
      let r : Reaches defn n = k.at_work n (rw e (inl refl)) in
      let below : Sound defn popped = record {
        at_work = λ m i. k.at_work m (rw e (inr i));
        of_seen = k.of_seen;
      } in
      let c =
        search-Closed b next next.work seen refl (ground (arith, h, e))
          (visit_all-Sound defn (successors defn n) popped (λ m i. by_step n m r i) below)
          (round-Explored defn distinct s n ns e k x) in
      record {
        keeps = λ m q. c.keeps m (visit_all-Seen (successors defn n) popped m q);
        closed = c.closed;
        sound = c.sound;
      }

  begin-Sound : Sound defn (begin defn)
  unfolding visit
  begin-Sound = visit-Sound defn (record { seen = []; work = [] }) defn.root at_root nothing
    where
      nothing : Sound defn (record { seen = []; work = [] })
      nothing = record { at_work = λ n i. absurd i; of_seen = λ p h. absurd (ground (arith, h)) }

  begin-Explored : Explored defn (begin defn)
  unfolding visit
  begin-Explored n r h = inl (inl (distinct defn.root n at_root r (sym (at h))))
    where
      at : mem (path n) (path defn.root ∷ []) ≡ true → path n ≡ path defn.root
      at k = (eq_iff (path n) (path defn.root)).0 (ground (arith, k))

  begin-Seen : Seen (begin defn) defn.root
  unfolding visit
  begin-Seen = ground (arith, eq_iff (path defn.root) (path defn.root))

  reached-Seen :
      (seen : List String)
      → Closed (begin defn) seen
      → (n : Node) → Reaches defn n
      → mem (path n) seen ≡ true
  reached-Seen seen c _ at_root = c.keeps defn.root begin-Seen
  reached-Seen seen c _ (by_step n m r i) = c.closed n m r (reached-Seen seen c n r) i

  found_exactly :
      (bound : ℕ) (seen : List String)
      → reachable defn bound ≡ some seen
      → ((n : Node) → Reaches defn n → mem (path n) seen ≡ true)
        × ((p : String) → mem p seen ≡ true → (n : Node) × (path n ≡ p) × Reaches defn n)
  unfolding reachable
  found_exactly bound seen h =
      let c =
        search-Closed bound (begin defn) (begin defn).work seen refl h begin-Sound begin-Explored in
      (λ n r. reached-Seen seen c n r, c.sound)

module _ (defn : Definition)
    (keyed : (p : String) (n : Node) → Dict.get p defn.index ≡ some n → path n ≡ p)
    (root : Own defn defn.root) where
  Reaches-Own : (n : Node) → Reaches defn n → Own defn n
  Reaches-Own _ at_root = root
  Reaches-Own _ (by_step n m r i) =
      All-In (Own defn) m (successors defn n) (successors-Own defn keyed n) i

  told_apart : Distinct defn
  told_apart n m r t e =
      let a = Reaches-Own n r in
      let b = ap (λ p. Dict.get p defn.index) e in
      let c = Reaches-Own m t in ground (arith, a, b, c)

  -- Where the search of `_reachable` ends, it has seen the path of each state that is reached, from the
  -- root by steps to the targets of transitions and to the states that the entry of a composite
  -- activates, and each path seen is that of a state reached. The index holds each node under the
  -- node's path, and the root.
  pub reachable_exact :
      (bound : ℕ) (seen : List String)
      → reachable defn bound ≡ some seen
      → ((n : Node) → Reaches defn n → mem (path n) seen ≡ true)
        × ((p : String) → mem p seen ≡ true → (n : Node) × (path n ≡ p) × Reaches defn n)
  reachable_exact bound seen h = found_exactly defn told_apart bound seen h
