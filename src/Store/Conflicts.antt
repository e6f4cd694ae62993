-- ===== src/Store/Conflicts.antt =====
-- Optimistic concurrency of the in-memory store: what a save loses to.
use harel.Prelude.{
  ℕ, ◌+◌, ◌≡◌, sym, ap, ◌⊎◌, inl, inr, false, eq_iff, eqb, some, arith, Option-cases,
}
use harel.Prelude.Dict.{get-put}
use harel.Store.{Memory}
use harel.Store.Commits.{done, conflict, load, save, keep_object, forget_purge, version_of}

pub load-keep_object : (m : Memory) (r : ℕ) → load (keep_object m r) (m.heap r).id ≡ some r
unfolding keep_object
load-keep_object m r =
    ground (
      arith,
      get-put (m.heap r).id (m.heap r).id r m.store.by_id,
      eq_iff (m.heap r).id (m.heap r).id,
    )

version-keep_object : (m : Memory) (r : ℕ) → version_of (keep_object m r) r ≡ version_of m r + 1
unfolding keep_object
version-keep_object m r = ground arith

-- A save that does not conflict stores the object, one version further.
pub save-done :
    (m n : Memory) (r : ℕ)
    → save m r ≡ done n
    → (n ≡ keep_object m r) ⊎ (n ≡ keep_object (forget_purge m (m.heap r).id) r)
unfolding save
save-done m n r h = elim (Option-cases (load m (m.heap r).id)) [
  | inl e ↦ ground (arith, h, e)
  | inr (q, e) ↦ inl (ground (arith, h, e))
]

other-keep_object : (m : Memory) (r q : ℕ) → eqb q r ≡ false → (keep_object m r).heap q ≡ m.heap q
unfolding keep_object
other-keep_object m r q h = ground (arith, h)

loses :
    (n : Memory) (q r : ℕ)
    → load n (n.heap q).id ≡ some r
    → eqb r q ≡ false
    → eqb (version_of n r) (version_of n q) ≡ false
    → save n q ≡ conflict (version_of n q) (some (version_of n r))
unfolding save
loses n q r l d v = ground (arith, l, d, v)

kept-loses :
    (m n : Memory) (r q : ℕ)
    → n ≡ keep_object m r
    → eqb r q ≡ false
    → (m.heap r).id ≡ (m.heap q).id
    → version_of m r ≡ version_of m q
    → save n q ≡ conflict (version_of m q) (some (version_of m q + 1))
kept-loses m n r q e d i v =
    let stays = other-keep_object m r q (ground (arith, d)) in
    let at : load (keep_object m r) ((keep_object m r).heap q).id ≡ some r =
      rw (stays, sym i) (load-keep_object m r) in
    let mine : version_of (keep_object m r) q ≡ version_of m q = ap (λ x. x.version) stays in
    let next : version_of (keep_object m r) r ≡ version_of m q + 1 =
      ground (arith, version-keep_object m r, v) in
    let lost = loses (keep_object m r) q r at d (ground (arith, mine, next)) in
    rw e (ground (arith, lost, mine, next))

-- Of two different objects of an execution that hold the same version, the second one saved raises
-- StoreConflict, with the version that it holds and the one after it: no update is lost.
pub save_once :
    (m n : Memory) (r q : ℕ)
    → save m r ≡ done n
    → eqb r q ≡ false
    → (m.heap r).id ≡ (m.heap q).id
    → version_of m r ≡ version_of m q
    → save n q ≡ conflict (version_of m q) (some (version_of m q + 1))
save_once m n r q h d i v = elim (save-done m n r h) [
  | inl e ↦ kept-loses m n r q e d i v
  | inr e ↦ kept-loses (forget_purge m (m.heap r).id) n r q e d i v
]
