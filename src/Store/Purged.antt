-- ===== src/Store/Purged.antt =====
-- What a purge of the in-memory store leaves.
use harel.Prelude.{
  ℕ, String, ◌≡◌, refl, ap, Bool, true, false, not, eq_iff, ◌==◌, eqb, Option, none, some, List, [],
  ◌∷◌, arith, any, keep, mem,
}
use harel.Prelude.Dict
use harel.Prelude.Dict.{Dict, get-remove}
use harel.Store.{Memory, Timer, SpawnEntry, both}
use harel.Store.Commits.{conflict, load, save, version_of, is_processed, read_trace, steps_in}
use harel.Store.Pending.{
  pending_work, purge, purge_object, unlist, purge_companions, is_for, remember,
}

keep-out : {A : Type 0} (p : A → Bool) (xs : List A) → keep p (keep (λ x. not (p x)) xs) ≡ []
keep-out p [] = refl
keep-out p (x ∷ xs) = ground (arith, keep-out p xs)

unseen :
    (id ev : String) (ps : List (String × String))
    → any (λ p. both p.0 p.1 id ev) (keep (λ p. not (p.0 == id)) ps) ≡ false
unseen id ev [] = refl
unseen id ev (p ∷ ps) = ground (arith, unseen id ev ps)

mem-remember : (id : String) (ids : List String) → mem id (remember id ids) ≡ true
mem-remember id ids = ground (arith, eq_iff id id)

-- Nothing of an execution is left.
pub record Gone (m : Memory) (id : String) : Type 0 where
  pub unloaded : load m id ≡ none
  pub unpending : pending_work m.store id ≡ record { timers = []; outbox = []; spawns = [] }
  pub untraced : read_trace m.store id ≡ []
  pub unprocessed : (ev : String) → is_processed m.store id ev ≡ false

object-branch :
    (m n : Memory) (id : String) (v : ℕ) (o : Option ℕ)
    → purge_object m id v o ≡ (true, n)
    → (r : ℕ) × (o ≡ some r)
      × (version_of m r ≡ v)
      × (n ≡ record m { store = purge_companions id (unlist id m.store) })
unfolding purge_object
object-branch m n id v none h = absurd (ground (arith, h))
object-branch m n id v (some r) h = (r, refl, ground (arith, h), ground (arith, h))

purge-branch :
    (m n : Memory) (id : String) (v : ℕ)
    → purge m id v ≡ (true, n)
    → (r : ℕ) × (load m id ≡ some r)
      × (version_of m r ≡ v)
      × (n ≡ record m { store = purge_companions id (unlist id m.store) })
unfolding purge
purge-branch m n id v h = object-branch m n id v (load m id) h

removed : {V : Type 0} (id : String) (d : Dict V) → Dict.get id (Dict.remove id d) ≡ none
removed id d = ground (arith, get-remove id id d, eq_iff id id)

companions-Gone :
    (m : Memory) (id : String)
    → Gone (record m { store = purge_companions id (unlist id m.store) }) id
unfolding purge_companions pending_work
companions-Gone m id = record {
  unloaded = removed id m.store.by_id;
  unpending =
      rw
        (
          keep-out (λ (t : Timer). t.execution_id == id) m.store.timers,
          keep-out (is_for id) m.store.outbox,
          keep-out (λ (e : SpawnEntry). e.parent_id == id) m.store.spawns,
        )
        refl;
  untraced = ap steps_in (removed id m.store.trace);
  unprocessed = λ ev. unseen id ev m.store.processed;
}

-- A purge that answers True leaves nothing of the execution: no object, no armed timer, no outbox entry
-- addressed to it, no spawn that it issued, no trace, and no event that counts as processed.
pub purge_clears : (m n : Memory) (id : String) (v : ℕ) → purge m id v ≡ (true, n) → Gone n id
purge_clears m n id v h = let (r, l, e, q) = purge-branch m n id v h in rw q (companions-Gone m id)

save_unlisted :
    (m : Memory) (r : ℕ)
    → load m (m.heap r).id ≡ none
    → mem (m.heap r).id m.store.purged ≡ true
    → eqb (version_of m r) 0 ≡ false
    → save m r ≡ conflict (version_of m r) none
unfolding save
save_unlisted m r l p z = ground (arith, l, p, z)

-- After a purge that answers True, a save of the object that was purged raises StoreConflict, once the
-- object has been saved: the purged execution does not come back.
pub purge_stays :
    (m n : Memory) (id : String) (v r : ℕ)
    → purge m id v ≡ (true, n)
    → (m.heap r).id ≡ id
    → eqb (version_of m r) 0 ≡ false
    → save n r ≡ conflict (version_of m r) none
unfolding purge_companions
purge_stays m n id v r h i z =
    let (q, l, e, s) = purge-branch m n id v h in
    let k : Memory = record m { store = purge_companions id (unlist id m.store) } in
    rw s (
      save_unlisted k r (rw i (companions-Gone m id).unloaded)
        (rw i (mem-remember id m.store.purged)) z)
