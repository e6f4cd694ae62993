-- ===== src/Store/Sequences.antt =====
-- The numbers of the outbox and of the spawns, over every operation of the in-memory store.
use harel.Prelude.{ℕ, suc, ◌+◌, String, ◌≡◌, [], ◌∷◌, arith, Ascending, length}
use harel.Store.{OutboxEntry, SpawnEntry}
use harel.Store.Commits.{Emits, Spawns, numbered, numbered_spawns}

abbrev pub outbox_seq : OutboxEntry → ℕ
outbox_seq e = e.seq

abbrev pub spawn_number : SpawnEntry → ℕ
spawn_number e = e.seq

pub numbered-Ascending :
    (n : ℕ) (emits : Emits) → Ascending outbox_seq n (n + length emits) (numbered n emits)
unfolding numbered
numbered-Ascending n [] = omega arith
numbered-Ascending n ((target, ev) ∷ emits) =
    let e : n + suc (length emits) ≡ (n + 1) + length emits = omega arith in
    (omega arith, rw e (numbered-Ascending (n + 1) emits))

pub numbered_spawns-Ascending :
    (id : String) (n : ℕ) (spawns : Spawns)
    → Ascending spawn_number n (n + length spawns) (numbered_spawns id n spawns)
unfolding numbered_spawns
numbered_spawns-Ascending id n [] = omega arith
numbered_spawns-Ascending id n ((child, root, context) ∷ spawns) =
    let e : n + suc (length spawns) ≡ (n + 1) + length spawns = omega arith in
    (omega arith, rw e (numbered_spawns-Ascending id (n + 1) spawns))
