-- ===== src/Tests/Stores.antt =====
-- The theorems on the in-memory store at concrete states.
use harel.Prelude.{
  ℕ, zero, suc, String, ◌≡◌, refl, ap, arith, true, false, Option, none, some, List, [], ◌∷◌, ◌↔◌,
  In, show, number_from, number_from-show, show-some,
}
use harel.Prelude.Int.{ℤ, pos}
use harel.Prelude.Dict
use harel.Value.{str}
use harel.Execution.{Execution, ExecutionSummary, summary_of}
use harel.Store.{Memory, empty, schedule}
use harel.Store.Commits
use harel.Store.Commits.{Answer, done, conflict, save, commit, Batch, keep_object}
use harel.Store.Pending
use harel.Store.Pending.{purge}
use harel.Store.Listing
use harel.Store.Listing.{Query, Codec, listed}
use harel.Store.Conflicts.{save_once}
use harel.Store.Committed.{Committed, commit_lem}
use harel.Store.Sound.{Sound}
use harel.Store.Reached.{begins, steps, commits, Reached-Sound}
use harel.Store.Purged.{Gone, purge_clears, purge_stays}
use harel.Store.Listed.{IsStored, IsAsked, IsById}
use harel.Store.Pages.{read_pages, read_pages_all}
use harel.Tests.Machines.{fresh, plain}

abbrev order_object : Execution
order_object = record fresh { id = "o-1"; version = 0 }

abbrev order_two : Execution
order_two = record fresh { id = "o-2"; version = 0 }

-- Objects 0 and 1 are of one execution, the others of another.
abbrev objects : ℕ → Execution
objects zero = order_object
objects (suc zero) = order_object
objects (suc (suc n)) = order_two

abbrev start : Memory
start = record { heap = objects; store = empty }

abbrev saved : Memory
saved = keep_object start 0

start-saved : save start 0 ≡ done saved
unfolding Commits.save Commits.keep_object Dict.get Dict.put
start-saved = refl

save_once_example : save saved 1 ≡ conflict 0 (some 1)
save_once_example = save_once start saved 0 1 start-saved refl refl refl

abbrev batch : Batch
batch = record {
  emits = (some "o-2", plain "Paid") ∷ (none, plain "Noted") ∷ [];
  processed_event_id = some "e-7";
  timers = schedule "AwaitingPayment" 30 ∷ [];
  spawns = [];
  trace = some (("cause", str "event") ∷ []);
}

abbrev memory_of : Answer (List ℕ × Memory) → Memory
memory_of (done (seqs, m)) = m
memory_of (conflict expected met) = start

abbrev committed : Memory
committed = memory_of (commit start 0 batch)

start-committed : commit start 0 batch ≡ done (1 ∷ 2 ∷ [], committed)
unfolding Commits.commit Commits.commit_saved Commits.save Commits.keep_object Commits.numbered
    Dict.get Dict.put
start-committed = refl

commit_lem_example : Committed start 0 batch (1 ∷ 2 ∷ []) committed
commit_lem_example = commit_lem start committed 0 batch (1 ∷ 2 ∷ []) start-committed

Reached-Sound_example : Sound committed.store
Reached-Sound_example = Reached-Sound committed (
    steps start committed (begins objects)
      (commits start committed 0 batch (1 ∷ 2 ∷ []) start-committed))

abbrev purged : Memory
purged = (purge committed "o-1" 1).1

committed_purged : purge committed "o-1" 1 ≡ (true, purged)
unfolding Pending.purge Pending.purge_object Commits.commit Commits.commit_saved Commits.save
    Commits.keep_object Commits.enqueue Commits.record_trace Commits.add_processed Dict.get Dict.put
committed_purged = refl

purge_clears_example : Gone purged "o-1"
purge_clears_example = purge_clears committed purged "o-1" 1 committed_purged

purge_stays_example : save purged 0 ≡ conflict 1 none
unfolding Commits.commit Commits.commit_saved Commits.save Commits.keep_object Dict.get Dict.put
purge_stays_example = purge_stays committed purged "o-1" 1 0 committed_purged refl refl

-- A codec that writes a number as it is.
abbrev number_of : String → Option ℤ
number_of Prim.Native.String.String.[] = none
number_of (Prim.Native.String.String.◌∷◌ c s) =
    some (pos (number_from 0 (Prim.Native.String.String.◌∷◌ c s)))

abbrev codec : Codec
codec = record { b64encode = λ s. s; b64decode = some; int_of = number_of }

number_of-some :
    (s : String) (n : ℕ) → (s ≡ "" → ⊥) → number_from 0 s ≡ n → number_of s ≡ some (pos n)
number_of-some Prim.Native.String.String.[] n h e = absurd (h refl)
number_of-some (Prim.Native.String.String.◌∷◌ c s) n h e = ap (λ k. some (pos k)) e

number_of-show : (n : ℕ) → number_of (show n) ≡ some (pos n)
number_of-show n = number_of-some (show n) n (show-some n) (number_from-show n)

abbrev everything : Query
everything = record { status = none; definition_id = none; roots_only = false }

abbrev two : Memory
two = keep_object saved 2

read_pages_all_example :
    (items : List ExecutionSummary) × (read_pages codec two everything 1 3 none ≡ some items)
    × IsById items
    × ((s : ExecutionSummary) → In s items ↔ (IsStored two s × IsAsked everything s))
unfolding Listing.listed Listing.query_matches Commits.keep_object Dict.put summary_of
read_pages_all_example =
    read_pages_all codec (λ s. refl) (λ s e. e) number_of-show refl two everything 1 (omega arith) 3
      (omega arith)
