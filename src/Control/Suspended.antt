-- ===== src/Control/Suspended.antt =====
-- Suspending and resuming an execution that runs alone.
use harel.Prelude.{ℕ, suc, ◌+◌, String, ◌≡◌, refl, sym, ap, ◌∙◌, true, false, some, [], arith}
use harel.Value.{Value}
use harel.Execution.{Execution, Status, is_finished, stamp}
use harel.Store.{Memory}
use harel.Store.Commits.{load}
use harel.Store.Listing.{same_status}
use harel.Control.Quiet.{moved, commit_status_quiet, propagate_alone}
use harel.Control.Commands.{returned, altered, from_status, suspend, resume}

module _ (time : ℕ → Value) where
  from_status_quiet :
      (old new : Status) (depth now : ℕ) (id : String) (m : Memory) (r : ℕ)
      → load m id ≡ some r
      → (m.heap r).id ≡ id
      → same_status (m.heap r).status old ≡ true
      → is_finished (m.heap r).status ≡ false
      → (m.heap r).children ≡ []
      → (o : Memory) × (from_status (λ k. k) time old new (suc depth) now id m (load m id)
          ≡ returned o)
        × (load o id ≡ some r)
        × (o.heap r ≡ moved time new now (m.heap r))
  unfolding from_status altered stamp
  from_status_quiet old new depth now id m r l i s f c =
      let (o, q, at, e, _) = commit_status_quiet time 4 now id new m r l i f in
      let alone = propagate_alone time depth now id new o r at (ap (λ x. x.children) e ∙ c) in
      (o, rw (l, s) (rw q alone), at, e)

-- What suspending and resuming leave of an execution.
pub record Restored (before after : Execution) : Type 0 where
  pub status : after.status ≡ before.status
  pub active_path : after.active_path ≡ before.active_path
  pub history : after.history ≡ before.history
  pub context : after.context ≡ before.context
  pub deferred : after.deferred ≡ before.deferred
  pub version : after.version ≡ before.version + 2

-- Where nothing else writes meanwhile, a suspend of a stored execution that is running, without
-- children, returns with the execution SUSPENDED, and a resume then returns with the status, the active
-- state, the history, the context and the deferred events that it had, two versions further.
pub suspend-resume :
    (time : ℕ → Value) (depth now later : ℕ) (id : String) (m : Memory) (r : ℕ)
    → load m id ≡ some r
    → (m.heap r).id ≡ id
    → (m.heap r).status ≡ Status.running
    → (m.heap r).children ≡ []
    → (n : Memory) × (o : Memory) × (suspend (λ k. k) time (suc depth) now id m ≡ returned n)
      × ((n.heap r).status ≡ Status.suspended)
      × (resume (λ k. k) time (suc depth) later id n ≡ returned o)
      × (load o id ≡ some r)
      × Restored (m.heap r) (o.heap r)
unfolding suspend resume altered stamp
suspend-resume time depth now later id m r l i s c =
    let (n, q, at, e) =
      from_status_quiet time Status.running Status.suspended depth now id m r l i (rw s refl)
        (rw s refl) c in
    let halted : (n.heap r).status ≡ Status.suspended = ap (λ x. x.status) e in
    let (o, p, back, f) =
      from_status_quiet time Status.suspended Status.running depth later id n r at
        (ap (λ x. x.id) e ∙ i) (rw halted refl) (rw halted refl) (ap (λ x. x.children) e ∙ c) in
    (
      n,
      o,
      q,
      halted,
      p,
      back,
      record {
        status = ap (λ x. x.status) f ∙ sym s;
        active_path = ap (λ x. x.active_path) f ∙ ap (λ x. x.active_path) e;
        history = ap (λ x. x.history) f ∙ ap (λ x. x.history) e;
        context = ap (λ x. x.context) f ∙ ap (λ x. x.context) e;
        deferred = ap (λ x. x.deferred) f ∙ ap (λ x. x.deferred) e;
        version = ground (arith, ap (λ x. x.version) f, ap (λ x. x.version) e);
      },
    )
