-- ===== src/Engine/Evolution.antt =====
-- What any step of the engine may do to an execution: a preorder between the world before and after,
-- and a rule for each way to build an action. The modules below apply it to the parts of the engine.
pub mod Taking
pub mod Draining
pub mod Processing
use mathlib.Core.List.{append-nil, append_assoc}
use harel.Prelude.{
  ℕ, zero, suc, ◌+◌, ◌≤◌, String, ◌≡◌, refl, sym, subst, ap, ◌∙◌, ◌⊎◌, inl, inr, Bool, true, false,
  Option, none, some, List, [], ◌∷◌, ◌++◌, arith, if◌then◌else◌,
}
use harel.Value.{Value}
use harel.Events.{Event}
use harel.Model.{Node}
use harel.Execution.{Execution, Status}
use harel.Engine.Result.{Result, ok, raised, Fault}
use harel.Engine.Effects.{
  M, Env, World, Effect, Delay, Reply, returned, failed, reply_to, pure, raise, lift, gets, modify,
  yields, performs, schedules, new_event, node_at, active_node, for_each, rounds, then_do, ◌>>=◌,
  ◌>>◌,
}

-- The execution with all that the engine writes blanked out.
abbrev pub identity : Execution → Execution
identity exe = record exe {
  status = Status.pending;
  outcome = none;
  error = none;
  active_path = none;
  history = [];
  context = [];
  processed_events = 0;
  deferred = [];
  children = [];
  invoke_seq = [];
  expires_at = none;
}

-- The statuses that the engine itself gives.
abbrev pub IsEngineStatus : Status → Type 0
IsEngineStatus Status.pending = Unit
IsEngineStatus Status.running = Unit
IsEngineStatus Status.done = Unit
IsEngineStatus Status.cancelled = Unit
IsEngineStatus _ = ⊥

pub record Evolves (w v : World) : Type 0 where
  pub identical : identity v.exe ≡ identity w.exe
  pub extended : (es : List Effect) × (v.trace ≡ w.trace ++ es)
  pub counted : w.exe.processed_events ≤ v.exe.processed_events
  pub status : (v.exe.status ≡ w.exe.status) ⊎ IsEngineStatus v.exe.status
  pub error : (v.exe.error ≡ w.exe.error) ⊎ (v.exe.error ≡ none)

pub Evolves-refl : (w : World) → Evolves w w
Evolves-refl w = record {
  identical = refl;
  extended = ([], sym (append-nil w.trace));
  counted = omega arith;
  status = inl refl;
  error = inl refl;
}

either_trans :
    {A : Type 0} (P : A → Type 0) (x y z : A) → (y ≡ x) ⊎ P y → (z ≡ y) ⊎ P z → (z ≡ x) ⊎ P z
either_trans P x y z p (inr q) = inr q
either_trans P x y z (inl p) (inl q) = inl (q ∙ p)
either_trans P x y z (inr p) (inl q) = inr (rw q p)

extended_trans :
    (t u s : List Effect)
    → (es : List Effect) × (u ≡ t ++ es)
    → (es : List Effect) × (s ≡ u ++ es)
    → (es : List Effect) × (s ≡ t ++ es)
extended_trans t u s (es, p) (fs, q) =
    (es ++ fs, q ∙ ap (λ (l : List Effect). l ++ fs) p ∙ append_assoc t es fs)

pub Evolves-trans : (u v w : World) → Evolves u v → Evolves v w → Evolves u w
Evolves-trans u v w p q = record {
  identical = q.identical ∙ p.identical;
  extended = extended_trans u.trace v.trace w.trace p.extended q.extended;
  counted = omega arith;
  status = either_trans IsEngineStatus u.exe.status v.exe.status w.exe.status p.status q.status;
  error = either_trans (λ e. e ≡ none) u.exe.error v.exe.error w.exe.error p.error q.error;
}

-- An action whose every run evolves the world, whether it returns or raises.
pub record Steps {A : Type 0} (m : M A) : Type 0 where
  pub at : (w : World) → Evolves w (m w).1

-- A write to the execution, and its rule.
pub record Writes (f : Execution → Execution) : Type 0 where
  pub same_identity : (exe : Execution) → identity (f exe) ≡ identity exe
  pub more_counted : (exe : Execution) → exe.processed_events ≤ (f exe).processed_events
  pub new_status : (exe : Execution) → ((f exe).status ≡ exe.status) ⊎ IsEngineStatus (f exe).status
  pub new_error : (exe : Execution) → ((f exe).error ≡ exe.error) ⊎ ((f exe).error ≡ none)

module _ {A : Type 0} where
  pub Steps-pure : (a : A) → Steps (pure a)
  unfolding pure
  Steps-pure a = record { at = Evolves-refl }

  pub Steps-raise : (x : Fault) → Steps (raise {A = A} x)
  unfolding raise
  Steps-raise x = record { at = Evolves-refl }

  pub Steps-lift : (r : Result A) → Steps (lift r)
  unfolding lift
  Steps-lift r = record { at = Evolves-refl }

  pub Steps-gets : (f : Execution → A) → Steps (gets f)
  unfolding gets
  Steps-gets f = record { at = Evolves-refl }

  pub Steps-if : (b : Bool) (m n : M A) → Steps m → Steps n → Steps (if b then m else n)
  Steps-if true m n km kn = km
  Steps-if false m n km kn = kn

module _ {A B : Type 0} where
  then_do-Evolves :
      (r : Result A) (f : A → M B) (u w : World)
      → Evolves u w
      → ((a : A) → Steps (f a))
      → Evolves u (then_do r f w).1
  then_do-Evolves (ok a) f u w p kf = Evolves-trans u w (f a w).1 p ((kf a).at w)
  then_do-Evolves (raised x) f u w p kf = p

  pub Steps-bind : (m : M A) (f : A → M B) → Steps m → ((a : A) → Steps (f a)) → Steps (m >>= f)
  unfolding ◌>>=◌
  Steps-bind m f km kf = record {
    at = λ w. let (r, w') = m w in then_do-Evolves r f w w' (km.at w) kf;
  }

pub Steps-modify : (f : Execution → Execution) → Writes f → Steps (modify f)
unfolding modify
Steps-modify f k = record {
  at = λ w. record {
    identical = k.same_identity w.exe;
    extended = ([], sym (append-nil w.trace));
    counted = k.more_counted w.exe;
    status = k.new_status w.exe;
    error = k.new_error w.exe;
  };
}

one_more : (w : World) (e : Effect) → Evolves w (record w { trace = w.trace ++ e ∷ [] })
one_more w e = record {
  identical = refl;
  extended = (e ∷ [], refl);
  counted = omega arith;
  status = inl refl;
  error = inl refl;
}

pub Steps-yields : (e : Effect) → Steps (yields e)
unfolding yields
Steps-yields e = record { at = λ w. one_more w e }

reply_to-Evolves : (w : World) (r : Reply) → Evolves w (reply_to w r).1
reply_to-Evolves w (returned v c) = record {
  identical = refl;
  extended = ([], sym (append-nil w.trace));
  counted = omega arith;
  status = inl refl;
  error = inl refl;
}
reply_to-Evolves w (failed x c) = record {
  identical = refl;
  extended = ([], sym (append-nil w.trace));
  counted = omega arith;
  status = inl refl;
  error = inl refl;
}

module _ (env : Env) where
  pub Steps-performs : (e : Effect) → Steps (performs env e)
  unfolding performs
  Steps-performs e = record {
    at = λ w.
        let w' : World = record w { trace = w.trace ++ e ∷ [] } in
        let r : Reply = env.driver.answer w'.trace e w'.exe.context in
        Evolves-trans w w' (reply_to w' r).1 (one_more w e) (reply_to-Evolves w' r);
  }

  pub Steps-schedules : (p : String) (d : Delay) → Steps (schedules env p d)
  unfolding schedules
  Steps-schedules p d = record { at = λ w. one_more w (Effect.schedule_timer p d) }

  pub Steps-new_event : (kind : String) (d : List (String × Value)) → Steps (new_event env kind d)
  unfolding new_event
  Steps-new_event kind d = record { at = Evolves-refl }

  pub Steps-node_at : (p : String) → Steps (node_at env p)
  unfolding node_at
  Steps-node_at p = record { at = Evolves-refl }

  pub Steps-active_node : Steps (active_node env)
  unfolding active_node
  Steps-active_node = record { at = Evolves-refl }

pub Steps-for_each :
    {A : Type 0} (f : A → M (Unit {0})) (xs : List A)
    → ((a : A) → Steps (f a))
    → Steps (for_each f xs)
unfolding for_each
Steps-for_each f [] k = Steps-pure tt
Steps-for_each f (x ∷ xs) k =
    Steps-bind (f x) (λ _. for_each f xs) (k x) (λ _. Steps-for_each f xs k)

module _ {S : Type 0} (body : S → M (Option S)) (k : (s : S) → Steps (body s)) where
  pub Steps-rounds : (n : ℕ) (s : S) → Steps (rounds n body s)
  unfolding rounds
  Steps-rounds zero s = Steps-raise _
  Steps-rounds (suc n) s =
      Steps-bind (body s) _ (k s) (elim [ none ↦ Steps-pure tt | some t ↦ Steps-rounds n t ])

-- A write that leaves the status, the error and the count alone.
pub Writes-plain :
    (f : Execution → Execution)
    → ((exe : Execution) → identity (f exe) ≡ identity exe)
    → ((exe : Execution) → (f exe).processed_events ≡ exe.processed_events)
    → ((exe : Execution) → (f exe).status ≡ exe.status)
    → ((exe : Execution) → (f exe).error ≡ exe.error)
    → Writes f
Writes-plain f i c s e = record {
  same_identity = i;
  more_counted = λ exe. omega (arith, c exe);
  new_status = λ exe. inl (s exe);
  new_error = λ exe. inl (e exe);
}

-- A write of one of the engine's own statuses.
pub Writes-status :
    (f : Execution → Execution) (s : Status)
    → IsEngineStatus s
    → ((exe : Execution) → identity (f exe) ≡ identity exe)
    → ((exe : Execution) → (f exe).processed_events ≡ exe.processed_events)
    → ((exe : Execution) → (f exe).status ≡ s)
    → ((exe : Execution) → ((f exe).error ≡ exe.error) ⊎ ((f exe).error ≡ none))
    → Writes f
Writes-status f s h i c p e = record {
  same_identity = i;
  more_counted = λ exe. omega (arith, c exe);
  new_status = λ exe. inr (subst IsEngineStatus (sym (p exe)) h);
  new_error = e;
}

pub ruleset step_rules = (
  Steps-pure, Steps-raise, Steps-lift, Steps-gets, Steps-if, Steps-bind, Steps-yields,
  Steps-performs, Steps-schedules, Steps-new_event, Steps-node_at, Steps-active_node,
  Steps-for_each, Steps-modify, Writes-plain, refl,
)
