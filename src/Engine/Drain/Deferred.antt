-- ===== src/Engine/Drain/Deferred.antt =====
-- The order in which deferred events are taken up.
use harel.Prelude.{◌≡◌, refl, subst, true, ◌⊎◌, inl, inr, Option, none, some, List, [], ◌∷◌, All}
use harel.Events.{Event}
use harel.Execution.{Execution}
use harel.Engine.Result.{Result, ok, raised, Fault}
use harel.Engine.Effects.{Env}
use harel.Engine.Resolve.{Found, resolve, event_pred}
use harel.Engine.Drain.{pick, pick_or}

pub answer-cases :
    {A : Type 0} (r : Result (Option A))
    → (r ≡ ok none) ⊎ ((a : A) × (r ≡ ok (some a))) ⊎ ((x : Fault) × (r ≡ raised x))
answer-cases (ok none) = inl refl
answer-cases (ok (some a)) = inr (inl (a, refl))
answer-cases (raised x) = inr (inr (x, refl))

module _ (env : Env) (exe : Execution) where
  -- What the configuration has for an event.
  abbrev pub handling : Event → Result (Option Found)
  handling ev = resolve env.defn exe (event_pred env.floats ev exe.context) true

  -- `ev` is the first event of a list that is handled, by `found`; the others are kept, in order.
  abbrev pub FirstHandled : Event → Found → List Event → List Event → Type 0
  FirstHandled ev found [] kept = ⊥
  FirstHandled ev found (e ∷ evs) kept =
      ((handling e ≡ ok (some found)) × (ev ≡ e) × (kept ≡ evs))
      ⊎ ((handling e ≡ ok none)
          × ((rest : List Event) × (kept ≡ e ∷ rest) × FirstHandled ev found evs rest))

  -- What `pick` answers: the first event that is handled, or none where no event is.
  abbrev pub Picked : List Event → Option (Event × Found × List Event) → Type 0
  Picked evs none = All (λ e. handling e ≡ ok none) evs
  Picked evs (some (ev, found, kept)) = FirstHandled ev found evs kept

  abbrev Answers : Result (Option (Event × Found × List Event)) → List Event → Type 0
  Answers (ok r) evs = Picked evs r
  Answers (raised x) evs = Unit

  Answers-later :
      (e : Event) (evs : List Event) (r : Result (Option (Event × Found × List Event)))
      → handling e ≡ ok none
      → Answers r evs
      → Answers (pick_or e evs r none) (e ∷ evs)
  Answers-later e evs (ok none) h k = (h, k)
  Answers-later e evs (ok (some (ev, found, kept))) h k = inr (h, (kept, refl, k))
  Answers-later e evs (raised x) h k = tt

  Answers-pick : (evs : List Event) → Answers (pick env exe evs) evs
  unfolding pick
  Answers-pick [] = tt
  Answers-pick (e ∷ evs) =
      let ih = Answers-pick evs in
      elim (answer-cases (handling e)) [
        | inl h ↦ rw h (Answers-later e evs (pick env exe evs) h ih)
        | inr (inl (f, h)) ↦ rw h (inl (h, refl, refl))
        | inr (inr (x, h)) ↦ rw h tt
      ]

  -- When the search among the deferred events ends without an exception, it has found the first event,
  -- in order of arrival, that the configuration handles, with its transition, and keeps all the others
  -- in order; or it has found none, and the configuration handles none of them.
  pub pick-Picked :
      (evs : List Event) (r : Option (Event × Found × List Event))
      → pick env exe evs ≡ ok r
      → Picked evs r
  pick-Picked evs r h = subst (λ a. Answers a evs) h (Answers-pick evs)
