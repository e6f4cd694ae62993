-- ===== src/Hosting/Typed.antt =====
-- What a sender lets into the transport is typed as the machine declares it.
use harel.Prelude.{
  ℕ, String, ◌≡◌, refl, sym, ap, ◌∙◌, true, false, ◌==◌, mem, Option, none, some, List, arith,
  Bool-cases, Option-cases, inl, inr, ◌⊎◌,
}
use harel.Prelude.Dict
use harel.Events.{Event, Problem, EventType, check_event, reserved_events}
use harel.Events.Defaults.{FitsSchema, check_context-FitsSchema}
use harel.Model.{Definition}
use harel.Execution.{route_of}
use harel.Store.Commits.{load}
use harel.Transport.{publish}
use harel.Driving.{Host, Site, Outcome, returns, follow, ◌>>◌}
use harel.Driving.Inline.{read_object}
use harel.Driving.Routed.{publish_stored, publish_to}
use harel.Driving.Processed.{bind-returns}
use harel.Hosting.Sender.{raise_misfit, check_with, check_stored, send}

-- An event of a declared kind has the fields that its declaration wants.
abbrev pub IsTyped : Definition → Event → Type 0
IsTyped defn ev =
    (mem ev.kind reserved_events ≡ true)
    ⊎ (Dict.get ev.kind defn.events ≡ none)
    ⊎ ((e : EventType) × (Dict.get ev.kind defn.events ≡ some e)
        × FitsSchema e.fields ev.payload true)

check_event-IsTyped :
    (defn : Definition) (ev : Event)
    → check_event defn.events ev.kind ev.payload ≡ none
    → IsTyped defn ev
unfolding check_event
check_event-IsTyped defn ev h = elim (Bool-cases (mem ev.kind reserved_events)) [
  | inl r ↦ inl r
  | inr r ↦ elim (Option-cases (Dict.get ev.kind defn.events)) [
    | inl d ↦ inr (inl d)
    | inr (e, d) ↦ inr (
        inr (e, d, (check_context-FitsSchema e.fields ev.payload true).0 (ground (arith, h, r, d))))
  ]
]

raise_misfit-none :
    (o : Option (List Problem)) (s : Site) → (raise_misfit o s).0 ≡ returns tt → o ≡ none
raise_misfit-none none s e = refl
raise_misfit-none (some ps) s e = absurd (ground (arith, e))

module _ (h : Host) (id : String) (ev : Event) (r : ℕ) (defn : Definition) where
  -- The check of the event that passes, and the flow after it.
  checked :
      (s : Site)
      → load s.memory id ≡ some r
      → h.lookup s.memory (s.memory.heap r) ≡ some defn
      → (check_stored h ev (load s.memory id) s).0 ≡ returns tt
      → check_event defn.events ev.kind ev.payload ≡ none
  unfolding check_with
  checked s l d e =
      let same = ap (λ o. check_stored h ev o s) l ∙ ap (λ o. check_with h ev o s) d in
      raise_misfit-none (check_event defn.events ev.kind ev.payload) s
        (ap (λ (x : Outcome (Unit {0}) × Site). x.0) (sym same) ∙ e)

  passed :
      (s : Site)
      → load s.memory id ≡ some r
      → h.lookup s.memory (s.memory.heap r) ≡ some defn
      → check_event defn.events ev.kind ev.payload ≡ none
      → check_stored h ev (load s.memory id) s ≡ (returns tt, s)
  unfolding check_with
  passed s l d c =
      ap (λ o. check_stored h ev o s) l
      ∙ ap (λ o. check_with h ev o s) d
      ∙ ap (λ o. raise_misfit o s) c

  accepted : Site → Outcome (Unit {0}) × Site
  accepted s = (
    returns tt,
    record s {
      queue =
          publish (h.now s.step) id ev (s.memory.heap r).priority
            (route_of (some (s.memory.heap r))) s.queue;
    },
  )

  sent :
      (s : Site)
      → load s.memory id ≡ some r
      → check_stored h ev (load s.memory id) s ≡ (returns tt, s)
      → (check_stored h ev (load s.memory id) >> publish_stored h id ev) s ≡ accepted s
  unfolding publish_stored publish_to accepted
  sent s l c =
      ap (λ (x : Outcome (Unit {0}) × Site). follow x.0 (λ _. publish_stored h id ev) x.1) c
      ∙ ap (λ o. publish_to h id ev (read_object s.memory o) s) l

  -- An event that `send` accepts for a stored execution is no Start, and is typed as the execution's
  -- definition declares its kind; it has been published to the execution's group, once, at the
  -- execution's priority and by its routing key, and the store is as it was.
  pub send-IsTyped :
      (s : Site)
      → load s.memory id ≡ some r
      → h.lookup s.memory (s.memory.heap r) ≡ some defn
      → (send h id ev s).0 ≡ returns tt
      → let exe = s.memory.heap r in
        ((ev.kind == "Start") ≡ false)
        × IsTyped defn ev
        × (send h id ev s ≡ (
          returns tt,
          record s {
            queue = publish (h.now s.step) id ev exe.priority (route_of (some exe)) s.queue;
          },
        ))
  unfolding send accepted
  send-IsTyped s l d e = elim (Bool-cases (ev.kind == "Start")) [
    | inl k ↦ absurd (ground (arith, rw k at e))
    | inr k ↦
        let (_, q, at) =
          bind-returns (check_stored h ev (load s.memory id)) (λ _. publish_stored h id ev) s tt
            (rw k at e) in
        let fits = checked s l d q in
        (k, check_event-IsTyped defn ev fits, rw k (sent s l (passed s l d fits)))
  ]
