-- ===== src/Validate/Cancelled.antt =====
-- The handler of a Cancel or an Expired that the engine resolves, in a definition that is valid.
use harel.Prelude.{
  ℕ, String, ◌≡◌, refl, subst, inl, inr, true, none, some, List, [], ◌++◌, map, keep, gather,
  opt_list, is_some, All, In, In-append, In-gather, In-keep, Option-cases,
}
use harel.Prelude.Dict
use harel.Prelude.Dict.{Dict}
use harel.Events.{Event}
use harel.Model.{Node, info, path, Selector, Choice, Predicate}
use harel.Model.Navigation.{resolve_relative}
use harel.Execution.{Execution}
use harel.Engine.Result.{ok}
use harel.Engine.Guard.{kinds}
use harel.Engine.Effects.{Env}
use harel.Engine.Resolve.{Found, resolve, event_pred}
use harel.Engine.Teardown.{would_be_a_sink, targets_of, safe_teardown}
use harel.Engine.Drain.Ending.{Indexed}
use harel.Validate.{why_not_ending, execution_root_of}
use harel.Validate.Issues.{Issue, nodes_of}
use harel.Validate.States.{is_teardown}
use harel.Validate.Teardowns.{
  at_path, choice_targets, selector_targets, cancel_targets, check_ending, check_cancel_target,
  check_cancel_targets, teardown_code,
}
use harel.Validate.Whole.{validate_or_raise, valid}
use harel.Validate.Clean.{
  Clean, Clean-gather, Clean-flag, In-nodes_of, valid_selectors, valid_cancels,
}
use harel.Validate.Branches.{branch-resolves}
use harel.Validate.Reach.Ends.{resolve_relative-Own}
use harel.Validate.Endings.{ending_sink}
use harel.Validate.Cancels.{
  Linked, Sink, all_sinks-Sink, map-Sink, In-branches, matched_kind, WellIndexed, root-Indexed,
  unflagged, resolve-IsFound,
}

module _ (env : Env) (bound : ℕ) (issues : List Issue) (exe : Execution) (ev : Event) (f : Found)
    (h : validate_or_raise env.defn bound ≡ valid issues) (well : WellIndexed env.defn)
    (at : Dict.get (path f.scope) env.defn.index ≡ some f.scope)
    (own : In f.transition (info f.scope).transitions)
    (taken : event_pred env.floats ev exe.context f.transition ≡ true)
    (teardown : is_teardown ev.kind ≡ true)
    (root : exe.root_path ≡ path (execution_root_of f.scope)) where
  Indexed-at : (p : String) (n : Node) → Dict.get p env.defn.index ≡ some n → Indexed env.defn n
  Indexed-at p n g = (well p n g).1

  cancel-Clean : Clean (check_cancel_target env.defn f.scope f.transition)
  unfolding check_cancel_targets
  cancel-Clean =
      Clean-gather (check_cancel_target env.defn f.scope) f.transition (info f.scope).transitions
        own
        (Clean-gather (λ node. gather (check_cancel_target env.defn node) (info node).transitions)
          f.scope (nodes_of env.defn) (In-nodes_of env.defn (path f.scope) f.scope at)
          (valid_cancels env.defn bound issues h))

  target-ends :
      (n : Node)
      → In n (cancel_targets env.defn f.scope f.transition)
      → why_not_ending n (execution_root_of f.scope) ≡ none
  unfolding check_cancel_target check_ending
  target-ends n i =
      let (ef, e, k) = matched_kind env ev exe f.transition taken in
      let all =
        subst
          (λ o. Clean (elim o [
            | none ↦ []
            | some x ↦
                gather
                  (λ kind.
                    gather (check_ending f.scope kind)
                      (cancel_targets env.defn f.scope f.transition))
                  (keep is_teardown (kinds x.kind))
          ]))
          e cancel-Clean in
      let one =
        Clean-gather
          (λ kind.
            gather (check_ending f.scope kind) (cancel_targets env.defn f.scope f.transition))
          ev.kind (keep is_teardown (kinds ef.kind))
          (In-keep is_teardown ev.kind (kinds ef.kind) k teardown) all in
      unflagged (why_not_ending n (execution_root_of f.scope)) (
        Clean-flag (is_some (why_not_ending n (execution_root_of f.scope))) (teardown_code ev.kind)
          (path f.scope)
          (Clean-gather (check_ending f.scope ev.kind) n
            (cancel_targets env.defn f.scope f.transition) i one))

  target-Sink :
      (p : String) (n : Node)
      → Dict.get p env.defn.index ≡ some n
      → In n (cancel_targets env.defn f.scope f.transition)
      → would_be_a_sink env exe n ≡ ok true
  target-Sink p n g i =
      ending_sink env exe (execution_root_of f.scope) n root
        (root-Indexed env.defn f.scope (Indexed-at (path f.scope) f.scope at)) (Indexed-at p n g)
        (target-ends n i)

  static-Sink :
      (p : String)
      → f.transition.target ≡ some p
      → Linked env.defn f.transition
      → Sink env exe (Dict.get p env.defn.index)
  unfolding cancel_targets
  static-Sink p e l =
      let (n, g) = l.0 p (rw e (inl refl)) in
      let i : In n (gather (at_path env.defn) (opt_list f.transition.target)) =
        In-gather (at_path env.defn) p (opt_list f.transition.target) n (rw e (inl refl))
          (rw g (inl refl)) in
      (
        n,
        g,
        target-Sink p n g
            (In-append n (gather (at_path env.defn) (opt_list f.transition.target)) _ (inl i)),
      )

  choice-Sink :
      (c : Choice) (p : String)
      → f.transition.choice ≡ some c
      → In p (map (λ (b : Predicate × String). b.1) c.branches ++ opt_list c.default)
      → Linked env.defn f.transition
      → Sink env exe (Dict.get p env.defn.index)
  unfolding cancel_targets choice_targets
  choice-Sink c p e m l =
      let (n, g) = l.1 c p e m in
      let i : In n (choice_targets env.defn f.transition) =
        rw e (In-gather (at_path env.defn) p _ n m (rw g (inl refl))) in
      (
        n,
        g,
        target-Sink p n g (
            In-append n (gather (at_path env.defn) (opt_list f.transition.target)) _
              (inr (In-append n (selector_targets env.defn f.scope f.transition) _ (inr i)))),
      )

  selector-Sink :
      (sel : Selector) (name : String)
      → f.transition.selector ≡ some sel
      → In name (map (λ (b : String × String). b.1) sel.mapper ++ opt_list sel.default)
      → Sink env exe (resolve_relative env.defn f.scope name)
  unfolding cancel_targets selector_targets
  selector-Sink sel name e m =
      let (k, b) = In-branches name sel.mapper sel.default m in
      let (n, r) =
        branch-resolves env.defn f.scope f.transition sel k name
          (valid_selectors env.defn bound issues h f.scope
            (In-nodes_of env.defn (path f.scope) f.scope at))
          own e b in
      let i : In n (selector_targets env.defn f.scope f.transition) = rw e (
        In-gather (λ x. opt_list (resolve_relative env.defn f.scope x)) name _ n m
          (rw r (inl refl))) in
      (
        n,
        r,
        target-Sink (path n) n
            (resolve_relative-Own env.defn (λ p o g. (well p o g).0) f.scope name n r)
            (In-append n (gather (at_path env.defn) (opt_list f.transition.target)) _
              (inr (In-append n (selector_targets env.defn f.scope f.transition) _ (inl i)))),
      )

  targets-Sink : Linked env.defn f.transition → All (Sink env exe) (targets_of env f)
  unfolding targets_of
  targets-Sink l = elim (Option-cases f.transition.target) [
    | inr (p, e) ↦ rw e (static-Sink p e l, tt)
    | inl e ↦ elim (Option-cases f.transition.choice) [
      | inr (c, q) ↦
          rw (e, q)
            (map-Sink env exe (λ p. Dict.get p env.defn.index) _ (λ p i. choice-Sink c p q i l))
      | inl q ↦ elim (Option-cases f.transition.selector) [
        | inr (sel, r) ↦
            rw (e, q, r)
              (map-Sink env exe (resolve_relative env.defn f.scope) _
                (λ name i. selector-Sink sel name r i))
        | inl r ↦ rw (e, q, r) tt
      ]
    ]
  ]

  taken-safe :
      is_some exe.active_path ≡ true
      → Linked env.defn f.transition
      → resolve env.defn exe (event_pred env.floats ev exe.context) true ≡ ok (some f)
      → safe_teardown env exe ev ≡ ok (some f)
  unfolding safe_teardown
  taken-safe a l r =
      let s = all_sinks-Sink env exe (targets_of env f) (targets-Sink l) in rw (a, r) (rw s refl)

-- In a definition that the validation accepts, the engine takes the handler that it resolves for a
-- Cancel or an Expired of an active execution: `_safe_teardown_transition` finds every target that the
-- handler may have to end the execution at once. The index holds each node under the node's path, with
-- its ancestors, the handler's scope, and the targets that the handler names; the execution's root is
-- the one around the scope.
pub valid_cancel :
    (env : Env) (bound : ℕ) (issues : List Issue) (exe : Execution) (ev : Event) (f : Found)
    → validate_or_raise env.defn bound ≡ valid issues
    → WellIndexed env.defn
    → Dict.get (path f.scope) env.defn.index ≡ some f.scope
    → Linked env.defn f.transition
    → exe.root_path ≡ path (execution_root_of f.scope)
    → is_teardown ev.kind ≡ true
    → is_some exe.active_path ≡ true
    → resolve env.defn exe (event_pred env.floats ev exe.context) true ≡ ok (some f)
    → safe_teardown env exe ev ≡ ok (some f)
valid_cancel env bound issues exe ev f h well at l root k a r =
    let (own, taken) = resolve-IsFound env.defn exe (event_pred env.floats ev exe.context) f r in
    taken-safe env bound issues exe ev f h well at own taken k root a l r
