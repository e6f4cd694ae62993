-- ===== src/Tests/Validation.antt =====
-- The theorems on the validation at concrete machines.
use harel.Prelude.{
  ℕ, String, ◌≡◌, refl, arith, true, false, none, some, List, [], ◌∷◌, inl, inr, mem, eq_iff, In,
  subst,
}
use harel.Prelude.Dict
use harel.Prelude.Dict.{Dict}
use harel.Model.{Node, top, under, Definition, path, leaf, composite}
use harel.Model.Navigation
use harel.Engine.Result.{ok}
use harel.Engine.Guard
use harel.Engine.Resolve
use harel.Engine.Teardown.{safe_teardown}
use harel.Validate
use harel.Validate.Issues.{Issue}
use harel.Validate.Reads
use harel.Validate.Fields
use harel.Validate.Types
use harel.Validate.States
use harel.Validate.States.{can_rerun}
use harel.Validate.Teardowns
use harel.Validate.Reach
use harel.Validate.Reach.{reachable}
use harel.Validate.Whole
use harel.Validate.Whole.{Verdict, valid, invalid, unfinished, validate_or_raise}
use harel.Validate.Rerun.{can_rerun_any}
use harel.Validate.Cancels.{WellIndexed}
use harel.Validate.Cancelled.{valid_cancel}
use harel.Validate.Reach.Exploring.{Reaches}
use harel.Validate.Reach.Exact.{reachable_exact}
use harel.Validate.Reach.Ends.{reachable_ends}
use harel.Tests.Machines.{shop_root, closing, env_of, running_at, plain, state, on, machine}

abbrev issues_of : Verdict → List Issue
issues_of (valid issues) = issues
issues_of (invalid issues) = []
issues_of unfinished = []

-- The shop, with an outcome where it ends.
abbrev market : Definition
market =
    machine shop_root
      (shop_root
        ∷ under (state leaf "Open" "Open" [] none []) shop_root
        ∷ under (record (state leaf "Closed" "Closed" [] none []) { outcome = some "cancelled" })
            shop_root
        ∷ [])
      none

abbrev market_issues : List Issue
market_issues = issues_of (validate_or_raise market 5)

market_is_valid : validate_or_raise market 5 ≡ valid market_issues
unfolding Whole.validate_or_raise Whole.validate Whole.check_node States.check_selectors
    States.check_selector States.check_initial States.check_timeout States.check_outcome
    States.check_invoke States.check_with States.check_nondeterminism States.count_sources
    States.automatic_in States.check_choose_can_hang States.check_choose
    Teardowns.check_cancel_targets Teardowns.check_cancel_target Teardowns.cancel_targets
    Teardowns.check_ending Teardowns.check_ttl Teardowns.check_expired
    Teardowns.check_terminal_outcomes Teardowns.execution_terminals Teardowns.terminals_below
    Teardowns.execution_roots Teardowns.missing_outcomes Reach.check_reachability Reach.reachable
    Reach.search Reach.visit Reach.visit_all Reach.successors Reach.entered Fields.check_events
    Fields.check_context_refs Fields.check_context_defaults Navigation.child Navigation.first_named
    Dict.get Teardowns.selector_targets Teardowns.choice_targets Fields.check_transition_event
    Fields.check_event Guard.kinds Fields.check_kind Fields.check_collection
    Fields.check_transition_refs Reads.guard_leaves Reads.tree_leaves Reads.choice_leaves
    Types.check_assignments Reads.all_assignments Validate.why_not_ending Validate.execution_root_of
    Validate.is_terminal Validate.has_own Validate.all_transitions_from Validate.ancestor_scopes
    Validate.catching_ancestor Validate.catching_from Validate.owned_from harel.Prelude.split
    harel.Prelude.strip Reads.distinct Reads.event_reads_of Reads.flat_leaves Reads.leaves_in
    Dict.put Fields.check_fields Fields.check_leaf Types.check_assignment
market_is_valid = refl

market-WellIndexed : WellIndexed market
unfolding Dict.get
market-WellIndexed p n h = ground (arith, h, eq_iff "" p, eq_iff "Open" p, eq_iff "Closed" p)

closed_indexed : (n : Node) × (Dict.get "Closed" market.index ≡ some n)
unfolding Dict.get
closed_indexed = (_, refl)

valid_cancel_example :
    safe_teardown (env_of market) (running_at "Open").exe (plain "Cancel") ≡ ok (some closing)
unfolding Resolve.resolve Resolve.resolve_between Resolve.nested Resolve.at_scope Resolve.event_pred
    Resolve.filter_matches Resolve.choice_open Guard.matches Guard.kinds harel.Prelude.split
    harel.Prelude.strip Navigation.chain Navigation.climb Validate.execution_root_of Dict.get
valid_cancel_example =
    valid_cancel (env_of market) 5 market_issues (running_at "Open").exe (plain "Cancel") closing
      market_is_valid market-WellIndexed refl
      (λ p i. named p i, λ c p e. absurd (ground (arith, e))) refl refl refl refl
  where
    named : (p : String) → In p ("Closed" ∷ []) → (n : Node) × (Dict.get p market.index ≡ some n)
    named p (inl e) = subst (λ q. (n : Node) × (Dict.get q market.index ≡ some n)) e closed_indexed
    named p (inr m) = absurd m

reachable_ends_example : (seen : List String) × (reachable market 3 ≡ some seen)
unfolding Dict.get
reachable_ends_example =
    reachable_ends market (λ p n h. (market-WellIndexed p n h).0) 3 refl (omega arith)

-- The machine's `A` may stay at a choice, and only `B`, its sibling, is left on an event.
abbrev sibling_root : Node
sibling_root = top (state composite "m" "" ("A" ∷ "B" ∷ []) (some "A") (on "B" "Go" "A" ∷ []))

abbrev sibling_a : Node
sibling_a = under (state leaf "A" "A" [] none []) sibling_root

can_rerun_any_example : can_rerun sibling_a ≡ true
unfolding Validate.execution_root_of Guard.kinds harel.Prelude.split harel.Prelude.strip
can_rerun_any_example =
    can_rerun_any sibling_root sibling_a (on "B" "Go" "A") (inr (refl, refl)) (inl refl) refl

reachable_exact_example :
    ((n : Node) → Reaches market n → mem (path n) ("Closed" ∷ "Open" ∷ "" ∷ []) ≡ true)
    × ((p : String)
        → mem p ("Closed" ∷ "Open" ∷ "" ∷ []) ≡ true
        → (n : Node) × (path n ≡ p) × Reaches market n)
unfolding Reach.reachable Reach.search Reach.visit Reach.visit_all Reach.successors Reach.entered
    Teardowns.selector_targets Teardowns.choice_targets Navigation.child Navigation.first_named
    Dict.get
reachable_exact_example =
    reachable_exact market (λ p n h. (market-WellIndexed p n h).0) refl 5
      ("Closed" ∷ "Open" ∷ "" ∷ []) refl
