-- ===== src/Validate/Rerun.antt =====
-- What `_can_rerun` asks of the transitions that it meets.
use harel.Prelude.{◌≡◌, ◌⊎◌, inl, inr, true, false, arith, any, In, In-append, any-true}
use harel.Model.{Node, top, under, info, same, Transition}
use harel.Validate.{all_transitions_from, owned_from, ancestor_scopes, execution_root_of}
use harel.Validate.States.{can_rerun, reruns_from, goes_on_event}

owns :
    (n : Node) (t : Transition)
    → In t (info n).transitions
    → goes_on_event t ≡ true
    → any goes_on_event (all_transitions_from n) ≡ true
unfolding all_transitions_from
owns n t m g =
    any-true goes_on_event t _
      (In-append t (info n).transitions (owned_from n (ancestor_scopes n)) (inl m)) g

-- The node is a node or an ancestor of it, met on the way up before the root's path is.
abbrev pub Above : Node → Node → Node → Type 0
Above root n (top i) = n ≡ top i
Above root n (under i p) = (n ≡ under i p) ⊎ ((same (under i p) root ≡ false) × Above root n p)

reruns-Above :
    (root n source : Node) (t : Transition)
    → Above root n source
    → In t (info n).transitions
    → goes_on_event t ≡ true
    → reruns_from root source ≡ true
unfolding reruns_from
reruns-Above root n (top i) t a m g = owns (top i) t (rw a at m) g
reruns-Above root n (under i p) t (inl e) m g =
    let own = owns (under i p) t (rw e at m) g in ground (arith, own)
reruns-Above root n (under i p) t (inr (d, a)) m g =
    let above = reruns-Above root n p t a m g in ground (arith, d, above)

-- `_can_rerun` answers True of a state as soon as the state, or a state around it up to the root of its
-- execution, owns a transition on an event that does not end the execution, whichever state that
-- transition leaves.
pub can_rerun_any :
    (n source : Node) (t : Transition)
    → Above (execution_root_of source) n source
    → In t (info n).transitions
    → goes_on_event t ≡ true
    → can_rerun source ≡ true
unfolding can_rerun
can_rerun_any n source t a m g =
    let runs = reruns-Above (execution_root_of source) n source t a m g in ground (arith, runs)
