-- ===== src/Engine/Evolution/Taking.antt =====
-- The steps of forks, hooks, descents and transitions.
use harel.Prelude.{String, Bool, if◌then◌else◌, true, false, Option, none, some, List, [], ◌∷◌}
use harel.Prelude.Dict.{Dict}
use harel.Value.{Value}
use harel.Events.{Event}
use harel.Model.{Node, NodeInfo, info, ActionRef, Timeout, Selector, Choice, Transition, Assign}
use harel.Execution.{ChildState}
use harel.Engine.Effects.{Env, modify, Hook, enter, exit, activity}
use harel.Engine.Regions.{fork, fan_out, leave_regions}
use harel.Engine.Regions
use harel.Engine.Take.{run, descend, descend_round, target_of, exit_level, enter_level, take}
use harel.Engine.Take
use harel.Engine.Evolution.{Steps, Steps-rounds, step_rules}

pub Steps-fork : (node : Node) → Steps (fork node)
unfolding fork
Steps-fork node = search step_rules depth 8

Steps-fan_out_over :
    (n : NodeInfo) (v : String) (items : Option (List Value))
    → Steps (Regions.fan_out_over n v items)
unfolding Regions.fan_out_over
Steps-fan_out_over n v none = search step_rules depth 8
Steps-fan_out_over n v (some items) = search step_rules depth 8

Steps-fan_out_each :
    (n : NodeInfo) (each : Option (String × String)) → Steps (Regions.fan_out_each n each)
unfolding Regions.fan_out_each
Steps-fan_out_each n none = search step_rules
Steps-fan_out_each n (some (v, k)) = search (step_rules, Steps-fan_out_over)

pub Steps-fan_out : (node : Node) → Steps (fan_out node)
unfolding fan_out
Steps-fan_out node = Steps-fan_out_each (info node) (info node).invoke_each

module _ (env : Env) where
  Steps-cancel_child : (c : String × ChildState) → Steps (Regions.cancel_child env c)
  unfolding Regions.cancel_child
  Steps-cancel_child (cid, cs) = search step_rules

  pub Steps-leave_regions : (node : Node) → Steps (leave_regions env node)
  unfolding leave_regions
  Steps-leave_regions node = search (step_rules, Steps-cancel_child) depth 8

  Steps-act :
      (n : Node) (h : Hook) (a : Option ActionRef) (ev : Option Event)
      → Steps (Take.act env n h a ev)
  unfolding Take.act
  Steps-act n h none ev = search step_rules
  Steps-act n h (some a) ev = search step_rules

  Steps-timer : (n : Node) (h : Hook) (t : Option Timeout) → Steps (Take.timer env n h t)
  unfolding Take.timer
  Steps-timer n enter (some (Timeout.from_context k)) = search step_rules
  Steps-timer n enter (some (Timeout.seconds k)) = search step_rules
  Steps-timer n exit (some t) = search step_rules
  Steps-timer n activity (some t) = search step_rules
  Steps-timer n enter none = search step_rules
  Steps-timer n exit none = search step_rules
  Steps-timer n activity none = search step_rules

  pub Steps-run : (n : Node) (h : Hook) (ev : Option Event) → Steps (run env n h ev)
  unfolding run
  Steps-run n h ev = search (step_rules, Steps-act, Steps-timer)

  Steps-enter_child :
      (n : Node) (ev : Option Event) (p : Option String) → Steps (Take.enter_child env n ev p)
  unfolding Take.enter_child
  Steps-enter_child n ev none = search step_rules
  Steps-enter_child n ev (some p) = search (step_rules, Steps-run) depth 9

  forgets : (b : Bool) (p : String) → Steps (modify (λ exe. if b then exe else Take.forget p exe))
  forgets true p = search step_rules
  forgets false p = search step_rules

  Steps-descend_round : (ev : Option Event) (n : Node) → Steps (descend_round env ev n)
  unfolding descend_round
  Steps-descend_round ev n = search (step_rules, Steps-enter_child, Steps-fork, forgets) depth 9

  pub Steps-descend : (n : Node) (ev : Option Event) → Steps (descend env n ev)
  unfolding descend
  Steps-descend n ev = Steps-rounds (descend_round env ev) (Steps-descend_round ev) env.bound n

  Steps-select : (n : Node) (s : Selector) (ev : Option Event) → Steps (Take.select env n s ev)
  unfolding Take.select
  Steps-select n s ev = search step_rules depth 9

  Steps-choose : (c : Choice) (ev : Option Event) → Steps (Take.choose env c ev)
  unfolding Take.choose
  Steps-choose c ev = search step_rules depth 9

  Steps-static_target : (p : Option String) → Steps (Take.static_target env p)
  unfolding Take.static_target
  Steps-static_target none = search step_rules
  Steps-static_target (some p) = search step_rules

  Steps-target_by :
      (n : Node) (s : Option Selector) (c : Option Choice) (p : Option String) (ev : Option Event)
      → Steps (Take.target_by env n s c p ev)
  unfolding Take.target_by
  Steps-target_by n (some s) c p ev = Steps-select n s ev
  Steps-target_by n none (some c) p ev = Steps-choose c ev
  Steps-target_by n none none p ev = Steps-static_target p

  pub Steps-target_of :
      (n : Node) (t : Transition) (ev : Option Event) → Steps (target_of env n t ev)
  unfolding target_of
  Steps-target_of n t ev = Steps-target_by n t.selector t.choice t.target ev

  Steps-note_history : (n : Node) (p : Option Node) → Steps (Take.note_history env n p)
  unfolding Take.note_history
  Steps-note_history n none = search step_rules
  Steps-note_history n (some p) = search step_rules depth 8

  Steps-exit_level : (ev : Option Event) (n : Node) → Steps (exit_level env ev n)
  unfolding exit_level
  Steps-exit_level ev n =
      search (step_rules, Steps-run, Steps-note_history, Steps-leave_regions) depth 9

  Steps-enter_level : (ev : Option Event) (n : Node) → Steps (enter_level env ev n)
  unfolding enter_level
  Steps-enter_level ev n = search (step_rules, Steps-run, Steps-note_history) depth 9

  Steps-assign : (values : Dict Value) → Steps (Take.assign env values)
  unfolding Take.assign
  Steps-assign [] = search step_rules
  Steps-assign (b ∷ values) = search step_rules depth 8

  Steps-evaluated :
      (assigns : List Assign) (ev : Option Event) → Steps (Take.evaluated env assigns ev)
  unfolding Take.evaluated
  Steps-evaluated [] ev = search step_rules
  Steps-evaluated (a ∷ assigns) ev = search step_rules

  pub Steps-take :
      (n : Node) (ev : Option Event) (assigns : List Assign) → Steps (take env n ev assigns)
  unfolding take
  Steps-take n ev assigns =
      search
        (
          step_rules, Steps-evaluated, Steps-assign, Steps-exit_level, Steps-enter_level,
          Steps-descend,
        )
        depth 14
