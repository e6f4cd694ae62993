-- ===== src/Engine/Evolution/Draining.antt =====
-- The steps of `_drain`.
use harel.Prelude.{String, refl, Option, none, some, inl, arith}
use harel.Events.{Event}
use harel.Model.{Node}
use harel.Execution.{Status}
use harel.Engine.Effects.{Env}
use harel.Engine.Resolve.{Found}
use harel.Engine.Regions.{expose_region_results}
use harel.Engine.Drain.{
  fire, next_deferred, reach_invoke, gate, settle, sink, advance, drain_round, drain,
  record_outcome, drain_body,
}
use harel.Engine.Drain
use harel.Engine.Evolution.{
  Steps, Writes, Writes-plain, Steps-bind, Steps-gets, Steps-lift, Steps-pure, Steps-rounds,
  Steps-node_at, Writes-status, step_rules,
}
use harel.Engine.Evolution.Taking.{Steps-run, Steps-take, Steps-target_of, Steps-fan_out}

exposes : Writes expose_region_results
unfolding expose_region_results
exposes =
    Writes-plain _ (λ exe. ground arith) (λ exe. ground arith) (λ exe. ground arith)
      (λ exe. ground arith)

outcomes : (o : Option String) → Writes (record_outcome o)
outcomes o =
    Writes-plain _ (λ exe. ground arith) (λ exe. ground arith) (λ exe. ground arith)
      (λ exe. ground arith)

module _ (env : Env) where
  pub Steps-fire : (ev : Option Event) (f : Found) → Steps (fire env ev f)
  unfolding fire
  Steps-fire ev f = search (step_rules, Steps-target_of, Steps-take)

  Steps-next_deferred : Steps (next_deferred env)
  unfolding next_deferred
  Steps-next_deferred = Steps-bind _ _ (Steps-gets _) λ exe.
      Steps-bind _ _ (Steps-lift _)
        (elim [ none ↦ Steps-pure none | some (ev, found, kept) ↦ search step_rules depth 8 ])

  Steps-reach_invoke : (n : Node) → Steps (reach_invoke env n)
  unfolding reach_invoke
  Steps-reach_invoke n = search step_rules depth 9

  Steps-gate : (n : Node) → Steps (gate env n)
  unfolding gate Drain.gate_fan_out Drain.gate_orthogonal
  Steps-gate n = search (step_rules, exposes, Steps-fan_out, Steps-reach_invoke) depth 12

  Steps-report : (n : Node) → Steps (Drain.report env n)
  unfolding Drain.report
  Steps-report n = search step_rules depth 9

  ends : Writes (λ exe. record exe { status = Status.done })
  ends = Writes-status _ Status.done tt (λ exe. refl) (λ exe. refl) (λ exe. refl) (λ exe. inl refl)

  Steps-settle : (n : Node) → Steps (settle env n)
  unfolding settle
  Steps-settle n = search (step_rules, Steps-run, Steps-report, ends) depth 12

  Steps-bubble : (r n : Node) (p : Option Node) → Steps (Drain.bubble env r n p)
  unfolding Drain.bubble
  Steps-bubble r n none = search (step_rules, Steps-settle)
  Steps-bubble r n (some p) = search (step_rules, Steps-settle) depth 9

  Steps-sink : (r n : Node) → Steps (sink env r n)
  unfolding sink
  Steps-sink r n = search (step_rules, Steps-run, Steps-bubble, outcomes) depth 9

  Steps-deferred_or_wait : (o : Option (Event × Found)) → Steps (Drain.deferred_or_wait env o)
  unfolding Drain.deferred_or_wait
  Steps-deferred_or_wait none = search step_rules
  Steps-deferred_or_wait (some (ev, found)) = search (step_rules, Steps-fire)

  Steps-advance_by : (r n : Node) (auto : Option Found) → Steps (Drain.advance_by env r n auto)
  unfolding Drain.advance_by
  Steps-advance_by r n (some found) = search (step_rules, Steps-fire)
  Steps-advance_by r n none =
      search (step_rules, Steps-next_deferred, Steps-deferred_or_wait, Steps-sink) depth 9

  Steps-advance : (r n : Node) → Steps (advance env r n)
  unfolding advance
  Steps-advance r n = search (step_rules, Steps-advance_by)

  Steps-drain_round : (r : Node) → Steps (drain_round env r)
  unfolding drain_round
  Steps-drain_round r = search (step_rules, Steps-gate, Steps-advance) depth 9

  Steps-drain_body : (r : Node) → Steps (drain_body env r)
  unfolding drain_body
  Steps-drain_body r = search (step_rules, Steps-drain_round)

  pub Steps-drain : Steps (drain env)
  unfolding drain
  Steps-drain = Steps-bind _ _ (Steps-gets _) λ p.
      Steps-bind _ _ (Steps-node_at env p) λ root. Steps-rounds _ Steps-drain_body env.bound root
