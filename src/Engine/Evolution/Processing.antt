-- ===== src/Engine/Evolution/Processing.antt =====
-- The steps of `start` and `process`, and what they say of an execution that handles an event.
use harel.Prelude.{ℕ, String, refl, inl, inr, Option, none, some, [], arith}
use harel.Value.{Value}
use harel.Events.{Event}
use harel.Model.{Node}
use harel.Execution.{Execution, Status}
use harel.Engine.Effects.{Env, World}
use harel.Engine.Resolve.{Found}
use harel.Engine.Start
use harel.Engine.Start.{start, set_state, arm_ttl, leave_site, expire_now}
use harel.Engine.Finished
use harel.Engine.Finished.{on_finished, record_child}
use harel.Engine.Process
use harel.Engine.Process.{
  process, on_reset, on_cancel, on_start, on_set_state, on_timeout, on_domain, cleared, count_event,
}
use harel.Engine.Evolution.{
  Evolves, Steps, Writes, Writes-plain, Writes-status, Steps-bind, Steps-gets, Steps-pure,
  step_rules,
}
use harel.Engine.Evolution.Taking.{Steps-run, Steps-descend, Steps-leave_regions}
use harel.Engine.Evolution.Draining.{Steps-drain, Steps-fire}

counts : Writes count_event
counts = record {
  same_identity = λ exe. refl;
  more_counted = λ exe. omega arith;
  new_status = λ exe. inl refl;
  new_error = λ exe. inl refl;
}

begins : Writes (λ exe. record exe { status = Status.running })
begins =
    Writes-status _ Status.running tt (λ exe. refl) (λ exe. refl) (λ exe. refl) (λ exe. inl refl)

cancels : Writes (λ exe. record exe { status = Status.cancelled })
cancels =
    Writes-status _ Status.cancelled tt (λ exe. refl) (λ exe. refl) (λ exe. refl) (λ exe. inl refl)

expires : Writes (λ exe. record exe { status = Status.cancelled; outcome = some "expired" })
expires =
    Writes-status _ Status.cancelled tt (λ exe. refl) (λ exe. refl) (λ exe. refl) (λ exe. inl refl)

repositions :
    (p : String)
    → Writes (λ exe. record exe { deferred = []; active_path = some p; status = Status.running })
repositions p =
    Writes-status _ Status.running tt (λ exe. refl) (λ exe. refl) (λ exe. refl) (λ exe. inl refl)

records : (ev : Event) (cid : Option String) → Writes (record_child ev cid)
unfolding record_child
records ev none = Writes-plain _ (λ exe. refl) (λ exe. refl) (λ exe. refl) (λ exe. refl)
records ev (some cid) =
    Writes-plain _ (λ exe. ground arith) (λ exe. ground arith) (λ exe. ground arith)
      (λ exe. ground arith)

ruleset writes = (counts, begins, cancels, expires, repositions, records)

module _ (env : Env) where
  Steps-arm : (d : Option ℕ) → Steps (Start.arm env d)
  unfolding Start.arm
  Steps-arm none = search step_rules
  Steps-arm (some n) = search step_rules depth 8

  Steps-arm_ttl : Steps (arm_ttl env)
  unfolding arm_ttl
  Steps-arm_ttl = search (step_rules, Steps-arm)

  pub Steps-start : Steps (start env)
  unfolding start
  Steps-start =
      search (step_rules, writes, Steps-run, Steps-descend, Steps-drain, Steps-arm_ttl) depth 16

  Steps-set_state : (p : String) → Steps (set_state env p)
  unfolding set_state
  Steps-set_state p = search (step_rules, writes, Steps-drain) depth 12

  Steps-leave_node : (n : Option Node) → Steps (Start.leave_node env n)
  unfolding Start.leave_node
  Steps-leave_node none = search step_rules
  Steps-leave_node (some n) = search (step_rules, Steps-leave_regions)

  Steps-leave_site : Steps (leave_site env)
  unfolding leave_site
  Steps-leave_site = search (step_rules, Steps-leave_node)

  Steps-by_model : (ev : Event) (f : Option Found) → Steps (Start.by_model env ev f)
  unfolding Start.by_model
  Steps-by_model ev none = search (step_rules, writes, Steps-leave_site) depth 8
  Steps-by_model ev (some f) = search (step_rules, Steps-fire, Steps-drain)

  Steps-expire_now : Steps (expire_now env)
  unfolding expire_now
  Steps-expire_now = search (step_rules, counts, Steps-by_model) depth 12

  clears : Writes (cleared env)
  clears =
      Writes-status _ Status.pending tt (λ exe. refl) (λ exe. refl) (λ exe. refl) (λ exe. inr refl)

  Steps-on_reset : Steps (on_reset env)
  unfolding on_reset
  Steps-on_reset = search (step_rules, clears, Steps-leave_site, Steps-start) depth 12

  Steps-cancel_by : (ev : Event) (f : Option Found) → Steps (Process.cancel_by env ev f)
  unfolding Process.cancel_by
  Steps-cancel_by ev none = search (step_rules, writes)
  Steps-cancel_by ev (some f) = search (step_rules, writes, Steps-fire, Steps-drain) depth 12

  Steps-on_cancel : (ev : Event) → Steps (on_cancel env ev)
  unfolding on_cancel
  Steps-on_cancel ev = search (step_rules, Steps-cancel_by) depth 9

  Steps-on_start : (ev : Event) → Steps (on_start env ev)
  unfolding on_start
  Steps-on_start ev = search (step_rules, Steps-start) depth 12

  Steps-set_state_key : (p : Option String) → Steps (Process.set_state_key env p)
  unfolding Process.set_state_key
  Steps-set_state_key none = search step_rules
  Steps-set_state_key (some p) = Steps-set_state p

  Steps-on_set_state : (ev : Event) → Steps (on_set_state env ev)
  unfolding on_set_state
  Steps-on_set_state ev = search (step_rules, Steps-set_state_key)

  Steps-adopt : (v : Value) → Steps (Finished.adopt env v)
  unfolding Finished.adopt
  Steps-adopt v = search step_rules depth 8

  Steps-adopt_deferred : (ev : Event) → Steps (Finished.adopt_deferred env ev)
  unfolding Finished.adopt_deferred
  Steps-adopt_deferred ev = search (step_rules, Steps-adopt)

  Steps-leave_invoke :
      (ev : Event) (p cid : String) (n : ℕ) (f : Option Found)
      → Steps (Finished.leave_invoke env ev p cid n f)
  unfolding Finished.leave_invoke
  Steps-leave_invoke ev p cid n none = search step_rules
  Steps-leave_invoke ev p cid n (some f) = search (step_rules, Steps-fire, Steps-drain) depth 12

  Steps-returned : (n : Node) (cid : Option String) → Steps (Finished.returned env n cid)
  unfolding Finished.returned
  Steps-returned n cid = search (step_rules, Steps-leave_invoke) depth 14

  Steps-opt_active : Steps (Finished.opt_active env)
  unfolding Finished.opt_active
  Steps-opt_active =
      Steps-bind _ _ (Steps-gets _) (elim [ none ↦ Steps-pure none | some p ↦ search step_rules ])

  Steps-after_finish :
      (cid : Option String) (n : Option Node) (exe : Execution)
      → Steps (Finished.after_finish env cid n exe)
  unfolding Finished.after_finish
  Steps-after_finish cid none exe = search (step_rules, Steps-drain)
  Steps-after_finish cid (some n) exe = search (step_rules, Steps-drain, Steps-returned)

  Steps-on_finished : (ev : Event) → Steps (on_finished env ev)
  unfolding on_finished
  Steps-on_finished ev =
      search (step_rules, records, Steps-adopt_deferred, Steps-opt_active, Steps-after_finish) depth
        12

  Steps-on_expiry : (ev : Event) → Steps (Process.on_expiry env ev)
  unfolding Process.on_expiry
  Steps-on_expiry ev = search (step_rules, Steps-expire_now)

  Steps-time_out : (ev : Event) (f : Option Found) → Steps (Process.time_out env ev f)
  unfolding Process.time_out
  Steps-time_out ev none = search step_rules
  Steps-time_out ev (some f) = search (step_rules, counts, Steps-fire, Steps-drain) depth 9

  Steps-time_out_at : (ev : Event) (p : Option String) → Steps (Process.time_out_at env ev p)
  unfolding Process.time_out_at
  Steps-time_out_at ev none = search step_rules
  Steps-time_out_at ev (some p) = search (step_rules, Steps-time_out) depth 8

  Steps-on_timeout : (ev : Event) → Steps (on_timeout env ev)
  unfolding on_timeout
  Steps-on_timeout ev = search (step_rules, Steps-on_expiry, Steps-time_out_at) depth 9

  Steps-unhandled : (ev : Event) → Steps (Process.unhandled env ev)
  unfolding Process.unhandled
  Steps-unhandled ev = search (step_rules, Steps-run) depth 9

  Steps-react : (ev : Event) (f : Option Found) → Steps (Process.react env ev f)
  unfolding Process.react
  Steps-react ev none = Steps-unhandled ev
  Steps-react ev (some f) = Steps-fire env (some ev) f

  Steps-on_domain : (ev : Event) → Steps (on_domain env ev)
  unfolding on_domain
  Steps-on_domain ev = search (step_rules, counts, Steps-react, Steps-drain, Steps-arm_ttl) depth 14

  pub Steps-process : (ev : Event) → Steps (process env ev)
  unfolding process
  Steps-process ev =
      search
        (
          step_rules, Steps-on_reset, Steps-on_cancel, Steps-on_start, Steps-on_set_state,
          Steps-on_finished, Steps-on_timeout, Steps-on_domain,
        )
        depth 12

-- Whatever an event does, also where it raises: the execution keeps its identity (its ids, its
-- definition, its parent and its routing key), the trace of effects is only extended, the count of
-- processed events never falls, the status is as it was or one of pending, running, done and
-- cancelled, and the error is as it was or cleared.
pub process-Evolves : (env : Env) (ev : Event) (w : World) → Evolves w (process env ev w).1
process-Evolves env ev w = (Steps-process env ev).at w
