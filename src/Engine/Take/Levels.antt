-- ===== src/Engine/Take/Levels.antt =====
-- What is yielded by the exit and the entry of levels.
use mathlib.Core.List.{append-nil}
use harel.Prelude.{
  ℕ, suc, ◌≡◌, refl, sym, ap, ◌∙◌, false, ◌||◌, Option, none, some, List, [], ◌∷◌, ◌++◌, arith,
  is_some, if◌then◌else◌, All,
}
use harel.Prelude.Dict.{Dict}
use harel.Value.{Value}
use harel.Events.{Event}
use harel.Model.{Node, info, path, parent, ActionRef, Timeout, is_orthogonal, is_composite}
use harel.Engine.Result.{ok}
use harel.Engine.Effects.{
  Env, World, Effect, Hook, enter, exit, activity, rounds, pure, modify, yields, performs,
  schedules, for_each, ◌>>=◌,
}
use harel.Engine.Regions.{leave_regions}
use harel.Engine.Take.{
  run, act, timer, hook_of, exit_level, enter_level, note_history, descend, descend_round, assign,
  set_active, remember,
}
use harel.Engine.Drain.Quiet.{NeverRaises}
use harel.Engine.Take.Ran.{
  action_effects, timer_effects, level_effects, all_effects, assign_effects, Ran, IsPlain,
  active_after, Ran-then, Ran-as, Ran-modify, Ran-pure,
}

module _ (env : Env) (quiet : NeverRaises env) (ev : Option Event) where
  pub act-Ran :
      (n : Node) (h : Hook) (a : Option ActionRef) (w : World)
      → Ran (act env n h a ev) w (action_effects n h a ev) w.exe.active_path
  unfolding act performs ◌>>=◌
  act-Ran n h none w = record {
    after = w;
    returns = refl;
    trace = sym (append-nil w.trace);
    active = refl;
    status = refl;
    root = refl;
  }
  act-Ran n h (some a) w =
      let e : Effect = Effect.run_action n h a ev in
      let (v, d, p) = quiet (w.trace ++ e ∷ []) e w.exe.context in
      record {
        after = record { exe = record w.exe { context = d }; trace = w.trace ++ e ∷ [] };
        returns = rw p;
        trace = refl;
        active = refl;
        status = refl;
        root = refl;
      }

  pub timer-Ran :
      (n : Node) (h : Hook) (t : Option Timeout) (w : World)
      → Ran (timer env n h t) w (timer_effects n h t) w.exe.active_path
  unfolding timer yields schedules ◌>>=◌
  timer-Ran n h t w = record {
    after = record w { trace = w.trace ++ timer_effects n h t };
    returns = timer_world n h t;
    trace = refl;
    active = refl;
    status = refl;
    root = refl;
  }
    where
      timer_world :
          (n : Node) (h : Hook) (t : Option Timeout)
          → timer env n h t w ≡ (ok tt, record w { trace = w.trace ++ timer_effects n h t })
      timer_world n enter (some (Timeout.from_context k)) = refl
      timer_world n enter (some (Timeout.seconds k)) = refl
      timer_world n exit (some t) = refl
      timer_world n activity (some t) = rw append-nil
      timer_world n enter none = rw append-nil
      timer_world n exit none = rw append-nil
      timer_world n activity none = rw append-nil

  pub run-Ran :
      (n : Node) (h : Hook) (w : World)
      → Ran (run env n h ev) w (level_effects h ev n) w.exe.active_path
  unfolding run
  run-Ran n h w =
      let a = act-Ran n h (hook_of (info n) h) w in
      let t = timer-Ran n h (info n).timeout a.after in Ran-as (Ran-then a t) refl a.active

  pub note-Ran :
      (n : Node) (p : Option Node) (w : World) → Ran (note_history env n p) w [] w.exe.active_path
  unfolding note_history
  note-Ran n none w = Ran-pure w
  note-Ran n (some p) w = Ran-modify (remember (path p) (path n)) w refl refl

  pub enter-Ran :
      (n : Node) (w : World)
      → Ran (enter_level env ev n) w (level_effects enter ev n) (some (path n))
  unfolding enter_level
  enter-Ran n w =
      let a = Ran-modify (set_active (path n)) w refl refl in
      let b = run-Ran n enter a.after in
      let c = note-Ran n (parent n) b.after in
      Ran-as (Ran-then a (Ran-then b c)) (append-nil (level_effects enter ev n))
        (b.active ∙ a.active)

  pub stay-Ran :
      (n : Node) (w : World)
      → IsPlain n
      → Ran
          (if is_orthogonal n || is_some (info n).invoke_each then leave_regions env n else pure tt)
          w
          []
          w.exe.active_path
  stay-Ran n w plain = rw plain (Ran-pure w)

  pub exit-Ran :
      (n : Node) (w : World)
      → IsPlain n
      → Ran (exit_level env ev n) w (level_effects exit ev n) (some (path n))
  unfolding exit_level
  exit-Ran n w plain =
      let a = Ran-modify (set_active (path n)) w refl refl in
      let b = run-Ran n exit a.after in
      let c = note-Ran n (parent n) b.after in
      let d = stay-Ran n c.after plain in
      Ran-as (Ran-then a (Ran-then b (Ran-then c d))) (append-nil (level_effects exit ev n))
        (c.active ∙ b.active ∙ a.active)

  pub enters-Ran :
      (ns : List Node) (w : World)
      → Ran
          (for_each (enter_level env ev) ns)
          w
          (all_effects enter ev ns)
          (active_after ns w.exe.active_path)
  unfolding for_each
  enters-Ran [] w = Ran-pure w
  enters-Ran (n ∷ ns) w =
      let a = enter-Ran n w in
      let b = enters-Ran ns a.after in Ran-as (Ran-then a b) refl (ap (active_after ns) a.active)

  pub exits-Ran :
      (ns : List Node) (w : World)
      → All IsPlain ns
      → Ran
          (for_each (exit_level env ev) ns)
          w
          (all_effects exit ev ns)
          (active_after ns w.exe.active_path)
  unfolding for_each
  exits-Ran [] w plain = Ran-pure w
  exits-Ran (n ∷ ns) w plain =
      let a = exit-Ran n w (plain.0) in
      let b = exits-Ran ns a.after (plain.1) in
      Ran-as (Ran-then a b) refl (ap (active_after ns) a.active)

  pub assign-Ran :
      (values : Dict Value) (w : World)
      → Ran (assign env values) w (assign_effects values) w.exe.active_path
  unfolding assign yields modify ◌>>=◌
  assign-Ran [] w = Ran-pure w
  assign-Ran (b ∷ values) w = record {
    after = (assign env (b ∷ values) w).1;
    returns = refl;
    trace = refl;
    active = refl;
    status = refl;
    root = refl;
  }

  -- A leaf has nothing below it to enter.
  pub descend-Ran :
      (target : Node) (w : World) (n : ℕ)
      → is_composite target ≡ false
      → env.bound ≡ suc n
      → Ran (descend env target ev) w [] w.exe.active_path
  unfolding descend descend_round rounds ◌>>=◌
  descend-Ran target w n leaf b = record {
    after = w;
    returns = ground arith;
    trace = sym (append-nil w.trace);
    active = refl;
    status = refl;
    root = refl;
  }
