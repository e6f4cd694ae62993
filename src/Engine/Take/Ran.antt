-- ===== src/Engine/Take/Ran.antt =====
-- The effects of the levels of a transition, and actions that return with given effects.
use mathlib.Core.List.{append-nil, append_assoc}
use harel.Prelude.{
  ◌≡◌, refl, sym, ap, ◌∙◌, String, false, ◌||◌, Option, none, some, List, [], ◌∷◌, ◌++◌, is_some,
}
use harel.Prelude.Dict.{Dict}
use harel.Value.{Value}
use harel.Events.{Event}
use harel.Model.{Node, info, path, ActionRef, Timeout, is_orthogonal}
use harel.Execution.{Execution}
use harel.Engine.Result.{ok}
use harel.Engine.Effects.{World, M, Effect, Hook, enter, exit, Delay, pure, modify, ◌>>=◌, ◌>>◌}
use harel.Engine.Take.{hook_of}

-- The effects of a level's hook and timer.
abbrev pub action_effects : Node → Hook → Option ActionRef → Option Event → List Effect
action_effects n h none ev = []
action_effects n h (some a) ev = Effect.run_action n h a ev ∷ []

abbrev pub timer_effects : Node → Hook → Option Timeout → List Effect
timer_effects n enter (some (Timeout.from_context k)) =
    Effect.schedule_timer (path n) (Delay.context_key k) ∷ []
timer_effects n enter (some (Timeout.seconds k)) =
    Effect.schedule_timer (path n) (Delay.seconds k) ∷ []
timer_effects n exit (some t) = Effect.cancel_timer (path n) ∷ []
timer_effects n h t = []

abbrev pub level_effects : Hook → Option Event → Node → List Effect
level_effects h ev n =
    action_effects n h (hook_of (info n) h) ev ++ timer_effects n h (info n).timeout

abbrev pub all_effects : Hook → Option Event → List Node → List Effect
all_effects h ev [] = []
all_effects h ev (n ∷ ns) = level_effects h ev n ++ all_effects h ev ns

abbrev pub assign_effects : Dict Value → List Effect
assign_effects [] = []
assign_effects (b ∷ values) = Effect.assigned (b ∷ values) ∷ []

-- `m` returns from `w` with these effects more, the same status and root, and the active path `p`; the
-- definition's history, the context and the children are open.
pub record Ran (m : M (Unit {0})) (w : World) (es : List Effect) (p : Option String) : Type 0 where
  pub after : World
  pub returns : m w ≡ (ok tt, after)
  pub trace : after.trace ≡ w.trace ++ es
  pub active : after.exe.active_path ≡ p
  pub status : after.exe.status ≡ w.exe.status
  pub root : after.exe.root_path ≡ w.exe.root_path

pub Ran-then :
    {m n : M (Unit {0})} {w : World} {es fs : List Effect} {p q : Option String} (r : Ran m w es p)
    → Ran n r.after fs q
    → Ran (m >> n) w (es ++ fs) q
unfolding ◌>>=◌
Ran-then {m} {n} {w} {es} {fs} r s = record {
  after = s.after;
  returns = rw r.returns s.returns;
  trace = s.trace ∙ ap (λ (t : List Effect). t ++ fs) r.trace ∙ append_assoc w.trace es fs;
  active = s.active;
  status = s.status ∙ r.status;
  root = s.root ∙ r.root;
}

pub Ran-as :
    {m : M (Unit {0})} {w : World} {es fs : List Effect} {p q : Option String}
    → Ran m w es p
    → es ≡ fs
    → p ≡ q
    → Ran m w fs q
Ran-as {m} {w} r d e = record {
  after = r.after;
  returns = r.returns;
  trace = r.trace ∙ ap (λ (t : List Effect). w.trace ++ t) d;
  active = r.active ∙ e;
  status = r.status;
  root = r.root;
}

-- A write of the execution alone, that leaves the status and the root.
pub Ran-modify :
    (f : Execution → Execution) (w : World)
    → (f w.exe).status ≡ w.exe.status
    → (f w.exe).root_path ≡ w.exe.root_path
    → Ran (modify f) w [] (f w.exe).active_path
unfolding modify
Ran-modify f w s r = record {
  after = record w { exe = f w.exe };
  returns = refl;
  trace = sym (append-nil w.trace);
  active = refl;
  status = s;
  root = r;
}

pub Ran-pure : (w : World) → Ran (pure tt) w [] w.exe.active_path
unfolding pure
Ran-pure w = record {
  after = w;
  returns = refl;
  trace = sym (append-nil w.trace);
  active = refl;
  status = refl;
  root = refl;
}

-- The nodes whose exit leaves no regions behind.
abbrev pub IsPlain : Node → Type 0
IsPlain n = (is_orthogonal n || is_some (info n).invoke_each) ≡ false

-- The active path after a walk through levels.
abbrev pub active_after : List Node → Option String → Option String
active_after [] p = p
active_after (n ∷ ns) p = active_after ns (some (path n))
