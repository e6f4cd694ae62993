-- ===== src/Engine/Take/Order.antt =====
-- The order of a transition's effects: exits from the active state outwards, the assignment, entries
-- inwards.
use mathlib.Core.List.{append-nil}
use harel.Prelude.{
  ℕ, suc, ◌≡◌, refl, ap, ◌∙◌, String, false, Option, some, List, ◌++◌, arith, All, reverse,
}
use harel.Prelude.Dict
use harel.Prelude.Dict.{Dict}
use harel.Value.{Value}
use harel.Events.{Event}
use harel.Model.{Node, path, is_composite, Assign}
use harel.Model.Navigation.{lca, chain}
use harel.Engine.Result.{ok, need}
use harel.Engine.Effects.{
  Env, World, M, Effect, enter, exit, lift, active_node, for_each, ◌>>=◌, ◌>>◌,
}
use harel.Engine.Resolve.{tail}
use harel.Engine.Take.{enter_level, take, descend, evaluated, set_active}
use harel.Engine.Drain.Quiet.{NeverRaises}
use harel.Engine.Take.Ran.{
  all_effects, assign_effects, Ran, IsPlain, active_after, Ran-then, Ran-as, Ran-modify,
}
use harel.Engine.Take.Levels.{enters-Ran, exits-Ran, assign-Ran, descend-Ran}

-- A step that answers and changes nothing.
Ran-from :
    {A : Type 0} (m : M A) (k : A → M (Unit {0})) (a : A) {w : World} {es : List Effect}
    {p : Option String}
    → m w ≡ (ok a, w)
    → Ran (k a) w es p
    → Ran (m >>= k) w es p
unfolding ◌>>=◌
Ran-from m k a h r = record {
  after = r.after;
  returns = rw h r.returns;
  trace = r.trace;
  active = r.active;
  status = r.status;
  root = r.root;
}

needed : {A : Type 0} (o : Option A) (a : A) (w : World) → o ≡ some a → lift (need o) w ≡ (ok a, w)
unfolding lift
needed o a w h = rw (h, need)

active_at :
    (env : Env) (w : World) (p : String) (n : Node)
    → w.exe.active_path ≡ some p
    → Dict.get p env.defn.index ≡ some n
    → active_node env w ≡ (ok n, w)
unfolding active_node
active_at env w p n a i = ground arith

-- The way of a transition: the active node, the least common ancestor with the target, and the levels
-- left and entered, each list from the ancestor down.
pub record Route (env : Env) (w : World) (target : Node) : Type 0 where
  pub at : String
  pub from : Node
  pub pivot : Node
  pub left : List Node
  pub entered : List Node
  pub is_active : w.exe.active_path ≡ some at
  pub is_indexed : Dict.get at env.defn.index ≡ some from
  pub is_lca : lca from target ≡ some pivot
  pub leaves : chain pivot from ≡ some left
  pub enters : chain pivot target ≡ some entered

module _ (env : Env) (quiet : NeverRaises env) (ev : Option Event) (target : Node) (n : ℕ) where
  -- The effects of a whole transition: the levels left, innermost first, the assignment, and the levels
  -- entered, outermost first.
  abbrev pub transition_effects : List Node → List Node → Dict Value → List Effect
  transition_effects left entered values =
      all_effects exit ev (reverse (tail left))
      ++ (assign_effects values ++ all_effects enter ev (tail entered))

  enter_all :
      (pivot : Node) (entered : List Node) (w : World)
      → chain pivot target ≡ some entered
      → is_composite target ≡ false
      → env.bound ≡ suc n
      → Ran
          (lift (need (chain pivot target)) >>= λ ns.
            for_each (enter_level env ev) (tail ns) >> descend env target ev)
          w
          (all_effects enter ev (tail entered))
          (active_after (tail entered) w.exe.active_path)
  enter_all pivot entered w c leaf b =
      let a = enters-Ran env quiet ev (tail entered) w in
      let d = descend-Ran env quiet ev target a.after n leaf b in
      Ran-from (lift (need (chain pivot target))) _ entered
        (needed (chain pivot target) entered w c)
        (Ran-as (Ran-then a d) (append-nil (all_effects enter ev (tail entered))) a.active)

  -- A transition into a leaf, where no action raises and no level left owns regions, returns with just
  -- these effects in this order: the exit of each level from the active one up to the least common
  -- ancestor, the assigned values, and the entry of each level from there down to the target; a level's
  -- effects are its hook's action and then its timer, armed on entry and disarmed on exit. The active
  -- path is then the target's, or the ancestor's where nothing is entered.
  pub take_order :
      (assigns : List Assign) (values : Dict Value) (w : World) (route : Route env w target)
      → evaluated env assigns ev w ≡ (ok values, w)
      → All IsPlain (reverse (tail route.left))
      → is_composite target ≡ false
      → env.bound ≡ suc n
      → Ran
          (take env target ev assigns)
          w
          (transition_effects route.left route.entered values)
          (active_after (tail route.entered) (some (path route.pivot)))
  unfolding take
  take_order assigns values w route e plain leaf b =
      let a = exits-Ran env quiet ev (reverse (tail route.left)) w plain in
      let m = Ran-modify (set_active (path route.pivot)) a.after refl refl in
      let s = assign-Ran env quiet ev values m.after in
      let t = enter_all route.pivot route.entered s.after route.enters leaf b in
      Ran-from (evaluated env assigns ev) _ values e (
        Ran-from (active_node env) _ route.from
          (active_at env w route.at route.from route.is_active route.is_indexed)
          (Ran-from (lift (need (lca route.from target))) _ route.pivot
            (needed _ route.pivot w route.is_lca)
            (Ran-from (lift (need (chain route.pivot route.from))) _ route.left
              (needed _ route.left w route.leaves)
              (Ran-as (Ran-then a (Ran-then m (Ran-then s t))) refl
                (ap (active_after (tail route.entered)) (s.active ∙ m.active))))))
