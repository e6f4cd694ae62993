-- ===== src/Engine/Resolve/Automatic.antt =====
-- Automatic transitions of enclosing composites.
use harel.Prelude.{◌≡◌, refl, Bool, false, Option, none, some, List, ◌∷◌, or_else}
use harel.Model.{Node, Transition}
use harel.Engine.Resolve.{Found, nested}
use harel.Engine.Resolve.Innermost.{Resolved, nested-Resolved}

or_else-none : (r : Option Found) → or_else r none ≡ r
or_else-none none = refl
or_else-none (some f) = refl

module _ (predicate : Transition → Bool) where
  -- Without the parent fallback only the outermost scope is left out: below the child of the scope that
  -- stands on the way to a deeper active node, the resolution answers the innermost transition of every
  -- scope, those of enclosing composites included.
  pub nested-automatic :
      (scope head next : Node) (rest : List Node)
      → Resolved head (next ∷ rest) predicate (nested scope (head ∷ next ∷ rest) predicate false)
  unfolding nested
  nested-automatic scope head next rest =
      rw or_else-none (nested-Resolved predicate head (next ∷ rest))
