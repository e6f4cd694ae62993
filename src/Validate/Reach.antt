-- ===== src/Validate/Reach.antt =====
-- The reachable states, in src/harel/definition/validate.py.
pub mod Exploring
pub mod Exact
pub mod Ends
use harel.Prelude.{
  ℕ, zero, suc, String, Bool, true, false, ◌==◌, not, ◌&&◌, Option, none, some, List, [], ◌∷◌, ◌++◌,
  opt_list, gather, if◌then◌else◌, mem, map,
}
use harel.Model.{Node, info, path, Transition, Definition, is_orthogonal}
use harel.Model.Navigation.{child}
use harel.Engine.Teardown.{is_empty}
use harel.Validate.Issues.{Issue, warning, flag, nodes_of}
use harel.Validate.Teardowns.{at_path, children_of, selector_targets, choice_targets}

-- The states seen, by their paths, and those to look at, the last one met first.
pub record Search : Type 0 where
  pub seen : List String
  pub work : List Node

unfoldable pub visit : Search → Node → Search
visit s n = if mem (path n) s.seen then s else record { seen = path n ∷ s.seen; work = n ∷ s.work }

unfoldable pub visit_all : List Node → Search → Search
visit_all [] s = s
visit_all (n ∷ ns) s = visit_all ns (visit s n)

-- An empty name is no name.
abbrev pub start_child : Definition → Node → Option String → List Node
start_child defn node none = []
start_child defn node (some s) = if s == "" then [] else opt_list (child defn node s)

-- What the entry of a composite activates.
unfoldable pub entered : Definition → Node → List Node
entered defn node =
    if is_empty (info node).children
    then []
    else if is_orthogonal node
    then children_of defn node
    else start_child defn node (info node).start_state

unfoldable pub successors : Definition → Node → List Node
successors defn node =
    entered defn node
    ++ gather
        (λ t.
          gather (at_path defn) (opt_list t.target)
          ++ (selector_targets defn node t ++ choice_targets defn t))
        (info node).transitions

-- The loop, with a bound on its rounds; `none`: the bound was met.
unfoldable pub search : Definition → ℕ → Search → Option (List String)
search defn zero s = elim s.work [ [] ↦ some s.seen | n ∷ ns ↦ none ]
search defn (suc k) s = elim s.work [
  | [] ↦ some s.seen
  | n ∷ ns ↦ search defn k (visit_all (successors defn n) (record s { work = ns }))
]

abbrev pub begin : Definition → Search
begin defn = visit (record { seen = []; work = [] }) defn.root

unfoldable pub reachable : Definition → ℕ → Option (List String)
reachable defn bound = search defn bound (begin defn)

unfoldable pub check_reachability : Definition → ℕ → Option (List Issue)
check_reachability defn bound = elim (reachable defn bound) [
  | none ↦ none
  | some seen ↦
      some (
        gather (λ n. flag (not (mem (path n) seen)) "unreachable" warning (path n)) (nodes_of defn))
]
