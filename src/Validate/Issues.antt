-- ===== src/Validate/Issues.antt =====
-- The findings of src/harel/definition/validate.py. The text of an issue is left out.
use harel.Prelude.{String, Bool, true, false, List, [], ◌∷◌, map}
use harel.Model.{Node, Definition}

pub data Severity : Type 0 where
  error warning : Severity

-- At the root of the machine the path is empty.
pub record Issue : Type 0 where
  pub code : String
  pub severity : Severity
  pub path : String

abbrev pub is_error : Issue → Bool
is_error i = elim i.severity [ error ↦ true | warning ↦ false ]

-- An issue where the test holds.
abbrev pub flag : Bool → String → Severity → String → List Issue
flag true code severity path = record { code = code; severity = severity; path = path } ∷ []
flag false code severity path = []

-- `defn.index.values()`
abbrev pub nodes_of : Definition → List Node
nodes_of defn = map (λ (e : String × Node). e.1) defn.index
