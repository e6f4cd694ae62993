-- ===== src/Store/Ring.antt =====
-- The trace that the in-memory store keeps of an execution.
use harel.Prelude.{
  ℕ, ◌-◌, ◌≤◌, String, ◌≡◌, ap, false, eqb, ltb, List, [], ◌∷◌, ◌++◌, arith, length, length-drop,
  Bool-cases, inl, inr, ◌==◌,
}
use harel.Prelude.Dict
use harel.Prelude.Dict.{Dict, get-put, get-remove}
use harel.Value.{Value}
use harel.Store.{DictStore}
use harel.Store.Commits.{ring, steps_in, steps_of, record_trace, with_index, next_index}

-- No trace is longer than the limit, unless there is none.
abbrev pub Ringed : DictStore → Type 0
Ringed s = (id : String) → eqb s.trace_max 0 ≡ false → length (steps_of s id) ≤ s.trace_max

length-ring :
    (limit : ℕ) (steps : List (Dict Value))
    → eqb limit 0 ≡ false
    → length (ring limit steps) ≤ limit
unfolding ring
length-ring limit steps h = elim (Bool-cases (ltb limit (length steps))) [
  | inl e ↦ rw (h, e) (ground (arith, e, length-drop (length steps - limit) steps))
  | inr e ↦ rw (h, e) (ground (arith, e))
]

pub record_trace-Ringed :
    (id : String) (entry : Dict Value) (s : DictStore) → Ringed s → Ringed (record_trace id entry s)
unfolding record_trace
record_trace-Ringed id entry s h other z =
    let steps = steps_of s id ++ with_index (next_index s id) entry ∷ [] in
    let kept = ring s.trace_max steps in
    let put = ap steps_in (get-put id other kept s.trace) in
    let new = length-ring s.trace_max steps z in
    let old = h other z in
    elim (Bool-cases (id == other)) [
      | inl e ↦ ground (arith, put, e, new)
      | inr e ↦ ground (arith, put, e, old)
    ]

pub remove-Ringed :
    (id : String) (s : DictStore)
    → Ringed s
    → (other : String) → eqb s.trace_max 0 ≡ false
    → length (steps_in (Dict.get other (Dict.remove id s.trace))) ≤ s.trace_max
remove-Ringed id s h other z =
    let gone = ap steps_in (get-remove id other s.trace) in
    let old = h other z in
    elim (Bool-cases (id == other)) [
      | inl e ↦ ground (arith, gone, e)
      | inr e ↦ ground (arith, gone, e, old)
    ]
