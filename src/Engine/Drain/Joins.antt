-- ===== src/Engine/Drain/Joins.antt =====
-- The join of an orthogonal node.
use harel.Prelude.{
  ℕ, suc, ◌≡◌, refl, ap, sym, ◌∙◌, ◌⊎◌, inl, inr, String, Bool-cases, true, false, ◌&&◌, any, all,
  eq_iff, none, some, List, [], ◌∷◌, arith, All, In,
}
use harel.Prelude.Dict
use harel.Value.{Value, null, str}
use harel.Model.{Node, info, is_orthogonal}
use harel.Execution.{ChildState}
use harel.Engine.Result.{ok}
use harel.Engine.Effects.{Env, World, rounds, node_at, active_node, modify, ◌>>=◌}
use harel.Engine.Regions.{
  joined, any_region_failed, expose_region_results, finished_of, failed_region, is_verdict,
}
use harel.Engine.Drain.{drain, drain_body, drain_round, gate, gate_orthogonal}

-- A child that has not reported.
abbrev pub IsOut : String × ChildState → Type 0
IsOut c = c.1.finished ≡ false

-- A child that has reported.
abbrev pub IsIn : String × ChildState → Type 0
IsIn c = c.1.finished ≡ true

-- A child that has reported another outcome than none and `success`.
abbrev pub IsFailure : String × ChildState → Type 0
IsFailure c = IsIn c × ¬ (c.1.outcome ≡ null) × ¬ (c.1.outcome ≡ str "success")

abbrev pub IsNoFailure : String × ChildState → Type 0
IsNoFailure c = IsOut c ⊎ ((c.1.outcome ≡ null) ⊎ (c.1.outcome ≡ str "success"))

-- The join is open: all children have reported, or the node gives up on a failure, and one failed.
abbrev pub IsOpen : Node → World → Type 0
IsOpen active w =
    All IsIn w.exe.children
    ⊎ (((info active).cancel_on_failure ≡ true)
        × ((c : String × ChildState) × In c w.exe.children × IsFailure c))

-- The join is shut: a child has not reported, and the node does not give up on a failure, or none failed.
abbrev pub IsShut : Node → World → Type 0
IsShut active w =
    ((c : String × ChildState) × In c w.exe.children × IsOut c)
    × (((info active).cancel_on_failure ≡ false) ⊎ All IsNoFailure w.exe.children)

verdict-IsFailure : (v : Value) → is_verdict v ≡ true → ¬ (v ≡ null) × ¬ (v ≡ str "success")
verdict-IsFailure v h = (
  λ e. absurd (ground (arith, sym h ∙ ap is_verdict e)),
  λ e. absurd (ground (arith, sym h ∙ ap is_verdict e)),
)

verdict-none : (v : Value) → is_verdict v ≡ false → (v ≡ null) ⊎ (v ≡ str "success")
verdict-none null h = inl refl
verdict-none (str o) h = inr (ap str ((eq_iff o "success").0 (ground (arith, h))))
verdict-none v h = absurd (ground (arith, h))

all-IsIn : (cs : List (String × ChildState)) → all finished_of cs ≡ true → All IsIn cs
all-IsIn [] h = tt
all-IsIn (c ∷ cs) h = (ground (arith, h), all-IsIn cs (ground (arith, h)))

one-IsOut :
    (cs : List (String × ChildState))
    → all finished_of cs ≡ false
    → (c : String × ChildState) × In c cs × IsOut c
one-IsOut [] h = absurd (ground (arith, h))
one-IsOut (c ∷ cs) h = elim (Bool-cases (finished_of c)) [
  | inr e ↦ (c, inl refl, e)
  | inl e ↦ let (d, m, o) = one-IsOut cs (ground (arith, h, e)) in (d, inr m, o)
]

failure : (c : String × ChildState) → failed_region c ≡ true → IsFailure c
failure c h =
    let (a, b) = verdict-IsFailure c.1.outcome (ground (arith, h)) in (ground (arith, h), a, b)

one_failed :
    (cs : List (String × ChildState))
    → any failed_region cs ≡ true
    → (c : String × ChildState) × In c cs × IsFailure c
one_failed [] h = absurd (ground (arith, h))
one_failed (c ∷ cs) h = elim (Bool-cases (failed_region c)) [
  | inl e ↦ (c, inl refl, failure c e)
  | inr e ↦ let (d, m, o) = one_failed cs (ground (arith, h, e)) in (d, inr m, o)
]

no_failure : (c : String × ChildState) → failed_region c ≡ false → IsNoFailure c
no_failure c h = elim (Bool-cases (finished_of c)) [
  | inr e ↦ inl e
  | inl e ↦ inr (verdict-none c.1.outcome (ground (arith, h, e)))
]

none_failed : (cs : List (String × ChildState)) → any failed_region cs ≡ false → All IsNoFailure cs
none_failed [] h = tt
none_failed (c ∷ cs) h = (no_failure c (ground (arith, h)), none_failed cs (ground (arith, h)))

module _ (env : Env) (root active : Node) (p : String) (w : World) where
  gate_opens :
      is_orthogonal active ≡ true
      → (info active).invoke ≡ none
      → joined w.exe ≡ true ⊎ (((info active).cancel_on_failure && any_region_failed w.exe) ≡ true)
      → gate env active w ≡ (ok true, record w { exe = expose_region_results w.exe })
  unfolding gate gate_orthogonal modify ◌>>=◌
  gate_opens o i (inl j) = ground arith
  gate_opens o i (inr f) = ground arith

  gate_shuts :
      is_orthogonal active ≡ true
      → (info active).invoke ≡ none
      → joined w.exe ≡ false
      → ((info active).cancel_on_failure && any_region_failed w.exe) ≡ false
      → gate env active w ≡ (ok false, w)
  unfolding gate gate_orthogonal ◌>>=◌
  gate_shuts o i j c = ground arith

  round_waits :
      w.exe.active_path ≡ some p
      → Dict.get p env.defn.index ≡ some active
      → gate env active w ≡ (ok false, w)
      → drain_round env root w ≡ (ok false, w)
  unfolding drain_round active_node ◌>>=◌
  round_waits a i g = ground arith

  waits :
      (n : ℕ)
      → Dict.get w.exe.root_path env.defn.index ≡ some root
      → env.bound ≡ suc n
      → drain_round env root w ≡ (ok false, w)
      → drain env w ≡ (ok tt, w)
  unfolding drain drain_body node_at rounds ◌>>=◌
  waits n r b h = ground arith

  shut :
      joined w.exe ≡ false
      → ((info active).cancel_on_failure && any_region_failed w.exe) ≡ false
      → IsShut active w
  unfolding joined any_region_failed
  shut j f = (
    one-IsOut w.exe.children j,
    elim (Bool-cases (info active).cancel_on_failure) [
      | inr e ↦ inl e
      | inl e ↦ inr (none_failed w.exe.children (ground (arith, f, e)))
    ],
  )

  -- At an orthogonal node, `_drain` goes by the regions that have reported. Where all have, or where the
  -- node cancels on failure and a region has reported an outcome that is neither none nor `success`, the
  -- gate opens, with the results exposed in the context. Else a region has not reported, and the node
  -- does not cancel on failure or no region has failed: then `_drain` changes nothing and yields nothing.
  pub drain_joins :
      (n : ℕ)
      → is_orthogonal active ≡ true
      → (info active).invoke ≡ none
      → Dict.get w.exe.root_path env.defn.index ≡ some root
      → w.exe.active_path ≡ some p
      → Dict.get p env.defn.index ≡ some active
      → env.bound ≡ suc n
      → (IsOpen active w
          × (gate env active w ≡ (ok true, record w { exe = expose_region_results w.exe })))
        ⊎ (IsShut active w × (drain env w ≡ (ok tt, w)))
  unfolding joined any_region_failed
  drain_joins n o i r a x b = elim (Bool-cases (joined w.exe)) [
    | inl j ↦ inl (inl (all-IsIn w.exe.children j), gate_opens o i (inl j))
    | inr j ↦ elim (Bool-cases ((info active).cancel_on_failure && any_region_failed w.exe)) [
      | inl f ↦ inl (
        inr (ground (arith, f), one_failed w.exe.children (ground (arith, f))),
        gate_opens o i (inr f),
      )
      | inr f ↦ inr (shut j f, waits n r b (round_waits a x (gate_shuts o i j f)))
    ]
  ]
