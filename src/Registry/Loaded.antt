-- ===== src/Registry/Loaded.antt =====
-- What a registry holds of the definitions that it was made from.
use text.Mathlib.TextPositions.{eq_refl}
use harel.Prelude.{
  ◌≡◌, refl, sym, subst, ◌∙◌, ap, inl, inr, String, true, false, ◌==◌, eq_iff, ltb, Option, none,
  some, List, [], ◌∷◌, arith, Bool-cases, All, In, each-In,
}
use harel.Prelude.Dict
use harel.Prelude.Dict.{Dict, get-put}
use harel.Model.{Definition}
use harel.Registry.{
  versioned, raise_to, register_definition, same_digest, clashes, registry_from,
  definition_registry, find_definition,
}

abbrev pub key_of : Definition → String
key_of defn = versioned defn.id defn.version

-- The registry has under the definition's version one of these definitions, of the same name and version
-- and of the same digest.
abbrev pub Loads : Definition → List Definition → Dict Definition → Type 0
Loads d ds out =
    (e : Definition) × (Dict.get (key_of d) out ≡ some e)
    × In e ds
    × (key_of e ≡ key_of d)
    × (e.digest ≡ d.digest)

same_digest_eq : (a b : Option String) → same_digest a b ≡ true → a ≡ b
same_digest_eq none none h = refl
same_digest_eq none (some e) h = absurd (ground arith)
same_digest_eq (some d) none h = absurd (ground arith)
same_digest_eq (some d) (some e) h = ap some ((eq_iff d e).0 h)

module _ (all : List Definition) where
  raise_to-Loads :
      (d e : Definition) (current : Option Definition) (out : Dict Definition)
      → (e.id == key_of d) ≡ false
      → Loads d all out
      → Loads d all (raise_to e current out)
  unfolding raise_to
  raise_to-Loads d e none out a (f, g, n, i, h) = (f, rw (get-put, a) g, n, i, h)
  raise_to-Loads d e (some c) out a (f, g, n, i, h) = elim (Bool-cases (ltb c.version e.version)) [
    | inl q ↦ (f, rw (q, get-put, a) g, n, i, h)
    | inr q ↦ (f, rw q g, n, i, h)
  ]

  -- What is loaded stays loaded when another of the definitions that does not clash is registered.
  register-Loads :
      (d e : Definition) (out : Dict Definition)
      → (e.id == key_of d) ≡ false
      → In e all
      → clashes out e ≡ false
      → Loads d all out
      → Loads d all (register_definition out e)
  unfolding register_definition clashes
  register-Loads d e out a m c (f, g, n, i, h) = elim (Bool-cases (key_of e == key_of d)) [
    | inl q ↦
        let k = (eq_iff (key_of e) (key_of d)).0 q in
        raise_to-Loads d e _ _ a (
          e,
          rw (get-put, q) refl,
          m,
          k,
          sym (same_digest_eq f.digest e.digest (ground (arith, g, k))) ∙ h,
        )
    | inr q ↦ raise_to-Loads d e _ _ a (f, rw (get-put, q) g, n, i, h)
  ]

  register-Loads_self :
      (d : Definition) (out : Dict Definition)
      → (d.id == key_of d) ≡ false
      → In d all
      → Loads d all (register_definition out d)
  unfolding register_definition
  register-Loads_self d out a m =
      raise_to-Loads d d _ _ a (d, rw (get-put, eq_refl (key_of d)) refl, m, refl, refl)

  module _ (d : Definition) where
    -- No definition is named like the definition's version.
    abbrev pub Apart : List Definition → Type 0
    Apart ds = All (λ e. (e.id == key_of d) ≡ false) ds

    registry_from-Loads :
        (ds : List Definition) (out reg : Dict Definition)
        → Apart ds
        → All (λ e. In e all) ds
        → registry_from out ds ≡ some reg
        → Loads d all out
        → Loads d all reg
    unfolding registry_from
    registry_from-Loads [] out reg a n h k = subst (Loads d all) (ground arith) k
    registry_from-Loads (e ∷ ds) out reg a n h k =
        registry_from-Loads ds (register_definition out e) reg (a.1) (n.1) (ground arith)
          (register-Loads d e out (a.0) (n.0) (ground arith) k)

    made-Loads :
        (ds : List Definition) (out reg : Dict Definition)
        → Apart ds
        → All (λ e. In e all) ds
        → registry_from out ds ≡ some reg
        → In d ds
        → Loads d all reg
    unfolding registry_from
    made-Loads [] out reg a n h m = absurd m
    made-Loads (e ∷ ds) out reg a n h (inl q) =
        registry_from-Loads ds (register_definition out e) reg (a.1) (n.1) (ground arith) (
          subst (λ x. Loads d all (register_definition out x)) (sym q)
            (register-Loads_self d out (subst (λ x. (x.id == key_of d) ≡ false) q (a.0))
              (subst (λ x. In x all) q (n.0))))
    made-Loads (e ∷ ds) out reg a n h (inr m) =
        made-Loads ds (register_definition out e) reg (a.1) (n.1) (ground arith) m

-- A registry that is made without a refusal answers for each definition that it was made from, under
-- its name and version, with one of the definitions that it was made from: of the same `name@version`
-- and of an equal digest, where no definition is named like that `name@version`. Two digests that are
-- both missing count as equal.
pub registry-find :
    (d : Definition) (ds : List Definition) (reg : Dict Definition)
    → Apart ds d ds
    → In d ds
    → definition_registry ds ≡ some reg
    → (e : Definition) × (find_definition reg d.id d.version ≡ some e)
      × In e ds
      × (versioned e.id e.version ≡ versioned d.id d.version)
      × (e.digest ≡ d.digest)
unfolding definition_registry find_definition
registry-find d ds reg a m h =
    let (e, g, n, i, k) = made-Loads ds d ds [] reg a (each-In (λ e. In e ds) ds (λ e n. n)) h m in
    (e, ground (arith, g), n, i, k)
