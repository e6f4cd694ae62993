-- ===== src/Store/Timed.antt =====
-- The timers of the in-memory store: one for each execution and path, and the deletion of those that are due.
use mathlib.Core.List.{append_assoc}
use harel.Prelude.{
  ℕ, String, ◌≡◌, refl, sym, ap, ◌∙◌, subst, Bool, true, false, not, eqb, any, keep, find, All,
  Option, none, some, List, [], ◌∷◌, ◌++◌, arith, eq_iff, Bool-cases, inl, inr, if◌then◌else◌,
}
use harel.Store.{DictStore, Timer, TimerOp, schedule, cancel}
use harel.Store.Commits.{is_timer, drop_timer, put_timer, apply_timers}
use harel.Store.Pending.{delete_timer, delete_armed}

-- The timer is of the same execution and path.
abbrev pub same_key : Timer → Timer → Bool
same_key t u = is_timer t.execution_id t.path u

-- No two timers are of one execution and path.
abbrev pub Distinct : List Timer → Type 0
Distinct [] = Unit
Distinct (t ∷ ts) = (any (same_key t) ts ≡ false) × Distinct ts

abbrev del_found : Timer → List Timer → Option Timer → List Timer
del_found t ts none = ts
del_found t ts (some u) =
    if eqb u.fire_at t.fire_at then drop_timer t.execution_id t.path ts else ts

-- The timers after the deletion of one.
abbrev pub deleted : Timer → List Timer → List Timer
deleted t ts = del_found t ts (find (same_key t) ts)

abbrev pub with_timers : List Timer → DictStore → DictStore
with_timers ts s = record s { timers = ts }

armed :
    (t : Timer) (s : DictStore) (o : Option Timer)
    → delete_armed t.execution_id t.path t.fire_at s o ≡ with_timers (del_found t s.timers o) s
unfolding delete_armed
armed t s none = refl
armed t s (some u) = elim (Bool-cases (eqb u.fire_at t.fire_at)) [
  | inl e ↦ rw e refl
  | inr e ↦ rw e refl
]

pub delete_timer_lem :
    (t : Timer) (s : DictStore)
    → delete_timer t.execution_id t.path t.fire_at s ≡ with_timers (deleted t s.timers) s
unfolding delete_timer
delete_timer_lem t s = armed t s (find (same_key t) s.timers)

keep-skip :
    (t : Timer) (pre ts : List Timer)
    → any (same_key t) pre ≡ false
    → drop_timer t.execution_id t.path (pre ++ ts) ≡ pre ++ drop_timer t.execution_id t.path ts
keep-skip t [] ts e = refl
keep-skip t (u ∷ pre) ts e = ground (arith, keep-skip t pre ts)

drop-none :
    (t : Timer) (ts : List Timer)
    → any (same_key t) ts ≡ false
    → drop_timer t.execution_id t.path ts ≡ ts
drop-none t [] e = refl
drop-none t (u ∷ ts) e = ground (arith, drop-none t ts)

find-skip :
    (t u : Timer) (pre ts : List Timer)
    → any (same_key t) pre ≡ false
    → same_key t u ≡ true
    → find (same_key t) (pre ++ u ∷ ts) ≡ some u
find-skip t u [] ts e k = rw k refl
find-skip t u (v ∷ pre) ts e k = ground (arith, find-skip t u pre ts)

same_key_self : (t : Timer) → same_key t t ≡ true
same_key_self t = ground (arith, eq_iff t.execution_id t.execution_id, eq_iff t.path t.path)

same_key_sym : (t u : Timer) → same_key t u ≡ false → same_key u t ≡ false
same_key_sym t u e = ground (
  arith,
  e,
  eq_iff t.execution_id u.execution_id,
  eq_iff u.execution_id t.execution_id,
  eq_iff t.path u.path,
  eq_iff u.path t.path,
)

dropped_self :
    (t : Timer) (pre ts : List Timer)
    → any (same_key t) pre ≡ false
    → any (same_key t) ts ≡ false
    → del_found t (pre ++ t ∷ ts) (some t) ≡ pre ++ ts
dropped_self t pre ts e f =
    let at : eqb t.fire_at t.fire_at ≡ true = ground arith in
    let here : drop_timer t.execution_id t.path (t ∷ ts) ≡ ts =
      ground (arith, same_key_self t, drop-none t ts f) in
    rw at (keep-skip t pre (t ∷ ts) e ∙ ap (λ us. pre ++ us) here)

deleted-middle :
    (t : Timer) (pre ts : List Timer)
    → any (same_key t) pre ≡ false
    → any (same_key t) ts ≡ false
    → deleted t (pre ++ t ∷ ts) ≡ pre ++ ts
deleted-middle t pre ts e f =
    ap (del_found t (pre ++ t ∷ ts)) (find-skip t t pre ts e (same_key_self t))
    ∙ dropped_self t pre ts e f

abbrev pub deleted_all : List Timer → List Timer → List Timer
deleted_all [] ts = ts
deleted_all (d ∷ ds) ts = deleted_all ds (deleted d ts)

-- The timers of a list are apart from those of another.
abbrev Apart : List Timer → List Timer → Type 0
Apart pre ts = All (λ u. any (same_key u) pre ≡ false) ts

Apart-snoc :
    (pre ts : List Timer) (t : Timer)
    → Apart pre ts
    → any (same_key t) ts ≡ false
    → Apart (pre ++ t ∷ []) ts
Apart-snoc pre [] t a e = tt
Apart-snoc pre (u ∷ ts) t a e = (any-snoc pre a.0, Apart-snoc pre ts t a.1 (ground (arith, e)))
  where
    any-snoc :
        (l : List Timer) → any (same_key u) l ≡ false → any (same_key u) (l ++ t ∷ []) ≡ false
    any-snoc [] q = ground (arith, same_key_sym t u, e)
    any-snoc (v ∷ l) q = ground (arith, any-snoc l)

module _ (due : Timer → Bool) where
  deleted_from :
      (pre ts : List Timer)
      → Distinct ts
      → Apart pre ts
      → deleted_all (keep due ts) (pre ++ ts) ≡ pre ++ keep (λ t. not (due t)) ts
  deleted_from pre [] d a = refl
  deleted_from pre (t ∷ ts) d a = elim (Bool-cases (due t)) [
    | inl e ↦ rw e (
        ap (deleted_all (keep due ts)) (deleted-middle t pre ts a.0 d.0)
        ∙ deleted_from pre ts d.1 a.1)
    | inr e ↦ rw e (
        ap (deleted_all (keep due ts)) (sym (append_assoc pre (t ∷ []) ts))
        ∙ deleted_from (pre ++ t ∷ []) ts d.1 (Apart-snoc pre ts t a.1 d.0)
        ∙ append_assoc pre (t ∷ []) (keep (λ u. not (due u)) ts))
  ]

  Apart-nil : (ts : List Timer) → Apart [] ts
  Apart-nil [] = tt
  Apart-nil (t ∷ ts) = (refl, Apart-nil ts)

  pub deleted_all-keep :
      (ts : List Timer) → Distinct ts → deleted_all (keep due ts) ts ≡ keep (λ t. not (due t)) ts
  deleted_all-keep ts d = deleted_from [] ts d (Apart-nil ts)

-- A timer that is put has the place of the one of its key.
any-put_timer :
    (t : Timer) (id path : String) (at : ℕ) (ts : List Timer)
    → any (same_key t) ts ≡ false
    → is_timer t.execution_id t.path (record { execution_id = id; path = path; fire_at = at })
      ≡ false
    → any (same_key t) (put_timer id path at ts) ≡ false
unfolding put_timer
any-put_timer t id path at [] e k = ground (arith, k)
any-put_timer t id path at (u ∷ ts) e k = ground (arith, e, k, any-put_timer t id path at ts)

-- The new timer of a key is apart from what the old one is apart from.
any-same :
    (id path : String) (t : Timer) (ts : List Timer)
    → is_timer id path t ≡ true
    → any (same_key t) ts ≡ false
    → any (is_timer id path) ts ≡ false
any-same id path t ts k e =
    let i : t.execution_id ≡ id = ground (arith, k, eq_iff t.execution_id id) in
    let p : t.path ≡ path = ground (arith, k, eq_iff t.path path) in
    subst (λ x. any (is_timer x path) ts ≡ false) i
      (subst (λ x. any (is_timer t.execution_id x) ts ≡ false) p e)

is_timer_sym :
    (id path : String) (at : ℕ) (t : Timer)
    → is_timer id path t ≡ false
    → is_timer t.execution_id t.path (record { execution_id = id; path = path; fire_at = at })
      ≡ false
is_timer_sym id path at t e = ground (
  arith,
  e,
  eq_iff t.execution_id id,
  eq_iff id t.execution_id,
  eq_iff t.path path,
  eq_iff path t.path,
)

put_timer-Distinct :
    (id path : String) (at : ℕ) (ts : List Timer) → Distinct ts → Distinct (put_timer id path at ts)
unfolding put_timer
put_timer-Distinct id path at [] d = (refl, tt)
put_timer-Distinct id path at (t ∷ ts) d = elim (Bool-cases (is_timer id path t)) [
  | inl k ↦ rw k (any-same id path t ts k d.0, d.1)
  | inr k ↦ rw k (
    any-put_timer t id path at ts d.0 (is_timer_sym id path at t k),
    put_timer-Distinct id path at ts d.1,
  )
]

any-keep : (p q : Timer → Bool) (ts : List Timer) → any p ts ≡ false → any p (keep q ts) ≡ false
any-keep p q [] e = refl
any-keep p q (t ∷ ts) e = ground (arith, any-keep p q ts)

pub keep-Distinct : (q : Timer → Bool) (ts : List Timer) → Distinct ts → Distinct (keep q ts)
keep-Distinct q [] d = tt
keep-Distinct q (t ∷ ts) d = elim (Bool-cases (q t)) [
  | inl e ↦ rw e (any-keep (same_key t) q ts d.0, keep-Distinct q ts d.1)
  | inr e ↦ rw e (keep-Distinct q ts d.1)
]

-- The timers that a commit writes are again one for each execution and path.
pub apply_timers-Distinct :
    (id : String) (ops : List TimerOp) (ts : List Timer)
    → Distinct ts
    → Distinct (apply_timers id ops ts)
unfolding apply_timers
apply_timers-Distinct id [] ts d = d
apply_timers-Distinct id (schedule path at ∷ ops) ts d =
    apply_timers-Distinct id ops (put_timer id path at ts) (put_timer-Distinct id path at ts d)
apply_timers-Distinct id (cancel path ∷ ops) ts d =
    apply_timers-Distinct id ops (drop_timer id path ts) (keep-Distinct _ ts d)
