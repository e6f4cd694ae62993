-- ===== src/Store/Listed.antt =====
-- What the in-memory store's listing holds, and in which order.
use harel.Prelude.{
  ℕ, String, ◌≡◌, refl, sym, subst, ◌⊎◌, ◌↔◌, Bool, true, false, not, ◌&&◌, any, keep, map, Option,
  none, some, List, [], ◌∷◌, ◌==◌, eq_iff, is_some, arith, Bool-cases, inl, inr, In, In-keep,
  In-map, In-sorted, sorted-In, any-true, Ordered, sorted-Ordered, if◌then◌else◌,
}
use harel.Execution.{ExecutionSummary, Status, summary_of}
use harel.Store.{Memory}
use harel.Store.Pending.{text_leb}
use harel.Store.Alphabet.{text_leb-total, text_leb_trans}
use harel.Store.Listing.{Query, same_status, query_matches, listed}

-- The summary is of an execution in the store.
abbrev pub IsStored : Memory → ExecutionSummary → Type 0
IsStored m s = (e : String × ℕ) × In e m.store.by_id × (summary_of (m.heap e.1) ≡ s)

abbrev pub AllowsStatus : Option (List Status) → Status → Type 0
AllowsStatus none st = Unit
AllowsStatus (some ss) st = In st ss

abbrev pub AllowsDefinition : Option String → String → Type 0
AllowsDefinition none d = Unit
AllowsDefinition (some e) d = d ≡ e

-- The summary is asked for: by its status, its definition, and whether only roots are.
abbrev pub IsAsked : Query → ExecutionSummary → Type 0
IsAsked q s =
    AllowsStatus q.status s.status
    × AllowsDefinition q.definition_id s.definition_id
    × ((q.roots_only ≡ false) ⊎ (s.parent_id ≡ none))

pub same_status-eq : (a b : Status) → same_status a b ≡ true → a ≡ b
same_status-eq Status.pending Status.pending e = refl
same_status-eq Status.running Status.running e = refl
same_status-eq Status.done Status.done e = refl
same_status-eq Status.cancelled Status.cancelled e = refl
same_status-eq Status.suspended Status.suspended e = refl
same_status-eq Status.cancelling Status.cancelling e = refl
same_status-eq Status.failed Status.failed e = refl
same_status-eq a b e = absurd (cc)

same_status_refl : (a : Status) → same_status a a ≡ true
same_status_refl Status.pending = refl
same_status_refl Status.running = refl
same_status_refl Status.done = refl
same_status_refl Status.cancelled = refl
same_status_refl Status.suspended = refl
same_status_refl Status.cancelling = refl
same_status_refl Status.failed = refl

any-status : (st : Status) (ss : List Status) → any (same_status st) ss ≡ true → In st ss
any-status st [] h = absurd (ground (arith, h))
any-status st (x ∷ xs) h = elim (Bool-cases (same_status st x)) [
  | inl e ↦ inl (sym (same_status-eq st x e))
  | inr e ↦ inr (any-status st xs (ground (arith, h, e)))
]

allowed_status :
    (o : Option (List Status)) (st : Status)
    → (elim o [ none ↦ true | some ss ↦ any (same_status st) ss ]) ≡ true ↔ AllowsStatus o st
allowed_status none st = (λ e. tt, λ a. refl)
allowed_status (some ss) st =
    (any-status st ss, λ a. any-true (same_status st) st ss a (same_status_refl st))

allowed_definition :
    (o : Option String) (d : String)
    → (elim o [ none ↦ true | some e ↦ d == e ]) ≡ true ↔ AllowsDefinition o d
allowed_definition none d = (λ e. tt, λ a. refl)
allowed_definition (some e) d = eq_iff d e

allowed_root :
    (b : Bool) (o : Option String) → not (b && is_some o) ≡ true ↔ ((b ≡ false) ⊎ (o ≡ none))
allowed_root false o = (λ e. inl refl, λ a. refl)
allowed_root true none = (λ e. inr refl, λ a. refl)
allowed_root true (some p) = (λ e. absurd (ground (arith, e)), λ a. absurd (ground (arith, a)))

query-IsAsked : (q : Query) (s : ExecutionSummary) → query_matches q s ≡ true ↔ IsAsked q s
unfolding query_matches
query-IsAsked q s =
    let st = allowed_status q.status s.status in
    let d = allowed_definition q.definition_id s.definition_id in
    let p = allowed_root q.roots_only s.parent_id in
    (
      λ e. (st.0 (ground (arith, e)), d.0 (ground (arith, e)), p.0 (ground (arith, e))),
      λ (x, y, z). rw (st.1 x, d.1 y, p.1 z) refl,
    )

kept_here :
    {A : Type 0} (p : A → Bool) (x y : A) (xs rest : List A) (b : Bool)
    → p y ≡ b
    → (In x rest → In x xs × (p x ≡ true))
    → In x (if b then y ∷ rest else rest)
    → In x (y ∷ xs) × (p x ≡ true)
kept_here p x y xs rest true e go (inl f) = (inl f, subst (λ z. p z ≡ true) f e)
kept_here p x y xs rest true e go (inr k) = let (a, t) = go k in (inr a, t)
kept_here p x y xs rest false e go k = let (a, t) = go k in (inr a, t)

keep-In :
    {A : Type 0} (p : A → Bool) (x : A) (xs : List A) → In x (keep p xs) → In x xs × (p x ≡ true)
keep-In p x [] m = absurd m
keep-In p x (y ∷ xs) m = kept_here p x y xs (keep p xs) (p y) refl (keep-In p x xs) m

map-In :
    {A B : Type 0} (f : A → B) (y : B) (xs : List A)
    → In y (map f xs)
    → (x : A) × In x xs × (f x ≡ y)
map-In f y [] m = absurd m
map-In f y (x ∷ xs) (inl e) = (x, inl refl, e)
map-In f y (x ∷ xs) (inr m) = let (z, k, e) = map-In f y xs m in (z, inr k, e)

-- The listing has just the summaries of the stored executions that are asked for.
pub listed-IsAsked :
    (m : Memory) (q : Query) (s : ExecutionSummary)
    → In s (listed m q) ↔ (IsStored m s × IsAsked q s)
unfolding listed
listed-IsAsked m q s = (
  λ k.
      let (a, t) = keep-In (query_matches q) s _ (sorted-In _ s _ k) in
      (map-In _ s m.store.by_id a, (query-IsAsked q s).0 t),
  λ ((e, a, f), t). In-sorted _ s _ (
      In-keep (query_matches q) s _
        (subst (λ x. In x (map (λ (e : String × ℕ). summary_of (m.heap (e.1))) m.store.by_id)) f
          (In-map (λ (e : String × ℕ). summary_of (m.heap (e.1))) e m.store.by_id a))
        ((query-IsAsked q s).1 t)),
)

-- In ascending order of the ids.
abbrev pub IsById : List ExecutionSummary → Type 0
IsById items =
    Ordered (λ (a : ExecutionSummary). λ (b : ExecutionSummary). text_leb a.id b.id) items

pub listed-IsById : (m : Memory) (q : Query) → IsById (listed m q)
unfolding listed
listed-IsById m q =
    sorted-Ordered (λ (a : ExecutionSummary). λ (b : ExecutionSummary). text_leb a.id b.id)
      (λ a b. text_leb-total a.id b.id) (λ a b c. text_leb_trans a.id b.id c.id)
      (keep (query_matches q) (map (λ (e : String × ℕ). summary_of (m.heap (e.1))) m.store.by_id))
