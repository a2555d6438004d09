-- ===== src/Slicing/Parents.antt =====
-- The parents of an object of core/ipyflow/slicing/mixin.py, as a relation: the keys of its
-- dictionaries of parents in the enabled contexts, each taken at the version that the object saw.
use ipyflow.Base.{
  ℕ, zero, suc, ◌≡◌, refl, sym, subst, ◌∙◌, Bool, true, false, inl, inr, not, ◌&&◌, ◌||◌, some,
  lookup, has, elem, elem-keys, elem-append, Bool-cases, Option-cases, keys, ◌++◌, [], arith,
}
use mathlib.Core.Option.{some-injective}
use ipyflow.Timestamp.{Timestamp, lt}
use ipyflow.Config.Contexts.{dynamic, static, slicing_contexts}
use ipyflow.Slicing.Graph.{Graph}
use ipyflow.Slicing.Closure.{ok, Sliceables, parent_ids, parent_ids_in, step_back, resolve}

-- a key of the dictionary of parents in a context that the settings enable
abbrev pub is_parent_id : Sliceables → ℕ → ℕ → Bool
is_parent_id s x pid =
    (s.settings.dynamic_slicing_enabled && has (lookup pid (s.parents_in dynamic x)))
    || (s.settings.static_slicing_enabled && has (lookup pid (s.parents_in static x)))

-- `y` is `p`, or the first of its earlier versions, that is not later than the time or overrides it.
pub data Sees (g : Graph) (ts : Timestamp) : ℕ → ℕ → Type 0 where
  stop : {p : ℕ} → (lt ts (g.timestamp p) && not (g.override p)) ≡ false → Sees g ts p p
  back :
      {p q y : ℕ}
      → (lt ts (g.timestamp p) && not (g.override p)) ≡ true
      → g.prev p ≡ some q
      → Sees g ts q y
      → Sees g ts p y

-- `y` is the version of a parent that `x` saw.
abbrev pub Parent : Sliceables → ℕ → ℕ → Type 0
Parent s x y =
    (pid : ℕ) × (is_parent_id s x pid ≡ true)
    × ((p : ℕ) × (s.objects.from_id pid ≡ some p) × Sees s.objects (s.objects.timestamp x) p y)

pub elem-parent_ids :
    (s : Sliceables) (x pid : ℕ) → elem pid (parent_ids s x) ≡ is_parent_id s x pid
unfolding parent_ids slicing_contexts parent_ids_in elem
elem-parent_ids s x pid =
    let ds = keys (s.parents_in dynamic x) in
    let ts = keys (s.parents_in static x) in
    elim (Bool-cases s.settings.dynamic_slicing_enabled) [
      | inl d ↦ elim (Bool-cases s.settings.static_slicing_enabled) [
        | inl t ↦
            rw (d, t)
              (ground (
                arith,
                elem-append pid ds (ts ++ []),
                elem-append pid ds [],
                elem-append pid ts [],
                elem-keys pid (s.parents_in dynamic x),
                elem-keys pid (s.parents_in static x),
              ))
        | inr t ↦
            rw (d, t)
              (ground (
                arith,
                elem-append pid ds (ts ++ []),
                elem-append pid ds [],
                elem-append pid ts [],
                elem-keys pid (s.parents_in dynamic x),
                elem-keys pid (s.parents_in static x),
              ))
      ]
      | inr d ↦ elim (Bool-cases s.settings.static_slicing_enabled) [
        | inl t ↦
            rw (d, t)
              (ground (
                arith,
                elem-append pid ds (ts ++ []),
                elem-append pid ds [],
                elem-append pid ts [],
                elem-keys pid (s.parents_in dynamic x),
                elem-keys pid (s.parents_in static x),
              ))
        | inr t ↦ rw (d, t) refl
      ]
    ]

step_back-Sees :
    (g : Graph) (ts : Timestamp) (fuel p y : ℕ) → step_back fuel g ts p ≡ ok y → Sees g ts p y
unfolding step_back
step_back-Sees g ts zero p y e = cc
step_back-Sees g ts (suc fuel) p y e =
    elim (Bool-cases (lt ts (g.timestamp p) && not (g.override p))) [
      | inr fine ↦
          let same : p ≡ y = cc (rw fine at e) in subst (λ z. Sees g ts p z) same (stop fine)
      | inl later ↦ elim (Option-cases (g.prev p)) [
        | inl first ↦ cc (rw (later, first) at e)
        | inr (q, is_prev) ↦
            back later is_prev (step_back-Sees g ts fuel q y (rw (later, is_prev) at e))
      ]
    ]

Sees-unique : (g : Graph) (ts : Timestamp) {p y z : ℕ} → Sees g ts p y → Sees g ts p z → y ≡ z
Sees-unique g ts (stop a) (stop b) = refl
Sees-unique g ts (stop a) (back b e v) = absurd (ground (arith, a, b))
Sees-unique g ts (back a e u) (stop b) = absurd (ground (arith, a, b))
Sees-unique g ts {y = y} (back {q = q} a e u) (back {q = r} {y = z} b f v) =
    let same : r ≡ q = some-injective _ _ (sym f ∙ e) in
    Sees-unique g ts u (subst (λ k. Sees g ts k z) same v)

-- What the loop returns is the version seen, and no other is.
pub resolve-Parent :
    (s : Sliceables) (x pid y : ℕ)
    → is_parent_id s x pid ≡ true
    → resolve s x pid ≡ ok y
    → Parent s x y
unfolding resolve
resolve-Parent s x pid y listed e = elim (Option-cases (s.objects.from_id pid)) [
  | inl missing ↦ cc (rw missing at e)
  | inr (p, names) ↦ (
    pid,
    listed,
    (p, names, step_back-Sees s.objects (s.objects.timestamp x) (suc p) p y (rw names at e)),
  )
]

pub Sees-resolve :
    (s : Sliceables) (x pid p y z : ℕ)
    → s.objects.from_id pid ≡ some p
    → Sees s.objects (s.objects.timestamp x) p y
    → resolve s x pid ≡ ok z
    → y ≡ z
unfolding resolve
Sees-resolve s x pid p y z names sees e =
    Sees-unique s.objects (s.objects.timestamp x) sees
      (step_back-Sees s.objects (s.objects.timestamp x) (suc p) p z (rw names at e))
