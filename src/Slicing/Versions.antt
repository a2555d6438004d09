-- ===== src/Slicing/Versions.antt =====
-- Going back to an earlier version of a parent (the `while` loop of `_make_slice_helper` in
-- core/ipyflow/slicing/mixin.py).
use ipyflow.Base.{
  ℕ, zero, suc, ◌≤◌, ◌<◌, ◌≡◌, refl, ◌⊎◌, inl, inr, true, false, not, ◌&&◌, some, Bool-cases, arith,
}
use ipyflow.Timestamp.{Timestamp, lt}
use ipyflow.Timestamp.Order.{le_trans, lt_irrefl}
use ipyflow.Slicing.Graph.{Graph}
use ipyflow.Slicing.Closure.{ok, Sliceables, step_back, resolve}
use ipyflow.Slicing.Parents.{is_parent_id, Parent, Sees, stop, back}
use ipyflow.Slicing.Reach.{Reach, here, next, IsResolvable}

-- Some version from `p` backwards, each created before the one after it, is not later than `ts`.
pub data SeenBy (g : Graph) (ts : Timestamp) : ℕ → Type 0 where
  seen : {p : ℕ} → lt ts (g.timestamp p) ≡ false → SeenBy g ts p
  earlier : {p q : ℕ} → g.prev p ≡ some q → q < p → SeenBy g ts q → SeenBy g ts p

-- Then the loop ends within one round for each earlier object, at a version that is not newer.
step_back_total :
    (g : Graph) (ts : Timestamp) (fuel p : ℕ)
    → SeenBy g ts p
    → p < fuel
    → (y : ℕ) × (step_back fuel g ts p ≡ ok y) × (y ≤ p)
unfolding step_back
step_back_total g ts zero p v h = absurd (omega arith)
step_back_total g ts (suc fuel) p (seen old) h = (p, rw old refl, omega arith)
step_back_total g ts (suc fuel) p (earlier {q = q} is_prev older v) h =
    let (y, e, le) = step_back_total g ts fuel q v (omega arith) in
    elim (Bool-cases (lt ts (g.timestamp p) && not (g.override p))) [
      | inl later ↦ (y, rw (later, is_prev) e, omega arith)
      | inr fine ↦ (p, rw fine refl, omega arith)
    ]

-- Every parent identifier names an object, and some version of it is one that the child saw.
pub record IsVersioned (s : Sliceables) (count : ℕ) : Type 0 where
  pub registered :
      (x pid : ℕ)
      → x < count
      → is_parent_id s x pid ≡ true
      → (p : ℕ) × (s.objects.from_id pid ≡ some p)
        × (p < count)
        × SeenBy s.objects (s.objects.timestamp x) p

pub IsVersioned-IsResolvable :
    (s : Sliceables) (count : ℕ) → IsVersioned s count → IsResolvable s count
unfolding resolve
IsVersioned-IsResolvable s count k = record {
  resolves = λ x pid h m.
      let (p, named, bound, v) = k.registered x pid h m in
      let (y, e, le) =
        step_back_total s.objects (s.objects.timestamp x) (suc p) p v (omega arith) in
      (y, rw named e, omega arith);
}

Sees-not_later :
    (g : Graph) (ts : Timestamp) {p y : ℕ}
    → Sees g ts p y
    → (lt ts (g.timestamp y) ≡ false) ⊎ (g.override y ≡ true)
Sees-not_later g ts (stop fine) = ground arith
Sees-not_later g ts (back later is_prev v) = Sees-not_later g ts v

-- A parent that the closure visits is not later than the object that led to it, unless it
-- overrides its time.
pub Parent-not_later :
    (s : Sliceables) (x y : ℕ)
    → Parent s x y
    → (lt (s.objects.timestamp x) (s.objects.timestamp y) ≡ false) ⊎ (s.objects.override y ≡ true)
Parent-not_later s x y (pid, _, (p, names, sees)) =
    Sees-not_later s.objects (s.objects.timestamp x) sees

-- So nothing on a walk over parents is later than its start, where no object overrides its time.
pub Reach-not_later :
    (s : Sliceables) {x y : ℕ}
    → ((r : ℕ) → s.objects.override r ≡ false)
    → Reach s x y
    → lt (s.objects.timestamp x) (s.objects.timestamp y) ≡ false
Reach-not_later s {x} none_overrides here = lt_irrefl (s.objects.timestamp x)
Reach-not_later s {x} none_overrides (next {y} {z} p r) = elim (Parent-not_later s x y p) [
  | inl le ↦
      le_trans (s.objects.timestamp z) (s.objects.timestamp y) (s.objects.timestamp x)
        (Reach-not_later s none_overrides r) le
  | inr overrides ↦ absurd (ground (arith, none_overrides y))
]
