-- ===== src/Slicing/Reach.antt =====
-- The closure of core/ipyflow/slicing/mixin.py is the set of objects that a walk over the parents
-- reaches, and it is found with as much fuel as there are objects.
use ipyflow.Base.{
  ℕ, zero, suc, ◌≤◌, ◌<◌, ◌≡◌, refl, sym, subst, ap, ◌∙◌, ==_iff, ◌⊎◌, inl, inr, true, false, not,
  List, [], ◌∷◌, elem, elem-nil, elem-cons, keep, length, length-keep-lt, length-keep-le,
  length-keep_mono, Bool-cases, ◌==◌, arith,
}
use ipyflow.Slicing.Closure.{ok, Sliceables, parent_ids, resolve, follow, make_slice_helper}
use ipyflow.Slicing.Parents.{is_parent_id, Parent, elem-parent_ids, resolve-Parent, Sees-resolve}

pub data Reach (s : Sliceables) : ℕ → ℕ → Type 0 where
  here : {x : ℕ} → Reach s x x
  next : {x y z : ℕ} → Parent s x y → Reach s y z → Reach s x z

-- Of the objects below `count`, every parent identifier names an object that has a version to see.
pub record IsResolvable (s : Sliceables) (count : ℕ) : Type 0 where
  pub resolves :
      (x pid : ℕ)
      → x < count
      → is_parent_id s x pid ≡ true
      → (y : ℕ) × (resolve s x pid ≡ ok y) × (y < count)

-- What a visit of `self` does to a closure.
pub record Explores (s : Sliceables) (self : ℕ) (before after : List ℕ) : Type 0 where
  pub grows : (x : ℕ) → elem x before ≡ true → elem x after ≡ true
  pub sound : (x : ℕ) → elem x after ≡ true → (elem x before ≡ true) ⊎ Reach s self x
  pub closed :
      (x y : ℕ) → elem x after ≡ true → elem x before ≡ false → Parent s x y → elem y after ≡ true

-- the numbers below `n`
abbrev below : ℕ → List ℕ
below zero = []
below (suc n) = n ∷ below n

elem-below : (x n : ℕ) → x < n → elem x (below n) ≡ true
unfolding elem
elem-below x zero h = absurd (omega arith)
elem-below x (suc n) h = ground (arith, elem-below x n)

-- the objects that are not in the closure
pub unseen : ℕ → List ℕ → ℕ
unseen count closure = length (keep (λ x. not (elem x closure)) (below count))

pub unseen-cons :
    (count self : ℕ) (closure : List ℕ)
    → self < count
    → elem self closure ≡ false
    → unseen count (self ∷ closure) < unseen count closure
unfolding unseen
unseen-cons count self closure h new =
    length-keep-lt (λ x. not (elem x closure)) (λ x. not (elem x (self ∷ closure))) self
      (below count) (λ x m. ground (arith, elem-cons x self closure)) (elem-below self count h)
      (rw new) (ground (arith, elem-cons self self closure))

pub unseen-grows :
    (count : ℕ) (before after : List ℕ)
    → ((x : ℕ) → elem x before ≡ true → elem x after ≡ true)
    → unseen count after ≤ unseen count before
unfolding unseen
unseen-grows count before after grows =
    length-keep_mono (λ x. not (elem x before)) (λ x. not (elem x after)) (below count)
      (λ x m. ground (arith, grows x))

module _ (s : Sliceables) where
  Explores-refl : (self : ℕ) (c : List ℕ) → Explores s self c c
  Explores-refl self c = record {
    grows = λ x m. m;
    sound = λ x m. inl m;
    closed = λ x y m new p. absurd (ground arith);
  }

  -- A visit of a parent, and then what follows it.
  Explores-trans :
      (self y : ℕ) (a b c : List ℕ)
      → Parent s self y
      → Explores s y a b
      → Explores s self b c
      → Explores s self a c
  Explores-trans self y a b c p e f = record {
    grows = λ x m. f.grows x (e.grows x m);
    sound = λ x m. elim (f.sound x m) [
      | inl old ↦ elim (e.sound x old) [ inl older ↦ inl older | inr r ↦ inr (next p r) ]
      | inr r ↦ inr r
    ];
    closed = λ x z m new q. elim (Bool-cases (elem x b)) [
      | inl old ↦ f.grows z (e.closed x z old new q)
      | inr newer ↦ f.closed x z m newer q
    ];
  }

  -- The visit of `self` itself: its parents are followed from a closure that holds it.
  Explores-visit :
      (self : ℕ) (a c : List ℕ)
      → elem self a ≡ false
      → Explores s self (self ∷ a) c
      → ((y : ℕ) → Parent s self y → elem y c ≡ true)
      → Explores s self a c
  Explores-visit self a c new e followed = record {
    grows = λ x m. e.grows x (ground (arith, elem-cons x self a));
    sound = λ x m. elim (e.sound x m) [
      | inr r ↦ inr r
      | inl old ↦ elim (Bool-cases (x == self)) [
        | inl same ↦ inr (subst (λ z. Reach s self z) (sym ((==_iff x self).0 same)) here)
        | inr other ↦ inl (ground (arith, elem-cons x self a))
      ]
    ];
    closed = λ x y m outside p. elim (Bool-cases (x == self)) [
      | inl same ↦ followed y (subst (λ z. Parent s z y) ((==_iff x self).0 same) p)
      | inr other ↦ e.closed x y m (ground (arith, elem-cons x self a)) p
    ];
  }

module _ (s : Sliceables) (count : ℕ) (w : IsResolvable s count) where
  abbrev pub Visits : ℕ → Type 0
  Visits fuel =
      (self : ℕ) (c : List ℕ)
      → self < count
      → unseen count c ≤ fuel
      → (c' : List ℕ) × (make_slice_helper s fuel self c ≡ ok c')
        × Explores s self c c'
        × (elem self c' ≡ true)

  follow_lem :
      (fuel self : ℕ)
      → Visits fuel
      → self < count
      → (pids : List ℕ) → ((pid : ℕ) → elem pid pids ≡ true → is_parent_id s self pid ≡ true)
      → (c : List ℕ) → unseen count c ≤ fuel
      → (c' : List ℕ) × (follow s (make_slice_helper s fuel) self pids c ≡ ok c')
        × Explores s self c c'
        × ((pid y : ℕ) → elem pid pids ≡ true → resolve s self pid ≡ ok y → elem y c' ≡ true)
  unfolding follow
  follow_lem fuel self visits h [] sub c room =
      (c, refl, Explores-refl s self c, λ pid y m e. absurd (ground (arith, elem-nil pid)))
  follow_lem fuel self visits h (p ∷ pids) sub c room =
      let listed = sub p (ground (arith, elem-cons p p pids)) in
      let (y, resolved, bound) = w.resolves self p h listed in
      let (c₁, visited, first, there) = visits y c bound room in
      let (c₂, followed, others, rest) =
        follow_lem fuel self visits h pids (λ q m. sub q (ground (arith, elem-cons q p pids))) c₁
          (omega (arith, unseen-grows count c c₁ first.grows)) in
      (
        c₂,
        rw (resolved, visited) followed,
        Explores-trans s self y c c₁ c₂ (resolve-Parent s self p y listed resolved) first others,
        λ q z m e. elim (Bool-cases (q == p)) [
          | inl same ↦
              others.grows z (ground (arith, there, resolved, λ (k : q ≡ p). ap (resolve s self) k))
          | inr other ↦ rest q z (ground (arith, elem-cons q p pids)) e
        ],
      )

  -- The versions that the loop over the parents follows are all the parents.
  all_parents :
      (self : ℕ) (c : List ℕ)
      → self < count
      → ((pid y : ℕ)
          → elem pid (parent_ids s self) ≡ true
          → resolve s self pid ≡ ok y
          → elem y c ≡ true)
      → (y : ℕ) → Parent s self y
      → elem y c ≡ true
  all_parents self c h followed y (pid, listed, (p, names, sees)) =
      let (z, resolved, _) = w.resolves self pid h listed in
      let same = Sees-resolve s self pid p y z names sees resolved in
      subst (λ k. elem k c ≡ true) (sym same)
        (followed pid z (elem-parent_ids s self pid ∙ listed) resolved)

  pub visits_lem : (fuel : ℕ) → Visits fuel
  unfolding make_slice_helper
  visits_lem zero self c h room = elim (Bool-cases (elem self c)) [
    | inl old ↦ (c, rw old refl, Explores-refl s self c, old)
    | inr new ↦ absurd (omega (arith, unseen-cons count self c h new))
  ]
  visits_lem (suc fuel) self c h room = elim (Bool-cases (elem self c)) [
    | inl old ↦ (c, rw old refl, Explores-refl s self c, old)
    | inr new ↦
        let (c', followed, explored, parents) =
          follow_lem fuel self (visits_lem fuel) h (parent_ids s self)
            (λ pid m. sym (elem-parent_ids s self pid) ∙ m) (self ∷ c)
            (omega (arith, unseen-cons count self c h new)) in
        (
          c',
          rw new followed,
          Explores-visit s self c c' new explored (all_parents self c' h parents),
          explored.grows self (ground (arith, elem-cons self self c)),
        )
  ]

length-below : (n : ℕ) → length (below n) ≡ n
length-below zero = refl
length-below (suc n) = ap suc (length-below n)

pub unseen-le : (count : ℕ) (c : List ℕ) → unseen count c ≤ count
unfolding unseen
unseen-le count c =
    omega (arith, length-keep-le (λ x. not (elem x c)) (below count), length-below count)
