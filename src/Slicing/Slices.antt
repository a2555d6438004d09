-- ===== src/Slicing/Slices.antt =====
-- `make_multi_slice` of core/ipyflow/slicing/mixin.py returns the backward closure of its seeds, in
-- the order of time.
use ipyflow.Base.{
  ℕ, ◌≤◌, ◌<◌, ◌≡◌, refl, sym, subst, ◌∙◌, ◌↔◌, ◌⊎◌, inl, inr, true, false, ◌||◌, List, [], ◌∷◌,
  elem, elem-nil, elem-cons, Bool-cases, ◌==◌, arith, ap,
}
use mathlib.Core.Logic.{∥∥₁_elim}
use mathlib.Core.Bool.{Bool-set}
use native.Mathlib.Nat.{le_refl}
use ipyflow.Timestamp.{lt}
use ipyflow.Timestamp.Order.{lt_asymm, le_trans}
use ipyflow.Slicing.Graph.{Graph}
use ipyflow.Slicing.Closure.{
  ok, Sliceables, Seed, object, slice_seed, close_seeds, insert_by_timestamp, sort_by_timestamp,
  make_multi_slice, make_slice,
}
use ipyflow.Slicing.Parents.{Parent}
use ipyflow.Slicing.Reach.{Reach, here, next, IsResolvable, Explores, visits_lem, unseen-le}
use ipyflow.Slicing.Versions.{Reach-not_later}

elem-insert_by_timestamp :
    (g : Graph) (z x : ℕ) (ys : List ℕ)
    → elem z (insert_by_timestamp g x ys) ≡ (z == x || elem z ys)
unfolding insert_by_timestamp elem
elem-insert_by_timestamp g z x [] = refl
elem-insert_by_timestamp g z x (y ∷ ys) = ground (arith, elem-insert_by_timestamp g z x ys)

elem-sort_by_timestamp :
    (g : Graph) (z : ℕ) (xs : List ℕ) → elem z (sort_by_timestamp g xs) ≡ elem z xs
unfolding sort_by_timestamp elem
elem-sort_by_timestamp g z [] = refl
elem-sort_by_timestamp g z (x ∷ xs) =
    ground (
      arith,
      elem-insert_by_timestamp g z x (sort_by_timestamp g xs),
      elem-sort_by_timestamp g z xs,
    )

-- Nothing stands before something earlier.
abbrev pub IsChronological : Graph → List ℕ → Type 0
IsChronological g [] = Unit
IsChronological g (x ∷ xs) =
    ((y : ℕ) → elem y xs ≡ true → lt (g.timestamp y) (g.timestamp x) ≡ false) × IsChronological g xs

insert-IsChronological :
    (g : Graph) (x : ℕ) (ys : List ℕ)
    → IsChronological g ys
    → IsChronological g (insert_by_timestamp g x ys)
unfolding insert_by_timestamp
insert-IsChronological g x [] h = (λ y m. absurd (ground (arith, elem-nil y)), tt)
insert-IsChronological g x (y ∷ ys) (first, rest) =
    elim (Bool-cases (lt (g.timestamp y) (g.timestamp x))) [
      | inl earlier ↦ rw earlier (
        λ z m. ground (
          arith,
          elem-insert_by_timestamp g z x ys,
          first z,
          lt_asymm (g.timestamp y) (g.timestamp x) earlier,
          λ (e : z ≡ x). ap g.timestamp e,
        ),
        insert-IsChronological g x ys rest,
      )
      | inr later ↦ rw later (
        λ z m. elim (Bool-cases (z == y)) [
          | inl same ↦ ground (arith, later, λ (e : z ≡ y). ap g.timestamp e)
          | inr other ↦
              le_trans (g.timestamp x) (g.timestamp y) (g.timestamp z) later
                (first z (ground (arith, elem-cons z y ys)))
        ],
        (first, rest),
      )
    ]

sort-IsChronological : (g : Graph) (xs : List ℕ) → IsChronological g (sort_by_timestamp g xs)
unfolding sort_by_timestamp
sort-IsChronological g [] = tt
sort-IsChronological g (x ∷ xs) =
    insert-IsChronological g x (sort_by_timestamp g xs) (sort-IsChronological g xs)

module _ (s : Sliceables) where
  -- `x` is reached from one of the seeds.
  abbrev pub Seeded : List Seed → ℕ → Type 0
  Seeded [] x = ⊥
  Seeded (seed ∷ seeds) x =
      ((r : ℕ) × (slice_seed s.objects seed ≡ ok r) × Reach s r x) ⊎ Seeded seeds x

  -- Every seed names an object.
  abbrev pub Named : ℕ → List Seed → Type 0
  Named count [] = Unit
  Named count (seed ∷ seeds) =
      ((r : ℕ) × (slice_seed s.objects seed ≡ ok r) × (r < count)) × Named count seeds

  IsClosed : List ℕ → Type 0
  IsClosed c = (x y : ℕ) → elem x c ≡ true → Parent s x y → elem y c ≡ true

  Explores-IsClosed : (r : ℕ) (c c' : List ℕ) → Explores s r c c' → IsClosed c → IsClosed c'
  unfolding IsClosed
  Explores-IsClosed r c c' e k x y m p = elim (Bool-cases (elem x c)) [
    | inl old ↦ e.grows y (k x y old p)
    | inr new ↦ e.closed x y m new p
  ]

  Reach-elem : (c : List ℕ) {x y : ℕ} → IsClosed c → elem x c ≡ true → Reach s x y → elem y c ≡ true
  unfolding IsClosed
  Reach-elem c k m here = m
  Reach-elem c k m (next {x} {y} p r) = Reach-elem c k (k x y m p) r

nil-IsClosed : (s : Sliceables) → IsClosed s []
unfolding IsClosed
nil-IsClosed s x y m p = absurd (ground (arith, elem-nil x))

ok_eq : {a b : ℕ} → ok a ≡ ok b → a ≡ b
ok_eq h = cc

module _ (s : Sliceables) (count : ℕ) (w : IsResolvable s count) (fuel : ℕ)
    (enough : count ≤ fuel) where
  -- What the loop over the seeds returns, from a closed set that it may already have.
  record Collects (seeds : List Seed) (c c' : List ℕ) : Type 0 where
    grows : (x : ℕ) → elem x c ≡ true → elem x c' ≡ true
    sound : (x : ℕ) → elem x c' ≡ true → (elem x c ≡ true) ⊎ Seeded s seeds x
    complete : (x : ℕ) → Seeded s seeds x → elem x c' ≡ true

  close_seeds_lem :
      (seeds : List Seed) (c : List ℕ)
      → Named s count seeds
      → IsClosed s c
      → (c' : List ℕ) × (close_seeds s fuel false seeds c ≡ ok c') × Collects seeds c c'
  unfolding close_seeds
  close_seeds_lem [] c n k =
      (c, refl, record { grows = λ x m. m; sound = λ x m. inl m; complete = λ x m. absurd m })
  close_seeds_lem (seed ∷ seeds) c ((r, named, bound), n) k =
      let (c₁, visited, e, there) =
        visits_lem s count w fuel r c bound (omega (arith, unseen-le count c)) in
      let k₁ = Explores-IsClosed s r c c₁ e k in
      let (c₂, closed, t) = close_seeds_lem seeds c₁ n k₁ in
      (
        c₂,
        rw (named, visited) closed,
        record {
          grows = λ x m. t.grows x (e.grows x m);
          sound = λ x m. elim (t.sound x m) [
            | inr later ↦ inr (inr later)
            | inl first ↦ elim (e.sound x first) [
              | inl old ↦ inl old
              | inr walk ↦ inr (inl (r, named, walk))
            ]
          ];
          complete = λ x m. elim m [
            | inl (q, found, walk) ↦ t.grows x (
                Reach-elem s c₁ k₁ (subst (λ z. elem z c₁ ≡ true) (ok_eq (sym named ∙ found)) there)
                  walk)
            | inr later ↦ t.complete x later
          ];
        },
      )

  -- Where each parent identifier names an object one of whose versions was there to see, so that no
  -- look-up and no step back fails, and with fuel for every object, slicing from seeds that name
  -- objects returns. The slice holds exactly the objects that a walk over parents, in the contexts
  -- that are enabled, reaches from some seed, in the order of time.
  pub make_multi_slice_correct :
      (seeds : List Seed)
      → Named s count seeds
      → (slice : List ℕ) × (make_multi_slice s fuel seeds false ≡ ok slice)
        × ((x : ℕ) → (elem x slice ≡ true) ↔ ∥ Seeded s seeds x ∥₁)
        × IsChronological s.objects slice
  unfolding make_multi_slice
  make_multi_slice_correct seeds n =
      let (c, closed, t) = close_seeds_lem seeds [] n (nil-IsClosed s) in
      (
        sort_by_timestamp s.objects c,
        rw closed refl,
        λ x. (
          λ m. elim (t.sound x (sym (elem-sort_by_timestamp s.objects x c) ∙ m)) [
            | inl old ↦ absurd (ground (arith, elem-nil x))
            | inr walk ↦ ∣ walk ∣₁
          ],
          λ walk.
              ∥∥₁_elim walk (Bool-set _ _)
                (λ m. elem-sort_by_timestamp s.objects x c ∙ t.complete x m),
        ),
        sort-IsChronological s.objects c,
      )

-- Where each parent identifier names an object one of whose versions was there to see, so that no
-- look-up and no step back fails, and no object overrides its time, the slice of one object is
-- computed within fuel for every object; it holds the object itself and nothing later.
pub make_slice_causal :
    (s : Sliceables) (count self : ℕ)
    → IsResolvable s count
    → self < count
    → ((r : ℕ) → s.objects.override r ≡ false)
    → (slice : List ℕ) × (make_slice s count self ≡ ok slice)
      × (elem self slice ≡ true)
      × ((x : ℕ)
          → elem x slice ≡ true
          → lt (s.objects.timestamp self) (s.objects.timestamp x) ≡ false)
unfolding make_slice slice_seed
make_slice_causal s count self w h none_overrides =
    let (slice, e, members, _) =
      make_multi_slice_correct s count w count (le_refl count) (object self ∷ [])
        ((self, refl, h), tt) in
    (
      slice,
      e,
      (members self).1 ∣ inl (self, refl, here) ∣₁,
      λ x m. ∥∥₁_elim ((members x).0 m) (Bool-set _ _) (λ seeded. elim seeded [
        | inl (r, found, walk) ↦
            Reach-not_later s none_overrides (subst (λ z. Reach s z x) (sym (ok_eq found)) walk)
        | inr nothing ↦ absurd nothing
      ]),
    )
