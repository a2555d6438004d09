-- ===== src/Symbols/Gathered.antt =====
-- `_collect_updated_symbols_and_refresh_namespaces` of
-- core/ipyflow/data_model/utils/update_protocol.py ends with fuel for each symbol, and finds all
-- symbols that the update reaches through namespaces.
use ipyflow.Base.{
  ℕ, zero, suc, ◌≤◌, ◌<◌, ◌≡◌, refl, ap, Bool, true, false, Option, some, List, [], ◌∷◌, ◌++◌, elem,
  elem-nil, elem-cons, elem-keep, elem-append, not, ◌&&◌, Bool-cases, inl, inr, ◌⊎◌, arith,
}
use ipyflow.Slicing.Reach.{unseen, unseen-cons, unseen-grows, unseen-le}
use ipyflow.Symbols.{Store}
use ipyflow.Symbols.Spaces.{is_import_type}
use ipyflow.Symbols.Refresh.{Walk, see}
use ipyflow.Symbols.Propagate.{note_uses, clear_required, collect_one, collect}
use ipyflow.Symbols.Skeleton.{
  SameBones, SameBones-trans, note_uses-SameBones, clear_required-SameBones,
}
use ipyflow.Symbols.Named.{IsNamed}
use ipyflow.Symbols.Gather.{
  IsFresh, gathers, is_import, above, beneath, clear_lem, cleared_lem, both_lem, Gets, Collects,
}
use ipyflow.Symbols.Meaning.{
  is_held, owns, scope_of, is_member, is_imported, leads_to, IsSettled, names_import_lem,
  elem-members, owners_lem, holder_of_held, holder_of_unheld,
}
use ipyflow.Symbols.Spread.{Spreads, Spreads-same, Spreads-trans, Spreads-enter}
use ipyflow.Symbols.Loops.{for_each-Spreads}

module _ (a : Store) (descend : Bool) (count : ℕ) (named : IsNamed a count) where
  -- the start of a round
  touch : ℕ → Walk → Walk
  touch x w = record { seen = x ∷ w.seen; store = note_uses x (clear_required x w.store) }

  touch_lem : (x : ℕ) (w : Walk) → Spreads (gathers a descend) [] (see x w) (touch x w)
  unfolding touch see
  touch_lem x w =
      Spreads-same (gathers a descend) [] (see x w) (touch x w)
        (SameBones-trans w.store (clear_required x w.store) (touch x w).store
          (clear_required-SameBones x w.store) (note_uses-SameBones x (clear_required x w.store)))
        (λ y. refl) (λ y. clear_lem a descend x y w.store)

  collect_one_lem :
      (go : List ℕ → Walk → Option Walk) (u x : ℕ) (w : Walk)
      → ((v : ℕ) → v < u → Collects a descend count named go v)
      → x < count
      → SameBones a w.store
      → unseen count w.seen ≤ u
      → Gets a descend count named
          (collect_one go descend x w)
          w
          (λ w'. is_import a descend x ≡ false → elem x w'.seen ≡ true)
  unfolding collect_one touch see
  collect_one_lem go u x w collects small bones room =
      let same_import = ap (λ z. is_import_type (z.symbol x).symbol_type) (bones a.registry) in
      let stays = Spreads-same (gathers a descend) [] w w (λ g. refl) (λ y. refl) (λ y m. m) in
      elim (Bool-cases (is_import a descend x)) [
        | inl y ↦ (w, rw (same_import, y) refl, stays, λ n. absurd (ground (arith, y, n)))
        | inr n ↦ elim (Bool-cases (elem x w.seen)) [
          | inl old ↦ (w, rw (same_import, n, old) refl, stays, λ _. old)
          | inr new ↦
              let v = unseen count (x ∷ w.seen) in
              let less = unseen-cons count x w.seen small new in
              let touched = touch_lem x w in
              let (w', ran, s, (fresh, found)) =
                both_lem a descend count named go v x (touch x w) (collects v (omega arith))
                  (SameBones-trans a w.store (touch x w).store bones touched.same)
                  (cleared_lem a descend x w.store) (omega arith) in
              let whole =
                Spreads-enter (gathers a descend) [] x w w'
                  (Spreads-trans (gathers a descend) [] (see x w) (touch x w) w' touched s)
                  (λ _. fresh)
                  (λ y _ m.
                    found y
                      (ground (
                        arith,
                        elem-keep y (λ z. not (is_import a descend z))
                            (above a descend x ++ beneath a descend x),
                      ))
                      (ground (
                        arith,
                        elem-keep y (λ z. not (is_import a descend z))
                            (above a descend x ++ beneath a descend x),
                      ))) in
              (
                w',
                rw (same_import, n, new) ran,
                whole,
                λ _. s.grows x (ground (arith, elem-cons x x w.seen)),
              )
        ]
      ]

  pub collect-Collects :
      (fuel u : ℕ) → u < fuel → Collects a descend count named (collect fuel descend) u
  unfolding collect
  collect-Collects zero u h rs w small bones room = absurd (omega arith)
  collect-Collects (suc fuel) u h rs w small bones room =
      let (w', ran, s, found) =
        for_each-Spreads (gathers a descend) []
          (λ v. SameBones a v.store × (unseen count v.seen ≤ u))
          (λ r v. is_import a descend r ≡ false → elem r v.seen ≡ true)
          (collect_one (collect fuel descend) descend)
          (λ v v' s p. (
            SameBones-trans a v.store v'.store p.0 s.same,
            omega (arith, unseen-grows count v.seen v'.seen s.grows, p.1),
          ))
          (λ r v v' s p i. s.grows r (p i)) rs
          (λ r v m p.
            collect_one_lem (collect fuel descend) u r v
              (λ z less. collect-Collects fuel z (omega arith)) (small r m) p.0 p.1)
          w (bones, room) in
      (w', ran, s, found)

-- what collecting finds, in the words of the code
collect_found :
    (st : Store) (descend : Bool) (count fuel : ℕ)
    → IsNamed st count
    → count < fuel
    → (rs : List ℕ) → ((r : ℕ) → elem r rs ≡ true → r < count)
    → (w : Walk) × (collect fuel descend rs (record { seen = []; store = st }) ≡ some w)
      × SameBones st w.store
      × ((r : ℕ) → (elem r rs && (not (is_import st descend r) && not (elem r w.seen))) ≡ false)
      × ((x y : ℕ)
          → (elem x w.seen
              && (elem y (above st descend x ++ beneath st descend x)
                  && (not (is_import st descend y) && not (elem y w.seen))))
            ≡ false)
      × ((x : ℕ) → (elem x w.seen ≡ false) ⊎ IsFresh st descend w.store x)
collect_found st descend count fuel named h rs small =
    let (w, ran, s, found) =
      collect-Collects st descend count named fuel count h rs (record { seen = []; store = st })
        small (λ g. refl) (unseen-le count []) in
    (
      w,
      ran,
      s.same,
      λ r. ground (arith, found r),
      λ x y. ground (
        arith,
        elem-nil x,
        elem-keep y (λ z. not (is_import st descend z))
            (above st descend x ++ beneath st descend x),
        s.closed x y,
      ),
      λ x. elim (Bool-cases (elem x w.seen)) [
        | inl y ↦ inr (s.marked x y (elem-nil x) refl)
        | inr n ↦ inl n
      ],
    )

module _ (st : Store) (descend : Bool) where
  elem-above : (x y : ℕ) → elem y (above st descend x) ≡ (is_held st x && owns st (scope_of st x) y)
  elem-above x y = elim (Bool-cases (is_held st x)) [
    | inl h ↦ rw (above, holder_of_held st x h, h) (owners_lem st (scope_of st x) y)
    | inr h ↦ rw (above, holder_of_unheld st x h, h) (elem-nil y)
  ]

  elem-beneath : (x y : ℕ) → elem y (beneath st descend x) ≡ (descend && is_member st false x y)
  elem-beneath x y = elim (Bool-cases descend) [
    | inl on ↦ rw on (elem-members st false x y)
    | inr off ↦ rw off (elem-nil y)
  ]

  elem-leads_to :
      (x y : ℕ) → elem y (above st descend x ++ beneath st descend x) ≡ leads_to st descend x y
  elem-leads_to x y = ground (
    arith,
    elem-append y (above st descend x) (beneath st descend x),
    elem-above x y,
    elem-beneath x y,
  )

  IsFresh-IsSettled : (now : Store) (x : ℕ) → IsFresh st descend now x → IsSettled st now x
  IsFresh-IsSettled now x (r, held) = elim (Bool-cases (is_held st x)) [
    | inr h ↦ (r, inl h)
    | inl h ↦ (r, inr (rw (holder_of_held st x h) at held))
  ]

-- Where the symbols that the store names are below a bound, collecting what an update of some of them
-- reaches returns, with fuel for each. It keeps names and tables; it finds all of the given symbols and
-- with each symbol those of the object that holds it, where it is not a module and is in a namespace, and,
-- where it descends, its members, in each case but for imported ones. What it finds need not be
-- updated, and where it is not a module and is in a namespace, that namespace was updated now and does
-- not wait for it.
pub collect_lem :
    (st : Store) (descend : Bool) (count fuel : ℕ)
    → IsNamed st count
    → count < fuel
    → (rs : List ℕ) → ((r : ℕ) → elem r rs ≡ true → r < count)
    → (w : Walk) × (collect fuel descend rs (record { seen = []; store = st }) ≡ some w)
      × SameBones st w.store
      × ((r : ℕ) → (elem r rs && (not (is_imported st r) && not (elem r w.seen))) ≡ false)
      × ((x y : ℕ)
          → (elem x w.seen
              && (leads_to st descend x y && (not (is_imported st y) && not (elem y w.seen))))
            ≡ false)
      × ((x : ℕ) → (elem x w.seen ≡ false) ⊎ IsSettled st w.store x)
collect_lem st descend count fuel named h rs small =
    let (w, ran, same, all_found, closed, fresh) =
      collect_found st descend count fuel named h rs small in
    (
      w,
      ran,
      same,
      λ r. ground (arith, all_found r, names_import_lem (st.symbol r).symbol_type),
      λ x y. ground (
        arith,
        closed x y,
        elem-leads_to st descend x y,
        names_import_lem (st.symbol y).symbol_type,
      ),
      λ x. elim (fresh x) [
        | inl n ↦ inl n
        | inr k ↦ inr (IsFresh-IsSettled st descend w.store x k)
      ],
    )
