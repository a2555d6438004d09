-- ===== src/Symbols/Renewal.antt =====
-- `Symbol.refresh` (core/ipyflow/data_model/symbol.py) returns, and what it refreshes.
use ipyflow.Base.{
  ℕ, zero, suc, ◌≤◌, ◌<◌, ◌≡◌, refl, Bool, true, false, none, some, [], ◌∷◌, elem, elem-nil,
  elem-cons, elem-keep, not, ◌&&◌, Bool-cases, ◌⊎◌, inl, inr, arith,
}
use ipyflow.Timestamp.{Timestamp}
use ipyflow.Timestamp.Clock.{current}
use ipyflow.Slicing.Reach.{unseen, unseen-cons, unseen-le}
use ipyflow.Symbols.{Python, Store, name_eq}
use ipyflow.Symbols.Spaces.{namespace, symbols_in}
use ipyflow.Symbols.Times.{for_each}
use ipyflow.Symbols.Refresh.{Walk, see, refresh_walk, refresh}
use ipyflow.Symbols.Skeleton.{SameBones, SameBones-trans}
use ipyflow.Symbols.Refreshed.{
  Renewed, members_of, is_class_name, renewing, Renews, Renewed-Spreads, refresh_one_lem,
  members_lem,
}
use ipyflow.Symbols.Meaning.{is_member, elem-members}
use ipyflow.Symbols.Spread.{Spreads, Spreads-same, Spreads-trans, Spreads-enter}
use ipyflow.Symbols.Named.{IsNamed}

module _ (a : Store) (named : IsNamed a a.next_symbol) (py : Python) (now : Timestamp) where
  -- a symbol that is refreshed with its members
  descend_lem :
      (fuel x : ℕ) (w : Walk) (st : Store)
      → Renews a named py now fuel
      → x < a.next_symbol
      → SameBones a w.store
      → unseen a.next_symbol w.seen ≤ suc fuel
      → elem x w.seen ≡ false
      → Renewed now x w.store st
      → (w' : Walk) × (elim (namespace st x) [
        | none ↦ some (record { seen = x ∷ w.seen; store = st })
        | some sp ↦
            for_each
              (λ r v.
                refresh_walk fuel py false
                  (not (name_eq (v.store.symbol r).name py.class_name))
                  now
                  r
                  v)
              (symbols_in st true sp)
              (record { seen = x ∷ w.seen; store = st })
      ]
          ≡ some w')
        × Spreads (renewing a named py now) [] w w'
        × ((elem x w'.seen ≡ true) × ((w'.store.symbol x).own_timestamp ≡ now))
  unfolding see
  descend_lem fuel x w st renews_all small bones room new r =
      let k = renewing a named py now in
      let v : Walk = record { seen = x ∷ w.seen; store = st } in
      let s₀ = Renewed-Spreads a named py now x (see x w) v r (λ y. refl) in
      let (w', ran, s, found) =
        members_lem a named py now fuel x v renews_all (SameBones-trans a w.store st bones r.bones)
          (omega (arith, unseen-cons a.next_symbol x w.seen small new)) in
      (
        w',
        ran,
        Spreads-enter k [] x w w' (Spreads-trans k [] (see x w) v w' s₀ s)
            (λ _. s.keeps x r.renewed)
            (λ y _ m.
              found y
                (ground (
                  arith,
                  elem-keep y (λ z. not (is_class_name a named py now z))
                      (members_of a named py now x),
                ))
                (ground (
                  arith,
                  elem-keep y (λ z. not (is_class_name a named py now z))
                      (members_of a named py now x),
                ))),
        (s.grows x (ground (arith, elem-cons x x w.seen)), s.keeps x r.renewed),
      )

  refresh_walk_lem : (fuel : ℕ) → Renews a named py now fuel
  unfolding refresh_walk
  refresh_walk_lem zero snapshots descend x w small bones room = elim (Bool-cases (elem x w.seen)) [
    | inl old ↦ (
      w,
      rw old refl,
      Spreads-same (renewing a named py now) [] w w (λ g. refl) (λ y. refl) (λ y m. m),
      ((λ _. old), λ new. absurd (ground (arith, old, new))),
    )
    | inr new ↦ absurd (omega (arith, unseen-cons a.next_symbol x w.seen small new))
  ]
  refresh_walk_lem (suc fuel) snapshots descend x w small bones room =
      elim (Bool-cases (elem x w.seen)) [
        | inl old ↦ (
          w,
          rw old refl,
          Spreads-same (renewing a named py now) [] w w (λ g. refl) (λ y. refl) (λ y m. m),
          ((λ _. old), λ new. absurd (ground (arith, old, new))),
        )
        | inr new ↦
            let (st, one, r) = refresh_one_lem a named snapshots now x w.store small bones in
            elim (Bool-cases descend) [
              | inr off ↦
                  let v : Walk = record w { store = st } in
                  (
                    v,
                    rw (new, one, off) refl,
                    Renewed-Spreads a named py now x w v r (λ y. refl),
                    (λ on. absurd (ground (arith, on, off)), λ _. r.renewed),
                  )
              | inl on ↦
                  let (w', ran, s, (there, fresh)) =
                    descend_lem fuel x w st (refresh_walk_lem fuel) small bones room new r in
                  (w', rw (new, one, on) ran, s, ((λ _. there), λ _. fresh))
            ]
      ]

-- A refreshing as others call it.
pub refresh_bones :
    (st : Store) (py : Python) (descend : Bool) (self : ℕ)
    → IsNamed st st.next_symbol
    → self < st.next_symbol
    → (st' : Store) × (refresh py descend self st ≡ some st') × SameBones st st'
unfolding refresh
refresh_bones st py descend self named small =
    let (w', ran, s, _) =
      refresh_walk_lem st named py (current st.clock) st.next_symbol true descend self
        (record { seen = []; store = st }) small (λ g. refl) (unseen-le st.next_symbol []) in
    (w'.store, rw ran refl, s.same)

-- Where every symbol that the store names exists, the refreshing of one that exists returns. It
-- changes times, marks, flags and cells only; the symbol has the current time and so has, where the
-- refreshing descends, each member of its namespace that is not named `__class__`.
pub refresh_lem :
    (st : Store) (py : Python) (descend : Bool) (self : ℕ)
    → IsNamed st st.next_symbol
    → self < st.next_symbol
    → (st' : Store) × (refresh py descend self st ≡ some st')
      × SameBones st st'
      × ((st'.symbol self).own_timestamp ≡ current st.clock)
      × ((y : ℕ)
          → ((descend && is_member st true self y && not (name_eq (st.symbol y).name py.class_name))
              ≡ false)
            ⊎ ((st'.symbol y).own_timestamp ≡ current st.clock))
unfolding refresh
refresh_lem st py descend self named small =
    let now = current st.clock in
    let start : Walk = record { seen = []; store = st } in
    let (w', ran, s, (there, fresh)) =
      refresh_walk_lem st named py now st.next_symbol true descend self start small (λ g. refl)
        (unseen-le st.next_symbol []) in
    (
      w'.store,
      rw ran refl,
      s.same,
      fresh (elem-nil self),
      λ y.
          elim (Bool-cases (
            descend
            && is_member st true self y
            && not (name_eq (st.symbol y).name py.class_name))) [
              | inr other ↦ inl other
              | inl member ↦ inr (
                  s.marked y
                    (s.closed self y (there (ground arith)) (elem-nil self) (elem-nil self) (
                      ground (
                        arith,
                        elem-members st true self y,
                        elem-keep y (λ z. not (is_class_name st named py now z))
                            (members_of st named py now self),
                      )))
                    (elem-nil y) refl)
            ],
    )
