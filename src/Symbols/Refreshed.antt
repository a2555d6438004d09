-- ===== src/Symbols/Refreshed.antt =====
-- What the rounds of `Symbol.refresh` (core/ipyflow/data_model/symbol.py) do.
use ipyflow.Base.{
  ℕ, ◌≤◌, ◌<◌, ◌≡◌, refl, sym, subst, ap, ◌∙◌, Bool, true, false, none, some, List, [], elem,
  elem-nil, keep, not, ◌&&◌, ◌||◌, is_empty, Option-cases, inl, inr, if◌then◌else◌, arith,
}
use ipyflow.Timestamp.{Timestamp, lt}
use ipyflow.Cells.Lookup.{◌>>=◌}
use ipyflow.Slicing.Reach.{unseen, unseen-grows, unseen-le}
use ipyflow.Symbols.{Python, Store, write_symbol, name_eq}
use ipyflow.Symbols.Spaces.{namespace, symbols_in}
use ipyflow.Symbols.Times.{for_each}
use ipyflow.Symbols.Refresh.{
  Walk, take_snapshots, bump, set_temp_warnings, count_live, tell_holder, clear_waiting,
  refresh_one, refresh_walk,
}
use ipyflow.Symbols.Skeleton.{
  SameBones, SameBones-trans, write_symbol-SameBones, namespace_same, symbols_in_same,
}
use ipyflow.Symbols.Renew.{
  Alike, Alike-trans, take_snapshots_lem, set_temp_warnings-Alike, count_live-Alike,
  tell_holder-Alike, clear_waiting-Alike,
}
use ipyflow.Symbols.Spread.{Marks, Spreads, Spreads-same}
use ipyflow.Symbols.Named.{IsNamed, SameBones-IsNamed}
use ipyflow.Symbols.Loops.{for_each-Spreads}

-- the time of a symbol, when it was updated at `now`
abbrev pub renews : Timestamp → (ℕ → List ℕ) → Marks
renews now deps = record {
  facts = ℕ;
  widens = λ x s t more st k. k;
  mark_of = λ x. x;
  is_kept = λ x seen st. (st.symbol x).own_timestamp ≡ now;
  should = λ x. true;
  deps = deps;
}

bump-SameBones : (now : Timestamp) (self : ℕ) (st : Store) → SameBones st (bump now self st)
unfolding bump
bump-SameBones now self st = write_symbol-SameBones st self _ refl

bump_lem :
    (now : Timestamp) (self : ℕ) (st : Store) → ((bump now self st).symbol self).own_timestamp ≡ now
unfolding bump write_symbol
bump_lem now self st = ground arith

bump_keeps :
    (now : Timestamp) (self x : ℕ) (st : Store)
    → (st.symbol x).own_timestamp ≡ now
    → ((bump now self st).symbol x).own_timestamp ≡ now
unfolding bump write_symbol
bump_keeps now self x st e = ground (arith, e)

-- the end of the refreshing of one symbol
rest-Alike :
    (now : Timestamp) (self : ℕ) (st : Store)
    → Alike st (
        clear_waiting self
          (tell_holder now self (count_live now self (set_temp_warnings false self st))))
rest-Alike now self st =
    let st₁ = set_temp_warnings false self st in
    let st₂ = count_live now self st₁ in
    let st₃ = tell_holder now self st₂ in
    Alike-trans st st₁ _ (set_temp_warnings-Alike false self st) (
      Alike-trans st₁ st₂ _ (count_live-Alike now self st₁)
        (Alike-trans st₂ st₃ _ (tell_holder-Alike now self st₂) (clear_waiting-Alike self st₃)))

-- The symbol has the new time, and every other either has it or what it had.
pub record Renewed (now : Timestamp) (self : ℕ) (st st' : Store) : Type 0 where
  pub bones : SameBones st st'
  pub renewed : (st'.symbol self).own_timestamp ≡ now
  pub stays : (x : ℕ) → (st.symbol x).own_timestamp ≡ now → (st'.symbol x).own_timestamp ≡ now

Renewed-Alike :
    (now : Timestamp) (self : ℕ) (st : Store) (st' : Store)
    → Alike (bump now self st) st'
    → Renewed now self st st'
Renewed-Alike now self st st' same = record {
  bones = SameBones-trans st (bump now self st) st' (bump-SameBones now self st) same.bones;
  renewed = same.times self ∙ bump_lem now self st;
  stays = λ x e. same.times x ∙ bump_keeps now self x st e;
}

module _ (a : Store) (named : IsNamed a a.next_symbol) where
  -- the snapshots, where there are any
  snapshots_lem :
      (now : Timestamp) (b : Bool) (self : ℕ) (st : Store)
      → self < a.next_symbol
      → SameBones a st
      → (st' : Store) × ((if b
            then (take_snapshots st.next_symbol now self (record { seen = []; store = st }) >>= λ w.
                some w.store)
            else some st)
          ≡ some st')
        × Alike st st'
  snapshots_lem now false self st small bones =
      (st, refl, record { bones = λ g. refl; times = λ x. refl })
  snapshots_lem now true self st small bones =
      let same : st.next_symbol ≡ a.next_symbol = ap (λ z. z.next_symbol) (bones a.registry) in
      let (w', ran, s) =
        take_snapshots_lem st st.next_symbol
          (subst (IsNamed st) (sym same) (SameBones-IsNamed a st a.next_symbol bones named)) now
          st.next_symbol self (record { seen = []; store = st }) (rw same small) (λ g. refl)
          (unseen-le st.next_symbol []) in
      (w'.store, rw ran refl, record { bones = s.same; times = λ x. s.keeps x refl })

  pub refresh_one_lem :
      (snapshots : Bool) (now : Timestamp) (self : ℕ) (st : Store)
      → self < a.next_symbol
      → SameBones a st
      → (st' : Store) × (refresh_one snapshots now self st ≡ some st') × Renewed now self st st'
  unfolding refresh_one
  refresh_one_lem snapshots now self st small bones =
      let (st', ran, same) =
        snapshots_lem now
          (snapshots
            && (lt (st.symbol self).own_timestamp now
                || is_empty (st.symbol self).snapshot_timestamps))
          self (bump now self st) small
          (SameBones-trans a st (bump now self st) bones (bump-SameBones now self st)) in
      (
        _,
        rw ran refl,
        Renewed-Alike now self st _
            (Alike-trans (bump now self st) st' _ same (rest-Alike now self st')),
      )

  module _ (py : Python) (now : Timestamp) where
    -- the members that are refreshed with a symbol
    abbrev pub members_of : ℕ → List ℕ
    members_of x = elim (namespace a x) [ none ↦ [] | some sp ↦ symbols_in a true sp ]

    abbrev pub is_class_name : ℕ → Bool
    is_class_name x = name_eq (a.symbol x).name py.class_name

    abbrev pub renewing : Marks
    renewing = renews now (λ x. keep (λ y. not (is_class_name y)) (members_of x))

    pub Renewed-Spreads :
        (x : ℕ) (w v : Walk)
        → Renewed now x w.store v.store
        → ((y : ℕ) → elem y v.seen ≡ elem y w.seen)
        → Spreads renewing [] w v
    Renewed-Spreads x w v r same = Spreads-same renewing [] w v r.bones same r.stays

    abbrev pub Renews : ℕ → Type 0
    Renews fuel =
        (snapshots descend : Bool) (x : ℕ) (w : Walk)
        → x < a.next_symbol
        → SameBones a w.store
        → unseen a.next_symbol w.seen ≤ fuel
        → (w' : Walk) × (refresh_walk fuel py snapshots descend now x w ≡ some w')
          × Spreads renewing [] w w'
          × ((descend ≡ true → elem x w'.seen ≡ true)
              × (elem x w.seen ≡ false → (w'.store.symbol x).own_timestamp ≡ now))

    pub members_lem :
        (fuel x : ℕ) (w : Walk)
        → Renews fuel
        → SameBones a w.store
        → unseen a.next_symbol w.seen ≤ fuel
        → (w' : Walk) × (elim (namespace w.store x) [
          | none ↦ some w
          | some sp ↦
              for_each
                (λ r v.
                  refresh_walk fuel py false
                    (not (name_eq (v.store.symbol r).name py.class_name))
                    now
                    r
                    v)
                (symbols_in w.store true sp)
                w
        ]
            ≡ some w')
          × Spreads renewing [] w w'
          × ((y : ℕ)
              → elem y (members_of x) ≡ true
              → is_class_name y ≡ false
              → elem y w'.seen ≡ true)
    members_lem fuel x w renews_all bones room = elim (Option-cases (namespace a x)) [
      | inl e ↦ (
        w,
        rw (namespace_same a w.store bones x, e) refl,
        Spreads-same renewing [] w w (λ g. refl) (λ y. refl) (λ y m. m),
        λ y m. absurd (ground (arith, elem-nil y, rw (members_of, e) at m)),
      )
      | inr (sp, e) ↦
          let (w', ran, s, found) =
            for_each-Spreads renewing []
              (λ z. SameBones a z.store × (unseen a.next_symbol z.seen ≤ fuel))
              (λ r z. is_class_name r ≡ false → elem r z.seen ≡ true)
              (λ r v.
                refresh_walk fuel py false (not (name_eq (v.store.symbol r).name py.class_name)) now
                  r v)
              (λ y z s p. (
                SameBones-trans a y.store z.store p.0 s.same,
                omega (arith, unseen-grows a.next_symbol y.seen z.seen s.grows, p.1),
              ))
              (λ r y z s p n. s.grows r (p n)) (symbols_in a true sp)
              (λ r z m p.
                let same = ap (λ q. name_eq (q.symbol r).name py.class_name) (p.0 a.registry) in
                let (z', ran, s, (there, _)) =
                  renews_all false (not (is_class_name r)) r z (named.members true sp r m) p.0
                    p.1 in
                (z', rw same ran, s, λ n. there (ground (arith, n))))
              w (bones, room) in
          (
            w',
            rw (namespace_same a w.store bones x, e, symbols_in_same a w.store bones true sp) ran,
            s,
            λ y m n. found y (rw (members_of, e) at m) n,
          )
    ]
