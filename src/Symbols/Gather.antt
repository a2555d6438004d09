-- ===== src/Symbols/Gather.antt =====
-- `_collect_updated_symbols_and_refresh_namespaces` of
-- core/ipyflow/data_model/utils/update_protocol.py: what a round does, where the calls that it makes do
-- what they should.
use ipyflow.Base.{
  ℕ, ◌≤◌, ◌<◌, ◌≡◌, refl, ap, Bool, true, false, Option, none, some, List, [], ◌++◌, elem, elem-nil,
  elem-discard, elem-append, keep, not, Bool-cases, Option-cases, ==_iff, inl, inr, ◌==◌, arith,
}
use ipyflow.Timestamp.{uninitialized}
use ipyflow.Timestamp.Clock.{current}
use ipyflow.Cells.Lookup.{◌>>=◌}
use ipyflow.Cells.Partial.{Holds, Holds-map}
use ipyflow.Slicing.Reach.{unseen, unseen-grows}
use ipyflow.Symbols.{Store, write_symbol, write_space}
use ipyflow.Symbols.Spaces.{namespace, owners, symbols_in, is_import_type}
use ipyflow.Symbols.Refresh.{Walk}
use ipyflow.Symbols.Propagate.{note_uses, clear_required, tell_updated, holder_of}
use ipyflow.Symbols.Skeleton.{
  SameBones, SameBones-trans, tell_updated-SameBones, owners_same, namespace_same, holder_of_same,
  symbols_in_same,
}
use ipyflow.Symbols.Named.{IsNamed}
use ipyflow.Symbols.Spread.{Marks, Spreads, Spreads-same, Spreads-trans}

module _ (a : Store) (descend : Bool) where
  -- The symbol need not be updated, and the namespace that holds it was, and does not wait for it.
  abbrev pub IsFresh : Store → ℕ → Type 0
  IsFresh now x =
      ((now.symbol x).required_timestamp ≡ uninitialized)
      × Holds
          (λ sp.
            ((now.space sp).max_descendent_timestamp ≡ current a.clock)
            × (elem x (now.space sp).namespace_waiting_symbols ≡ false))
          (holder_of a x)

  -- the symbols of the object whose namespace holds the symbol
  abbrev pub above : ℕ → List ℕ
  above x = elim (holder_of a x) [ none ↦ [] | some sp ↦ owners a sp ]

  -- the members, where the update descends
  abbrev pub beneath : ℕ → List ℕ
  beneath x = elim descend [
    | false ↦ []
    | true ↦ elim (namespace a x) [ none ↦ [] | some sp ↦ symbols_in a false sp ]
  ]

  abbrev pub is_import : ℕ → Bool
  is_import x = is_import_type (a.symbol x).symbol_type

  abbrev pub gathers : Marks
  gathers = record {
    facts = ℕ;
    is_kept = λ x seen st. IsFresh st x;
    widens = λ x s t more st k. k;
    mark_of = λ x. x;
    should = λ x. true;
    deps = λ x. keep (λ z. not (is_import z)) (above x ++ beneath x);
  }

  -- the changes of a round to the symbol and to what holds it
  pub clear_lem :
      (x y : ℕ) (st : Store) → IsFresh st y → IsFresh (note_uses x (clear_required x st)) y
  unfolding note_uses clear_required write_symbol
  clear_lem x y st (r, held) = (ground (arith, r), held)

  pub cleared_lem :
      (x : ℕ) (st : Store)
      → ((note_uses x (clear_required x st)).symbol x).required_timestamp ≡ uninitialized
  unfolding note_uses clear_required write_symbol
  cleared_lem x st = ground arith

  tell_lem :
      (x sp y : ℕ) (st : Store)
      → current st.clock ≡ current a.clock
      → IsFresh st y
      → IsFresh (tell_updated x sp st) y
  unfolding tell_updated write_space
  tell_lem x sp y st now (r, held) = (
    r,
    Holds-map _ _ (holder_of a y)
        (λ t _ (then', rest). elim (Bool-cases (t == sp)) [
          | inr n ↦ rw n (then', rest)
          | inl same ↦ rw same (
            now,
            ground (
              arith,
              elem-discard y x (st.space sp).namespace_waiting_symbols,
              rest,
              λ (k : t ≡ sp). ap (λ z. elem y (st.space z).namespace_waiting_symbols) k,
            ),
          )
        ])
        held,
  )

  told_lem :
      (x sp : ℕ) (st : Store)
      → current st.clock ≡ current a.clock
      → ((st.symbol x).required_timestamp ≡ uninitialized)
      → holder_of a x ≡ some sp
      → IsFresh (tell_updated x sp st) x
  unfolding tell_updated write_space
  told_lem x sp st now r h = (
    r,
    rw h (
      rw ((==_iff sp sp).1 refl) now,
      ground (arith, elem-discard x x (st.space sp).namespace_waiting_symbols),
    ),
  )

  module _ (count : ℕ) (named : IsNamed a count) where
    abbrev pub Gets : Option Walk → Walk → (Walk → Type 0) → Type 0
    Gets result w P = (w' : Walk) × (result ≡ some w') × Spreads gathers [] w w' × P w'

    abbrev pub HasAll : List ℕ → Walk → Type 0
    HasAll rs w = (r : ℕ) → elem r rs ≡ true → is_import r ≡ false → elem r w.seen ≡ true

    -- what a call for other symbols does
    abbrev pub Collects : (List ℕ → Walk → Option Walk) → ℕ → Type 0
    Collects go u =
        (rs : List ℕ) (w : Walk)
        → ((r : ℕ) → elem r rs ≡ true → r < count)
        → SameBones a w.store
        → unseen count w.seen ≤ u
        → Gets (go rs w) w (HasAll rs)

    -- from the symbol up, where its store has been touched already
    up_lem :
        (go : List ℕ → Walk → Option Walk) (u x : ℕ) (w : Walk)
        → Collects go u
        → SameBones a w.store
        → (w.store.symbol x).required_timestamp ≡ uninitialized
        → unseen count w.seen ≤ u
        → Gets
            (elim (holder_of w.store x) [
              | none ↦ some w
              | some sp ↦ go (owners w.store sp) (record w { store = tell_updated x sp w.store })
            ])
            w
            (λ w'. IsFresh w'.store x × HasAll (above x) w')
    up_lem go u x w collects bones cleared room = elim (Option-cases (holder_of a x)) [
      | inl e ↦ (
        w,
        rw (holder_of_same a w.store bones x, e) refl,
        Spreads-same gathers [] w w (λ g. refl) (λ y. refl) (λ y m. m),
        ((cleared, rw e tt), λ r m. absurd (ground (arith, elem-nil r, rw (above, e) at m))),
      )
      | inr (sp, e) ↦
          let v = record w { store = tell_updated x sp w.store } in
          let now = ap (λ z. current z.clock) (bones a.registry) in
          let told = tell_updated-SameBones x sp w.store in
          let s₀ =
            Spreads-same gathers [] w v told (λ y. refl) (λ y. tell_lem x sp y w.store now) in
          let (w', ran, s, all_seen) =
            collects (owners a sp) v (named.holders sp)
              (SameBones-trans a w.store v.store bones told) room in
          (
            w',
            rw (holder_of_same a w.store bones x, e, owners_same a w.store bones sp) ran,
            Spreads-trans gathers [] w v w' s₀ s,
            (
              s.keeps x (told_lem x sp w.store now cleared e),
              λ r m. all_seen r (rw (above, e) at m),
            ),
          )
    ]

    down_lem :
        (go : List ℕ → Walk → Option Walk) (u x : ℕ) (w : Walk)
        → Collects go u
        → SameBones a w.store
        → unseen count w.seen ≤ u
        → descend ≡ true
        → Gets
            (elim (namespace w.store x) [
              | none ↦ some w
              | some sp ↦ go (symbols_in w.store false sp) w
            ])
            w
            (HasAll (beneath x))
    down_lem go u x w collects bones room d = elim (Option-cases (namespace a x)) [
      | inl e ↦ (
        w,
        rw (namespace_same a w.store bones x, e) refl,
        Spreads-same gathers [] w w (λ g. refl) (λ y. refl) (λ y m. m),
        λ r m. absurd (ground (arith, elem-nil r, rw (d, beneath, e) at m)),
      )
      | inr (sp, e) ↦
          let (w', ran, s, all_seen) =
            collects (symbols_in a false sp) w (named.members false sp) bones room in
          (
            w',
            rw (namespace_same a w.store bones x, e, symbols_in_same a w.store bones false sp) ran,
            s,
            λ r m. all_seen r (rw (d, beneath, e) at m),
          )
    ]

    none_beneath : (x r : ℕ) → descend ≡ false → elem r (beneath x) ≡ false
    none_beneath x r off = rw off (elem-nil r)

    -- up, and down where the update descends
    pub both_lem :
        (go : List ℕ → Walk → Option Walk) (u x : ℕ) (w : Walk)
        → Collects go u
        → SameBones a w.store
        → (w.store.symbol x).required_timestamp ≡ uninitialized
        → unseen count w.seen ≤ u
        → Gets
            (let up : Option Walk = elim (holder_of w.store x) [
              | none ↦ some w
              | some sp ↦ go (owners w.store sp) (record w { store = tell_updated x sp w.store })
            ] in
              let down = up >>= λ v. elim (namespace v.store x) [
                | none ↦ some v
                | some sp ↦ go (symbols_in v.store false sp) v
              ] in
              elim descend [ true ↦ down | false ↦ up ])
            w
            (λ w'. IsFresh w'.store x × HasAll (above x ++ beneath x) w')
    both_lem go u x w collects bones cleared room =
        let (w₁, ran, s, (fresh, found)) = up_lem go u x w collects bones cleared room in
        elim (Bool-cases descend) [
          | inr off ↦ (
            w₁,
            rw off ran,
            s,
            (
              fresh,
              λ r m.
                  found r
                    (ground (arith, elem-append r (above x) (beneath x), none_beneath x r off)),
            ),
          )
          | inl on ↦
              let (w₂, ran₂, s₂, found₂) =
                down_lem go u x w₁ collects (SameBones-trans a w.store w₁.store bones s.same)
                  (omega (arith, unseen-grows count w.seen w₁.seen s.grows)) on in
              (
                w₂,
                rw (on, ran) ran₂,
                Spreads-trans gathers [] w w₁ w₂ s s₂,
                (
                  s₂.keeps x fresh,
                  λ r m i. elim (Bool-cases (elem r (above x))) [
                    | inl high ↦ s₂.grows r (found r high i)
                    | inr n ↦ found₂ r (ground (arith, elem-append r (above x) (beneath x))) i
                  ],
                ),
              )
        ]
