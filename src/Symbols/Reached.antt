-- ===== src/Symbols/Reached.antt =====
-- What each of the three methods of core/ipyflow/data_model/utils/update_protocol.py that pass waiting
-- on does, where the calls that it makes do what they should.
use ipyflow.Base.{
  ℕ, ◌≤◌, ◌<◌, ◌≡◌, refl, ap, true, false, Option, some, List, [], ◌∷◌, elem, elem-nil, elem-cons,
  Bool-cases, Option-cases, not, ◌&&◌, if◌then◌else◌, inl, inr, arith,
}
use ipyflow.Cells.Lookup.{◌>>=◌}
use ipyflow.Slicing.Reach.{unseen, unseen-grows}
use ipyflow.Symbols.{Python, Store}
use ipyflow.Symbols.Spaces.{containing_namespace, namespace, owners, symbols_in}
use ipyflow.Symbols.Times.{for_each}
use ipyflow.Symbols.Refresh.{Walk}
use ipyflow.Symbols.Propagate.{
  dependents, should_mark, mark, add_waiting, Goes, to_deps, to_holders, to_members, pass_to_deps,
  pass_to_holders, pass_to_members,
}
use ipyflow.Symbols.Loops.{for_each-Spreads}
use ipyflow.Symbols.Named.{IsNamed}
use ipyflow.Symbols.Spread.{Spreads, Spreads-same, Spreads-trans, Spreads-close}
use ipyflow.Symbols.Facts.{
  marked, late, held, told, waiting, IsHeld, IsTold, members, IsMarked, waits, Spreads-mark,
  Spreads-add_waiting, mark-required, add_waiting-waits,
}

module _ (st : Store) (py : Python) (updated count : ℕ) (named : IsNamed st count) where
  abbrev pub Room : ℕ → Walk → Type 0
  Room u w = unseen count w.seen ≤ u

  pub Room_lem :
      (u : ℕ) (open_syms : List ℕ) (a b : Walk)
      → Spreads (waits st py updated) open_syms a b
      → Room u a
      → Room u b
  Room_lem u open_syms a b s room = omega (arith, unseen-grows count a.seen b.seen s.grows)

  -- the result of a call
  abbrev pub Ends : Option Walk → List ℕ → Walk → (Walk → Type 0) → Type 0
  Ends result open_syms w P =
      (w' : Walk) × (result ≡ some w') × Spreads (waits st py updated) open_syms w w' × P w'

  abbrev pub Saw : ℕ → Walk → Type 0
  Saw x w = elem x w.seen ≡ true

  -- the members of the symbol's object are seen
  abbrev pub SawMembers : ℕ → Walk → Type 0
  SawMembers x w = (y : ℕ) → (elem y (members st py updated x) && not (elem y w.seen)) ≡ false

  -- calls that look whether the symbol is seen
  pub record Enters (go : Goes) (u : ℕ) : Type 0 where
    pub deps : (x : ℕ) (w : Walk) → x < count → Room u w → Ends (go to_deps false x w) [] w (Saw x)
    pub holders :
        (x : ℕ) (w : Walk)
        → x < count
        → Room u w
        → IsHeld st py updated w.store x
        → Ends (go to_holders false x w) (x ∷ []) w (Saw x)

  -- calls that do not
  pub record Skips (go : Goes) (u : ℕ) : Type 0 where
    pub skip_holders :
        (x : ℕ) (w : Walk)
        → Saw x w
        → Room u w
        → Ends (go to_holders true x w) [] w (λ w'. IsTold st py updated w'.seen w'.store x)
    pub skip_members :
        (x : ℕ) (w : Walk) → Saw x w → Room u w → Ends (go to_members true x w) [] w (SawMembers x)

  deps_loop :
      (go : Goes) (u : ℕ)
      → Enters go u
      → (rs : List ℕ) → ((r : ℕ) → elem r rs ≡ true → r < count)
      → (w : Walk) → Room u w
      → Ends (for_each (go to_deps false) rs w) [] w (λ w'. (r : ℕ) → elem r rs ≡ true → Saw r w')
  deps_loop go u enters rs small w room =
      for_each-Spreads (waits st py updated) [] (Room u) Saw (go to_deps false) (Room_lem u [])
        (λ r a b s m. s.grows r m) rs (λ r v m room'. enters.deps r v (small r m) room') w room

  pub pass_to_members_lem :
      (go : Goes) (u self : ℕ) (w : Walk)
      → Enters go u
      → Room u w
      → Ends (pass_to_members st go self w) [] w (SawMembers self)
  unfolding pass_to_members
  pass_to_members_lem go u self w enters room = elim (Option-cases (namespace st self)) [
    | inl e ↦ (
      w,
      rw (pass_to_members, e) refl,
      Spreads-same (waits st py updated) [] w w (λ g. refl) (λ x. refl) (λ x m. m),
      λ y. rw (members, e) (ground (arith, elem-nil y)),
    )
    | inr (sp, e) ↦
        let (w', ran, s, all_seen) =
          deps_loop go u enters (symbols_in st true sp) (named.members true sp) w room in
        (w', rw (pass_to_members, e) ran, s, λ y. rw (members, e) (ground (arith, all_seen y)))
  ]

  Saw_lem :
      (x : ℕ) (open_syms : List ℕ) (a b : Walk)
      → Spreads (waits st py updated) open_syms a b
      → Saw x a
      → Saw x b
  Saw_lem x open_syms a b s m = s.grows x m

  -- The owners of a namespace wait, and so do the namespaces that hold them.
  holders_loop :
      (go : Goes) (u sp : ℕ) (w : Walk)
      → Enters go u
      → Room u w
      → ((r : ℕ) → elem r (owners st sp) ≡ true → IsHeld st py updated w.store r)
      → Ends
          (for_each (go to_holders false) (owners st sp) w)
          (owners st sp)
          w
          (λ w'. (r : ℕ) → elem r (owners st sp) ≡ true → Saw r w')
  holders_loop go u sp w enters room marks =
      let open_syms = owners st sp in
      let (w', ran, s, all_seen) =
        for_each-Spreads (waits st py updated) open_syms
          (λ v. Room u v × ((r : ℕ) → elem r open_syms ≡ true → IsHeld st py updated v.store r)) Saw
          (go to_holders false)
          (λ a b s p. (Room_lem u open_syms a b s p.0, λ r m. s.keeps (held r) (p.1 r m)))
          (λ r a b s p. s.grows r p) open_syms
          (λ r v m p.
            let (v', ran, s, saw) = enters.holders r v (named.holders sp r m) p.0 (p.1 r m) in
            (
              v',
              ran,
              Spreads-close (waits st py updated) (r ∷ []) open_syms v v' s (λ x y here out d.
                  absurd (
                    ground (
                      arith,
                      elem-cons x r [],
                      elem-nil x,
                      m,
                      λ (e : x ≡ r). ap (λ z. elem z open_syms) e,
                    ))),
              saw,
            ))
          w (room, marks) in
      (w', ran, s, all_seen)

  -- Then what was computed from the owners waits.
  owners_loop :
      (go : Goes) (u sp : ℕ) (w : Walk)
      → Enters go u
      → Room u w
      → Ends
          (for_each (λ r. for_each (go to_deps false) (dependents st updated r)) (owners st sp) w)
          []
          w
          (λ w'.
            (r y : ℕ)
            → elem r (owners st sp) ≡ true
            → elem y (dependents st updated r) ≡ true
            → Saw y w')
  owners_loop go u sp w enters room =
      let (w', ran, s, all_seen) =
        for_each-Spreads (waits st py updated) [] (Room u)
          (λ r v. (y : ℕ) → elem y (dependents st updated r) ≡ true → Saw y v)
          (λ r. for_each (go to_deps false) (dependents st updated r)) (Room_lem u [])
          (λ r a b s p y m. s.grows y (p y m)) (owners st sp)
          (λ r v m room'.
            deps_loop go u enters (dependents st updated r) (named.children updated r) v room')
          w room in
      (w', ran, s, λ r y m d. all_seen r m y d)

  pub pass_to_holders_lem :
      (go : Goes) (u self : ℕ) (w : Walk)
      → Enters go u
      → Room u w
      → Ends
          (pass_to_holders st py updated go self w)
          []
          w
          (λ w'. IsTold st py updated w'.seen w'.store self)
  unfolding pass_to_holders
  pass_to_holders_lem go u self w enters room =
      let stays : Spreads (waits st py updated) [] w w =
        Spreads-same (waits st py updated) [] w w (λ g. refl) (λ x. refl) (λ x m. m) in
      elim (Option-cases (containing_namespace st self)) [
        | inl e ↦ (w, rw (pass_to_holders, e) refl, stays, rw (IsTold, e) tt)
        | inr (sp, e) ↦ elim (Bool-cases (py.is_module (st.space sp).obj)) [
          | inl m ↦ (w, rw (pass_to_holders, e, m) refl, stays, rw (IsTold, e) (inl m))
          | inr n ↦
              let v = add_waiting self sp w in
              let added = Spreads-add_waiting st py updated self sp w in
              let here = add_waiting-waits st py updated self sp w in
              let (w₁, first, s₁, owners_seen) =
                holders_loop go u sp v enters (Room_lem u [] w v added room)
                  (λ r m. (sp, self, m, here)) in
              let (w₂, next, s₂, all_seen) =
                owners_loop go u sp w₁ enters
                  (Room_lem u (owners st sp) v w₁ s₁ (Room_lem u [] w v added room)) in
              (
                w₂,
                rw (pass_to_holders, e, n, first) next,
                Spreads-trans (waits st py updated) [] w v w₂ added (
                    Spreads-close (waits st py updated) (owners st sp) [] v w₂
                      (Spreads-trans (waits st py updated) (owners st sp) v w₁ w₂ s₁ (
                        Spreads-close (waits st py updated) [] (owners st sp) w₁ w₂ s₂
                          (λ x y m o d. absurd (ground (arith, elem-nil x)))))
                      (λ x y m o d. all_seen x y m d)),
                rw (IsTold, e)
                    (inr (
                      s₂.keeps (waiting sp self) (s₁.keeps (waiting sp self) here),
                      λ r. ground (arith, owners_seen r, s₂.grows r),
                    )),
              )
        ]
      ]

  -- the marks, and what they lead to
  marks_lem :
      (go : Goes) (u self : ℕ) (w : Walk)
      → Skips go u
      → Saw self w
      → Room u w
      → Ends
          (if should_mark st updated self
            then go to_holders true self (mark st updated self w) >>= go to_members true self
            else some w)
          []
          w
          (λ w'. should_mark st updated self ≡ true → IsMarked st py updated w'.seen w'.store self)
  marks_lem go u self w skips saw room = elim (Bool-cases (should_mark st updated self)) [
    | inr n ↦ (
      w,
      rw n refl,
      Spreads-same (waits st py updated) [] w w (λ g. refl) (λ x. refl) (λ x m. m),
      λ y. absurd (ground arith),
    )
    | inl y ↦
        let v = mark st updated self w in
        let s = Spreads-mark st py updated self w in
        let (w₁, first, s₁, is_told) =
          skips.skip_holders self v (s.grows self saw) (Room_lem u [] w v s room) in
        let (w₂, next, s₂, inside) =
          skips.skip_members self w₁ (s₁.grows self (s.grows self saw))
            (Room_lem u [] v w₁ s₁ (Room_lem u [] w v s room)) in
        (
          w₂,
          rw (y, first) next,
          Spreads-trans (waits st py updated) [] w v w₂ s
              (Spreads-trans (waits st py updated) [] v w₁ w₂ s₁ s₂),
          λ _. (
            inl (
              s₂.keeps (late self) (s₁.keeps (late self) (mark-required st py updated self w)),
              inside,
            ),
            s₂.keeps (told self) is_told,
          ),
        )
  ]

  pub pass_to_deps_lem :
      (go : Goes) (u self : ℕ) (w : Walk)
      → Enters go u
      → Skips go u
      → Saw self w
      → Room u w
      → Ends (pass_to_deps st updated go self w) [] w (λ w'.
        (should_mark st updated self ≡ true → IsMarked st py updated w'.seen w'.store self)
        × ((y : ℕ) → elem y (dependents st updated self) ≡ true → Saw y w'))
  unfolding pass_to_deps
  pass_to_deps_lem go u self w enters skips saw room =
      let (w₁, first, s₁, is_marked) = marks_lem go u self w skips saw room in
      let (w₂, next, s₂, all_seen) =
        deps_loop go u enters (dependents st updated self) (named.children updated self) w₁
          (Room_lem u [] w w₁ s₁ room) in
      (
        w₂,
        rw first next,
        Spreads-trans (waits st py updated) [] w w₁ w₂ s₁ s₂,
        (λ y. s₂.keeps (marked self) (is_marked y), all_seen),
      )
