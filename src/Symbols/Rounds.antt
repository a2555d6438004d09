-- ===== src/Symbols/Rounds.antt =====
-- The recursion of core/ipyflow/data_model/utils/update_protocol.py ends with fuel for two calls for
-- each symbol, and reaches all that was computed from what it sees.
use ipyflow.Base.{
  ℕ, zero, suc, ◌+◌, ◌≤◌, ◌<◌, ◌≡◌, refl, true, false, some, List, [], ◌∷◌, elem, elem-nil,
  elem-cons, Bool-cases, not, ◌&&◌, inl, inr, ◌⊎◌, ◌||◌, arith,
}
use ipyflow.Slicing.Reach.{unseen, unseen-cons, unseen-le}
use ipyflow.Symbols.{Python, Store}
use ipyflow.Symbols.Times.{for_each}
use ipyflow.Symbols.Refresh.{Walk, see}
use ipyflow.Symbols.Propagate.{dependents, should_mark, to_deps, to_holders, to_members, pass_on}
use ipyflow.Symbols.Loops.{for_each-Spreads}
use ipyflow.Symbols.Reached.{
  Room, Ends, Saw, SawMembers, Room_lem, Enters, Skips, pass_to_members_lem, pass_to_holders_lem,
  pass_to_deps_lem,
}
use ipyflow.Symbols.Skeleton.{SameBones}
use ipyflow.Symbols.Named.{IsNamed}
use ipyflow.Symbols.Meaning.{
  follows, must_wait, MustUpdate, must_wait_lem, elem-dependents, IsMarked-MustUpdate,
}
use ipyflow.Symbols.Spread.{
  Spreads, Spreads-same, Spreads-trans, Spreads-close, Spreads-enter, Spreads-see,
}
use ipyflow.Symbols.Facts.{marked, held, IsHeld, IsTold, IsMarked, waits}

module _ (st : Store) (py : Python) (updated count : ℕ) (named : IsNamed st count) where
  module _ (fuel : ℕ)
      (enters : (v : ℕ)
        → v + v + 1 ≤ fuel
        → Enters st py updated count named (pass_on fuel st py updated) v)
      (skips : (v : ℕ)
        → v + v + 2 ≤ fuel
        → Skips st py updated count named (pass_on fuel st py updated) v) where
    enter_deps :
        (u x : ℕ) (w : Walk)
        → u + u ≤ fuel
        → x < count
        → Room st py updated count named u w
        → Ends st py updated count named
            (pass_on (suc fuel) st py updated to_deps false x w)
            []
            w
            (Saw st py updated count named x)
    unfolding pass_on see
    enter_deps u x w h small room = elim (Bool-cases (elem x w.seen)) [
      | inl old ↦ (
        w,
        rw old refl,
        Spreads-same (waits st py updated) [] w w (λ g. refl) (λ y. refl) (λ y m. m),
        old,
      )
      | inr new ↦
          let v = unseen count (x ∷ w.seen) in
          let less = unseen-cons count x w.seen small new in
          let (w', ran, s, (is_marked, all_seen)) =
            pass_to_deps_lem st py updated count named (pass_on fuel st py updated) v x (see x w)
              (enters v (omega arith)) (skips v (omega arith))
              (ground (arith, elem-cons x x w.seen)) (omega arith) in
          (
            w',
            rw new ran,
            Spreads-enter (waits st py updated) [] x w w' s is_marked (λ y _. all_seen y),
            s.grows x (ground (arith, elem-cons x x w.seen)),
          )
    ]

    enter_holders :
        (u x : ℕ) (w : Walk)
        → u + u ≤ fuel
        → x < count
        → Room st py updated count named u w
        → IsHeld st py updated w.store x
        → Ends st py updated count named
            (pass_on (suc fuel) st py updated to_holders false x w)
            (x ∷ [])
            w
            (Saw st py updated count named x)
    unfolding pass_on see
    enter_holders u x w h small room is_held = elim (Bool-cases (elem x w.seen)) [
      | inl old ↦ (
        w,
        rw old refl,
        Spreads-same (waits st py updated) (x ∷ []) w w (λ g. refl) (λ y. refl) (λ y m. m),
        old,
      )
      | inr new ↦
          let v = unseen count (x ∷ w.seen) in
          let less = unseen-cons count x w.seen small new in
          let (w', ran, s, is_told) =
            pass_to_holders_lem st py updated count named (pass_on fuel st py updated) v x (see x w)
              (enters v (omega arith)) (omega arith) in
          (
            w',
            rw new ran,
            Spreads-enter (waits st py updated) (x ∷ []) x w w'
                (Spreads-close (waits st py updated) [] (x ∷ []) (see x w) w' s
                  (λ y z m o d. absurd (ground (arith, elem-nil y))))
                (λ _. (inr (s.keeps (held x) is_held), is_told))
                (λ y out d. absurd (ground (arith, elem-cons x x []))),
            s.grows x (ground (arith, elem-cons x x w.seen)),
          )
    ]

    module _ (u x : ℕ) (w : Walk) (h : u + u + 1 ≤ fuel) (saw : Saw st py updated count named x w)
        (room : Room st py updated count named u w) where
      again : Spreads (waits st py updated) [] w (see x w)
      again = Spreads-see (waits st py updated) [] x w saw

      skip_to_holders :
          Ends st py updated count named
            (pass_on (suc fuel) st py updated to_holders true x w)
            []
            w
            (λ w'. IsTold st py updated w'.seen w'.store x)
      unfolding pass_on
      skip_to_holders =
          let (w', ran, s, done) =
            pass_to_holders_lem st py updated count named (pass_on fuel st py updated) u x (see x w)
              (enters u h) (Room_lem st py updated count named u [] w (see x w) again room) in
          let t = Spreads-trans (waits st py updated) [] w (see x w) w' again s in
          (w', ran, t, done)

      skip_to_members :
          Ends st py updated count named
            (pass_on (suc fuel) st py updated to_members true x w)
            []
            w
            (SawMembers st py updated count named x)
      unfolding pass_on
      skip_to_members =
          let (w', ran, s, done) =
            pass_to_members_lem st py updated count named (pass_on fuel st py updated) u x (see x w)
              (enters u h) (Room_lem st py updated count named u [] w (see x w) again room) in
          let t = Spreads-trans (waits st py updated) [] w (see x w) w' again s in
          (w', ran, t, done)

  -- Where a symbol is seen already, a call passes through it once more.
  abbrev Passes : ℕ → Type 0
  Passes fuel =
      ((v : ℕ) → v + v + 1 ≤ fuel → Enters st py updated count named (pass_on fuel st py updated) v)
      × ((v : ℕ)
          → v + v + 2 ≤ fuel
          → Skips st py updated count named (pass_on fuel st py updated) v)

  passes_lem : (fuel : ℕ) → Passes fuel
  passes_lem zero = (λ v h. absurd (omega arith), λ v h. absurd (omega arith))
  passes_lem (suc fuel) =
      let (enters, skips) = passes_lem fuel in
      (
        λ v h. record {
          deps = λ x w. enter_deps fuel enters skips v x w (omega arith);
          holders = λ x w. enter_holders fuel enters skips v x w (omega arith);
        },
        λ v h. record {
          skip_holders = λ x w. skip_to_holders fuel enters skips v x w (omega arith);
          skip_members = λ x w. skip_to_members fuel enters skips v x w (omega arith);
        },
      )

  -- one round, of a symbol that the update concerns itself
  round_lem :
      (fuel x : ℕ) (w : Walk)
      → count + count + 3 ≤ fuel
      → elem x w.seen ≡ true
      → Ends st py updated count named (pass_on fuel st py updated to_deps true x w) [] w (λ w'.
        (should_mark st updated x ≡ true → IsMarked st py updated w'.seen w'.store x)
        × ((y : ℕ) → elem y (dependents st updated x) ≡ true → elem y w'.seen ≡ true))
  unfolding pass_on
  round_lem zero x w h saw = absurd (omega arith)
  round_lem (suc fuel) x w h saw =
      let again = Spreads-see (waits st py updated) [] x w saw in
      let (enters, skips) = passes_lem fuel in
      let (w', ran, s, found) =
        pass_to_deps_lem st py updated count named (pass_on fuel st py updated) count x (see x w)
          (enters count (omega arith)) (skips count (omega arith)) (again.grows x saw)
          (unseen-le count (see x w).seen) in
      (w', ran, Spreads-trans (waits st py updated) [] w (see x w) w' again s, found)

-- the last loop of an update, over symbols that are seen
pub pass_all_lem :
    (st : Store) (py : Python) (updated count : ℕ)
    → IsNamed st count
    → (fuel : ℕ) → count + count + 3 ≤ fuel
    → (rs : List ℕ) → (w : Walk) → ((r : ℕ) → elem r rs ≡ true → elem r w.seen ≡ true)
    → (w' : Walk) × (for_each (pass_on fuel st py updated to_deps true) rs w ≡ some w')
      × Spreads (waits st py updated) [] w w'
      × ((r : ℕ)
          → elem r rs ≡ true
          → (should_mark st updated r ≡ true → IsMarked st py updated w'.seen w'.store r)
            × ((y : ℕ) → elem y (dependents st updated r) ≡ true → elem y w'.seen ≡ true))
pass_all_lem st py updated count named fuel h rs w saw =
    let (w', ran, s, found) =
      for_each-Spreads (waits st py updated) []
        (λ v. (r : ℕ) → elem r rs ≡ true → elem r v.seen ≡ true)
        (λ r v.
          (should_mark st updated r ≡ true → IsMarked st py updated v.seen v.store r)
          × ((y : ℕ) → elem y (dependents st updated r) ≡ true → elem y v.seen ≡ true))
        (pass_on fuel st py updated to_deps true) (λ a b s p r m. s.grows r (p r m))
        (λ r a b s p. (λ m. s.keeps (marked r) (p.0 m), λ y d. s.grows y (p.1 y d))) rs
        (λ r v m p. round_lem st py updated count named fuel r v h (p r m)) w saw in
    (w', ran, s, found)

-- what that loop means for each symbol, in the words of the code
pub pass_on_found :
    (st : Store) (py : Python) (updated count fuel : ℕ)
    → IsNamed st count
    → count + count + 3 ≤ fuel
    → (rs : List ℕ) → (w : Walk) → ((r : ℕ) → elem r rs ≡ true → elem r w.seen ≡ true)
    → (w' : Walk) × (for_each (pass_on fuel st py updated to_deps true) rs w ≡ some w')
      × SameBones w.store w'.store
      × ((x : ℕ) → (elem x w.seen && not (elem x w'.seen)) ≡ false)
      × ((x y : ℕ)
          → (elem x w'.seen
              && ((elem x rs || not (elem x w.seen))
                  && (elem y (dependents st updated x) && not (elem y w'.seen))))
            ≡ false)
      × ((x : ℕ)
          → ((elem x w'.seen && ((elem x rs || not (elem x w.seen)) && should_mark st updated x))
              ≡ false)
            ⊎ IsMarked st py updated w'.seen w'.store x)
pass_on_found st py updated count fuel named h rs w saw =
    let (w', ran, s, found) = pass_all_lem st py updated count named fuel h rs w saw in
    (
      w',
      ran,
      s.same,
      λ x. ground (arith, s.grows x),
      λ x y. elim (Bool-cases (elem x rs)) [
        | inl r ↦ ground (arith, (found x r).1 y)
        | inr n ↦ ground (arith, s.closed x y, elem-nil x)
      ],
      λ x.
          elim (Bool-cases
            (elem x w'.seen && ((elem x rs || not (elem x w.seen)) && should_mark st updated x))) [
              | inr n ↦ inl n
              | inl y ↦ inr (elim (Bool-cases (elem x rs)) [
                | inl r ↦ (found x r).0 (ground arith)
                | inr n ↦ s.marked x (ground arith) (ground arith) (ground arith)
              ])
            ],
    )

-- With fuel for two calls for each symbol and three more, the last loop of an update, over symbols that
-- are seen, returns, and it keeps names and tables and forgets no symbol. Of the symbols of the loop,
-- and of those that are first seen in it, all that were computed from one are seen, but for the
-- instances of a class that is not itself the updated symbol. Each of them that was not updated, in
-- the cell or by the statement, that has no warnings disabled and is not the updated one must be
-- updated from now on, with its members seen, or a namespace of its object waits for a member; and
-- where it is in the namespace of an object that is no module, that one waits for it, and the symbols
-- of the object are seen.
pub pass_on_closed :
    (st : Store) (py : Python) (updated count fuel : ℕ)
    → IsNamed st count
    → count + count + 3 ≤ fuel
    → (rs : List ℕ) → (w : Walk) → ((r : ℕ) → elem r rs ≡ true → elem r w.seen ≡ true)
    → (w' : Walk) × (for_each (pass_on fuel st py updated to_deps true) rs w ≡ some w')
      × SameBones w.store w'.store
      × ((x : ℕ) → (elem x w.seen && not (elem x w'.seen)) ≡ false)
      × ((x y : ℕ)
          → (elem x w'.seen
              && ((elem x rs || not (elem x w.seen))
                  && (follows st updated x y && not (elem y w'.seen))))
            ≡ false)
      × ((x : ℕ)
          → ((elem x w'.seen && ((elem x rs || not (elem x w.seen)) && must_wait st updated x))
              ≡ false)
            ⊎ MustUpdate st py w'.seen w'.store x)
pass_on_closed st py updated count fuel named h rs w saw =
    let (w', ran, same, grows, reaches, marks) =
      pass_on_found st py updated count fuel named h rs w saw in
    (
      w',
      ran,
      same,
      grows,
      λ x y. ground (arith, reaches x y, elem-dependents st updated x y),
      λ x. elim (marks x) [
        | inl n ↦ inl (ground (arith, n, must_wait_lem st updated x))
        | inr m ↦ inr (IsMarked-MustUpdate st py updated w'.seen w'.store x m)
      ],
    )
