-- ===== src/Symbols/Protocol.antt =====
-- The whole update protocol of core/ipyflow/data_model/utils/update_protocol.py: after it, all that was
-- computed from what the update concerns knows that it waits.
use ipyflow.Base.{
  ℕ, suc, ◌+◌, ◌≤◌, ◌<◌, ◌≡◌, refl, sym, ap, ◌∙◌, Option-cases, Bool, true, false, some, List, elem,
  elem-union, union, minus_one, inl, inr, ◌⊎◌, not, ◌&&◌, ◌||◌, if◌then◌else◌, arith,
}
use ipyflow.Timestamp.Clock.{current}
use ipyflow.Symbols.{Python, Store}
use ipyflow.Symbols.Spaces.{containing_namespace, owners, namespace, aliases_of, symbols_in}
use ipyflow.Symbols.Refresh.{Walk}
use ipyflow.Symbols.Propagate.{
  from_class, dependents, should_mark, directly_updated, refresh_others, update_protocol,
}
use ipyflow.Symbols.Skeleton.{
  SameBones, SameBones-trans, owners_same, dependents_same, all_symbols_same, namespace_same,
  containing_namespace_same, symbols_in_same,
}
use ipyflow.Symbols.Named.{IsNamed, SameBones-IsNamed}
use ipyflow.Symbols.Facts.{members, IsTold, IsMarked}
use ipyflow.Symbols.Meaning.{
  is_imported, leads_to, follows, must_wait, MustUpdate, must_wait_lem, elem-dependents,
  IsMarked-MustUpdate,
}
use ipyflow.Symbols.Gathered.{collect_lem}
use ipyflow.Symbols.Others.{refresh_others_lem}
use ipyflow.Symbols.Rounds.{pass_on_found}

-- the store after the statement's updates are noted
abbrev pub note_updated : List ℕ → Store → Store
note_updated found st = record st {
  this_stmt_updated_symbols = union found st.this_stmt_updated_symbols;
}

note_updated-SameBones :
    (found : List ℕ) (a b : Store)
    → SameBones a b
    → SameBones (note_updated found a) (note_updated found b)
note_updated-SameBones found a b same g = ap (λ (z : Store). note_updated found z) (same g)

note_updated-IsNamed :
    (found : List ℕ) (st : Store) (count : ℕ)
    → IsNamed st count
    → IsNamed (note_updated found st) count
unfolding dependents from_class namespace owners aliases_of symbols_in
note_updated-IsNamed found st count named = record {
  children = named.children;
  holders = named.holders;
  members = λ flag sp y m.
      named.members flag sp y
        (rw (all_symbols_same st (note_updated found st) (λ r. refl) (suc sp) flag sp) at m);
}

-- Marks are read in the tables, which stay.
module _ (a b : Store) (py : Python) (updated : ℕ)
    (namespaces : (x : ℕ) → namespace b x ≡ namespace a x)
    (scopes : (x : ℕ) → containing_namespace b x ≡ containing_namespace a x)
    (owned : (sp : ℕ) → owners b sp ≡ owners a sp)
    (entered : (sp : ℕ) → symbols_in b true sp ≡ symbols_in a true sp)
    (objects : (sp : ℕ) → (b.space sp).obj ≡ (a.space sp).obj)
    (time : current b.clock ≡ current a.clock) where
  members_same : (x : ℕ) → members b py updated x ≡ members a py updated x
  members_same x = elim (Option-cases (namespace a x)) [
    | inl e ↦ rw (members, namespaces x, e) refl
    | inr (sp, e) ↦ rw (members, namespaces x, e) (entered sp)
  ]

  IsTold-same :
      (seen : List ℕ) (now : Store) (x : ℕ)
      → IsTold b py updated seen now x
      → IsTold a py updated seen now x
  IsTold-same seen now x t = elim (Option-cases (containing_namespace a x)) [
    | inl e ↦ rw (IsTold, e) tt
    | inr (sp, e) ↦
        rw (IsTold, e)
          (elim (rw (IsTold, scopes x, e) at t) [
            | inl m ↦ inl (ap py.is_module (sym (objects sp)) ∙ m)
            | inr (k, all) ↦ inr (k, λ r. ground (arith, all r, ap (elem r) (owned sp)))
          ])
  ]

  IsMarked-tables :
      (seen : List ℕ) (now : Store) (x : ℕ)
      → IsMarked b py updated seen now x
      → IsMarked a py updated seen now x
  IsMarked-tables seen now x (inl (late, all), t) = (
    inl (late ∙ time, λ y. ground (arith, all y, ap (elem y) (members_same x))),
    IsTold-same seen now x t,
  )
  IsMarked-tables seen now x (inr (sp, s, owns, m), t) =
      (inr (sp, s, rw (owned sp) at owns, m), IsTold-same seen now x t)

IsMarked-same :
    (a b : Store) (py : Python) (updated : ℕ) (seen : List ℕ) (now : Store) (x : ℕ)
    → SameBones a b
    → IsMarked b py updated seen now x
    → IsMarked a py updated seen now x
IsMarked-same a b py updated seen now x same =
    IsMarked-tables a b py updated (namespace_same a b same) (containing_namespace_same a b same)
      (owners_same a b same) (symbols_in_same a b same true)
      (λ sp. ap (λ z. (z.space sp).obj) (same a.registry))
      (ap (λ z. current z.clock) (same a.registry)) seen now x

should_mark_same :
    (a b : Store) (updated x : ℕ)
    → SameBones a b
    → should_mark b updated x ≡ should_mark a updated x
unfolding should_mark
should_mark_same a b updated x same = ap (λ z. should_mark z updated x) (same a.registry)

-- the symbols that others should mark, once the symbols of `found` are noted
should_mark-note_updated :
    (found : List ℕ) (st : Store) (updated x : ℕ)
    → should_mark (note_updated found st) updated x
      ≡ (not (elem x found) && should_mark st updated x)
unfolding should_mark
should_mark-note_updated found st updated x =
    ground (arith, elem-union x found st.this_stmt_updated_symbols)

dependents-note_updated :
    (found : List ℕ) (st : Store) (u x : ℕ)
    → dependents (note_updated found st) u x ≡ dependents st u x
unfolding dependents from_class namespace
dependents-note_updated found st u x = refl

IsMarked-note_updated :
    (found : List ℕ) (st : Store) (py : Python) (updated : ℕ) (seen : List ℕ) (now : Store) (x : ℕ)
    → IsMarked (note_updated found st) py updated seen now x
    → IsMarked st py updated seen now x
unfolding owners aliases_of namespace containing_namespace symbols_in
IsMarked-note_updated found st py updated seen now x =
    IsMarked-tables st (note_updated found st) py updated (λ y. refl) (λ y. refl) (λ sp. refl)
      (λ sp. all_symbols_same st (note_updated found st) (λ r. refl) (suc sp) true sp) (λ sp. refl)
      refl seen now x

-- the refreshing of the others, where there is one
refresh_if_lem :
    (a : Store) (py : Python) (fuel updated : ℕ) (direct : List ℕ) (b : Bool) (st : Store)
    → IsNamed a a.next_symbol
    → a.min_timestamp ≡ minus_one
    → ((r : ℕ) → elem r direct ≡ true → r < a.next_symbol)
    → SameBones a st
    → (st' : Store) × ((if b then refresh_others (suc fuel) py updated direct st else some st)
        ≡ some st')
      × SameBones a st'
refresh_if_lem a py fuel updated direct false st named least small same = (st, refl, same)
refresh_if_lem a py fuel updated direct true st named least small same =
    let (st', ran, kept) = refresh_others_lem a named least py fuel updated direct st same small in
    (st', ran, SameBones-trans a st st' same kept)

-- An update finds what it concerns directly without a `KeyError`, the symbols named in the store
-- and found so exist, its recursion has fuel for two calls for each symbol and three more, and the
-- minimal timestamp is what it is at first. Then it returns. It finds the symbols that it concerns
-- directly, but for imported ones, and with each that it finds those of the object that holds it,
-- where it is not a module and is in a namespace, and where the update descends its members. Of the
-- symbols that it saw in the end, each that it found or that is no new dependency has all that was
-- computed from it seen too, but for the instances of a class that is not itself the updated
-- symbol. Each that is no new dependency, was not found, was not updated in the cell or by the
-- statement, has no warnings disabled and is not the updated one must be updated from now on, with
-- its members seen, or a namespace of its object waits for a member; and where it is in the
-- namespace of an object that is no module, that one waits for it, and the symbols of the object
-- are seen.
pub update_protocol_lem :
    (fuel fuel' : ℕ) (py : Python) (duped : List ℕ) (self : ℕ) (new_deps : List ℕ)
    → (mutated descend refreshes : Bool) → (st₀ st : Store) → (direct : List ℕ)
    → directly_updated mutated duped self st₀ ≡ some (direct, st)
    → IsNamed st st.next_symbol
    → ((r : ℕ) → elem r direct ≡ true → r < st.next_symbol)
    → st.min_timestamp ≡ minus_one
    → st.next_symbol + st.next_symbol + 3 ≤ fuel
    → (found : List ℕ) × (w : Walk) × (update_protocol fuel
          (suc fuel')
          py
          duped
          self
          new_deps
          mutated
          descend
          refreshes
          st₀
        ≡ some w)
      × SameBones (note_updated found st) w.store
      × ((r : ℕ) → (elem r direct && (not (is_imported st r) && not (elem r found))) ≡ false)
      × ((x y : ℕ)
          → (elem x found
              && (leads_to st descend x y && (not (is_imported st y) && not (elem y found))))
            ≡ false)
      × ((x y : ℕ)
          → (elem x w.seen
              && ((elem x found || not (elem x new_deps))
                  && (follows st self x y && not (elem y w.seen))))
            ≡ false)
      × ((x : ℕ)
          → ((elem x w.seen
                && (not (elem x new_deps) && (not (elem x found) && must_wait st self x)))
              ≡ false)
            ⊎ MustUpdate st py w.seen w.store x)
unfolding update_protocol
update_protocol_lem fuel fuel' py duped self new_deps mutated descend refreshes st₀ st direct d
      named small least h =
    let (v, ran, same, all_found, closed, _) =
      collect_lem st descend st.next_symbol fuel named (omega arith) direct small in
    let found = v.seen in
    let base = note_updated found st in
    let noted = note_updated found v.store in
    let bones : SameBones base noted = note_updated-SameBones found st v.store same in
    let named' = note_updated-IsNamed found st st.next_symbol named in
    let (st', refreshed, kept) =
      refresh_if_lem base py fuel' self direct refreshes noted named' least small bones in
    let (w, passed, same', grows, reaches, marks) =
      pass_on_found st' py self st.next_symbol fuel
        (SameBones-IsNamed base st' st.next_symbol kept named') h found
        (record { seen = union new_deps found; store = st' })
        (λ r m. ground (arith, elem-union r new_deps found)) in
    (
      found,
      w,
      rw (d, ran, refreshed) passed,
      SameBones-trans base st' w.store kept same',
      all_found,
      closed,
      λ x y. ground (
        arith,
        reaches x y,
        elem-union x new_deps found,
        elem-dependents st self x y,
        ap (elem y)
            (dependents_same base st' kept self x ∙ dependents-note_updated found st self x),
      ),
      λ x. elim (marks x) [
        | inr m ↦ inr (
            IsMarked-MustUpdate st py self w.seen w.store x (
              IsMarked-note_updated found st py self w.seen w.store x
                (IsMarked-same base st' py self w.seen w.store x kept m)))
        | inl n ↦ inl (
            ground (
              arith,
              elem-union x new_deps found,
              n,
              must_wait_lem st self x,
              should_mark_same base st' self x kept,
              should_mark-note_updated found st self x,
            ))
      ],
    )
