-- ===== src/Symbols/Renew.antt =====
-- `_take_timestamp_snapshots` (core/ipyflow/data_model/symbol.py) returns, and the parts of
-- `Symbol.refresh` that leave times alone.
use ipyflow.Base.{
  ℕ, zero, suc, ◌≤◌, ◌<◌, ◌≡◌, refl, ap, ◌∙◌, Bool, false, some, [], ◌∷◌, elem, elem-nil,
  Bool-cases, Option-cases, inl, inr, arith,
}
use ipyflow.Timestamp.{Timestamp}
use ipyflow.Slicing.Reach.{unseen, unseen-cons, unseen-grows}
use ipyflow.Symbols.{Store, write_symbol}
use ipyflow.Symbols.Spaces.{namespace, containing_namespace, owners}
use ipyflow.Symbols.Refresh.{
  Walk, see, snapshot, take_snapshots, set_temp_warnings, count_live, tell_holder, clear_waiting,
}
use ipyflow.Symbols.Skeleton.{
  SameBones, SameBones-trans, write_symbol-SameBones, write_space-SameBones, owners_same,
  containing_namespace_same,
}
use ipyflow.Symbols.Spread.{Marks, Spreads, Spreads-same, Spreads-trans, Spreads-enter}
use ipyflow.Symbols.Named.{IsNamed}
use ipyflow.Symbols.Loops.{for_each-Spreads}

-- `b` differs from `a` in times, marks, flags and cells, and the times of symbols are the same.
pub record Alike (a b : Store) : Type 0 where
  pub bones : SameBones a b
  pub times : (x : ℕ) → (b.symbol x).own_timestamp ≡ (a.symbol x).own_timestamp

pub Alike-trans : (a b c : Store) → Alike a b → Alike b c → Alike a c
Alike-trans a b c p q = record {
  bones = SameBones-trans a b c p.bones q.bones;
  times = λ x. q.times x ∙ p.times x;
}

snapshot-Alike : (ubound : Timestamp) (self : ℕ) (st : Store) → Alike st (snapshot ubound self st)
unfolding snapshot write_symbol
snapshot-Alike ubound self st = record {
  bones = write_symbol-SameBones st self _ refl;
  times = λ x. ground (arith, λ (e : x ≡ self). ap (λ z. (st.symbol z).own_timestamp) e);
}

pub set_temp_warnings-Alike :
    (off : Bool) (self : ℕ) (st : Store) → Alike st (set_temp_warnings off self st)
unfolding set_temp_warnings write_symbol
set_temp_warnings-Alike off self st = record {
  bones = write_symbol-SameBones st self _ refl;
  times = λ x. ground (arith, λ (e : x ≡ self). ap (λ z. (st.symbol z).own_timestamp) e);
}

pub count_live-Alike : (now : Timestamp) (self : ℕ) (st : Store) → Alike st (count_live now self st)
unfolding count_live
count_live-Alike now self st = record { bones = λ g. refl; times = λ x. refl }

pub tell_holder-Alike :
    (now : Timestamp) (self : ℕ) (st : Store) → Alike st (tell_holder now self st)
unfolding tell_holder
tell_holder-Alike now self st = elim (Option-cases (containing_namespace st self)) [
  | inl e ↦ rw (tell_holder, e) (record { bones = λ g. refl; times = λ x. refl })
  | inr (sp, e) ↦
      rw (tell_holder, e)
        (record { bones = λ g. write_space-SameBones st sp _ refl g; times = λ x. refl })
]

pub clear_waiting-Alike : (self : ℕ) (st : Store) → Alike st (clear_waiting self st)
unfolding clear_waiting
clear_waiting-Alike self st = elim (Option-cases (namespace st self)) [
  | inl e ↦ rw (clear_waiting, e) (record { bones = λ g. refl; times = λ x. refl })
  | inr (sp, e) ↦
      rw (clear_waiting, e)
        (record { bones = write_space-SameBones st sp _ refl; times = λ x. refl })
]

-- for a recursion that leaves times as they are
abbrev pub keeps_times : Store → Marks
keeps_times start = record {
  facts = ℕ;
  widens = λ x s t more st k. k;
  mark_of = λ x. x;
  is_kept = λ x seen st. (st.symbol x).own_timestamp ≡ (start.symbol x).own_timestamp;
  should = λ x. false;
  deps = λ x. [];
}

module _ (a : Store) (count : ℕ) (named : IsNamed a count) (ubound : Timestamp) where
  abbrev pub Takes : ℕ → Type 0
  Takes fuel =
      (x : ℕ) (w : Walk)
      → x < count
      → SameBones a w.store
      → unseen count w.seen ≤ fuel
      → (w' : Walk) × (take_snapshots fuel ubound x w ≡ some w') × Spreads (keeps_times a) [] w w'

  snapshot-Spreads :
      (x : ℕ) (w : Walk)
      → Spreads
          (keeps_times a)
          []
          (see x w)
          (record { seen = x ∷ w.seen; store = snapshot ubound x w.store })
  unfolding see
  snapshot-Spreads x w =
      let same = snapshot-Alike ubound x w.store in
      Spreads-same (keeps_times a) [] (see x w) _ same.bones (λ y. refl) (λ y m. same.times y ∙ m)

  pub take_snapshots_lem : (fuel : ℕ) → Takes fuel
  unfolding take_snapshots see
  take_snapshots_lem zero x w small bones room = elim (Bool-cases (elem x w.seen)) [
    | inl old ↦
        (w, rw old refl, Spreads-same (keeps_times a) [] w w (λ g. refl) (λ y. refl) (λ y m. m))
    | inr new ↦ absurd (omega (arith, unseen-cons count x w.seen small new))
  ]
  take_snapshots_lem (suc fuel) x w small bones room = elim (Bool-cases (elem x w.seen)) [
    | inl old ↦
        (w, rw old refl, Spreads-same (keeps_times a) [] w w (λ g. refl) (λ y. refl) (λ y m. m))
    | inr new ↦
        let st = snapshot ubound x w.store in
        let v : Walk = record { seen = x ∷ w.seen; store = st } in
        let s₀ = snapshot-Spreads x w in
        let same = SameBones-trans a w.store st bones s₀.same in
        let enter : (w' : Walk)
            → Spreads (keeps_times a) [] v w'
            → Spreads (keeps_times a) [] w w' =
          λ w' s.
            Spreads-enter (keeps_times a) [] x w w'
              (Spreads-trans (keeps_times a) [] (see x w) v w' s₀ s) (λ y. absurd (ground arith))
              (λ y _ m. absurd (ground (arith, elem-nil y))) in
        elim (Option-cases (containing_namespace a x)) [
          | inl e ↦ (
            v,
            rw (new, containing_namespace_same a st same x, e) refl,
            enter v (Spreads-same (keeps_times a) [] v v (λ g. refl) (λ y. refl) (λ y m. m)),
          )
          | inr (sp, e) ↦
              let (w', ran, s, _) =
                for_each-Spreads (keeps_times a) []
                  (λ z. SameBones a z.store × (unseen count z.seen ≤ fuel)) (λ r z. Unit)
                  (take_snapshots fuel ubound)
                  (λ y z s p. (
                    SameBones-trans a y.store z.store p.0 s.same,
                    omega (arith, unseen-grows count y.seen z.seen s.grows, p.1),
                  ))
                  (λ r y z s p. tt) (owners a sp)
                  (λ r z m p.
                    let (z', ran, s) = take_snapshots_lem fuel r z (named.holders sp r m) p.0 p.1 in
                    (z', ran, s, tt))
                  v (same, omega (arith, unseen-cons count x w.seen small new)) in
              (
                w',
                rw (new, containing_namespace_same a st same x, e, owners_same a st same sp) ran,
                enter w' s,
              )
        ]
  ]
