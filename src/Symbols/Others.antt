-- ===== src/Symbols/Others.antt =====
-- The refreshing of the other symbols of an update
-- (core/ipyflow/data_model/utils/update_protocol.py), while `min_timestamp` is what it is at first.
use ipyflow.Base.{
  ℕ, suc, ◌<◌, ◌≡◌, refl, subst, ap, ◌∙◌, true, false, some, List, [], ◌∷◌, minus_one, elem,
  elem-cons, is_empty, not, sym, ◌&&◌, inl, inr, Bool-cases, ◌==◌, ◌||◌, if◌then◌else◌, arith,
}
use ipyflow.Cells.Lookup.{◌>>=◌}
use ipyflow.Cells.Partial.{bind_assoc}
use ipyflow.Symbols.{Python, Store}
use ipyflow.Symbols.Refresh.{refresh}
use ipyflow.Symbols.Waiting.{is_waiting, warnings_off, is_behind, waiting_members}
use ipyflow.Symbols.Propagate.{refresh_others}
use ipyflow.Symbols.Skeleton.{SameBones, SameBones-trans}
use ipyflow.Symbols.Named.{IsNamed, SameBones-IsNamed}
use ipyflow.Symbols.Renewal.{refresh_bones}

-- Without a minimal timestamp, no member is asked.
pub is_waiting_lem :
    (fuel : ℕ) (st : Store) (self : ℕ)
    → st.min_timestamp ≡ minus_one
    → is_waiting (suc fuel) st self
      ≡ some (
          not (warnings_off st self)
          && (is_behind st self || not (is_empty (waiting_members st self))))
unfolding is_waiting
is_waiting_lem fuel st self least = elim (Bool-cases (warnings_off st self)) [
  | inl off ↦ rw off refl
  | inr on ↦ elim (Bool-cases (is_behind st self)) [
    | inl late ↦ rw (on, late) refl
    | inr up ↦ rw (on, up, least) refl
  ]
]

module _ (a : Store) (named : IsNamed a a.next_symbol) (least : a.min_timestamp ≡ minus_one)
    (py : Python) (fuel updated : ℕ) where
  one_lem :
      (r : ℕ) (st : Store)
      → SameBones a st
      → r < a.next_symbol
      → (st' : Store) × ((is_waiting (suc fuel) st r >>= λ waits.
            if waits || r == updated then some st else refresh py false r st)
          ≡ some st')
        × SameBones st st'
  one_lem r st bones small =
      let count : st.next_symbol ≡ a.next_symbol = ap (λ z. z.next_symbol) (bones a.registry) in
      let named' =
        subst (IsNamed st) (sym count) (SameBones-IsNamed a st a.next_symbol bones named) in
      let waits = is_waiting_lem fuel st r (ap (λ z. z.min_timestamp) (bones a.registry) ∙ least) in
      let off =
        not (warnings_off st r) && (is_behind st r || not (is_empty (waiting_members st r))) in
      elim (Bool-cases (off || r == updated)) [
        | inl yes' ↦ (st, rw (waits, yes') refl, λ g. refl)
        | inr no' ↦
            let (st', ran, same) = refresh_bones st py false r named' (rw count small) in
            (st', rw (waits, no') ran, same)
      ]

  pub refresh_others_lem :
      (rs : List ℕ) (st : Store)
      → SameBones a st
      → ((r : ℕ) → elem r rs ≡ true → r < a.next_symbol)
      → (st' : Store) × (refresh_others (suc fuel) py updated rs st ≡ some st') × SameBones st st'
  unfolding refresh_others
  refresh_others_lem [] st bones small = (st, refl, λ g. refl)
  refresh_others_lem (r ∷ rs) st bones small =
      let (st₁, ran, same) = one_lem r st bones (small r (ground (arith, elem-cons r r rs))) in
      let (st₂, rest, same₂) =
        refresh_others_lem rs st₁ (SameBones-trans a st st₁ bones same)
          (λ q m. small q (ground (arith, elem-cons q r rs))) in
      (
        st₂,
        bind_assoc (is_waiting (suc fuel) st r) _ (refresh_others (suc fuel) py updated rs)
            ∙ rw ran rest,
        SameBones-trans st st₁ st₂ same same₂,
      )
