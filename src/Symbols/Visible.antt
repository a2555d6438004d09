-- ===== src/Symbols/Visible.antt =====
-- `Symbol.visible_timestamp` (core/ipyflow/data_model/symbol.py) is the latest update in a visible cell.
use ipyflow.Base.{
  ℕ, ◌≡◌, refl, sym, ap, subst, ◌∙◌, Bool, true, false, none, some, [], ◌∷◌, ◌&&◌, ◌||◌, Bool-cases,
  Option-cases, inl, inr, arith,
}
use mathlib.Core.Option.{some-injective}
use ipyflow.Timestamp.{Timestamp, eq, lt}
use ipyflow.Timestamp.Order.{eq_iff, lt_irrefl, lt_asymm, le_trans}
use ipyflow.Config.Contexts.{MutableDataflowSettings}
use ipyflow.Cells.{Registry}
use ipyflow.Cells.Lookup.{at_timestamp}
use ipyflow.Symbols.{Store, Times, has_time}
use ipyflow.Symbols.Times.{
  insert_time, latest_first, first_visible, visible_timestamp, updated_timestamps, is_visible,
}

has_time-cons :
    (u t : Timestamp) (ts : Times) → has_time u (t ∷ ts) ≡ (eq u (some t) || has_time u ts)
unfolding has_time
has_time-cons u t ts = elim (Bool-cases (eq u (some t))) [
  | inl y ↦ rw (has_time, y) refl
  | inr n ↦ rw (has_time, n) refl
]

has_time-insert_time :
    (u t : Timestamp) (ts : Times)
    → has_time u (insert_time t ts) ≡ (eq u (some t) || has_time u ts)
unfolding insert_time
has_time-insert_time u t [] = has_time-cons u t []
has_time-insert_time u t (v ∷ ts) = elim (Bool-cases (lt t v)) [
  | inl y ↦ rw y (
      ground (
        arith,
        has_time-cons u v (insert_time t ts),
        has_time-insert_time u t ts,
        has_time-cons u v ts,
      ))
  | inr n ↦ rw n (has_time-cons u t (v ∷ ts))
]

-- no time is before a later one
IsDescending : Times → Type 0
IsDescending [] = Unit
IsDescending (t ∷ ts) = ((u : Timestamp) → (has_time u ts && lt t u) ≡ false) × IsDescending ts

insert_time-IsDescending :
    (t : Timestamp) (ts : Times) → IsDescending ts → IsDescending (insert_time t ts)
unfolding insert_time IsDescending has_time
insert_time-IsDescending t [] d = (λ u. refl, tt)
insert_time-IsDescending t (v ∷ ts) (first, rest) = elim (Bool-cases (lt t v)) [
  | inl y ↦ rw y (
    λ u. ground (
      arith,
      has_time-insert_time u t ts,
      first u,
      lt_asymm t v y,
      λ (e : u ≡ t). ap (lt v) e,
      (eq_iff u t).0,
    ),
    insert_time-IsDescending t ts rest,
  )
  | inr n ↦ rw n (
    λ u. ground (
      arith,
      has_time-cons u v ts,
      first u,
      le_trans u v t,
      n,
      λ (e : u ≡ v). ap (lt t) e,
      (eq_iff u v).0,
    ),
    (first, rest),
  )
]

latest_first-IsDescending : (ts : Times) → IsDescending (latest_first ts)
unfolding latest_first IsDescending
latest_first-IsDescending [] = tt
latest_first-IsDescending (t ∷ ts) =
    insert_time-IsDescending t (latest_first ts) (latest_first-IsDescending ts)

has_time-latest_first : (u : Timestamp) (ts : Times) → has_time u (latest_first ts) ≡ has_time u ts
unfolding latest_first
has_time-latest_first u [] = refl
has_time-latest_first u (t ∷ ts) =
    has_time-insert_time u t (latest_first ts)
    ∙ ap (λ b. eq u (some t) || b) (has_time-latest_first u ts)
    ∙ sym (has_time-cons u t ts)

-- whether the time is one of a visible cell
abbrev pub shows : MutableDataflowSettings → Registry → Timestamp → Bool
shows settings g t = elim (at_timestamp g t) [
  | none ↦ false
  | some cell ↦ is_visible settings g cell
]

-- the first of a descending list that shows
first_visible_lem :
    (settings : MutableDataflowSettings) (g : Registry) (ts : Times) (t : Timestamp)
    → IsDescending ts
    → first_visible settings g ts ≡ some (some t)
    → (has_time t ts ≡ true)
      × (shows settings g t ≡ true)
      × ((u : Timestamp) → (has_time u ts && (lt t u && shows settings g u)) ≡ false)
unfolding first_visible IsDescending
first_visible_lem settings g [] t d h = absurd (ground (arith, some-injective _ _ h))
first_visible_lem settings g (v ∷ ts) t (first, rest) h = elim (Option-cases (at_timestamp g v)) [
  | inl none' ↦ absurd (ground (arith, rw none' at h))
  | inr (cell, found) ↦ elim (Bool-cases (is_visible settings g cell)) [
    | inl y ↦
        let same : v ≡ t = some-injective _ _ (some-injective _ _ (rw (found, y) at h)) in
        subst
          (λ z.
            (has_time z (v ∷ ts) ≡ true)
            × (shows settings g z ≡ true)
            × ((u : Timestamp) → (has_time u (v ∷ ts) && (lt z u && shows settings g u)) ≡ false))
          same
          (
            ground (arith, has_time-cons v v ts, (eq_iff v v).1 refl),
            rw (shows, found) y,
            λ u. ground (
              arith,
              has_time-cons u v ts,
              first u,
              lt_irrefl v,
              λ (e : u ≡ v). ap (lt v) e,
              (eq_iff u v).0,
            ),
          )
    | inr n ↦
        let hidden : shows settings g v ≡ false = rw (shows, found) n in
        let (there, seen, latest) = first_visible_lem settings g ts t rest (rw (found, n) at h) in
        (
          ground (arith, has_time-cons t v ts, there),
          seen,
          λ u. ground (
            arith,
            has_time-cons u v ts,
            latest u,
            hidden,
            λ (e : u ≡ v). ap (shows settings g) e,
            (eq_iff u v).0,
          ),
        )
  ]
]

-- A visible time that is found for a symbol is the time of one of its updates, its cell is visible, and no later update of the symbol is in a visible cell.
pub visible_timestamp_lem :
    (st : Store) (self : ℕ) (t : Timestamp)
    → visible_timestamp st self ≡ some (some t)
    → (has_time t (updated_timestamps st self) ≡ true)
      × (shows st.settings st.registry t ≡ true)
      × ((u : Timestamp)
          → (has_time u (updated_timestamps st self) && (lt t u && shows st.settings st.registry u))
            ≡ false)
unfolding visible_timestamp
visible_timestamp_lem st self t h =
    let times = updated_timestamps st self in
    let (there, seen, latest) =
      first_visible_lem st.settings st.registry (latest_first times) t
        (latest_first-IsDescending times) h in
    (
      sym (has_time-latest_first t times) ∙ there,
      seen,
      λ u.
          ap (λ b. b && (lt t u && shows st.settings st.registry u))
            (sym (has_time-latest_first u times))
          ∙ latest u,
    )
