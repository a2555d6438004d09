-- ===== src/Symbols/Times.antt =====
-- The timestamps of symbols (core/ipyflow/data_model/symbol.py).
use ipyflow.Base.{
  ℕ, zero, suc, Bool, true, false, Option, none, some, List, [], ◌∷◌, ℤ, elem, ◌||◌, max_ℤ,
  if◌then◌else◌,
}
use ipyflow.Timestamp.{Timestamp, is_initialized, lt}
use ipyflow.Cells.Lookup.{at_timestamp, ◌>>=◌}
use ipyflow.Cells.Positions.{position}
use ipyflow.Cells.{Registry, Position, at}
use ipyflow.Config.Contexts.{MutableDataflowSettings}
use ipyflow.Config.Modes.{Interface, ipython, unknown}
use ipyflow.Symbols.{Store, Times, add_time}
use ipyflow.Symbols.Spaces.{containing_namespace, namespace, owners, is_import_type, is_module_type}

-- max(a, b)
unfoldable pub later : Timestamp → Timestamp → Timestamp
unfolding lt
later a b = if lt a b then b else a

unfoldable pub first_unseen : List ℕ → List ℕ → Option ℕ
unfolding elem
first_unseen seen [] = none
first_unseen seen (r ∷ rs) = if elem r seen then first_unseen seen rs else some r

-- `_get_initialized_timestamp`: the symbol's own time or, where it has none, what the first symbol
-- that holds it and is not yet seen says.
unfoldable pub initialized_from : ℕ → Store → List ℕ → ℕ → Timestamp
unfolding is_initialized containing_namespace owners first_unseen
initialized_from zero st seen self = (st.symbol self).own_timestamp
initialized_from (suc fuel) st seen self =
    let ts = (st.symbol self).own_timestamp in
    if is_initialized ts then ts else elim (containing_namespace st self) [
      | none ↦ ts
      | some sp ↦ elim (first_unseen (self ∷ seen) (owners st sp)) [
        | none ↦ ts
        | some holder ↦ initialized_from fuel st (self ∷ seen) holder
      ]
    ]

-- Every step sees another symbol, so that their number is fuel.
unfoldable pub initialized_timestamp : Store → ℕ → Timestamp
unfolding initialized_from
initialized_timestamp st self = initialized_from st.next_symbol st [] self

unfoldable pub shallow_timestamp : Store → ℕ → Timestamp
unfolding initialized_timestamp later
shallow_timestamp st self = elim (st.symbol self).override_timestamp [
  | none ↦ initialized_timestamp st self
  | some ts ↦ later (initialized_timestamp st self) ts
]

-- the property `timestamp`, which also counts updates to members
unfoldable pub timestamp : Store → ℕ → Timestamp
unfolding shallow_timestamp namespace later
timestamp st self =
    let s = st.symbol self in
    let ts = shallow_timestamp st self in
    if is_import_type s.symbol_type || is_module_type s.symbol_type
    then ts
    else elim (namespace st self) [
      | none ↦ ts
      | some sp ↦ later ts (st.space sp).max_descendent_timestamp
    ]

unfoldable pub updated_timestamps : Store → ℕ → Times
unfolding initialized_timestamp is_initialized add_time
updated_timestamps st self =
    let ts = initialized_timestamp st self in
    let updated = (st.symbol self).updated_timestamps in
    if is_initialized ts then add_time ts updated else updated

unfoldable pub insert_time : Timestamp → Times → Times
insert_time t [] = t ∷ []
insert_time t (u ∷ us) = if lt t u then u ∷ insert_time t us else t ∷ u ∷ us

-- sorted(times, reverse=True)
unfoldable pub latest_first : Times → Times
unfolding insert_time lt
latest_first [] = []
latest_first (t ∷ ts) = insert_time t (latest_first ts)

abbrev shows_all : Interface → Bool
shows_all ipython = true
shows_all unknown = true
shows_all _ = false

abbrev is_shown : Position → Bool
is_shown (at _) = true
is_shown _ = false

-- Cell.is_visible
unfoldable pub is_visible : MutableDataflowSettings → Registry → ℕ → Bool
unfolding position
is_visible settings g cell = shows_all settings.interface || is_shown (position settings g cell)

-- The outer option is a `KeyError` of a timestamp that no cell has.
unfoldable pub first_visible :
    MutableDataflowSettings → Registry → Times → Option (Option Timestamp)
unfolding is_visible at_timestamp
first_visible settings g [] = some none
first_visible settings g (ts ∷ times) =
    let rest = first_visible settings g times in
    at_timestamp g ts >>= λ cell. if is_visible settings g cell then some (some ts) else rest

unfoldable pub visible_timestamp : Store → ℕ → Option (Option Timestamp)
unfolding first_visible latest_first updated_timestamps
visible_timestamp st self =
    first_visible st.settings st.registry (latest_first (updated_timestamps st self))

-- Symbol.waiting_timestamp
unfoldable pub waiting_timestamp : Store → ℕ → ℤ
waiting_timestamp st self = max_ℤ (st.symbol self).own_timestamp.cell_num st.min_timestamp

-- what a loop over a list does to a state, where a round may fail
unfoldable pub for_each {ℓ} : {S : Type ℓ} → (ℕ → S → Option S) → List ℕ → S → Option S
for_each visit [] s = some s
for_each visit (r ∷ rs) s = visit r s >>= for_each visit rs
