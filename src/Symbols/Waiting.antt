-- ===== src/Symbols/Waiting.antt =====
-- Whether a symbol waits for an update of what it was computed from
-- (core/ipyflow/data_model/symbol.py).
use ipyflow.Base.{
  ℕ, zero, suc, Bool, true, false, Option, none, some, List, [], ◌∷◌, minus_one, ltb_ℤ, eqb_ℤ,
  is_empty, ◌==◌, ◌&&◌, ◌||◌, not, if◌then◌else◌,
}
use ipyflow.Timestamp.{Timestamp}
use ipyflow.Cells.Lookup.{at_timestamp, ◌>>=◌}
use ipyflow.Cells.Positions.{position, is_in_order}
use ipyflow.Cells.{Position, position_lt, position_eq}
use ipyflow.Symbols.{Store}
use ipyflow.Symbols.Spaces.{namespace}
use ipyflow.Symbols.Times.{updated_timestamps, waiting_timestamp}

-- the members of the symbol's namespace that wait
unfoldable pub waiting_members : Store → ℕ → List ℕ
unfolding namespace
waiting_members st self = elim (namespace st self) [
  | none ↦ []
  | some sp ↦ (st.space sp).namespace_waiting_symbols
]

unfoldable pub warnings_off : Store → ℕ → Bool
warnings_off st self = (st.symbol self).disable_warnings || (st.symbol self).temp_disable_warnings

-- self.waiting_timestamp < self.required_timestamp.cell_num
unfoldable pub is_behind : Store → ℕ → Bool
unfolding waiting_timestamp
is_behind st self = ltb_ℤ (waiting_timestamp st self) (st.symbol self).required_timestamp.cell_num

unfoldable pub is_shallow_stale : Store → ℕ → Bool
unfolding warnings_off is_behind
is_shallow_stale st self = not (warnings_off st self) && is_behind st self

-- any(test(x) for x in xs), where a test may fail
unfoldable pub any_of : (ℕ → Option Bool) → List ℕ → Option Bool
any_of test [] = some false
any_of test (x ∷ xs) =
    let rest = any_of test xs in test x >>= λ yes'. if yes' then some true else rest

-- `is_waiting`. After `min_timestamp` moves, the source asks the members in turn, with no guard
-- against a cycle: the recursion has fuel.
unfoldable pub is_waiting : ℕ → Store → ℕ → Option Bool
unfolding warnings_off is_behind waiting_members any_of
is_waiting zero st self = none
is_waiting (suc fuel) st self =
    let members = any_of (is_waiting fuel st) (waiting_members st self) in
    if warnings_off st self
    then some false
    else if is_behind st self
    then some true
    else if eqb_ℤ st.min_timestamp minus_one
    then some (not (is_empty (waiting_members st self)))
    else members

-- The answers for positions, by symbol, position and depth, that are kept for one execution.
pub record Answer : Type 0 where
  pub symbol : ℕ
  pub pos : Position
  pub deep : Bool
  pub answer : Bool

abbrev pub Cache : Type 0
Cache = List Answer

abbrev same_bool : Bool → Bool → Bool
same_bool true b = b
same_bool false b = not b

unfoldable pub cached : ℕ → Position → Bool → Cache → Option Bool
unfolding position_eq
cached self p deep [] = none
cached self p deep (a ∷ cache) =
    if self == a.symbol && position_eq p a.pos && same_bool deep a.deep
    then some a.answer
    else cached self p deep cache

unfoldable pub note_answer : ℕ → Position → Bool → Bool → Cache → Cache
note_answer self p deep answer cache =
    record { symbol = self; pos = p; deep = deep; answer = answer } ∷ cache

-- one of two tests in turn, where the cache goes along
abbrev pub Asks : Type 0
Asks = Cache → Option (Bool × Cache)

unfoldable pub ask_each {ℓ} : {A : Type ℓ} → (A → Asks) → List A → Asks
ask_each test [] cache = some (false, cache)
ask_each test (x ∷ xs) cache = test x cache >>= λ (yes', cache'). elim yes' [
  | true ↦ some (true, cache')
  | false ↦ ask_each test xs cache'
]

module _ (st : Store) where
  -- `cells().at_timestamp(ts).position`
  unfoldable pub position_at : Timestamp → Option Position
  unfolding at_timestamp position
  position_at ts =
      at_timestamp st.registry ts >>= λ cell. some (position st.settings st.registry cell)

  -- one update of a parent, beside the time `ts` at which the dependency came up, at `introduced`
  unfoldable pub ask_update :
      (ℕ → Position → Bool → Asks) → Position → ℕ → Timestamp → Timestamp → Asks
  unfolding position_at position_lt
  ask_update ask introduced par ts updated cache = position_at updated >>= λ at_update.
      if position_lt introduced at_update
      then some (false, cache)
      else if ltb_ℤ ts.cell_num updated.cell_num
      then some (true, cache)
      else ask par introduced true cache

  unfoldable pub ask_time : (ℕ → Position → Bool → Asks) → Position → ℕ → Timestamp → Asks
  unfolding position_at position_lt updated_timestamps ask_each ask_update
  ask_time ask p par ts cache = position_at ts >>= λ introduced.
      if position_lt p introduced
      then some (false, cache)
      else ask_each (ask_update ask introduced par ts) (updated_timestamps st par) cache

  -- `_is_ready_or_waiting_at_position_impl`
  unfoldable pub ask_parents : (ℕ → Position → Bool → Asks) → ℕ → Position → Bool → Asks
  unfolding ask_each ask_time waiting_members
  ask_parents ask self p deep cache =
      ask_each (λ (par, times). ask_each (ask_time ask p par) times) (st.symbol self).parents cache
      >>= λ (yes', cache'). elim yes' [
        | true ↦ some (true, cache')
        | false ↦ elim deep [
          | true ↦ ask_each (λ r. ask r p true) (waiting_members st self) cache'
          | false ↦ some (false, cache')
        ]
      ]

  -- `is_waiting_at_position`. The answer `false` is put into the cache before the parents are asked,
  -- which ends the recursion on a cycle.
  unfoldable pub is_waiting_at_position : ℕ → ℕ → Position → Bool → Asks
  unfolding is_waiting is_shallow_stale cached note_answer ask_parents
  is_waiting_at_position zero self p deep cache = none
  is_waiting_at_position (suc fuel) self p deep cache =
      let ask =
        ask_parents (is_waiting_at_position fuel) self p deep (note_answer self p deep false cache)
        >>= λ (answer, cache'). some (answer, note_answer self p deep answer cache') in
      (if deep then is_waiting (suc fuel) st self else some (is_shallow_stale st self)) >>= λ maybe.
      if not maybe
      then some (false, cache)
      else if not (is_in_order st.settings.flow_order)
      then some (true, cache)
      else elim (cached self p deep cache) [ some answer ↦ some (answer, cache) | none ↦ ask ]
