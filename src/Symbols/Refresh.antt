-- ===== src/Symbols/Refresh.antt =====
-- `Symbol.refresh` and `_take_timestamp_snapshots` of core/ipyflow/data_model/symbol.py. What the
-- recursion has seen is shared by all calls, and returned; a call with fuel for every symbol that is
-- not yet seen returns.
use ipyflow.Base.{
  ℕ, zero, suc, Bool, true, false, Option, none, some, List, [], ◌∷◌, ◌++◌, ℤ, elem, union,
  is_empty, ◌&&◌, ◌||◌, not, if◌then◌else◌,
}
use ipyflow.Timestamp.{Timestamp, lt}
use ipyflow.Timestamp.Clock.{current}
use ipyflow.Cells.{Registry}
use ipyflow.Cells.Lookup.{add_used_cell_counter, ◌>>=◌}
use ipyflow.Symbols.{name_eq, Python, Store, write_symbol, write_space, add_time}
use ipyflow.Symbols.Spaces.{containing_namespace, namespace, owners, symbols_in}
use ipyflow.Symbols.Times.{later, for_each}

-- A store, with the symbols that a recursion has seen.
pub record Walk : Type 0 where
  pub seen : List ℕ
  pub store : Store

unfoldable pub see : ℕ → Walk → Walk
see self w = record w { seen = self ∷ w.seen }

-- the snapshot of one symbol
unfoldable pub snapshot : Timestamp → ℕ → Store → Store
unfolding write_symbol
snapshot ubound self st =
    let s = st.symbol self in
    write_symbol st self (record s {
      snapshot_timestamps = s.snapshot_timestamps ++ s.own_timestamp ∷ [];
      snapshot_timestamp_ubounds = s.snapshot_timestamp_ubounds ++ ubound ∷ [];
    })

-- `_take_timestamp_snapshots`, of a symbol and of those that hold it
unfoldable pub take_snapshots : ℕ → Timestamp → ℕ → Walk → Option Walk
unfolding elem see snapshot containing_namespace owners for_each
take_snapshots zero ubound self w = if elem self w.seen then some w else none
take_snapshots (suc fuel) ubound self w =
    let st = snapshot ubound self w.store in
    let w' : Walk = record { seen = self ∷ w.seen; store = st } in
    let up : Option Walk = elim (containing_namespace st self) [
      | none ↦ some w'
      | some sp ↦ for_each (take_snapshots fuel ubound) (owners st sp) w'
    ] in
    if elem self w.seen then some w else up

-- for cell in cells: cell.add_used_cell_counter(sym, ctr)
unfoldable pub count_uses : ℕ → ℤ → List ℕ → Registry → Registry
unfolding add_used_cell_counter
count_uses sym ctr [] g = g
count_uses sym ctr (cell ∷ cells) g =
    count_uses sym ctr cells (add_used_cell_counter g cell sym ctr)

-- for alias in aliases: the cells where it is deeply live
unfoldable pub count_holders : Store → ℤ → List ℕ → Registry → Registry
unfolding count_uses
count_holders st ctr [] g = g
count_holders st ctr (r ∷ rs) g =
    count_holders st ctr rs (count_uses r ctr (st.symbol r).cells_where_deep_live g)

-- the new time of the symbol, before any snapshot
unfoldable pub bump : Timestamp → ℕ → Store → Store
unfolding write_symbol add_time
bump now self st =
    let s = st.symbol self in
    write_symbol st self (record s {
      updated_timestamps = add_time s.own_timestamp s.updated_timestamps;
      own_timestamp = now;
      override_timestamp = none;
    })

unfoldable pub set_temp_warnings : Bool → ℕ → Store → Store
unfolding write_symbol
set_temp_warnings off self st =
    write_symbol st self (record (st.symbol self) { temp_disable_warnings = off })

-- the namespace that holds the symbol, if one does, learns of the time
unfoldable pub tell_holder : Timestamp → ℕ → Store → Store
unfolding containing_namespace write_space later count_holders owners
tell_holder now self st = elim (containing_namespace st self) [
  | none ↦ st
  | some sp ↦
      let ns = st.space sp in
      record (write_space st sp
        (record ns { max_descendent_timestamp = later ns.max_descendent_timestamp now })) {
          registry = count_holders st now.cell_num (owners st sp) st.registry;
        }
]

-- self.namespace_waiting_symbols.clear()
unfoldable pub clear_waiting : ℕ → Store → Store
unfolding namespace write_space
clear_waiting self st = elim (namespace st self) [
  | none ↦ st
  | some sp ↦ write_space st sp (record (st.space sp) { namespace_waiting_symbols = [] })
]

-- the cells where the symbol is live note the counter
unfoldable pub count_live : Timestamp → ℕ → Store → Store
unfolding count_uses union
count_live now self st =
    let s = st.symbol self in
    record st {
      registry =
          count_uses self now.cell_num (union s.cells_where_deep_live s.cells_where_shallow_live)
            st.registry;
    }

-- the part of `refresh` that concerns the symbol alone
unfoldable pub refresh_one : Bool → Timestamp → ℕ → Store → Option Store
unfolding bump take_snapshots set_temp_warnings count_live tell_holder clear_waiting lt
refresh_one snapshots now self st =
    let s = st.symbol self in
    let bumped = bump now self st in
    (if snapshots && (lt s.own_timestamp now || is_empty s.snapshot_timestamps)
      then (take_snapshots st.next_symbol now self (record { seen = []; store = bumped }) >>= λ w.
          some w.store)
      else some bumped)
    >>= λ st'. some (
        clear_waiting self
          (tell_holder now self (count_live now self (set_temp_warnings false self st'))))

-- `refresh`; a member named `__class__` is refreshed alone
unfoldable pub refresh_walk : ℕ → Python → Bool → Bool → Timestamp → ℕ → Walk → Option Walk
unfolding refresh_one elem namespace symbols_in for_each name_eq
refresh_walk zero py snapshots descend now self w = if elem self w.seen then some w else none
refresh_walk (suc fuel) py snapshots descend now self w =
    let go = refresh_one snapshots now self w.store >>= λ st.
    let w' : Walk = record { seen = self ∷ w.seen; store = st } in
    if not descend then some (record w { store = st }) else elim (namespace st self) [
      | none ↦ some w'
      | some sp ↦
          for_each
            (λ r v.
              refresh_walk fuel py false (not (name_eq (v.store.symbol r).name py.class_name)) now r
                v)
            (symbols_in st true sp) w'
    ] in
    if elem self w.seen then some w else go

-- `refresh` as others call it, at the current time
unfoldable pub refresh : Python → Bool → ℕ → Store → Option Store
unfolding refresh_walk current
refresh py descend self st =
    refresh_walk (st.next_symbol) py true descend (current st.clock) self
      (record { seen = []; store = st })
    >>= λ w. some w.store
