-- ===== src/Symbols/Propagate.antt =====
-- `UpdateProtocol` of core/ipyflow/data_model/utils/update_protocol.py: what an update of a symbol
-- means for the symbols that were computed from it.
--
-- While waiting is passed on, no symbol gains or loses a child, and no namespace a member: what the
-- recursion reads of them is read from the store `st` at its start, and it writes only to the store
-- of the walk.
use ipyflow.Base.{
  ℕ, zero, suc, Bool, true, false, Option, none, some, List, [], ◌∷◌, lookup, insert, keys, elem,
  add, union, discard, not, ◌==◌, ◌&&◌, ◌||◌, if◌then◌else◌,
}
use ipyflow.Timestamp.{uninitialized}
use ipyflow.Timestamp.Clock.{current}
use ipyflow.Cells.Lookup.{◌>>=◌}
use ipyflow.Symbols.{Python, Store, write_symbol, write_space, add_time}
use ipyflow.Symbols.Spaces.{
  containing_namespace, namespace, owners, symbols_in, is_import_type, is_module_type,
}
use ipyflow.Symbols.Times.{timestamp, for_each}
use ipyflow.Symbols.Refresh.{Walk, see, count_uses, refresh}
use ipyflow.Symbols.Waiting.{is_waiting}

-- ### Which symbols an update reaches

-- for cell in sym.cells_where_deep_live: cell.add_used_cell_counter(sym, flow().cell_counter())
unfoldable pub note_uses : ℕ → Store → Store
unfolding count_uses
note_uses self st = record st {
  registry =
      count_uses self st.clock.cell_counter (st.symbol self).cells_where_deep_live st.registry;
}

unfoldable pub clear_required : ℕ → Store → Store
unfolding write_symbol
clear_required self st =
    write_symbol st self (record (st.symbol self) { required_timestamp = uninitialized })

-- the namespace that holds the symbol no longer waits for it, and was updated now
unfoldable pub tell_updated : ℕ → ℕ → Store → Store
unfolding write_space discard current
tell_updated self sp st =
    let ns = st.space sp in
    write_space st sp (record ns {
      namespace_waiting_symbols = discard self ns.namespace_waiting_symbols;
      max_descendent_timestamp = current st.clock;
    })

-- `None` for a module, whatever holds it
unfoldable pub holder_of : Store → ℕ → Option ℕ
unfolding containing_namespace
holder_of st self =
    if is_module_type (st.symbol self).symbol_type then none else containing_namespace st self

-- One round of `_collect_updated_symbols_and_refresh_namespaces`; `go` is the recursive call.
unfoldable pub collect_one : (List ℕ → Walk → Option Walk) → Bool → ℕ → Walk → Option Walk
unfolding see note_uses clear_required tell_updated holder_of namespace owners symbols_in elem
collect_one go descend self w =
    let st = note_uses self (clear_required self w.store) in
    let w' : Walk = record { seen = self ∷ w.seen; store = st } in
    let up : Option Walk = elim (holder_of st self) [
      | none ↦ some w'
      | some sp ↦ go (owners st sp) (record w' { store = tell_updated self sp st })
    ] in
    let down = up >>= λ v. elim (namespace v.store self) [
      | none ↦ some v
      | some sp ↦ go (symbols_in v.store false sp) v
    ] in
    if is_import_type (w.store.symbol self).symbol_type || elem self w.seen
    then some w
    else elim descend [ true ↦ down | false ↦ up ]

-- Each level of the recursion sees another symbol.
unfoldable pub collect : ℕ → Bool → List ℕ → Walk → Option Walk
unfolding collect_one for_each
collect zero descend rs w = none
collect (suc fuel) descend rs w = for_each (collect_one (collect fuel descend) descend) rs w

-- ### Waiting is passed on

-- whether an edge leads from a class to an instance of it
unfoldable pub from_class : Store → ℕ → ℕ → Bool
unfolding namespace
from_class st self child = elim (namespace st child >>= λ sp. (st.space sp).cloned_from) [
  | none ↦ false
  | some origin ↦ (st.space origin).cached_obj_id == (st.symbol self).obj_id
]

unfoldable pub without : (ℕ → Bool) → List ℕ → List ℕ
without test [] = []
without test (x ∷ xs) = let rest = without test xs in if test x then rest else x ∷ rest

-- `_non_class_to_instance_children`
unfoldable pub dependents : Store → ℕ → ℕ → List ℕ
unfolding keys from_class without
dependents st updated self =
    if updated == self
    then keys (st.symbol self).children
    else without (from_class st self) (keys (st.symbol self).children)

-- Symbol.should_mark_waiting, and that the symbol was not updated itself
unfoldable pub should_mark : Store → ℕ → ℕ → Bool
unfolding elem
should_mark st updated self =
    not (elem self st.updated_symbols)
    && not (elem self st.this_stmt_updated_symbols)
    && not ((st.symbol self).disable_warnings || updated == self)

-- the marks that a symbol gets when it waits for `updated`
unfoldable pub mark : Store → ℕ → ℕ → Walk → Walk
unfolding write_symbol add add_time timestamp current
mark st updated self w =
    let s = w.store.symbol self in
    record w {
      store = write_symbol w.store self (record s {
        fresher_ancestors = add updated s.fresher_ancestors;
        fresher_ancestor_timestamps = add_time (timestamp st updated) s.fresher_ancestor_timestamps;
        required_timestamp = current st.clock;
      });
    }

-- a member of the namespace waits
unfoldable pub add_waiting : ℕ → ℕ → Walk → Walk
unfolding write_space add
add_waiting self sp w =
    let ns = w.store.space sp in
    record w {
      store =
          write_space w.store sp
            (record ns { namespace_waiting_symbols = add self ns.namespace_waiting_symbols });
    }

-- the three methods that call one another
pub data Way : Type 0 where
  to_deps to_holders to_members : Way

abbrev pub Goes : Type 0
Goes = Way → Bool → ℕ → Walk → Option Walk

-- the body of `_propagate_waiting_to_namespace_parents`, where the holder is no module
unfoldable pub pass_to_holders : Store → Python → ℕ → Goes → ℕ → Walk → Option Walk
unfolding containing_namespace owners add_waiting dependents for_each
pass_to_holders st py updated go self w = elim (containing_namespace st self) [
  | none ↦ some w
  | some sp ↦
      if py.is_module (st.space sp).obj
      then some w
      else for_each (go to_holders false) (owners st sp) (add_waiting self sp w)
        >>= for_each (λ r. for_each (go to_deps false) (dependents st updated r)) (owners st sp)
]

-- the body of `_propagate_waiting_to_namespace_children`
unfoldable pub pass_to_members : Store → Goes → ℕ → Walk → Option Walk
unfolding namespace symbols_in for_each
pass_to_members st go self w = elim (namespace st self) [
  | none ↦ some w
  | some sp ↦ for_each (go to_deps false) (symbols_in st true sp) w
]

-- the body of `_propagate_waiting_to_deps`
unfoldable pub pass_to_deps : Store → ℕ → Goes → ℕ → Walk → Option Walk
unfolding should_mark mark dependents for_each
pass_to_deps st updated go self w =
    (if should_mark st updated self
      then go to_holders true self (mark st updated self w) >>= go to_members true self
      else some w)
    >>= for_each (go to_deps false) (dependents st updated self)

abbrev pub body_of : Store → Python → ℕ → Goes → Way → ℕ → Walk → Option Walk
body_of st py updated go to_deps self w = pass_to_deps st updated go self w
body_of st py updated go to_holders self w = pass_to_holders st py updated go self w
body_of st py updated go to_members self w = pass_to_members st go self w

-- a call of one of the three, which passes over what is seen unless it is told to skip that test
unfoldable pub pass_on : ℕ → Store → Python → ℕ → Goes
unfolding elem see pass_to_deps pass_to_holders pass_to_members
pass_on zero st py updated way skip_seen_check self w = none
pass_on (suc fuel) st py updated way skip_seen_check self w =
    let go = body_of st py updated (pass_on fuel st py updated) way self (see self w) in
    if not skip_seen_check && elem self w.seen then some w else go

-- ### The whole protocol

-- for updated_sym in directly_updated_symbols: refresh it, unless it waits or is the updated one
unfoldable pub refresh_others : ℕ → Python → ℕ → List ℕ → Store → Option Store
unfolding is_waiting refresh
refresh_others fuel py updated [] st = some st
refresh_others fuel py updated (r ∷ rs) st = is_waiting fuel st r >>= λ waits.
    (if waits || r == updated then some st else refresh py false r st)
    >>= refresh_others fuel py updated rs

-- The symbols that the update concerns directly: with a mutation, all that name the object, and
-- those of `DUPED_ATTRSUB_CLASSES`, by which a column of a table has two names, which are given. With
-- a mutation the set is the one of `flow().aliases`, which the source extends in place. `none` is a
-- `KeyError`.
unfoldable pub directly_updated : Bool → List ℕ → ℕ → Store → Option (List ℕ × Store)
unfolding lookup union insert
directly_updated false duped self st = some (union duped (self ∷ []), st)
directly_updated true duped self st =
    let obj_id = (st.symbol self).obj_id in
    lookup obj_id st.aliases >>= λ named.
    let direct = union duped named in
    some (direct, record st { aliases = insert obj_id direct st.aliases })

-- `UpdateProtocol.__call__`; the two numbers are the fuel of the recursion and of `is_waiting`.
unfoldable pub update_protocol :
    ℕ → ℕ → Python → List ℕ → ℕ → List ℕ → Bool → Bool → Bool → Store → Option Walk
unfolding directly_updated collect union refresh_others pass_on for_each
update_protocol fuel fuel' py duped self new_deps mutated descend refreshes st₀ = do
  (direct, st) ← directly_updated mutated duped self st₀
  w ← collect fuel descend direct (record { seen = []; store = st })
  let noted = record w.store {
    this_stmt_updated_symbols = union w.seen w.store.this_stmt_updated_symbols;
  }
  st' ← (if refreshes then refresh_others fuel' py self direct noted else some noted)
  for_each (pass_on fuel st' py self to_deps true) w.seen
      (record { seen = union new_deps w.seen; store = st' })
