-- ===== src/Symbols/Garbage.antt =====
-- Symbols and namespaces that are garbage (core/ipyflow/data_model/symbol.py and namespace.py).
use ipyflow.Base.{
  ℕ, zero, suc, Bool, true, false, Option, none, some, List, [], ◌∷◌, keys, ◌&&◌, ◌||◌, not, has,
  if◌then◌else◌,
}
use ipyflow.Symbols.{Store, write_symbol, write_space, cleanup_discard}
use ipyflow.Symbols.Spaces.{
  containing_namespace, namespace, aliases_of, symbols_in, is_subscript_type, pop_from,
}
use ipyflow.Symbols.Times.{for_each}
use ipyflow.Symbols.Edges.{pop_child, pop_parent, fold_store}

-- all(alias.is_garbage for alias in aliases)
unfoldable pub all_garbage : Store → List ℕ → Bool
all_garbage st [] = true
all_garbage st (r ∷ rs) = (st.symbol r).tombstone && all_garbage st rs

unfoldable pub bury : ℕ → Store → Store
unfolding write_symbol
bury self st = write_symbol st self (record (st.symbol self) { tombstone = true })

unfoldable pub bury_space : ℕ → Store → Store
unfolding write_space
bury_space self st = write_space st self (record (st.space self) { tombstone = true })

-- Symbol.is_new_garbage; whether an object is an array of numpy is given, and false without numpy
unfoldable pub is_new_garbage : (ℕ → Bool) → Store → ℕ → Bool
unfolding containing_namespace
is_new_garbage is_array st self =
    if (st.symbol self).tombstone then false else elim (containing_namespace st self) [
      | none ↦ false
      | some sp ↦ if is_array (st.space sp).obj then (st.space sp).tombstone else false
    ]

-- Symbol.mark_garbage and Namespace.mark_garbage: each level of the recursion marks another symbol.
unfoldable pub mark_garbage : ℕ → ℕ → Store → Option Store
unfolding bury bury_space namespace aliases_of all_garbage symbols_in for_each
mark_garbage zero self st = if (st.symbol self).tombstone then some st else none
mark_garbage (suc fuel) self st =
    let st' = bury self st in
    let down : Option Store = elim (namespace st' self) [
      | none ↦ some st'
      | some sp ↦
          let members = for_each (mark_garbage fuel) (symbols_in st' true sp) (bury_space sp st') in
          if not (all_garbage st' (aliases_of st' (st'.symbol self).obj_id))
            || (st'.space sp).tombstone
          then some st'
          else members
    ] in
    if (st.symbol self).tombstone then some st else down

-- the symbol is taken out of the table of its scope
unfoldable pub leave_scope : ℕ → Store → Store
unfolding containing_namespace write_space pop_from
leave_scope self st =
    let s = st.symbol self in
    let sc = st.space s.containing_scope in
    if not (is_subscript_type s.symbol_type)
    then write_space st s.containing_scope
        (record sc { symbol_by_name = pop_from s.name sc.symbol_by_name })
    else if has (containing_namespace st self)
    then write_space st s.containing_scope
        (record sc { subscript_symbol_by_name = pop_from s.name sc.subscript_symbol_by_name })
    else st

-- `_remove_self_from_aliases`; the last argument is `id(None)`
unfoldable pub leave_aliases : ℕ → ℕ → Store → Store
unfolding cleanup_discard write_symbol
leave_aliases self none_id st =
    let s = st.symbol self in
    record (write_symbol st self (record s { obj_id = none_id })) {
      aliases = cleanup_discard st.aliases s.obj_id self;
    }

-- Symbol.collect_self_garbage; `none` is the failed assertion that the symbol is garbage
unfoldable pub collect_self_garbage : ℕ → ℕ → Store → Option Store
unfolding leave_aliases keys pop_child pop_parent fold_store leave_scope
collect_self_garbage self none_id st =
    let parents_told =
      fold_store (pop_child self) (keys (st.symbol self).parents) (leave_aliases self none_id st) in
    let children_told =
      fold_store (λ child. pop_parent self child) (keys (parents_told.symbol self).children)
        parents_told in
    if (st.symbol self).tombstone then some (leave_scope self children_told) else none
