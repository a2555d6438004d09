-- ===== src/Symbols/Edges.antt =====
-- The edges between symbols, as `Symbol.update_deps` and `Symbol.collect_self_garbage` change them
-- (core/ipyflow/data_model/symbol.py).
use ipyflow.Base.{
  ℕ, suc, Bool, true, false, none, some, List, [], ◌∷◌, ◌++◌, Dict, lookup, lookup_or, insert,
  erase, keys, elem, diff, discard, has, ◌==◌, ◌&&◌, ◌||◌, not, if◌then◌else◌,
}
use ipyflow.Timestamp.{Timestamp}
use ipyflow.Timestamp.Clock.{current}
use ipyflow.Symbols.{Symbol, StmtNode, assign, Python, Store, Times, name_eq, write_symbol}
use ipyflow.Symbols.Spaces.{containing_namespace, is_global, is_anonymous_type, is_anonymous_space}
use ipyflow.Symbols.Propagate.{clear_required}

-- d.setdefault(key, []).append(ts)
unfoldable pub append_time : ℕ → Timestamp → Dict Times → Dict Times
unfolding insert lookup_or
append_time key ts d = insert key (lookup_or [] key d ++ ts ∷ []) d

unfoldable pub set_parents : ℕ → Dict Times → Store → Store
unfolding write_symbol
set_parents self parents st = write_symbol st self (record (st.symbol self) { parents = parents })

unfoldable pub set_children : ℕ → Dict Times → Store → Store
unfolding write_symbol
set_children self children st =
    write_symbol st self (record (st.symbol self) { children = children })

-- parent.children.pop(self, None)
unfoldable pub pop_child : ℕ → ℕ → Store → Store
unfolding set_children erase
pop_child self parent st = set_children parent (erase self (st.symbol parent).children) st

-- child.parents.pop(self, None)
unfoldable pub pop_parent : ℕ → ℕ → Store → Store
unfolding set_parents erase
pop_parent parent self st = set_parents self (erase parent (st.symbol self).parents) st

unfoldable pub drop_parent : ℕ → ℕ → Store → Store
unfolding pop_child pop_parent
drop_parent self parent st = pop_parent parent self (pop_child self parent st)

-- an edge that comes up now, at both ends
unfoldable pub add_parent : ℕ → ℕ → Store → Store
unfolding set_children set_parents append_time current
add_parent self parent st =
    let st' =
      set_children parent (append_time self (current st.clock) (st.symbol parent).children) st in
    set_parents self (append_time parent (current st.clock) (st'.symbol self).parents) st'

unfoldable pub fold_store : (ℕ → Store → Store) → List ℕ → Store → Store
fold_store f [] st = st
fold_store f (r ∷ rs) st = fold_store f rs (f r st)

-- any(self in new_dep.parents for new_dep in new_deps)
unfoldable pub is_parent_of_any : Store → ℕ → List ℕ → Bool
unfolding lookup has
is_parent_of_any st self [] = false
is_parent_of_any st self (d ∷ ds) =
    has (lookup self (st.symbol d).parents) || is_parent_of_any st self ds

-- whether old parents go: not where the symbol is computed from itself, directly or by one step
unfoldable pub overwrites : Store → ℕ → List ℕ → Bool → Bool
unfolding elem is_parent_of_any
overwrites st self new_deps overwrite =
    overwrite && not (elem self new_deps) && not (is_parent_of_any st self new_deps)

-- The edges of `update_deps`, for dependencies that are symbols.
unfoldable pub update_edges : ℕ → List ℕ → Bool → Store → Store
unfolding overwrites discard diff keys drop_parent add_parent fold_store
update_edges self new_deps overwrite st =
    let deps = discard self new_deps in
    let kept =
      if overwrites st self new_deps overwrite
      then fold_store (drop_parent self) (diff (keys (st.symbol self).parents) deps) st
      else st in
    fold_store (add_parent self) (diff deps (keys (kept.symbol self).parents)) kept

-- ### What an update does beside the edges

-- the symbol no longer waits for what it was computed from
unfoldable pub clear_ancestors : ℕ → Store → Store
unfolding write_symbol clear_required
clear_ancestors self st =
    let st' = clear_required self st in
    write_symbol st' self
      (record (st'.symbol self) { fresher_ancestors = []; fresher_ancestor_timestamps = [] })

-- what the name was bound to before: nothing that is known, `Symbol.NULL`, or another object
pub data Prev : Type 0 where
  no_prev null_prev object_prev : Prev

abbrev is_null : Prev → Bool
is_null null_prev = true
is_null _ = false

unfoldable pub should_cancel_propagation : Python → Symbol → Prev → Bool
should_cancel_propagation py s no_prev = false
should_cancel_propagation py s prev =
    if not s.cached_out_of_sync
    then true
    else if elim s.cached_obj_id [ none ↦ false | some obj_id ↦ s.obj_id == obj_id ]
        && not (py.is_immutable s.obj_id)
    then true
    else py.is_none s.obj_id && is_null prev

-- Symbol.is_anonymous and Symbol.is_underscore
unfoldable pub is_anonymous : Python → Store → ℕ → Bool
unfolding containing_namespace is_anonymous_space
is_anonymous py st self =
    is_anonymous_type (st.symbol self).symbol_type || elim (containing_namespace st self) [
      | none ↦ false
      | some sp ↦ is_anonymous_space (suc sp) py st sp
    ]

unfoldable pub is_underscore : Python → Store → ℕ → Bool
unfolding name_eq is_global
is_underscore py st self =
    let s = st.symbol self in
    name_eq s.name py.underscore_name && is_global (st.space s.containing_scope)

abbrev is_assign : StmtNode → Bool
is_assign assign = true
is_assign _ = false

unfoldable pub is_underscore_or_simple_assign : Python → Store → ℕ → List ℕ → Bool
unfolding is_underscore is_anonymous
is_underscore_or_simple_assign py st self (dep ∷ []) =
    is_underscore py st self
    || (is_assign (st.symbol self).stmt_node
        && (not (is_anonymous py st dep) && (st.symbol self).obj_id == (st.symbol dep).obj_id))
is_underscore_or_simple_assign py st self _ = is_underscore py st self

-- `_refresh_cached_obj`, for what the model keeps of it
unfoldable pub refresh_cached_obj : ℕ → Store → Store
unfolding write_symbol
refresh_cached_obj self st =
    let s = st.symbol self in
    write_symbol st self (record s { cached_out_of_sync = false; cached_obj_id = some s.obj_id })
