-- ===== src/Cells/Renaming.antt =====
-- `Cell.update_id` of core/ipyflow/data_model/cell.py: a cell, its previous versions, and all that
-- names it by its identifier.
use ipyflow.Base.{
  ℕ, zero, suc, ◌+◌, Bool, true, false, Option, none, some, List, [], ◌∷◌, Dict, lookup, insert,
  erase, keys, elem, add, discard, ◌==◌, if◌then◌else◌,
}
use ipyflow.Config.Contexts.{
  MutableDataflowSettings, SlicingContext, dynamic, static, slicing_contexts,
}
use ipyflow.Slicing.EdgeSets.{Edges}
use ipyflow.Cells.{Registry}
use ipyflow.Cells.Lookup.{from_id, store, ◌>>=◌}
use ipyflow.Cells.Positions.{raw_parents, raw_children}

-- self and its previous versions; one round of fuel for each
unfoldable pub update_versions : ℕ → ℕ → Option ℕ → Registry → Registry
unfolding store
update_versions zero new_id self g = g
update_versions (suc fuel) new_id none g = g
update_versions (suc fuel) new_id (some self) g =
    update_versions fuel new_id (g.cell self).prev_cell
      (store g self (record (g.cell self) { cell_id = new_id; placeholder_id = false }))

-- {(new_id if k == old_id else k): v for k, v in d.items()}
unfoldable pub rename_key {ℓ} : {V : Type ℓ} → ℕ → ℕ → Dict V → Dict V → Dict V
unfolding insert
rename_key old_id new_id [] renamed = renamed
rename_key old_id new_id ((k, v) ∷ d) renamed =
    rename_key old_id new_id d (insert (if k == old_id then new_id else k) v renamed)

-- x = d.pop(old_id, None); if x is not None: d[new_id] = x
unfoldable pub move_key {ℓ} : {V : Type ℓ} → ℕ → ℕ → Dict V → Dict V
unfolding lookup insert erase
move_key old_id new_id d = elim (lookup old_id d) [
  | none ↦ d
  | some v ↦ insert new_id v (erase old_id d)
]

unfoldable pub move_in_sets : ℕ → ℕ → Dict (List ℕ) → Dict (List ℕ)
unfolding elem add discard
move_in_sets old_id new_id [] = []
move_in_sets old_id new_id ((tag, ids) ∷ by_tag) =
    (tag, if elem old_id ids then add new_id (discard old_id ids) else ids)
    ∷ move_in_sets old_id new_id by_tag

-- the assignment of a new dictionary to `raw_children` of one cell
unfoldable pub set_raw_children : SlicingContext → ℕ → Edges → Registry → Registry
unfolding store
set_raw_children dynamic self edges g =
    record (store g self (record (g.cell self) { raw_dynamic_children = g.next_dict })) {
      children = λ d. if d == g.next_dict then edges else g.children d;
      next_dict = g.next_dict + 1;
    }
set_raw_children static self edges g =
    record (store g self (record (g.cell self) { raw_static_children = g.next_dict })) {
      children = λ d. if d == g.next_dict then edges else g.children d;
      next_dict = g.next_dict + 1;
    }

unfoldable pub set_raw_parents : SlicingContext → ℕ → Edges → Registry → Registry
unfolding store
set_raw_parents dynamic self edges g =
    store g self (record (g.cell self) { raw_dynamic_parents = edges })
set_raw_parents static self edges g =
    store g self (record (g.cell self) { raw_static_parents = edges })

unfoldable pub rename_at_parents : SlicingContext → ℕ → ℕ → List ℕ → Registry → Option Registry
unfolding from_id rename_key set_raw_children raw_children
rename_at_parents context old_id new_id [] g = some g
rename_at_parents context old_id new_id (pid ∷ pids) g = do
  parent ← from_id g pid
  rename_at_parents context old_id new_id pids (
      set_raw_children context parent (rename_key old_id new_id (raw_children g context parent) [])
        g)

unfoldable pub rename_at_children : SlicingContext → ℕ → ℕ → List ℕ → Registry → Option Registry
unfolding from_id rename_key set_raw_parents raw_parents
rename_at_children context old_id new_id [] g = some g
rename_at_children context old_id new_id (cid ∷ cids) g = do
  child ← from_id g cid
  rename_at_children context old_id new_id cids
      (set_raw_parents context child (rename_key old_id new_id (raw_parents g context child) []) g)

unfoldable pub rename_edges : List SlicingContext → ℕ → ℕ → ℕ → Registry → Option Registry
unfolding rename_at_parents rename_at_children keys raw_parents raw_children
rename_edges [] self old_id new_id g = some g
rename_edges (context ∷ contexts) self old_id new_id g = do
  g' ← rename_at_parents context old_id new_id (keys (raw_parents g context self)) g
  g'' ← rename_at_children context old_id new_id (keys (raw_children g' context self)) g'
  rename_edges contexts self old_id new_id g''

-- the identifier where the registry names cells by it
unfoldable pub rename_in_registry : ℕ → ℕ → Registry → Registry
unfolding move_key move_in_sets
rename_in_registry old_id new_id g = record g {
  position_by_cell_id = move_key old_id new_id g.position_by_cell_id;
  current_cell_by_cell_id = move_key old_id new_id g.current_cell_by_cell_id;
  reactive_cells_by_tag = move_in_sets old_id new_id g.reactive_cells_by_tag;
}

-- whether `assert current_cell is self` passes
abbrev pub is_current_or_absent : Option ℕ → ℕ → Bool
is_current_or_absent none self = true
is_current_or_absent (some r) self = r == self

unfoldable pub update_id : MutableDataflowSettings → ℕ → ℕ → Registry → Option Registry
unfolding update_versions rename_in_registry rename_edges slicing_contexts from_id
update_id settings self new_id g =
    let old_id = (g.cell self).cell_id in
    let g' = update_versions (suc self) new_id (some self) g in
    if is_current_or_absent (from_id g old_id) self
    then rename_edges (slicing_contexts settings) self old_id new_id
        (rename_in_registry old_id new_id g')
    else none
