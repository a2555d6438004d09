-- ===== src/Frontend/Stale.antt =====
-- `_compute_stale_parents` and `_compute_stale_parent_makers` of core/ipyflow/frontend.py.
use ipyflow.Base.{
  ℕ, Bool, false, Option, none, some, List, [], ◌∷◌, Dict, ℤ, lookup_or, insert, union, inter,
  ltb_ℤ, ◌&&◌, ◌||◌, if◌then◌else◌,
}
use ipyflow.Config.Contexts.{MutableDataflowSettings, SlicingContext, slicing_contexts}
use ipyflow.Slicing.EdgeSets.{Edges, syms_of, merge}
use ipyflow.Cells.{Registry}
use ipyflow.Cells.Lookup.{from_id, ◌>>=◌}
use ipyflow.Cells.Positions.{
  raw_parents, directional_parents, is_in_order, iterate_over_notebook_in_position_order,
}
use ipyflow.Frontend.Checker.{CheckerResult, uses_dag}
use ipyflow.Frontend.View.{View}
use ipyflow.Frontend.Parents.{Modified}

-- whether the schedule goes by edges, with the notebook in order
unfoldable pub tracks_stale : MutableDataflowSettings → Bool
tracks_stale settings = uses_dag settings.exec_schedule && is_in_order settings.flow_order

-- whether a symbol, or one of those that hold it, was written after the counter
unfoldable pub written_after : View → ℤ → List ℕ → Bool
written_after view ctr [] = false
written_after view ctr (s ∷ syms) =
    ltb_ℤ ctr (view.shallow_timestamp s).cell_num || written_after view ctr syms

unfoldable pub any_written_after : View → ℤ → List ℕ → Bool
unfolding written_after
any_written_after view ctr [] = false
any_written_after view ctr (q ∷ quals) =
    written_after view ctr (view.traverse_up_namespaces q) || any_written_after view ctr quals

-- the loop over the parents in one context
unfoldable pub stale_parents_in : View → Registry → ℕ → Edges → Edges → Option Edges
unfolding from_id any_written_after merge
stale_parents_in view g self [] stale = some stale
stale_parents_in view g self ((pid, syms) ∷ edges) stale = do
  parent ← from_id g pid
  stale_parents_in view g self edges (
      if any_written_after view (g.cell parent).cell_ctr syms
      then merge (g.cell self).cell_id ((g.cell parent).cell_id ∷ []) stale
      else stale)

unfoldable pub stale_in_contexts :
    MutableDataflowSettings → View → Registry → ℕ → List SlicingContext → Edges → Option Edges
unfolding stale_parents_in directional_parents
stale_in_contexts settings view g self [] stale = some stale
stale_in_contexts settings view g self (context ∷ contexts) stale = do
  parents ← directional_parents settings g context self
  stale' ← stale_parents_in view g self parents stale
  stale_in_contexts settings view g self contexts stale'

unfoldable pub compute_stale_parents :
    MutableDataflowSettings → View → Registry → ℕ → CheckerResult → Option CheckerResult
unfolding tracks_stale stale_in_contexts slicing_contexts
compute_stale_parents settings view g self res =
    if tracks_stale settings
    then (stale_in_contexts settings view g self (slicing_contexts settings) res.stale_parents
        >>= λ stale. some (record res { stale_parents = stale }))
    else some res

-- d.setdefault(a, {}).setdefault(b, set()).add(pid)
unfoldable pub add_under : ℕ → ℕ → ℕ → Dict Edges → Dict Edges
unfolding lookup_or insert merge
add_under a b pid d = insert a (merge b (pid ∷ []) (lookup_or [] a d)) d

-- The two nested dictionaries: by child and by executed cell, and the other way around.
pub record NestedParents : Type 0 where
  pub by_executed_cell_by_child : Dict Edges
  pub by_child_by_executed_cell : Dict Edges

unfoldable pub note_makers : ℕ → ℕ → List ℕ → NestedParents → NestedParents
unfolding add_under
note_makers child pid [] m = m
note_makers child pid (executed ∷ rest) m = note_makers child pid rest (record {
  by_executed_cell_by_child = add_under child executed pid m.by_executed_cell_by_child;
  by_child_by_executed_cell = add_under executed child pid m.by_child_by_executed_cell;
})

-- The loops over the symbols of an edge; `updates` is `cells_so_far_that_update_symbol`, whose
-- cells are named by their identifiers.
unfoldable pub note_syms : ℕ → ℕ → Edges → List ℕ → NestedParents → NestedParents
unfolding note_makers syms_of
note_syms child pid updates [] m = m
note_syms child pid updates (s ∷ syms) m =
    note_syms child pid updates syms (note_makers child pid (syms_of updates s) m)

unfoldable pub note_quals : View → ℕ → ℕ → Edges → List ℕ → NestedParents → NestedParents
unfolding note_syms
note_quals view child pid updates [] m = m
note_quals view child pid updates (q ∷ quals) m =
    note_quals view child pid updates quals
      (note_syms child pid updates (view.traverse_up_namespaces q) m)

unfoldable pub note_parents : View → ℕ → Edges → Edges → NestedParents → NestedParents
unfolding note_quals
note_parents view child updates [] m = m
note_parents view child updates ((pid, syms) ∷ edges) m =
    note_parents view child updates edges (note_quals view child pid updates syms m)

unfoldable pub note_in_contexts :
    View → Registry → ℕ → List SlicingContext → Edges → NestedParents → NestedParents
unfolding note_parents raw_parents
note_in_contexts view g self [] updates m = m
note_in_contexts view g self (context ∷ contexts) updates m =
    note_in_contexts view g self contexts updates
      (note_parents view (g.cell self).cell_id updates (raw_parents g context self) m)

-- static_writes | dynamic_writes, where a check narrows the static ones
unfoldable pub writes : Modified → Registry → ℕ → List ℕ
unfolding union inter
writes modified g self =
    let static_writes = (g.cell self).static_writes in
    union (elim (modified self) [ none ↦ static_writes | some now ↦ inter static_writes now ])
      (g.cell self).dynamic_writes

unfoldable pub note_writes : ℕ → List ℕ → Edges → Edges
unfolding merge
note_writes cell_id [] updates = updates
note_writes cell_id (s ∷ syms) updates = note_writes cell_id syms (merge s (cell_id ∷ []) updates)

-- the loop over the notebook
unfoldable pub scan_notebook :
    View
    → Modified
    → Registry
    → List SlicingContext
    → List ℕ
    → Edges
    → NestedParents
    → NestedParents
unfolding note_in_contexts note_writes writes
scan_notebook view modified g contexts [] updates m = m
scan_notebook view modified g contexts (self ∷ rs) updates m =
    scan_notebook view modified g contexts rs
      (note_writes (g.cell self).cell_id (writes modified g self) updates)
      (note_in_contexts view g self contexts updates m)

unfoldable pub compute_stale_parent_makers :
    MutableDataflowSettings → View → Modified → Registry → CheckerResult → Option CheckerResult
unfolding tracks_stale scan_notebook iterate_over_notebook_in_position_order slicing_contexts
compute_stale_parent_makers settings view modified g res =
    if tracks_stale settings
    then (iterate_over_notebook_in_position_order g >>= λ rs.
        let m = scan_notebook view modified g (slicing_contexts settings) rs [] (record {
          by_executed_cell_by_child = res.stale_parents_by_executed_cell_by_child;
          by_child_by_executed_cell = res.stale_parents_by_child_by_executed_cell;
        }) in
        some (record res {
          stale_parents_by_executed_cell_by_child = m.by_executed_cell_by_child;
          stale_parents_by_child_by_executed_cell = m.by_child_by_executed_cell;
        }))
    else some res
