-- ===== src/Frontend/Parents.antt =====
-- `_compute_filtered_parents` of core/ipyflow/frontend.py: the parents and the children that the
-- frontend draws.
use ipyflow.Base.{
  ℕ, Bool, true, false, Option, none, some, List, [], ◌∷◌, ℤ, pos, lookup_or, insert, elem, add,
  keep, diff, inter, subset, is_empty, ltb_ℤ, eqb_ℤ, ◌&&◌, ◌||◌, not, if◌then◌else◌,
}
use ipyflow.Timestamp.{Timestamp}
use ipyflow.Config.Contexts.{MutableDataflowSettings, SlicingContext, slicing_contexts}
use ipyflow.Slicing.EdgeSets.{Edges}
use ipyflow.Cells.{Registry, position_lt}
use ipyflow.Cells.Lookup.{from_id, ◌>>=◌}
use ipyflow.Cells.Positions.{position, directional_parents, is_in_order}
use ipyflow.Frontend.Checker.{CheckerResult}
use ipyflow.Frontend.View.{View, Latest, get_latest_parent_by_ts_map}
use ipyflow.Frontend.Waiting.{same_set}
use ipyflow.Frontend.Readiness.{is_static, is_superseded}

-- The symbols that each cell's last check found modified; `none` where there was no check.
abbrev pub Modified : Type 0
Modified = ℕ → Option (List ℕ)

-- whether the last check of the parent shows that it no longer modifies any of the symbols
unfoldable pub dropped_writes : Modified → Registry → ℕ → List ℕ → Bool
unfolding subset inter
dropped_writes modified g parent syms = elim (modified parent) [
  | none ↦ false
  | some now ↦ subset syms (g.cell parent).static_writes && is_empty (inter now syms)
]

unfoldable pub any_cell_num : ℤ → List Timestamp → Bool
any_cell_num ctr [] = false
any_cell_num ctr (ts ∷ rest) = eqb_ℤ ctr ts.cell_num || any_cell_num ctr rest

-- any(parent.cell_ctr in {ts.cell_num for ts in sym.updated_timestamps} for sym in syms)
unfoldable pub updated_any : View → ℤ → List ℕ → Bool
unfolding any_cell_num
updated_any view ctr [] = false
updated_any view ctr (s ∷ syms) =
    any_cell_num ctr (view.updated_timestamps s) || updated_any view ctr syms

-- whether a parent further down the notebook provides the symbols too, as the loop here tests it
unfoldable pub drawn_below :
    MutableDataflowSettings → View → Registry → ℕ → List ℕ → Edges → Option Bool
unfolding from_id subset elem position position_lt same_set
drawn_below settings view g parent syms [] = some false
drawn_below settings view g parent syms ((other_id, other_syms) ∷ edges) =
    let rest = drawn_below settings view g parent syms edges in
    let fake = view.fake_edge_sym ∷ [] in
    if same_set syms fake && same_set other_syms fake
    then rest
    else from_id g other_id >>= λ other.
        if position_lt (position settings g parent) (position settings g other)
          && (subset syms other_syms || elem view.fake_edge_sym other_syms)
        then some true
        else rest

-- whether the edge from a parent, with the symbols that count, is drawn
unfoldable pub is_drawn :
    MutableDataflowSettings
    → View
    → Modified
    → Registry
    → SlicingContext
    → Option Latest
    → Edges
    → ℕ
    → List ℕ
    → Option Bool
unfolding is_superseded from_id dropped_writes updated_any drawn_below
is_drawn settings view modified g context latest all par_id syms =
    if is_empty syms
    then some false
    else is_superseded view g latest par_id syms >>= λ superseded.
        if superseded
        then some false
        else from_id g par_id >>= λ parent.
            let ctr = (g.cell parent).cell_ctr in
            if dropped_writes modified g parent syms
            then some false
            else if not (ltb_ℤ ctr (pos 0)) && not (updated_any view ctr syms)
            then some false
            else if is_in_order settings.flow_order && is_static context
            then (drawn_below settings view g parent syms all >>= λ skip. some (not skip))
            else some true

-- the loop over the parents of a cell in one context
unfoldable pub drawn_parents :
    MutableDataflowSettings
    → View
    → Modified
    → Registry
    → SlicingContext
    → Option Latest
    → Edges
    → ℕ
    → Edges
    → List ℕ
    → Option (List ℕ)
unfolding is_drawn diff keep add
drawn_parents settings view modified g context latest all self [] so_far = some so_far
drawn_parents settings view modified g context latest all self ((par_id, raw_syms) ∷ edges) so_far =
    do
      let syms =
          keep (λ s. not (view.is_implicit_virtual s))
            (diff raw_syms (g.cell self).static_removed_symbols)
      drawn ← is_drawn settings view modified g context latest all par_id syms
      drawn_parents settings view modified g context latest all self edges
          (if drawn then add par_id so_far else so_far)

unfoldable pub drawn_in_contexts :
    MutableDataflowSettings
    → View
    → Modified
    → Registry
    → Option Latest
    → ℕ
    → List SlicingContext
    → List ℕ
    → Option (List ℕ)
unfolding drawn_parents directional_parents
drawn_in_contexts settings view modified g latest self [] so_far = some so_far
drawn_in_contexts settings view modified g latest self (context ∷ contexts) so_far = do
  parents ← directional_parents settings g context self
  so_far' ← drawn_parents settings view modified g context latest parents self parents so_far
  drawn_in_contexts settings view modified g latest self contexts so_far'

-- self.cell_parents[cell.id] = this_cell_parents, for each cell to check
unfoldable pub fill_parents :
    MutableDataflowSettings → View → Modified → Registry → List ℕ → Edges → Option Edges
unfolding drawn_in_contexts get_latest_parent_by_ts_map insert slicing_contexts
fill_parents settings view modified g [] cell_parents = some cell_parents
fill_parents settings view modified g (self ∷ rs) cell_parents = do
  latest ← get_latest_parent_by_ts_map settings view g self
  parents ← drawn_in_contexts settings view modified g latest self (slicing_contexts settings) []
  fill_parents settings view modified g rs (insert (g.cell self).cell_id parents cell_parents)

-- for parent_id in parents: self.cell_children.setdefault(parent_id, set()).add(cell_id)
unfoldable pub add_child : ℕ → List ℕ → Edges → Edges
unfolding insert lookup_or add
add_child cell_id [] cell_children = cell_children
add_child cell_id (p ∷ ps) cell_children =
    add_child cell_id ps (insert p (add cell_id (lookup_or [] p cell_children)) cell_children)

unfoldable pub fill_children : Edges → Edges → Edges
unfolding add_child
fill_children [] cell_children = cell_children
fill_children ((cell_id, parents) ∷ edges) cell_children =
    fill_children edges (add_child cell_id parents cell_children)

-- for cell in cells_to_check: self.cell_children.setdefault(cell.cell_id, set())
unfoldable pub set_default : Registry → List ℕ → Edges → Edges
unfolding insert lookup_or
set_default g [] cell_children = cell_children
set_default g (r ∷ rs) cell_children =
    let id = (g.cell r).cell_id in
    set_default g rs (insert id (lookup_or [] id cell_children) cell_children)

unfoldable pub compute_filtered_parents :
    MutableDataflowSettings
    → View
    → Modified
    → Registry
    → List ℕ
    → CheckerResult
    → Option CheckerResult
unfolding fill_parents fill_children set_default
compute_filtered_parents settings view modified g cells_to_check res = do
  cell_parents ← fill_parents settings view modified g cells_to_check res.cell_parents
  some (record res {
    cell_parents = cell_parents;
    cell_children = set_default g cells_to_check (fill_children cell_parents res.cell_children);
  })
