-- ===== src/Cells/Positions.antt =====
-- Where cells stand in the notebook (core/ipyflow/data_model/cell.py), and the edges that their
-- order lets through.
use ipyflow.Base.{
  ℕ, Bool, true, false, Option, none, some, List, [], ◌∷◌, Dict, lookup, lookup_or, insert, keys,
  ◌&&◌, not, if◌then◌else◌,
}
use ipyflow.Config.Modes.{FlowDirection, in_order, any_order, Interface, ipython}
use ipyflow.Config.Contexts.{MutableDataflowSettings, SlicingContext, dynamic, static}
use ipyflow.Slicing.EdgeSets.{Edges}
use ipyflow.Cells.{Registry, Position, nowhere, at, infinite, position_lt, position_eq}
use ipyflow.Cells.Lookup.{from_id, ◌>>=◌}

abbrev pub is_in_order : FlowDirection → Bool
is_in_order in_order = true
is_in_order any_order = false

abbrev pub is_ipython : Interface → Bool
is_ipython ipython = true
is_ipython _ = false

-- In IPython, a cell with no position stands where its identifier, which is a number there, says.
unfoldable pub position : MutableDataflowSettings → Registry → ℕ → Position
unfolding lookup_or position_eq
position settings g self =
    let cell_id = (g.cell self).cell_id in
    let pos = lookup_or nowhere cell_id g.position_by_cell_id in
    if position_eq pos nowhere && is_in_order settings.flow_order && is_ipython settings.interface
    then at cell_id
    else pos

-- the entries of `edges` whose object passes the test on positions
unfoldable pub directional :
    MutableDataflowSettings → Registry → (Position → Bool) → Edges → Option Edges
unfolding from_id position
directional settings g ahead [] = some []
directional settings g ahead ((sid, syms) ∷ edges) = do
  r ← from_id g sid
  rest ← directional settings g ahead edges
  some (if ahead (position settings g r) then (sid, syms) ∷ rest else rest)

unfoldable pub raw_parents : Registry → SlicingContext → ℕ → Edges
raw_parents g dynamic self = (g.cell self).raw_dynamic_parents
raw_parents g static self = (g.cell self).raw_static_parents

unfoldable pub raw_children : Registry → SlicingContext → ℕ → Edges
raw_children g dynamic self = g.children (g.cell self).raw_dynamic_children
raw_children g static self = g.children (g.cell self).raw_static_children

-- With the notebook in order, only parents that stand before the cell count.
unfoldable pub directional_parents :
    MutableDataflowSettings → Registry → SlicingContext → ℕ → Option Edges
unfolding directional raw_parents position position_lt
directional_parents settings g context self =
    if is_in_order settings.flow_order
    then directional settings g (λ pos. position_lt pos (position settings g self))
        (raw_parents g context self)
    else some (raw_parents g context self)

-- And only children that stand after it.
unfoldable pub directional_children :
    MutableDataflowSettings → Registry → SlicingContext → ℕ → Option Edges
unfolding directional raw_children position position_lt
directional_children settings g context self =
    if is_in_order settings.flow_order
    then directional settings g (λ pos. position_lt (position settings g self) pos)
        (raw_children g context self)
    else some (raw_children g context self)

-- d[pos] = cell_id
unfoldable pub place : Position → ℕ → List (Position × ℕ) → List (Position × ℕ)
unfolding position_eq
place pos cell_id [] = (pos, cell_id) ∷ []
place pos cell_id ((q, other) ∷ ps) =
    if position_eq q pos then (pos, cell_id) ∷ ps else (q, other) ∷ place pos cell_id ps

-- the loop of `set_cell_positions` over the cells that had a position
unfoldable pub reposition :
    List ℕ
    → Dict Position
    → List (Position × ℕ)
    → record { order_index : Dict Position; by_position : List (Position × ℕ) }
unfolding lookup insert place
reposition [] order_index by_position = record {
  order_index = order_index;
  by_position = by_position;
}
reposition (cell_id ∷ cell_ids) order_index by_position = elim (lookup cell_id order_index) [
  | none ↦ reposition cell_ids (insert cell_id infinite order_index) by_position
  | some pos ↦ reposition cell_ids order_index (place pos cell_id by_position)
]

unfoldable pub set_cell_positions : MutableDataflowSettings → Dict Position → Registry → Registry
unfolding reposition keys
set_cell_positions settings order_index g =
    let moved = reposition (keys g.position_by_cell_id) order_index [] in
    if is_in_order settings.flow_order && not (is_ipython settings.interface)
    then record g {
      cell_id_by_position = moved.by_position;
      position_by_cell_id = moved.order_index;
    }
    else record g { position_by_cell_id = order_index }

-- with _override_position_index_for_current_flow_semantics(): body
unfoldable pub with_positions {ℓ} :
    {A : Type ℓ} → MutableDataflowSettings → (Registry → A × Registry) → Registry → A × Registry
unfolding set_cell_positions
with_positions settings body g =
    let (a, g') =
      body (if is_in_order settings.flow_order then g else set_cell_positions settings [] g) in
    (a, set_cell_positions settings g.position_by_cell_id g')

find_position : Position → Dict Position → Option ℕ
find_position pos [] = none
find_position pos ((cell_id, q) ∷ ps) =
    if position_eq q pos then some cell_id else find_position pos ps

-- The outer option is a `KeyError`, the inner one the `None` that the method returns.
unfoldable pub at_position : Registry → Position → Option (Option ℕ)
unfolding find_position from_id position_eq
at_position g pos = elim (find_position pos g.position_by_cell_id) [
  | none ↦ some none
  | some cell_id ↦ from_id g cell_id >>= λ r. some (some r)
]

insert_by_position : Position × ℕ → List (Position × ℕ) → List (Position × ℕ)
insert_by_position (pos, cell_id) [] = (pos, cell_id) ∷ []
insert_by_position (pos, cell_id) ((q, other) ∷ ps) =
    if position_lt q pos
    then (q, other) ∷ insert_by_position (pos, cell_id) ps
    else (pos, cell_id) ∷ (q, other) ∷ ps

unfoldable pub sort_by_position : List (Position × ℕ) → List (Position × ℕ)
unfolding insert_by_position position_lt
sort_by_position [] = []
sort_by_position (p ∷ ps) = insert_by_position p (sort_by_position ps)

current_cells : Registry → List (Position × ℕ) → Option (List ℕ)
current_cells g [] = some []
current_cells g ((pos, cell_id) ∷ ps) = do
  r ← from_id g cell_id
  rest ← current_cells g ps
  some (r ∷ rest)

unfoldable pub iterate_over_notebook_in_position_order : Registry → Option (List ℕ)
unfolding current_cells sort_by_position from_id
iterate_over_notebook_in_position_order g = current_cells g (sort_by_position g.cell_id_by_position)
