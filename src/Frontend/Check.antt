-- ===== src/Frontend/Check.antt =====
-- `_check_one_cell` and `compute_frontend_checker_result` of core/ipyflow/frontend.py.
--
-- What `check_and_resolve_symbols` of core/ipyflow/data_model/cell.py finds in a cell is given. The
-- tables of phantom cells and of unsafe usages in the syntax tree are left out: no other field
-- depends on them.
use ipyflow.Base.{
  ℕ, Bool, true, false, Option, none, some, List, [], ◌∷◌, pos, insert, add, is_empty, ltb_ℤ, ◌&&◌,
  ◌||◌, not, if◌then◌else◌,
}
use ipyflow.Timestamp.{Timestamp}
use ipyflow.Config.Modes.{ExecutionSchedule, liveness_based, dag_based, hybrid_dag_liveness_based}
use ipyflow.Config.Contexts.{MutableDataflowSettings}
use ipyflow.Slicing.EdgeSets.{Edges, merge}
use ipyflow.Cells.{Registry, Position, position_lt}
use ipyflow.Cells.Lookup.{at_timestamp, set_ready, ◌>>=◌}
use ipyflow.Cells.Positions.{position, is_in_order}
use ipyflow.Frontend.Checker.{CheckerResult}
use ipyflow.Frontend.View.{View}
use ipyflow.Frontend.Readiness.{Flags, compute_readiness}
use ipyflow.Frontend.Parents.{Modified}
use ipyflow.Frontend.Stale.{compute_stale_parents, compute_stale_parent_makers}

-- What a check of a cell finds.
pub record Check : Type 0 where
  -- the timestamps of the live symbols that are deep and have been defined
  pub live_timestamps : List Timestamp
  -- the live symbols that wait at the position of the cell
  pub waiting_symbols : List ℕ
  pub has_unresolved_live_refs : Bool
  pub typechecks : Bool
  pub dead : List ℕ

-- what the loop over the cells to check changes
pub record Progress : Type 0 where
  pub result : CheckerResult
  pub registry : Registry
  pub waiting_symbols_by_cell_id : Edges
  pub killing_cell_ids_for_symbol : Edges

-- The cells, as objects, that a live symbol was last updated in, and that stand below the cell.
unfoldable pub unsafe_order :
    MutableDataflowSettings → Registry → ℕ → List Timestamp → Edges → Option Edges
unfolding at_timestamp position position_lt merge
unsafe_order settings g self [] unsafe = some unsafe
unsafe_order settings g self (ts ∷ rest) unsafe = do
  updated ← at_timestamp g ts
  unsafe_order settings g self rest (
      if position_lt (position settings g self) (position settings g updated)
      then merge (g.cell self).cell_id (updated ∷ []) unsafe
      else unsafe)

abbrev is_liveness_based : ExecutionSchedule → Bool
is_liveness_based liveness_based = true
is_liveness_based dag_based = false
is_liveness_based hybrid_dag_liveness_based = false

-- for dead_sym in checker_result.dead: killing_cell_ids_for_symbol[dead_sym].add(cell_id)
unfoldable pub add_killer : ℕ → List ℕ → Edges → Edges
unfolding merge
add_killer cell_id [] killing = killing
add_killer cell_id (s ∷ dead) killing = add_killer cell_id dead (merge s (cell_id ∷ []) killing)

-- the method up to its calls on stale parents
unfoldable pub record_check : MutableDataflowSettings → ℕ → Check → Progress → Option Progress
unfolding unsafe_order add_killer insert add
record_check settings self c p = do
  let g = p.registry
  let res = p.result
  let cell_id = (g.cell self).cell_id
  let waiting_symbols = if is_liveness_based settings.exec_schedule then c.waiting_symbols else []
  let has_unresolved = is_liveness_based settings.exec_schedule && c.has_unresolved_live_refs
  unsafe ←
      (if is_in_order settings.flow_order
        then unsafe_order settings g self c.live_timestamps res.unsafe_order_cells
        else some res.unsafe_order_cells)
  some (record p {
    result = record res {
      unsafe_order_cells = unsafe;
      waiting_cells =
          if not (is_empty waiting_symbols) || has_unresolved
          then add cell_id res.waiting_cells
          else res.waiting_cells;
      typecheck_error_cells =
          if c.typechecks then res.typecheck_error_cells else add cell_id res.typecheck_error_cells;
    };
    waiting_symbols_by_cell_id =
        if is_empty waiting_symbols
        then p.waiting_symbols_by_cell_id
        else insert cell_id waiting_symbols p.waiting_symbols_by_cell_id;
    killing_cell_ids_for_symbol = add_killer cell_id c.dead p.killing_cell_ids_for_symbol;
  })

-- cell.position <= last_executed_cell_pos, with the notebook in order
unfoldable pub is_above_executed : MutableDataflowSettings → Registry → ℕ → Option Position → Bool
unfolding position position_lt
is_above_executed settings g self none = false
is_above_executed settings g self (some last) =
    is_in_order settings.flow_order && not (position_lt last (position settings g self))

-- the end of the method, once the flags are known
unfoldable pub record_flags :
    MutableDataflowSettings → View → Option Position → ℕ → Flags → Progress → Progress
unfolding set_ready add is_above_executed
record_flags settings view last_pos self flags p =
    let g = p.registry in
    let res = p.result in
    let c = g.cell self in
    let (g', was_ready) = set_ready g self flags.is_ready in
    record p {
      registry = g';
      result = record res {
        ready_cells = if flags.is_ready then add c.cell_id res.ready_cells else res.ready_cells;
        new_ready_cells =
            if not (is_above_executed settings g self last_pos)
              && (flags.is_new_ready
                  || (ltb_ℤ (pos 0) c.cell_ctr
                      && not was_ready
                      && flags.is_ready
                      && not (ltb_ℤ view.cell_counter view.min_new_ready_cell_counter)))
            then add c.cell_id res.new_ready_cells
            else res.new_ready_cells;
      };
    }

-- A check that raises an exception leaves everything as it is.
unfoldable pub check_one_cell :
    MutableDataflowSettings
    → View
    → Modified
    → (ℕ → Option Check)
    → Option Position
    → ℕ
    → Progress
    → Option Progress
unfolding record_check compute_stale_parents compute_stale_parent_makers compute_readiness
    record_flags
check_one_cell settings view modified check last_pos self p = elim (check self) [
  | none ↦ some p
  | some c ↦ do
    p' ← record_check settings self c p
    res ← compute_stale_parents settings view p'.registry self p'.result
    res' ← compute_stale_parent_makers settings view modified p'.registry res
    flags ← compute_readiness settings view res' p'.registry self
    some (record_flags settings view last_pos self flags (record p' { result = res' }))
]

unfoldable pub check_each :
    MutableDataflowSettings
    → View
    → Modified
    → (ℕ → Option Check)
    → Option Position
    → List ℕ
    → Progress
    → Option Progress
unfolding check_one_cell
check_each settings view modified check last_pos [] p = some p
check_each settings view modified check last_pos (self ∷ rs) p =
    check_one_cell settings view modified check last_pos self p
    >>= check_each settings view modified check last_pos rs
