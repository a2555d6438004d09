-- ===== src/Frontend/Whole.antt =====
-- `compute_frontend_checker_result` of core/ipyflow/frontend.py: all steps, in their order.
use ipyflow.Base.{ℕ, ◌+◌, Option, none, some, List, [], ◌∷◌, union, length, if◌then◌else◌}
use ipyflow.Config.Contexts.{MutableDataflowSettings}
use ipyflow.Cells.{Registry, Position, position_lt}
use ipyflow.Cells.Lookup.{from_id, get_reactive_ids_for_tag, current_cells_for_each_id, ◌>>=◌}
use ipyflow.Cells.Positions.{position}
use ipyflow.Frontend.Checker.{CheckerResult}
use ipyflow.Frontend.View.{View}
use ipyflow.Frontend.Waiting.{compute_dag_based_waiters}
use ipyflow.Frontend.Parents.{Modified, compute_filtered_parents}
use ipyflow.Frontend.Links.{compute_ready_making_cells, compute_waiter_and_ready_maker_links}
use ipyflow.Frontend.Check.{Check, Progress, check_each}

-- for tag in tags: every reactive cell of the tag is forced
unfoldable pub force_tags : Registry → List ℕ → List ℕ → List ℕ
unfolding get_reactive_ids_for_tag union
force_tags g [] forced = forced
force_tags g (tag ∷ tags) forced = force_tags g tags (union (get_reactive_ids_for_tag g tag) forced)

unfoldable pub get_last_executed_pos_and_handle_reactive_tags :
    MutableDataflowSettings
    → Registry
    → Option ℕ
    → CheckerResult
    → Option (Option Position × CheckerResult)
unfolding from_id force_tags position
get_last_executed_pos_and_handle_reactive_tags settings g none res = some (none, res)
get_last_executed_pos_and_handle_reactive_tags settings g (some id) res = do
  r ← from_id g id
  some (
    some (position settings g r),
    record res { forced_reactive_cells = force_tags g (g.cell r).tags res.forced_reactive_cells },
  )

insert_cell : MutableDataflowSettings → Registry → ℕ → List ℕ → List ℕ
insert_cell settings g r [] = r ∷ []
insert_cell settings g r (q ∷ qs) =
    if position_lt (position settings g q) (position settings g r)
    then q ∷ insert_cell settings g r qs
    else r ∷ q ∷ qs

-- sorted(cells_to_check, key=lambda c: c.position)
unfoldable pub sort_cells : MutableDataflowSettings → Registry → List ℕ → List ℕ
unfolding insert_cell position position_lt
sort_cells settings g [] = []
sort_cells settings g (r ∷ rs) = insert_cell settings g r (sort_cells settings g rs)

-- Everything that happens once all cells are checked. The number is fuel for the loop that closes
-- links.
unfoldable pub finish :
    MutableDataflowSettings
    → View
    → Modified
    → ℕ
    → Option ℕ
    → List ℕ
    → Progress
    → Option (CheckerResult × Registry)
unfolding compute_dag_based_waiters compute_ready_making_cells compute_waiter_and_ready_maker_links
    compute_filtered_parents
finish settings view modified fuel last_executed rs p = do
  (waited, g) ← compute_dag_based_waiters settings (length rs + 2) rs p.result p.registry
  made ←
      compute_ready_making_cells settings g p.waiting_symbols_by_cell_id
        p.killing_cell_ids_for_symbol last_executed waited
  linked ← compute_waiter_and_ready_maker_links fuel made
  filtered ← compute_filtered_parents settings view modified g rs linked
  some (filtered, g)

abbrev pub fresh_progress : CheckerResult → Registry → Progress
fresh_progress res g = record {
  result = res;
  registry = g;
  waiting_symbols_by_cell_id = [];
  killing_cell_ids_for_symbol = [];
}

-- The identifier of the last executed cell is the one that the flow knows, where none is given.
unfoldable pub compute_frontend_checker_result :
    MutableDataflowSettings
    → View
    → Modified
    → (ℕ → Option Check)
    → ℕ
    → Option (List ℕ)
    → Option ℕ
    → CheckerResult
    → Registry
    → Option (CheckerResult × Registry)
unfolding get_last_executed_pos_and_handle_reactive_tags current_cells_for_each_id sort_cells
    check_each finish
compute_frontend_checker_result settings view modified check fuel cells_to_check last_executed res
      g =
    do
      (last_pos, started) ←
          get_last_executed_pos_and_handle_reactive_tags settings g last_executed res
      let given : List ℕ = elim cells_to_check [ none ↦ current_cells_for_each_id g | some rs ↦ rs ]
      let rs = sort_cells settings g given
      p ← check_each settings view modified check last_pos rs (fresh_progress started g)
      finish settings view modified fuel last_executed rs p
