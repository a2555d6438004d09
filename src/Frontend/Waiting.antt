-- ===== src/Frontend/Waiting.antt =====
-- `_compute_dag_based_waiters` of core/ipyflow/frontend.py: a cell waits when one of its parents is
-- ready or waits itself.
use ipyflow.Base.{
  ℕ, zero, suc, Bool, false, Option, none, some, List, [], ◌∷◌, elem, add, diff, subset, ◌&&◌, ◌||◌,
  not, if◌then◌else◌,
}
use ipyflow.Config.Contexts.{MutableDataflowSettings}
use ipyflow.Cells.{Registry}
use ipyflow.Cells.Lookup.{from_id, set_ready, ◌>>=◌}
use ipyflow.Frontend.Checker.{CheckerResult, parent_keys, uses_dag}

-- A cell to check: its identifier and its parents' ones. The parents do not change while the loop
-- runs, so they are read once, and for the cells only that do not wait at its start, since the loop
-- passes over the others.
pub record Checked : Type 0 where
  pub id : ℕ
  pub parents : List ℕ

unfoldable pub read_parents :
    MutableDataflowSettings → Registry → List ℕ → List ℕ → Option (List Checked)
unfolding parent_keys elem
read_parents settings g waiting [] = some []
read_parents settings g waiting (r ∷ rs) =
    let rest = read_parents settings g waiting rs in
    if elem (g.cell r).cell_id waiting
    then rest
    else parent_keys settings g r >>= λ parents.
        rest >>= λ cs. some (record { id = (g.cell r).cell_id; parents = parents } ∷ cs)

-- whether some parent is in `ready_cells | waiting_cells`
unfoldable pub meets : List ℕ → List ℕ → List ℕ → Bool
unfolding elem
meets [] ready waiting = false
meets (p ∷ ps) ready waiting = elem p ready || elem p waiting || meets ps ready waiting

-- one pass over the cells to check
unfoldable pub pass : List ℕ → List Checked → List ℕ → List ℕ
unfolding elem meets add
pass ready [] waiting = waiting
pass ready (c ∷ cs) waiting =
    pass ready cs (
      if not (elem c.id waiting) && meets c.parents ready waiting
      then add c.id waiting
      else waiting)

-- a == b for sets
unfoldable pub same_set : List ℕ → List ℕ → Bool
unfolding subset
same_set a b = subset a b && subset b a

-- The loop goes on until a pass ends with what the previous one ended with; at the start that is
-- the empty set. `none` is a lack of fuel.
unfoldable pub passes : ℕ → List ℕ → List Checked → List ℕ → List ℕ → Option (List ℕ)
unfolding pass same_set
passes zero ready cs prev waiting = none
passes (suc fuel) ready cs prev waiting =
    let waiting' = pass ready cs waiting in
    let rest = passes fuel ready cs waiting' waiting' in
    if same_set prev waiting' then some waiting' else rest

-- for cell_id in self.waiting_cells: cells().from_id(cell_id).set_ready(False)
unfoldable pub unset_ready : List ℕ → Registry → Option Registry
unfolding from_id set_ready
unset_ready [] g = some g
unset_ready (id ∷ ids) g = do r ← from_id g id; unset_ready ids (set_ready g r false).0

-- the end of the method, once the waiting cells are known
unfoldable pub settle : CheckerResult → List ℕ → CheckerResult
unfolding diff
settle res waiting = record res {
  waiting_cells = waiting;
  ready_cells = diff res.ready_cells waiting;
  new_ready_cells = diff res.new_ready_cells waiting;
}

dag_based_waiters :
    MutableDataflowSettings
    → ℕ
    → List ℕ
    → CheckerResult
    → Registry
    → Option (CheckerResult × Registry)
dag_based_waiters settings fuel cells_to_check res g = do
  cs ← read_parents settings g res.waiting_cells cells_to_check
  waiting ← passes fuel res.ready_cells cs [] res.waiting_cells
  g' ← unset_ready waiting g
  some (settle res waiting, g')

unfoldable pub compute_dag_based_waiters :
    MutableDataflowSettings
    → ℕ
    → List ℕ
    → CheckerResult
    → Registry
    → Option (CheckerResult × Registry)
unfolding dag_based_waiters read_parents passes unset_ready settle
compute_dag_based_waiters settings fuel cells_to_check res g =
    if uses_dag settings.exec_schedule
    then dag_based_waiters settings fuel cells_to_check res g
    else some (res, g)
