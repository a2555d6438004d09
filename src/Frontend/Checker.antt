-- ===== src/Frontend/Checker.antt =====
-- `FrontendCheckerResult` of core/ipyflow/frontend.py, and the view of the notebook that its
-- methods read. Cells are named by their identifiers, and symbols by numbers.
use ipyflow.Base.{
  ℕ, Bool, true, false, Option, some, List, [], ◌∷◌, ◌++◌, Dict, keys, union, if◌then◌else◌,
}
use ipyflow.Config.Modes.{ExecutionSchedule, liveness_based, dag_based, hybrid_dag_liveness_based}
use ipyflow.Config.Contexts.{MutableDataflowSettings, SlicingContext, slicing_contexts}
use ipyflow.Slicing.EdgeSets.{Edges}
use ipyflow.Cells.{Registry}
use ipyflow.Cells.Lookup.{◌>>=◌}
use ipyflow.Cells.Positions.{directional_parents}

-- The fields that the methods below write. `waiter_links` and `ready_maker_links` are default
-- dictionaries of sets.
pub record CheckerResult : Type 0 where
  pub cell_parents : Edges
  pub cell_children : Edges
  pub waiting_cells : List ℕ
  pub ready_cells : List ℕ
  pub new_ready_cells : List ℕ
  pub forced_reactive_cells : List ℕ
  pub typecheck_error_cells : List ℕ
  pub unsafe_order_cells : Edges
  pub waiter_links : Edges
  pub ready_maker_links : Edges
  pub stale_parents : Edges
  pub stale_parents_by_executed_cell_by_child : Dict Edges
  pub stale_parents_by_child_by_executed_cell : Dict Edges
  pub allow_new_ready : Bool

abbrev pub empty : Bool → CheckerResult
empty allow_new_ready = record {
  cell_parents = [];
  cell_children = [];
  waiting_cells = [];
  ready_cells = [];
  new_ready_cells = [];
  forced_reactive_cells = [];
  typecheck_error_cells = [];
  unsafe_order_cells = [];
  waiter_links = [];
  ready_maker_links = [];
  stale_parents = [];
  stale_parents_by_executed_cell_by_child = [];
  stale_parents_by_child_by_executed_cell = [];
  allow_new_ready = allow_new_ready;
}

-- the sets of cells that `to_json` sends to the frontend
unfoldable pub sent_waiting : CheckerResult → List ℕ
unfolding union
sent_waiting res = union res.waiting_cells res.typecheck_error_cells

unfoldable pub sent_new_ready : CheckerResult → List ℕ
sent_new_ready res = if res.allow_new_ready then res.new_ready_cells else []

-- exec_schedule in (DAG_BASED, HYBRID_DAG_LIVENESS_BASED)
abbrev pub uses_dag : ExecutionSchedule → Bool
uses_dag liveness_based = false
uses_dag dag_based = true
uses_dag hybrid_dag_liveness_based = true

-- the keys of `directional_parents`, in one enabled context after the other
parent_keys_in : MutableDataflowSettings → Registry → List SlicingContext → ℕ → Option (List ℕ)
parent_keys_in settings g [] self = some []
parent_keys_in settings g (context ∷ contexts) self = do
  parents ← directional_parents settings g context self
  rest ← parent_keys_in settings g contexts self
  some (keys parents ++ rest)

unfoldable pub parent_keys : MutableDataflowSettings → Registry → ℕ → Option (List ℕ)
unfolding parent_keys_in slicing_contexts keys directional_parents
parent_keys settings g self = parent_keys_in settings g (slicing_contexts settings) self
