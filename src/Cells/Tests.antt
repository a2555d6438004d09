-- ===== src/Cells/Tests.antt =====
-- Checks of core/ipyflow/data_model/cell.py on small notebooks, and the theorems at concrete inputs.
use ipyflow.Base.{
  ◌≡◌, refl, true, false, none, some, [], ◌∷◌, pos, minus_one, lookup, has, inl, arith,
}
use ipyflow.Config.Modes.{lazy, in_order, dag_based, executed, unknown, batch, normal}
use ipyflow.Config.Contexts.{MutableDataflowSettings}
use ipyflow.Cells.Lookup.{from_id}
use ipyflow.Cells.Renaming.{update_id}
use ipyflow.Cells.Renamed.{update_id_lem}
use ipyflow.Cells.{Registry}
use ipyflow.Cells.Create.{Ipython, Options, fresh_cell, create_and_track}
use ipyflow.Cells.Invariant.{IsTracked}
use ipyflow.Cells.Tracking.{Creates, create_and_track_lem}

abbrev default_settings : MutableDataflowSettings
default_settings = record {
  dataflow_enabled = true;
  trace_messages_enabled = false;
  highlights = executed;
  interface = unknown;
  static_slicing_enabled = false;
  dynamic_slicing_enabled = true;
  exec_mode = lazy;
  exec_schedule = dag_based;
  flow_order = in_order;
  reactivity_mode = batch;
  push_reactive_updates = false;
  push_reactive_updates_to_cousins = false;
  pull_reactive_updates = false;
  color_scheme = normal;
  warn_out_of_order_usages = false;
  lint_out_of_order_usages = false;
  syntax_transforms_enabled = true;
  syntax_transforms_only = false;
  max_external_call_depth_for_tracing = 3;
  is_dev_mode = false;
}

abbrev no_cells : Registry
unfolding fresh_cell
no_cells = record {
  cell = λ r. fresh_cell 0 minus_one "" [] none false none 0;
  next_cell = 0;
  children = λ d. [];
  next_dict = 0;
  current_cell_by_cell_id = [];
  cell_by_cell_ctr = [];
  cell_counter = 0;
  position_by_cell_id = [];
  cell_id_by_position = [];
  cells_by_tag = [];
  reactive_cells_by_tag = [];
  override_current_cell = none;
}

no_cells-IsTracked : IsTracked no_cells
unfolding lookup has no_cells
no_cells-IsTracked = record {
  current_id = λ id r e. cc;
  current_old = λ id r e. cc;
  counted = λ n r e. cc;
  counted_old = λ n r e. cc;
  bounded = λ r lt. absurd (omega arith);
  prev_older = λ r q lt e. absurd (omega arith);
  prev_id = λ r q lt e. absurd (omega arith);
  registered = λ r lt. absurd (omega arith);
  latest = λ r q lt e. absurd (omega arith);
}

abbrev first_run : Ipython
first_run = record { saved_counter = 1; execution_count = 1 }

abbrev plain : Options
plain = record {
  bump_cell_counter = true;
  validate_ipython_counter = true;
  placeholder_id = false;
  memoized_output_level = none;
}

create_and_track_lem_example :
    Creates no_cells 5 "x = 0" (create_and_track first_run plain 5 "x = 0" (3 ∷ []) no_cells)
unfolding no_cells
create_and_track_lem_example =
    create_and_track_lem first_run plain 5 "x = 0" (3 ∷ []) no_cells no_cells-IsTracked
      (omega arith) (inl refl)

-- the cell that ran first gets the identifier 9
abbrev one_cell : Registry
one_cell = record no_cells {
  cell = λ r. fresh_cell 5 (pos 1) "x = 0" [] none false none 0;
  next_cell = 1;
  next_dict = 2;
  current_cell_by_cell_id = (5, 0) ∷ [];
  cell_by_cell_ctr = (1, 0) ∷ [];
  cell_counter = 1;
}

renamed_cell : (h : Registry) × (update_id default_settings 0 9 one_cell ≡ some h)
unfolding update_id fresh_cell
renamed_cell = (_, refl)

update_id_lem_example : from_id renamed_cell.0 9 ≡ some 0
unfolding fresh_cell from_id
update_id_lem_example =
    update_id_lem default_settings 0 9 one_cell renamed_cell.0 refl renamed_cell.1 9
