-- ===== src/Frontend/Tests.antt =====
-- Checks of core/ipyflow/frontend.py on small notebooks, and the theorems at concrete inputs.
use ipyflow.Base.{
  ℕ, zero, suc, ◌↔◌, ◌≡◌, refl, true, false, Option, none, some, List, [], ◌∷◌, pos, minus_one,
  elem, ◌==◌, ◌&&◌, not, ltb_ℤ, has, if◌then◌else◌, arith,
}
use ipyflow.Config.Modes.{lazy, in_order, dag_based, executed, unknown, batch, normal}
use ipyflow.Config.Contexts.{MutableDataflowSettings, slicing_contexts}
use ipyflow.Cells.{Cell, Registry, at}
use ipyflow.Cells.Create.{fresh_cell}
use ipyflow.Frontend.Checker.{empty}
use ipyflow.Frontend.View.{View, latest_in_contexts, get_latest_parent_by_ts_map}
use ipyflow.Frontend.Waiting.{Checked, passes}
use ipyflow.Frontend.Fixpoint.{Waits, given, for_ready, for_waiting, Listed, first, later}
use ipyflow.Frontend.Readiness.{
  scan_parents, scan_contexts, dag_readiness, liveness_readiness, compute_readiness,
}
use ipyflow.Cells.Lookup.{from_id}
use ipyflow.Slicing.EdgeSets.{syms_of}
use ipyflow.Frontend.Checker.{CheckerResult}
use ipyflow.Frontend.Waiters.{is_ready, compute_dag_based_waiters_lem}
use ipyflow.Frontend.Waiting.{read_parents, compute_dag_based_waiters}
use ipyflow.Frontend.Parents.{compute_filtered_parents}
use ipyflow.Frontend.Children.{compute_filtered_parents_lem}
use ipyflow.Frontend.Links.{close_links, finish_links}
use ipyflow.Frontend.Makers.{finish_links_lem}
use ipyflow.Frontend.Stale.{compute_stale_parent_makers}
use ipyflow.Frontend.Flip.{under, compute_stale_parent_makers_lem}
use ipyflow.Frontend.Check.{Check}
use ipyflow.Frontend.Whole.{compute_frontend_checker_result}
use ipyflow.Frontend.Ready.{compute_readiness_lem}

abbrev default_settings : MutableDataflowSettings
default_settings = record {
  dataflow_enabled = true;
  trace_messages_enabled = false;
  highlights = executed;
  interface = unknown;
  static_slicing_enabled = false;
  dynamic_slicing_enabled = true;
  exec_mode = lazy;
  exec_schedule = dag_based;
  flow_order = in_order;
  reactivity_mode = batch;
  push_reactive_updates = false;
  push_reactive_updates_to_cousins = false;
  pull_reactive_updates = false;
  color_scheme = normal;
  warn_out_of_order_usages = false;
  lint_out_of_order_usages = false;
  syntax_transforms_enabled = true;
  syntax_transforms_only = false;
  max_external_call_depth_for_tracing = 3;
  is_dev_mode = false;
}

-- the cells 10 and 11, where 11 reads the symbol 7, which 10 wrote again after 11 ran
abbrev cell_at : ℕ → Cell
unfolding fresh_cell
cell_at zero = fresh_cell 10 (pos 3) "x = 1" [] none false none 0
cell_at (suc _) = record (fresh_cell 11 (pos 2) "print(x)" [] none false none 2) {
  raw_dynamic_parents = (10, 7 ∷ []) ∷ [];
}

abbrev notebook : Registry
notebook = record {
  cell = cell_at;
  next_cell = 2;
  children = λ d. if d == 0 then (11, 7 ∷ []) ∷ [] else [];
  next_dict = 4;
  current_cell_by_cell_id = (10, 0) ∷ (11, 1) ∷ [];
  cell_by_cell_ctr = (3, 0) ∷ (2, 1) ∷ [];
  cell_counter = 3;
  position_by_cell_id = (10, at 0) ∷ (11, at 1) ∷ [];
  cell_id_by_position = (at 0, 10) ∷ (at 1, 11) ∷ [];
  cells_by_tag = [];
  reactive_cells_by_tag = [];
  override_current_cell = none;
}

abbrev view : View
view = record {
  shallow_timestamp = λ s. record { cell_num = pos 3; stmt_num = pos 0 };
  visible_timestamp = λ s. none;
  updated_timestamps = λ s. record { cell_num = pos 3; stmt_num = pos 0 } ∷ [];
  is_implicit_virtual = λ s. false;
  traverse_up_namespaces = λ s. s ∷ [];
  fake_edge_sym = 0;
  min_timestamp = minus_one;
  min_new_ready_cell_counter = pos 3;
  cell_counter = pos 3;
  max_used_live_symbol_cell_counter = λ r. minus_one;
}

reader_is_newly_ready :
    compute_readiness default_settings view (empty true) notebook 1
    ≡ some (record { is_ready = true; is_new_ready = true })
unfolding compute_readiness cell_at dag_readiness liveness_readiness scan_contexts scan_parents
    get_latest_parent_by_ts_map slicing_contexts latest_in_contexts
reader_is_newly_ready = refl

compute_readiness_lem_example :
    (true && elem 11 []) ≡ false × (true && not (true && ltb_ℤ (pos 0) (pos 2))) ≡ false
unfolding cell_at
compute_readiness_lem_example =
    compute_readiness_lem default_settings view notebook 1 (empty true)
      (record { is_ready = true; is_new_ready = true }) reader_is_newly_ready

-- 11 reads 10, which is ready, and 12 reads 11
abbrev chain : List Checked
chain =
    record { id = 10; parents = [] }
    ∷ record { id = 12; parents = 11 ∷ [] }
    ∷ record { id = 11; parents = 10 ∷ [] }
    ∷ []

waiting_chain : passes 5 (10 ∷ []) chain [] [] ≡ some (12 ∷ 11 ∷ [])
unfolding passes
waiting_chain = refl

-- 11 was linked to 10 and to 12, which waits too
finish_links_lem_example :
    (elem 10
        (syms_of (finish_links (11 ∷ 12 ∷ []) (11 ∷ 12 ∷ []) ((11, 10 ∷ 12 ∷ []) ∷ []) []).0 11)
      ≡ (elem 10 (syms_of ((11, 10 ∷ 12 ∷ []) ∷ []) 11) && not (elem 10 (11 ∷ 12 ∷ []))))
    × (elem 11
          (syms_of (finish_links (11 ∷ 12 ∷ []) (11 ∷ 12 ∷ []) ((11, 10 ∷ 12 ∷ []) ∷ []) []).1 10)
        ≡ elem 10 (
            syms_of (finish_links (11 ∷ 12 ∷ []) (11 ∷ 12 ∷ []) ((11, 10 ∷ 12 ∷ []) ∷ []) []).0 11))
unfolding elem
finish_links_lem_example = finish_links_lem (11 ∷ 12 ∷ []) ((11, 10 ∷ 12 ∷ []) ∷ []) 11 10 refl

abbrev drawn : CheckerResult
drawn = record (empty true) {
  cell_parents = (10, []) ∷ (11, 10 ∷ []) ∷ [];
  cell_children = (10, 11 ∷ []) ∷ (11, []) ∷ [];
}

reader_is_drawn :
    compute_filtered_parents default_settings view (λ r. none) notebook (0 ∷ 1 ∷ []) (empty true)
    ≡ some drawn
unfolding compute_filtered_parents cell_at
reader_is_drawn = refl

compute_filtered_parents_lem_example :
    elem 11 (syms_of drawn.cell_children 10) ≡ elem 10 (syms_of drawn.cell_parents 11)
compute_filtered_parents_lem_example =
    compute_filtered_parents_lem default_settings view (λ r. none) notebook (0 ∷ 1 ∷ [])
      (empty true) drawn refl refl reader_is_drawn 11 10

-- the cell 10 writes the symbol 7, so that it makes the parent 10 of 11 stale
abbrev writer_first : Registry
writer_first = record notebook {
  cell = λ r.
      if r == 0
      then record (fresh_cell 10 (pos 3) "x = 1" [] none false none 0) { dynamic_writes = 7 ∷ [] }
      else cell_at r;
}

abbrev stale : CheckerResult
stale = record (empty true) {
  stale_parents_by_executed_cell_by_child = (11, (10, 10 ∷ []) ∷ []) ∷ [];
  stale_parents_by_child_by_executed_cell = (10, (11, 10 ∷ []) ∷ []) ∷ [];
}

writer_makes_stale :
    compute_stale_parent_makers default_settings view (λ r. none) writer_first (empty true)
    ≡ some stale
unfolding compute_stale_parent_makers cell_at fresh_cell
writer_makes_stale = refl

compute_stale_parent_makers_lem_example :
    elem 10 (under stale.stale_parents_by_executed_cell_by_child 11 10)
    ≡ elem 10 (under stale.stale_parents_by_child_by_executed_cell 10 11)
unfolding under
compute_stale_parent_makers_lem_example =
    compute_stale_parent_makers_lem default_settings view (λ r. none) writer_first (empty true)
      stale (λ c e p. refl) writer_makes_stale 11 10 10

-- Only the reader is checked: 11 is newly ready, and no cell waits.
abbrev plain_check : ℕ → Option Check
plain_check r = some (record {
  live_timestamps = [];
  waiting_symbols = [];
  has_unresolved_live_refs = false;
  typechecks = true;
  dead = [];
})

abbrev checked : CheckerResult
checked = record drawn { ready_cells = 11 ∷ []; new_ready_cells = 11 ∷ [] }

whole_notebook :
    (h : Registry) × (compute_frontend_checker_result default_settings view
        (λ r. none)
        plain_check
        1
        (some (1 ∷ 0 ∷ []))
        none
        (empty true)
        notebook
      ≡ some (checked, h))
unfolding compute_frontend_checker_result cell_at
whole_notebook = (_, refl)

-- 10 is ready, and 11 reads it
abbrev reads_ready : CheckerResult
reads_ready = record (empty true) { ready_cells = 10 ∷ [] }

abbrev both : List Checked
both = record { id = 10; parents = [] } ∷ record { id = 11; parents = 10 ∷ [] } ∷ []

both_registered : (x : ℕ) (ps : List ℕ) → Listed both x ps → has (from_id notebook x) ≡ true
unfolding has from_id
both_registered x ps first = refl
both_registered x ps (later first) = refl
both_registered x ps (later (later l)) = elim l [ ]

waiting_registered : (x : ℕ) → Waits (10 ∷ []) [] both x → has (from_id notebook x) ≡ true
unfolding elem
waiting_registered x (given m) = cc
waiting_registered x (for_ready {ps = ps} l p m r) = both_registered x ps l
waiting_registered x (for_waiting {ps = ps} l p m k) = both_registered x ps l

compute_dag_based_waiters_lem_example :
    (res' : CheckerResult) × ((h : Registry) × (compute_dag_based_waiters default_settings 4
          (0 ∷ 1 ∷ [])
          reads_ready
          notebook
        ≡ some (res', h))
      × ((x : ℕ) → (elem x res'.waiting_cells ≡ true) ↔ ∥ Waits (10 ∷ []) [] both x ∥₁)
      × ((x : ℕ) → elem x res'.ready_cells ≡ (elem x (10 ∷ []) && not (elem x res'.waiting_cells)))
      × ((x : ℕ) → elem x res'.new_ready_cells ≡ (elem x [] && not (elem x res'.waiting_cells)))
      × ((x : ℕ) → (elem x res'.waiting_cells && is_ready h x) ≡ false))
unfolding cell_at read_parents
compute_dag_based_waiters_lem_example =
    compute_dag_based_waiters_lem default_settings 4 (0 ∷ 1 ∷ []) reads_ready notebook both refl
      refl (omega arith) waiting_registered

-- Four waiting cells, three of which are linked to themselves: the loop stops after its first pass,
-- and 11 is not linked to 8, which it reaches through 12, 10 and 9.
self_links_stop_early :
    close_links 2
      (11 ∷ 12 ∷ 10 ∷ 9 ∷ [])
      ((11, 11 ∷ 12 ∷ []) ∷ (12, 12 ∷ 10 ∷ []) ∷ (10, 10 ∷ 9 ∷ []) ∷ (9, 8 ∷ []) ∷ [])
    ≡ some ((11, 10 ∷ 12 ∷ []) ∷ (12, 9 ∷ 10 ∷ []) ∷ (10, 8 ∷ 9 ∷ []) ∷ (9, 8 ∷ []) ∷ [])
unfolding close_links
self_links_stop_early = refl
