-- ===== src/Frontend/Readiness.antt =====
-- `_compute_readiness` of core/ipyflow/frontend.py.
use ipyflow.Base.{
  ℕ, Bool, true, false, Option, none, some, List, [], ◌∷◌, ℤ, pos, elem, diff, subset, ltb_ℤ, eqb_ℤ,
  max_ℤ, ◌&&◌, ◌||◌, not, ◌==◌, if◌then◌else◌,
}
use ipyflow.Timestamp.{Timestamp}
use ipyflow.Config.Modes.{ExecutionSchedule, liveness_based, dag_based, hybrid_dag_liveness_based}
use ipyflow.Config.Contexts.{
  MutableDataflowSettings, SlicingContext, dynamic, static, slicing_contexts,
}
use ipyflow.Slicing.EdgeSets.{Edges}
use ipyflow.Cells.{Registry, position_lt}
use ipyflow.Cells.Lookup.{from_id, ◌>>=◌}
use ipyflow.Cells.Positions.{position, directional_parents, is_in_order}
use ipyflow.Frontend.Checker.{CheckerResult, uses_dag}
use ipyflow.Frontend.View.{View, Latest, latest_at, get_latest_parent_by_ts_map}

pub record Flags : Type 0 where
  pub is_ready : Bool
  pub is_new_ready : Bool

abbrev pub neither : Flags
neither = record { is_ready = false; is_new_ready = false }

-- pid in {latest_par_by_ts[sym.shallow_timestamp].cell_id for sym in syms}
unfoldable pub is_latest_for : View → Registry → Latest → ℕ → List ℕ → Option Bool
unfolding latest_at
is_latest_for view g latest pid [] = some false
is_latest_for view g latest pid (s ∷ syms) = do
  r ← latest_at (view.shallow_timestamp s) latest
  rest ← is_latest_for view g latest pid syms
  some (pid == (g.cell r).cell_id || rest)

-- whether a later parent gave all of the symbols, so that this one is passed over
unfoldable pub is_superseded : View → Registry → Option Latest → ℕ → List ℕ → Option Bool
unfolding is_latest_for elem
is_superseded view g none pid syms = some false
is_superseded view g (some latest) pid syms =
    if elem view.fake_edge_sym syms
    then some false
    else is_latest_for view g latest pid syms >>= λ is_latest. some (not is_latest)

-- par.cell_ctr in {sym.shallow_timestamp.cell_num for sym in syms}
unfoldable pub wrote_shallow : View → ℤ → List ℕ → Bool
wrote_shallow view ctr [] = false
wrote_shallow view ctr (s ∷ syms) =
    eqb_ℤ ctr (view.shallow_timestamp s).cell_num || wrote_shallow view ctr syms

-- whether the cell wrote the last visible version of a symbol that has since changed
abbrev wrote_visible_of : ℤ → Timestamp → Option Timestamp → Bool
wrote_visible_of ctr shallow none = false
wrote_visible_of ctr shallow (some ts) =
    eqb_ℤ ctr ts.cell_num && not (eqb_ℤ ts.cell_num shallow.cell_num)

unfoldable pub wrote_visible : View → ℤ → List ℕ → Bool
wrote_visible view ctr [] = false
wrote_visible view ctr (s ∷ syms) =
    wrote_visible_of ctr (view.shallow_timestamp s) (view.visible_timestamp s)
    || wrote_visible view ctr syms

-- the test of the edge from a parent with the given counter
unfoldable pub is_newer : MutableDataflowSettings → View → ℤ → ℤ → List ℕ → Bool
unfolding wrote_shallow wrote_visible
is_newer settings view cell_ctr par_ctr syms =
    (ltb_ℤ (max_ℤ cell_ctr view.min_timestamp) par_ctr
      && (settings.pull_reactive_updates || wrote_shallow view par_ctr syms))
    || wrote_visible view par_ctr syms

-- whether a parent further down the notebook provides the symbols too
unfoldable pub provided_below :
    MutableDataflowSettings → View → Registry → ℕ → List ℕ → Edges → Option Bool
unfolding from_id subset elem position position_lt
provided_below settings view g par syms [] = some false
provided_below settings view g par syms ((other_pid, other_syms) ∷ edges) =
    let rest = provided_below settings view g par syms edges in
    from_id g other_pid >>= λ other.
    if position_lt (position settings g par) (position settings g other)
      && (subset syms other_syms || elem view.fake_edge_sym other_syms)
    then some true
    else rest

abbrev pub is_static : SlicingContext → Bool
is_static static = true
is_static dynamic = false

unfoldable pub should_skip :
    MutableDataflowSettings → View → Registry → SlicingContext → ℕ → List ℕ → Edges → Option Bool
unfolding provided_below
should_skip settings view g context par syms edges =
    if is_in_order settings.flow_order && is_static context
    then provided_below settings view g par syms edges
    else some false

-- The loop over the parents in one context; `all` are its edges. Where the flags are returned, the
-- source breaks.
unfoldable pub scan_parents :
    MutableDataflowSettings
    → View
    → Registry
    → SlicingContext
    → Option Latest
    → Edges
    → ℕ
    → Edges
    → Flags
    → Option Flags
unfolding from_id diff elem is_superseded is_newer should_skip
scan_parents settings view g context latest all self [] flags = some flags
scan_parents settings view g context latest all self ((pid, raw_syms) ∷ edges) flags =
    let scan = scan_parents settings view g context latest all self edges in
    let ctr = (g.cell self).cell_ctr in
    let syms = diff raw_syms (g.cell self).static_removed_symbols in
    from_id g pid >>= λ par.
    let par_ctr = (g.cell par).cell_ctr in
    if elem view.fake_edge_sym syms && ltb_ℤ ctr (pos 0) && ltb_ℤ (pos 0) par_ctr
    then some (record flags { is_ready = true })
    else is_superseded view g latest pid syms >>= λ superseded.
        if superseded
        then scan flags
        else if not (is_newer settings view ctr par_ctr syms)
        then scan flags
        else should_skip settings view g context par syms all >>= λ skip.
            if skip
            then scan flags
            else if not (ltb_ℤ par_ctr view.min_new_ready_cell_counter) && ltb_ℤ (pos 0) ctr
            then some (record { is_ready = true; is_new_ready = true })
            else scan (record flags { is_ready = true })

-- The loop over the contexts, which stops once the cell is newly ready.
unfoldable pub scan_contexts :
    MutableDataflowSettings
    → View
    → Registry
    → Option Latest
    → ℕ
    → List SlicingContext
    → Flags
    → Option Flags
unfolding scan_parents directional_parents
scan_contexts settings view g latest self [] flags = some flags
scan_contexts settings view g latest self (context ∷ contexts) flags =
    if flags.is_new_ready
    then some flags
    else directional_parents settings g context self >>= λ parents.
        scan_parents settings view g context latest parents self parents flags
        >>= scan_contexts settings view g latest self contexts

unfoldable pub dag_readiness : MutableDataflowSettings → View → Registry → ℕ → Option Flags
unfolding scan_contexts get_latest_parent_by_ts_map slicing_contexts
dag_readiness settings view g self = do
  latest ← get_latest_parent_by_ts_map settings view g self
  scan_contexts settings view g latest self (slicing_contexts settings) neither

abbrev pub uses_liveness : ExecutionSchedule → Bool → Bool
uses_liveness liveness_based in_order = true
uses_liveness dag_based in_order = false
uses_liveness hybrid_dag_liveness_based in_order = in_order

-- the part of the method that looks at live symbols
unfoldable pub liveness_readiness : MutableDataflowSettings → View → Registry → ℕ → Flags → Flags
liveness_readiness settings view g self flags =
    let ctr = (g.cell self).cell_ctr in
    let max_used = view.max_used_live_symbol_cell_counter self in
    if not flags.is_new_ready
      && uses_liveness settings.exec_schedule (is_in_order settings.flow_order)
      && ltb_ℤ (max_ℤ ctr view.min_timestamp) max_used
    then if ltb_ℤ (pos 0) ctr && not (ltb_ℤ max_used view.min_new_ready_cell_counter)
      then record { is_ready = true; is_new_ready = true }
      else record flags { is_ready = true }
    else flags

unfoldable pub compute_readiness :
    MutableDataflowSettings → View → CheckerResult → Registry → ℕ → Option Flags
unfolding elem dag_readiness liveness_readiness
compute_readiness settings view res g self =
    if elem (g.cell self).cell_id res.waiting_cells
    then some neither
    else (if uses_dag settings.exec_schedule
        then dag_readiness settings view g self
        else some neither)
      >>= λ flags. some (liveness_readiness settings view g self flags)
