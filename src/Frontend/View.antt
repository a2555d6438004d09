-- ===== src/Frontend/View.antt =====
-- What the checker of core/ipyflow/frontend.py reads of symbols and of the flow, and the latest
-- parent of each timestamp (`get_latest_parent_by_ts_map` of core/ipyflow/data_model/cell.py). The
-- fields of symbols are given: core/ipyflow/data_model/symbol.py computes them.
use ipyflow.Base.{ℕ, Bool, Option, none, some, List, [], ◌∷◌, ℤ, diff, discard, if◌then◌else◌}
use ipyflow.Timestamp.{Timestamp, eq}
use ipyflow.Config.Contexts.{MutableDataflowSettings, SlicingContext, slicing_contexts}
use ipyflow.Slicing.EdgeSets.{Edges}
use ipyflow.Cells.{Registry, position_lt}
use ipyflow.Cells.Lookup.{from_id, ◌>>=◌}
use ipyflow.Cells.Positions.{position, directional_parents, is_in_order}

pub record View : Type 0 where
  pub shallow_timestamp : ℕ → Timestamp
  pub visible_timestamp : ℕ → Option Timestamp
  pub updated_timestamps : ℕ → List Timestamp
  pub is_implicit_virtual : ℕ → Bool
  pub traverse_up_namespaces : ℕ → List ℕ
  pub fake_edge_sym : ℕ
  pub min_timestamp : ℤ
  pub min_new_ready_cell_counter : ℤ
  pub cell_counter : ℤ
  -- `get_max_used_live_symbol_cell_counter` of a cell, at its checked live and dead symbols
  pub max_used_live_symbol_cell_counter : ℕ → ℤ

-- a dictionary from timestamps to cells
abbrev pub Latest : Type 0
Latest = List (Timestamp × ℕ)

unfoldable pub latest_at : Timestamp → Latest → Option ℕ
unfolding eq
latest_at ts [] = none
latest_at ts ((t, r) ∷ latest) = if eq t (some ts) then some r else latest_at ts latest

unfoldable pub put_latest : Timestamp → ℕ → Latest → Latest
unfolding eq
put_latest ts r [] = (ts, r) ∷ []
put_latest ts r ((t, q) ∷ latest) =
    if eq t (some ts) then (ts, r) ∷ latest else (t, q) ∷ put_latest ts r latest

-- the loop over the symbols of one edge
unfoldable pub latest_of_symbols :
    MutableDataflowSettings → View → Registry → ℕ → List ℕ → Latest → Latest
unfolding latest_at put_latest position position_lt
latest_of_symbols settings view g parent [] latest = latest
latest_of_symbols settings view g parent (s ∷ syms) latest =
    let ts = view.shallow_timestamp s in
    let so_far : ℕ = elim (latest_at ts latest) [ none ↦ parent | some r ↦ r ] in
    latest_of_symbols settings view g parent syms (
      if position_lt (position settings g parent) (position settings g so_far)
      then latest
      else put_latest ts parent latest)

unfoldable pub latest_of_parents :
    MutableDataflowSettings → View → Registry → ℕ → Edges → Latest → Option Latest
unfolding latest_of_symbols from_id diff discard
latest_of_parents settings view g self [] latest = some latest
latest_of_parents settings view g self ((pid, raw_syms) ∷ edges) latest = do
  parent ← from_id g pid
  latest_of_parents settings view g self edges (
      latest_of_symbols settings view g parent
        (discard view.fake_edge_sym (diff raw_syms (g.cell self).static_removed_symbols)) latest)

unfoldable pub latest_in_contexts :
    MutableDataflowSettings → View → Registry → ℕ → List SlicingContext → Latest → Option Latest
unfolding latest_of_parents directional_parents
latest_in_contexts settings view g self [] latest = some latest
latest_in_contexts settings view g self (context ∷ contexts) latest = do
  parents ← directional_parents settings g context self
  latest' ← latest_of_parents settings view g self parents latest
  latest_in_contexts settings view g self contexts latest'

-- The inner option is the `None` of a notebook whose order does not matter.
unfoldable pub get_latest_parent_by_ts_map :
    MutableDataflowSettings → View → Registry → ℕ → Option (Option Latest)
unfolding latest_in_contexts slicing_contexts
get_latest_parent_by_ts_map settings view g self =
    if is_in_order settings.flow_order
    then (latest_in_contexts settings view g self (slicing_contexts settings) [] >>= λ l.
        some (some l))
    else some none
