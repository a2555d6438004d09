-- ===== src/Cells/Create.antt =====
-- `Cell.create_and_track` of core/ipyflow/data_model/cell.py.
use Prim.Native.String.{String}
use ipyflow.Base.{
  ℕ, ◌+◌, Bool, false, Option, none, some, List, [], ◌∷◌, ◌++◌, Dict, lookup_or, insert, add,
  discard, union, ℤ, pos, negsuc, minus_one, ltb_ℤ, ◌==◌, ◌&&◌, not, if◌then◌else◌,
}
use ipyflow.Cells.{Cell, Registry, MemoizedOutputLevel}
use ipyflow.Cells.Lookup.{from_id, store, ◌>>=◌}

-- What IPython counts: the counter that ipyflow saved, and `execution_count`.
pub record Ipython : Type 0 where
  pub saved_counter : ℕ
  pub execution_count : ℕ

pub record Options : Type 0 where
  pub bump_cell_counter : Bool
  pub validate_ipython_counter : Bool
  pub placeholder_id : Bool
  pub memoized_output_level : Option MemoizedOutputLevel

-- `Cell.__init__`, with the dictionaries that it allocates
unfoldable pub fresh_cell :
    ℕ → ℤ → String → List ℕ → Option ℕ → Bool → Option MemoizedOutputLevel → ℕ → Cell
fresh_cell cell_id cell_ctr content tags prev_cell placeholder_id level dict = record {
  cell_id = cell_id;
  cell_ctr = cell_ctr;
  last_check_content = none;
  error_in_exec = false;
  history = if ltb_ℤ minus_one cell_ctr then cell_ctr ∷ [] else [];
  executed_content = none;
  current_content = content;
  tags = tags;
  prev_cell = prev_cell;
  override_live_refs = none;
  override_dead_refs = none;
  reactive_tags = [];
  raw_dynamic_parents = [];
  raw_static_parents = [];
  raw_dynamic_children = dict;
  raw_static_children = dict + 1;
  used_symbols = [];
  static_removed_symbols = [];
  static_writes = [];
  dynamic_writes = [];
  pending_dynamic_writes = [];
  used_cell_counters_by_live_symbol = [];
  ready = false;
  placeholder_id = placeholder_id;
  memoized_output_level = level;
  skipped_due_to_memoization_ctr = minus_one;
}

-- What a new version takes over from the previous one.
unfoldable pub succeed : Cell → Cell → Cell
succeed prev c = record c {
  history = prev.history ++ c.history;
  raw_static_children = prev.raw_static_children;
  raw_dynamic_children = prev.raw_dynamic_children;
}

-- for tag in tags: by_tag[tag].discard(x), and .add(x)
unfoldable pub discard_each : ℕ → List ℕ → Dict (List ℕ) → Dict (List ℕ)
unfolding lookup_or insert discard
discard_each x [] by_tag = by_tag
discard_each x (tag ∷ tags) by_tag =
    discard_each x tags (insert tag (discard x (lookup_or [] tag by_tag)) by_tag)

unfoldable pub add_each : ℕ → List ℕ → Dict (List ℕ) → Dict (List ℕ)
unfolding lookup_or insert add
add_each x [] by_tag = by_tag
add_each x (tag ∷ tags) by_tag =
    add_each x tags (insert tag (add x (lookup_or [] tag by_tag)) by_tag)

-- the counter of the new cell; the bump and the validation
unfoldable pub next_counter : Ipython → Options → Registry → ℤ × ℕ
next_counter ip o g =
    let bumped = g.cell_counter + 1 in
    if o.bump_cell_counter
    then if o.validate_ipython_counter && not (bumped == ip.saved_counter)
      then (pos ip.execution_count, ip.execution_count)
      else (pos bumped, bumped)
    else (minus_one, g.cell_counter)

-- if cell_ctr > -1: cls._cell_by_cell_ctr[cell_ctr] = cell
unfoldable pub count_cell : ℤ → ℕ → Dict ℕ → Dict ℕ
unfolding insert
count_cell (pos n) r by_ctr = insert n r by_ctr
count_cell (negsuc _) r by_ctr = by_ctr

-- the end of the method, for a cell with no previous version
unfoldable pub track_first : ℕ → Cell → Registry → Registry
unfolding store add_each insert count_cell
track_first cell_id c g = record (store g g.next_cell c) {
  next_cell = g.next_cell + 1;
  next_dict = g.next_dict + 2;
  children =
      λ d. if d == g.next_dict then [] else if d == g.next_dict + 1 then [] else g.children d;
  cells_by_tag = add_each g.next_cell c.tags g.cells_by_tag;
  cell_by_cell_ctr = count_cell c.cell_ctr g.next_cell g.cell_by_cell_ctr;
  current_cell_by_cell_id = insert cell_id g.next_cell g.current_cell_by_cell_id;
}

-- and for one whose previous version is the cell `p`
unfoldable pub track_next : ℕ → ℕ → Cell → Registry → Registry
unfolding store add_each discard_each insert succeed count_cell
track_next p cell_id c g =
    let prev = g.cell p in
    record (store g g.next_cell (succeed prev c)) {
      next_cell = g.next_cell + 1;
      next_dict = g.next_dict + 2;
      children =
          λ d. if d == g.next_dict then [] else if d == g.next_dict + 1 then [] else g.children d;
      cells_by_tag = add_each g.next_cell c.tags (discard_each p prev.tags g.cells_by_tag);
      reactive_cells_by_tag = discard_each prev.cell_id prev.reactive_tags g.reactive_cells_by_tag;
      cell_by_cell_ctr = count_cell c.cell_ctr g.next_cell g.cell_by_cell_ctr;
      current_cell_by_cell_id =
          if ltb_ℤ prev.cell_ctr c.cell_ctr
          then insert cell_id g.next_cell g.current_cell_by_cell_id
          else g.current_cell_by_cell_id;
    }

-- The rest of the method, once the counter of the new cell is known. Returns the new cell; `none`
-- is the failed assertion that a cell which is not bumped has no previous version.
unfoldable pub create_with :
    Options → ℕ → String → List ℕ → ℤ × ℕ → Registry → Option (ℕ × Registry)
unfolding fresh_cell track_first track_next from_id union
create_with o cell_id content tags (cell_ctr, counter) g =
    let g' = record g { cell_counter = counter } in
    let new = λ (all_tags : List ℕ) (prev : Option ℕ).
      fresh_cell cell_id cell_ctr content all_tags prev o.placeholder_id o.memoized_output_level
        g.next_dict in
    elim (from_id g cell_id) [
      | none ↦ some (g.next_cell, track_first cell_id (new tags none) g')
      | some p ↦
          if o.bump_cell_counter
          then some
              (g.next_cell, track_next p cell_id (new (union tags (g.cell p).tags) (some p)) g')
          else none
    ]

-- the counter that ipyflow has saved afterwards
unfoldable pub saved_after : Ipython → Options → Registry → Ipython
saved_after ip o g =
    if o.bump_cell_counter
      && o.validate_ipython_counter
      && not (g.cell_counter + 1 == ip.saved_counter)
    then record ip { saved_counter = ip.execution_count }
    else ip

unfoldable pub create_and_track :
    Ipython → Options → ℕ → String → List ℕ → Registry → Option ((ℕ × Registry) × Ipython)
unfolding create_with next_counter saved_after
create_and_track ip o cell_id content tags g = do
  made ← create_with o cell_id content tags (next_counter ip o g) g
  some (made, saved_after ip o g)
