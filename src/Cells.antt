-- ===== src/Cells.antt =====
-- core/ipyflow/data_model/cell.py: the cells of a notebook, their versions and their registry.
--
-- A cell object is a number, its place in the heap. The class attributes of `Cell` are the fields
-- of a registry, which every class method takes and returns. Identifiers and tags are compared only
-- for equality, and numbers stand for them. `none` is an exception that the source raises.
pub mod Lookup
pub mod Positions
pub mod Create
pub mod Renaming
pub mod Partial
pub mod Renamed
pub mod Invariant
pub mod Tracking
pub mod Tests
use Prim.Native.String.{String}
use text.Mathlib.Text.{◌==◌ as str_eq}
use ipyflow.Base.{
  ℕ, ◌<◌, ◌≡◌, Bool, true, false, Option, none, some, List, [], ◌∷◌, ◌++◌, Dict, ℤ, pos, negsuc,
  minus_one, ltb_ℤ, eqb_ℤ, not, ltb, ◌==◌, if◌then◌else◌,
}
use ipyflow.Timestamp.{Timestamp}
use ipyflow.Slicing.EdgeSets.{Edges}

-- -1, an index in the notebook, or `float("inf")` for a cell that the notebook no longer shows
pub data Position : Type 0 where
  nowhere : Position
  at : ℕ → Position
  infinite : Position

unfoldable pub position_lt : Position → Position → Bool
position_lt nowhere nowhere = false
position_lt nowhere _ = true
position_lt (at m) nowhere = false
position_lt (at m) (at n) = ltb m n
position_lt (at m) infinite = true
position_lt infinite _ = false

unfoldable pub position_eq : Position → Position → Bool
position_eq nowhere nowhere = true
position_eq (at m) (at n) = m == n
position_eq infinite infinite = true
position_eq _ _ = false

pub data MemoizedOutputLevel : Type 0 where
  quiet normal verbose : MemoizedOutputLevel

pub record Cell : Type 0 where
  pub cell_id : ℕ
  pub cell_ctr : ℤ
  pub last_check_content : Option String
  pub error_in_exec : Bool
  pub history : List ℤ
  pub executed_content : Option String
  pub current_content : String
  pub tags : List ℕ
  pub prev_cell : Option ℕ
  pub override_live_refs : Option (List String)
  pub override_dead_refs : Option (List String)
  pub reactive_tags : List ℕ
  pub raw_dynamic_parents : Edges
  pub raw_static_parents : Edges
  -- the dictionaries that `raw_dynamic_children` and `raw_static_children` name
  pub raw_dynamic_children : ℕ
  pub raw_static_children : ℕ
  pub used_symbols : List ℕ
  pub static_removed_symbols : List ℕ
  pub static_writes : List ℕ
  pub dynamic_writes : List ℕ
  pub pending_dynamic_writes : List ℕ
  pub used_cell_counters_by_live_symbol : Dict (List ℕ)
  pub ready : Bool
  pub placeholder_id : Bool
  pub memoized_output_level : Option MemoizedOutputLevel
  pub skipped_due_to_memoization_ctr : ℤ

pub record Registry : Type 0 where
  -- the heap of cells and of dictionaries of children, with the numbers that are still free
  pub cell : ℕ → Cell
  pub next_cell : ℕ
  pub children : ℕ → Edges
  pub next_dict : ℕ
  pub current_cell_by_cell_id : Dict ℕ
  pub cell_by_cell_ctr : Dict ℕ
  pub cell_counter : ℕ
  pub position_by_cell_id : Dict Position
  pub cell_id_by_position : List (Position × ℕ)
  pub cells_by_tag : Dict (List ℕ)
  pub reactive_cells_by_tag : Dict (List ℕ)
  pub override_current_cell : Option ℕ

unfoldable pub timestamp : Cell → Timestamp
timestamp c = record { cell_num = c.cell_ctr; stmt_num = minus_one }

unfoldable pub is_executed : Cell → Bool
is_executed c = ltb_ℤ minus_one c.cell_ctr

abbrev same_content : Option String → String → Bool
same_content none s = false
same_content (some t) s = str_eq t s

-- whether the content differs from what ran
unfoldable pub is_dirty : Cell → Bool
is_dirty c = not (same_content c.executed_content c.current_content)

unfoldable pub is_memoized : Cell → Bool
is_memoized c = elim c.memoized_output_level [ none ↦ false | some _ ↦ true ]
