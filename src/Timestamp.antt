-- ===== src/Timestamp.antt =====
-- core/ipyflow/data_model/timestamp.py: points in execution, and the clock they are read from.
pub mod Order
pub mod Clock
pub mod Tests
use ipyflow.Base.{
  ◌≡◌, Bool, true, false, ◌&&◌, ◌||◌, Option, none, some, ℤ, ◌+ℤ◌, ltb_ℤ, eqb_ℤ, minus_one,
}

pub record Timestamp : Type 0 where
  pub cell_num : ℤ
  pub stmt_num : ℤ

abbrev pub uninitialized : Timestamp
uninitialized = record { cell_num = minus_one; stmt_num = minus_one }

-- Both components lie above the sentinel's.
unfoldable pub is_initialized : Timestamp → Bool
is_initialized ts = ltb_ℤ minus_one ts.cell_num && ltb_ℤ minus_one ts.stmt_num

unfoldable pub plus : Timestamp → ℤ → ℤ → Timestamp
plus ts cell_num_delta stmt_num_delta = record {
  cell_num = ts.cell_num +ℤ cell_num_delta;
  stmt_num = ts.stmt_num +ℤ stmt_num_delta;
}

-- `==` compares the components, and is false beside `None`.
unfoldable pub eq : Timestamp → Option Timestamp → Bool
eq ts none = false
eq ts (some other) = eqb_ℤ ts.cell_num other.cell_num && eqb_ℤ ts.stmt_num other.stmt_num

-- `<` of the named tuple, component by component.
unfoldable pub lt : Timestamp → Timestamp → Bool
lt a b = ltb_ℤ a.cell_num b.cell_num || (eqb_ℤ a.cell_num b.cell_num && ltb_ℤ a.stmt_num b.stmt_num)
