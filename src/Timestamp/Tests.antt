-- ===== src/Timestamp/Tests.antt =====
-- Checks of core/ipyflow/data_model/timestamp.py on concrete points.
use ipyflow.Base.{◌≡◌, refl, true, false, some, not, ◌&&◌, ◌||◌, pos, minus_one, ◌+ℤ◌}
use ipyflow.Timestamp.{Timestamp, lt, eq, plus, uninitialized, is_initialized}
use ipyflow.Timestamp.Order.{lt_strict_total}
use ipyflow.Timestamp.Clock.{Clock, current, shift, offset, offset_lem}

abbrev third_cell : Timestamp
third_cell = record { cell_num = pos 3; stmt_num = minus_one }

abbrev first_statement : Timestamp
first_statement = record { cell_num = pos 3; stmt_num = pos 0 }

-- A cell's own timestamp has no statement: it is no real timestamp, and precedes its statements.
cell_before_statement : (lt third_cell first_statement ≡ true) × (is_initialized third_cell ≡ false)
unfolding lt is_initialized
cell_before_statement = (refl, refl)

lt_strict_total_example :
    (lt third_cell third_cell ≡ false)
    × ((lt third_cell first_statement
          && lt first_statement uninitialized
          && not (lt third_cell uninitialized))
        ≡ false)
    × ((lt third_cell first_statement && lt first_statement third_cell) ≡ false)
    × ((lt third_cell first_statement || lt first_statement third_cell)
        ≡ not (eq third_cell (some first_statement)))
lt_strict_total_example = lt_strict_total third_cell first_statement uninitialized

abbrev running : Clock
running = record {
  tracer_initialized = true;
  cell_counter = pos 4;
  module_stmt_counter = pos 2;
  cell_offset = pos 0;
  stmt_offset = pos 0;
}

-- runs one statement
abbrev one_statement : Clock → Timestamp × Clock
one_statement c = (current c, record c { module_stmt_counter = c.module_stmt_counter +ℤ pos 1 })

offset_lem_example :
    (current (shift minus_one (pos 1) running) ≡ plus (current running) minus_one (pos 1))
    × ((offset minus_one (pos 1) one_statement running).0
        ≡ current (shift minus_one (pos 1) running))
    × ((offset minus_one (pos 1) one_statement running).1
        ≡ record (one_statement (shift minus_one (pos 1) running)).1 {
          cell_offset = pos 0;
          stmt_offset = pos 0;
        })
offset_lem_example = offset_lem minus_one (pos 1) one_statement running refl (λ d. (refl, refl))
