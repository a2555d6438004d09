-- ===== src/Timestamp/Clock.antt =====
-- `Timestamp.current` and the context manager `Timestamp.offset`
-- (core/ipyflow/data_model/timestamp.py). The module's two offsets are fields of the clock, beside
-- what the flow and the tracer count.
use ipyflow.Base.{
  ◌≡◌, refl, ap, ◌∙◌, Bool, true, ℤ, ◌+ℤ◌, ◌-ℤ◌, +ℤ_cancel, +ℤ_assoc_left, if◌then◌else◌, ap,
}
use ipyflow.Timestamp.{Timestamp, plus, uninitialized}

pub record Clock : Type 0 where
  pub tracer_initialized : Bool
  pub cell_counter : ℤ
  pub module_stmt_counter : ℤ
  pub cell_offset : ℤ
  pub stmt_offset : ℤ

unfoldable pub current : Clock → Timestamp
current c =
    if c.tracer_initialized
    then record {
      cell_num = c.cell_counter +ℤ c.cell_offset;
      stmt_num = c.module_stmt_counter +ℤ c.stmt_offset;
    }
    else uninitialized

-- the two offsets moved on
unfoldable pub shift : ℤ → ℤ → Clock → Clock
shift cell_offset stmt_offset c = record c {
  cell_offset = c.cell_offset +ℤ cell_offset;
  stmt_offset = c.stmt_offset +ℤ stmt_offset;
}

-- and moved back
unfoldable pub unshift : ℤ → ℤ → Clock → Clock
unshift cell_offset stmt_offset c = record c {
  cell_offset = c.cell_offset -ℤ cell_offset;
  stmt_offset = c.stmt_offset -ℤ stmt_offset;
}

-- `with Timestamp.offset(...): body`; the `finally` block runs whether the body ends well or not,
-- so an exception is one of the results that the body may have.
unfoldable pub offset {ℓ} : {A : Type ℓ} → ℤ → ℤ → (Clock → A × Clock) → Clock → A × Clock
unfolding shift unshift
offset cell_offset stmt_offset body c =
    let (a, c') = body (shift cell_offset stmt_offset c) in (a, unshift cell_offset stmt_offset c')

-- When tracing is on, the time read under an offset is the time outside it, plus the deltas.
current-shift :
    (m n : ℤ) (c : Clock)
    → c.tracer_initialized ≡ true
    → current (shift m n c) ≡ plus (current c) m n
unfolding current shift plus
current-shift m n c live = simp (live, +ℤ_assoc_left)

-- What is shifted and then moved back is where it was.
unshift-shift :
    (m n : ℤ) (c d : Clock)
    → d.cell_offset ≡ c.cell_offset +ℤ m
    → d.stmt_offset ≡ c.stmt_offset +ℤ n
    → unshift m n d ≡ record d { cell_offset = c.cell_offset; stmt_offset = c.stmt_offset }
unfolding unshift
unshift-shift m n c d h k =
    let cells = ap (λ z. z -ℤ m) h ∙ +ℤ_cancel c.cell_offset m in
    let stmts = ap (λ z. z -ℤ n) k ∙ +ℤ_cancel c.stmt_offset n in
    λ i. record d { cell_offset = cells i; stmt_offset = stmts i }

-- A body that leaves the two offsets as it finds them, and may move the counters, starts at the
-- time shifted by the deltas when tracing is on; after `offset` the two offsets are what they were
-- before, all else is as the body leaves it, and the result is the body's.
pub offset_lem {ℓ} :
    {A : Type ℓ} (m n : ℤ) (body : Clock → A × Clock) (c : Clock)
    → c.tracer_initialized ≡ true
    → ((d : Clock)
        → ((body d).1.cell_offset ≡ d.cell_offset) × ((body d).1.stmt_offset ≡ d.stmt_offset))
    → (current (shift m n c) ≡ plus (current c) m n)
      × ((offset m n body c).0 ≡ (body (shift m n c)).0)
      × ((offset m n body c).1 ≡ record (body (shift m n c)).1 {
        cell_offset = c.cell_offset;
        stmt_offset = c.stmt_offset;
      })
unfolding offset shift
offset_lem m n body c live keeps =
    let (cells, stmts) = keeps (shift m n c) in
    (current-shift m n c live, refl, unshift-shift m n c (body (shift m n c)).1 cells stmts)
