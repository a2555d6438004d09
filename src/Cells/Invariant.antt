-- ===== src/Cells/Invariant.antt =====
-- What holds of the registry of cells, and that `create_and_track` keeps it
-- (core/ipyflow/data_model/cell.py).
use ipyflow.Base.{
  ℕ, ◌+◌, ◌≤◌, ◌<◌, ◌≡◌, sym, ◌∙◌, ==_iff, true, some, ◌⊎◌, inl, inr, lookup, has, pos, ◌≤ℤ◌, ◌==◌,
  Bool-cases, if◌then◌else◌, arith,
}
use ipyflow.Cells.{Cell, Registry}

-- The current cell of an identifier carries it and is the latest of its versions; the cell of a
-- counter carries that; no counter is past the last one given out; and a previous version is an
-- older object with the same identifier.
pub record IsTracked (g : Registry) : Type 0 where
  pub current_id :
      (id r : ℕ) → lookup id g.current_cell_by_cell_id ≡ some r → (g.cell r).cell_id ≡ id
  pub current_old : (id r : ℕ) → lookup id g.current_cell_by_cell_id ≡ some r → r < g.next_cell
  pub counted : (n r : ℕ) → lookup n g.cell_by_cell_ctr ≡ some r → (g.cell r).cell_ctr ≡ pos n
  pub counted_old : (n r : ℕ) → lookup n g.cell_by_cell_ctr ≡ some r → r < g.next_cell
  pub bounded : (r : ℕ) → r < g.next_cell → (g.cell r).cell_ctr ≤ℤ pos g.cell_counter
  pub prev_older : (r q : ℕ) → r < g.next_cell → (g.cell r).prev_cell ≡ some q → q < r
  pub prev_id :
      (r q : ℕ)
      → r < g.next_cell
      → (g.cell r).prev_cell ≡ some q
      → (g.cell q).cell_id ≡ (g.cell r).cell_id
  pub registered :
      (r : ℕ) → r < g.next_cell → has (lookup (g.cell r).cell_id g.current_cell_by_cell_id) ≡ true
  pub latest :
      (r q : ℕ)
      → q < g.next_cell
      → lookup (g.cell q).cell_id g.current_cell_by_cell_id ≡ some r
      → (g.cell q).cell_ctr ≤ℤ (g.cell r).cell_ctr

-- How `h` comes from `g` when the cell `c` is tracked as the current one of `id`.
pub record Extends (g h : Registry) (id : ℕ) (c : Cell) : Type 0 where
  pub cells : (r : ℕ) → h.cell r ≡ (if r == g.next_cell then c else g.cell r)
  pub one_more : h.next_cell ≡ g.next_cell + 1
  pub current :
      (j : ℕ)
      → lookup j h.current_cell_by_cell_id
        ≡ (if j == id then some g.next_cell else lookup j g.current_cell_by_cell_id)
  pub counters :
      (m r : ℕ)
      → lookup m h.cell_by_cell_ctr ≡ some r
      → (lookup m g.cell_by_cell_ctr ≡ some r) ⊎ (r ≡ g.next_cell) × (c.cell_ctr ≡ pos m)
  pub own_counter : (m : ℕ) → c.cell_ctr ≡ pos m → lookup m h.cell_by_cell_ctr ≡ some g.next_cell
  pub named : c.cell_id ≡ id
  pub succeeds : c.prev_cell ≡ lookup id g.current_cell_by_cell_id
  pub counter_mono : g.cell_counter ≤ h.cell_counter
  pub counter_bound : c.cell_ctr ≤ℤ pos h.cell_counter
  pub newest :
      (r : ℕ) → r < g.next_cell → (g.cell r).cell_id ≡ id → (g.cell r).cell_ctr ≤ℤ c.cell_ctr

module _ (g h : Registry) (id : ℕ) (c : Cell) (v : IsTracked g) (x : Extends g h id c) where
  pub old_cell : (r : ℕ) → r < g.next_cell → h.cell r ≡ g.cell r
  old_cell r lt = ground (arith, x.cells r)

  pub new_cell : h.cell g.next_cell ≡ c
  new_cell = ground (arith, x.cells g.next_cell)

  old_or_new : (r : ℕ) → r < h.next_cell → (r < g.next_cell) ⊎ (r ≡ g.next_cell)
  old_or_new r lt = ground (arith, x.one_more)

  -- The fields of a cell, old or new, one by one.
  Extends-current : (j r : ℕ) → lookup j h.current_cell_by_cell_id ≡ some r → (h.cell r).cell_id ≡ j
  Extends-current j r e = elim (Bool-cases (j == id)) [
    | inl same ↦ ground (arith, x.current j, new_cell, x.named)
    | inr other ↦ ground (arith, x.current j, v.current_id j r, v.current_old j r, old_cell r)
  ]

  Extends-counted : (m r : ℕ) → lookup m h.cell_by_cell_ctr ≡ some r → (h.cell r).cell_ctr ≡ pos m
  Extends-counted m r e = elim (x.counters m r e) [
    | inl old ↦ ground (arith, v.counted m r, v.counted_old m r, old_cell r)
    | inr (is_new, ctr) ↦ ground (arith, new_cell)
  ]

  Extends-bounded : (r : ℕ) → r < h.next_cell → (h.cell r).cell_ctr ≤ℤ pos h.cell_counter
  Extends-bounded r lt = elim (old_or_new r lt) [
    | inl old ↦ rw (old_cell r old) (omega (arith, v.bounded r old, x.counter_mono))
    | inr is_new ↦ rw (is_new, new_cell) x.counter_bound
  ]

  -- The cell that a new one succeeds was current, so it is older and has the identifier.
  Extends-prev :
      (r q : ℕ)
      → r < h.next_cell
      → (h.cell r).prev_cell ≡ some q
      → (q < r) × ((h.cell q).cell_id ≡ (h.cell r).cell_id)
  Extends-prev r q lt e = elim (old_or_new r lt) [
    | inl old ↦
        let e' : (g.cell r).prev_cell ≡ some q = rw (old_cell r old) at e in
        let older = v.prev_older r q old e' in
        (older, rw (old_cell r old, old_cell q (omega arith)) (v.prev_id r q old e'))
    | inr is_new ↦
        let found : lookup id g.current_cell_by_cell_id ≡ some q =
          sym x.succeeds ∙ (rw (is_new, new_cell) at e) in
        let older = v.current_old id q found in
        (
          rw is_new older,
          rw (is_new, new_cell, old_cell q older) (v.current_id id q found ∙ sym x.named),
        )
  ]

  Extends-registered :
      (r : ℕ) → r < h.next_cell → has (lookup (h.cell r).cell_id h.current_cell_by_cell_id) ≡ true
  unfolding has
  Extends-registered r lt = elim (old_or_new r lt) [
    | inl old ↦ rw (old_cell r old) (ground (arith, x.current (g.cell r).cell_id, v.registered r))
    | inr is_new ↦ rw (is_new, new_cell) (ground (arith, x.current c.cell_id, x.named))
  ]

  Extends-latest :
      (r q : ℕ)
      → q < h.next_cell
      → lookup (h.cell q).cell_id h.current_cell_by_cell_id ≡ some r
      → (h.cell q).cell_ctr ≤ℤ (h.cell r).cell_ctr
  Extends-latest r q lt e = elim (old_or_new q lt) [
    | inl old ↦
        let e' : lookup (g.cell q).cell_id h.current_cell_by_cell_id ≡ some r =
          rw (old_cell q old) at e in
        elim (Bool-cases ((g.cell q).cell_id == id)) [
          | inl same ↦
              let r_new : r ≡ g.next_cell = ground (arith, x.current (g.cell q).cell_id) in
              rw (old_cell q old, r_new, new_cell)
                (x.newest q old ((==_iff (g.cell q).cell_id id).0 same))
          | inr other ↦
              let found : lookup (g.cell q).cell_id g.current_cell_by_cell_id ≡ some r =
                ground (arith, x.current (g.cell q).cell_id) in
              rw (old_cell q old, old_cell r (v.current_old (g.cell q).cell_id r found))
                (v.latest r q old found)
        ]
    | inr is_new ↦
        let r_new : r ≡ g.next_cell = ground (arith, x.current id, new_cell, x.named) in
        rw (is_new, r_new, new_cell) (omega arith)
  ]

  pub Extends-IsTracked : IsTracked h
  Extends-IsTracked = record {
    current_id = Extends-current;
    current_old = λ j r e. ground (arith, x.current j, x.one_more, v.current_old j r);
    counted = Extends-counted;
    counted_old = λ m r e. ground (arith, x.counters m r e, x.one_more, v.counted_old m r);
    bounded = Extends-bounded;
    prev_older = λ r q lt e. (Extends-prev r q lt e).0;
    prev_id = λ r q lt e. (Extends-prev r q lt e).1;
    registered = Extends-registered;
    latest = Extends-latest;
  }
