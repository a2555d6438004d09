-- ===== src/Cells/Lookup.antt =====
-- The class methods of core/ipyflow/data_model/cell.py that look cells up, and the small ones that
-- change one field.
use ipyflow.Base.{
  ℕ, suc, ◌+◌, Bool, false, Option, none, some, List, [], ◌∷◌, lookup, lookup_or, insert, values,
  has, add, ℤ, pos, negsuc, ltb_ℤ, ◌==◌, if◌then◌else◌,
}
use ipyflow.Timestamp.{Timestamp}
use ipyflow.Cells.{Cell, Registry}

infixl 5 ◌>>=◌
abbrev pub ◌>>=◌ {ℓ κ} : {A : Type ℓ} {B : Type κ} → Option A → (A → Option B) → Option B
none >>= f = none
some a >>= f = f a

-- heap[r] = c
unfoldable pub store : Registry → ℕ → Cell → Registry
store g r c = record g { cell = λ q. if q == r then c else g.cell q }

-- `from_id_nullable`, and `from_id` where `none` is a `KeyError`
unfoldable pub from_id : Registry → ℕ → Option ℕ
unfolding lookup
from_id g cell_id = lookup cell_id g.current_cell_by_cell_id

unfoldable pub has_id : Registry → ℕ → Bool
unfolding has lookup
has_id g cell_id = has (lookup cell_id g.current_cell_by_cell_id)

unfoldable pub at_counter : Registry → ℤ → Option ℕ
unfolding lookup
at_counter g (pos ctr) = lookup ctr g.cell_by_cell_ctr
at_counter g (negsuc _) = none

unfoldable pub at_timestamp : Registry → Timestamp → Option ℕ
unfolding at_counter
at_timestamp g ts = at_counter g ts.cell_num

unfoldable pub exec_counter : Registry → ℕ
exec_counter g = g.cell_counter

unfoldable pub next_exec_counter : Registry → ℕ
unfolding exec_counter
next_exec_counter g = exec_counter g + 1

unfoldable pub from_tag : Registry → ℕ → List ℕ
unfolding lookup_or
from_tag g tag = lookup_or [] tag g.cells_by_tag

unfoldable pub get_reactive_ids_for_tag : Registry → ℕ → List ℕ
unfolding lookup_or
get_reactive_ids_for_tag g tag = lookup_or [] tag g.reactive_cells_by_tag

unfoldable pub current_cells_for_each_id : Registry → List ℕ
unfolding values
current_cells_for_each_id g = values g.current_cell_by_cell_id

executed_ids : Registry → List ℕ → List ℕ
executed_ids g [] = []
executed_ids g (r ∷ rs) =
    let rest = executed_ids g rs in
    if ltb_ℤ (pos 0) (g.cell r).cell_ctr then (g.cell r).cell_id ∷ rest else rest

unfoldable pub all_executed_cell_ids : Registry → List ℕ
unfolding values executed_ids
all_executed_cell_ids g = executed_ids g (values g.cell_by_cell_ctr)

-- `self._current_cell_by_cell_id.get(self.cell_id) is self`
unfoldable pub is_current_for_id : Registry → ℕ → Bool
unfolding from_id
is_current_for_id g self = elim (from_id g (g.cell self).cell_id) [
  | none ↦ false
  | some r ↦ r == self
]

unfoldable pub current_cell : Registry → Option ℕ
unfolding lookup
current_cell g = elim g.override_current_cell [
  | some r ↦ some r
  | none ↦ lookup g.cell_counter g.cell_by_cell_ctr
]

-- returns the old flag
unfoldable pub set_ready : Registry → ℕ → Bool → Registry × Bool
unfolding store
set_ready g self new_ready =
    (store g self (record (g.cell self) { ready = new_ready }), (g.cell self).ready)

unfoldable pub mark_as_reactive_for_tag : Registry → ℕ → ℕ → Registry
unfolding store add lookup_or insert
mark_as_reactive_for_tag g self tag =
    let c = g.cell self in
    record (store g self (record c { reactive_tags = add tag c.reactive_tags })) {
      reactive_cells_by_tag =
          insert tag (add c.cell_id (lookup_or [] tag g.reactive_cells_by_tag))
            g.reactive_cells_by_tag;
    }

unfoldable pub add_used_cell_counter : Registry → ℕ → ℕ → ℤ → Registry
unfolding store add lookup_or insert
add_used_cell_counter g self symbol (pos (suc ctr)) =
    let c = g.cell self in
    let counters = add (suc ctr) (lookup_or [] symbol c.used_cell_counters_by_live_symbol) in
    store g self (record c {
      used_cell_counters_by_live_symbol =
          insert symbol counters c.used_cell_counters_by_live_symbol;
    })
add_used_cell_counter g self symbol _ = g

unfoldable pub clear : Registry → Registry
clear g = record g {
  current_cell_by_cell_id = [];
  cell_by_cell_ctr = [];
  cell_counter = 0;
  position_by_cell_id = [];
  cells_by_tag = [];
  reactive_cells_by_tag = [];
}

-- with self.override_current_cell(): body
unfoldable pub with_override {ℓ} :
    {A : Type ℓ} → ℕ → (Registry → A × Registry) → Registry → A × Registry
with_override self body g =
    let (a, g') = body (record g { override_current_cell = some self }) in
    (a, record g' { override_current_cell = g.override_current_cell })

-- sorted(cells, key=lambda cell: cell.cell_ctr)
insert_by_counter : Registry → ℕ → List ℕ → List ℕ
insert_by_counter g r [] = r ∷ []
insert_by_counter g r (q ∷ qs) =
    if ltb_ℤ (g.cell q).cell_ctr (g.cell r).cell_ctr
    then q ∷ insert_by_counter g r qs
    else r ∷ q ∷ qs

unfoldable pub sort_by_counter : Registry → List ℕ → List ℕ
unfolding insert_by_counter
sort_by_counter g [] = []
sort_by_counter g (r ∷ rs) = insert_by_counter g r (sort_by_counter g rs)

unfoldable pub iterate_over_notebook_in_counter_order : Registry → List ℕ
unfolding sort_by_counter current_cells_for_each_id
iterate_over_notebook_in_counter_order g = sort_by_counter g (current_cells_for_each_id g)

placeholders : Registry → List ℕ → List ℕ
placeholders g [] = []
placeholders g (r ∷ rs) =
    let rest = placeholders g rs in if (g.cell r).placeholder_id then r ∷ rest else rest

unfoldable pub with_placeholder_ids : Registry → List ℕ
unfolding sort_by_counter placeholders current_cells_for_each_id
with_placeholder_ids g = sort_by_counter g (placeholders g (current_cells_for_each_id g))
