-- ===== src/Frontend/Links.antt =====
-- `_compute_ready_making_cells` and `_compute_waiter_and_ready_maker_links` of
-- core/ipyflow/frontend.py: from each waiting cell to the cells that would make it ready.
use ipyflow.Base.{
  ℕ, zero, suc, Bool, false, Option, none, some, List, [], ◌∷◌, insert, add, union, inter, diff,
  discard, length, ◌==◌, ◌||◌, not, if◌then◌else◌,
}
use ipyflow.Config.Contexts.{MutableDataflowSettings}
use ipyflow.Slicing.EdgeSets.{Edges, syms_of}
use ipyflow.Cells.{Registry, position_lt}
use ipyflow.Cells.Lookup.{from_id, ◌>>=◌}
use ipyflow.Cells.Positions.{position, is_in_order}
use ipyflow.Frontend.Checker.{CheckerResult, uses_dag, parent_keys}

-- the union of what the dictionary holds for each key
unfoldable pub union_of : List ℕ → Edges → List ℕ
unfolding union syms_of
union_of [] edges = []
union_of (k ∷ ks) edges = union (syms_of edges k) (union_of ks edges)

-- the cells whose position is before that of the waiting one
unfoldable pub placed_before : MutableDataflowSettings → Registry → ℕ → List ℕ → Option (List ℕ)
unfolding from_id position position_lt
placed_before settings g id [] = some []
placed_before settings g id (cid ∷ cids) = do
  q ← from_id g cid
  r ← from_id g id
  rest ← placed_before settings g id cids
  some (if position_lt (position settings g q) (position settings g r) then cid ∷ rest else rest)

-- the parents that are ready or wait, or, where edges are not used, the cells that would kill the
-- symbols that the cell waits for
unfoldable pub candidates :
    MutableDataflowSettings → Registry → Edges → Edges → CheckerResult → ℕ → Option (List ℕ)
unfolding parent_keys inter union union_of syms_of from_id
candidates settings g waiting_symbols killing_cells res id =
    if uses_dag settings.exec_schedule
    then (from_id g id >>= λ r. parent_keys settings g r >>= λ parents.
        some (inter parents (union res.ready_cells res.waiting_cells)))
    else some (union_of (syms_of waiting_symbols id) killing_cells)

unfoldable pub ready_makers :
    MutableDataflowSettings
    → Registry
    → Edges
    → Edges
    → Option ℕ
    → CheckerResult
    → ℕ
    → Option (List ℕ)
unfolding candidates placed_before discard from_id
ready_makers settings g waiting_symbols killing_cells last_executed res id = do
  found ← candidates settings g waiting_symbols killing_cells res id
  placed ←
      (if is_in_order settings.flow_order then placed_before settings g id found else some found)
  some (elim last_executed [ none ↦ placed | some last ↦ discard last placed ])

-- for waiting_cell_id in self.waiting_cells: self.waiter_links[waiting_cell_id] = ...
unfoldable pub fill_waiter_links :
    MutableDataflowSettings
    → Registry
    → Edges
    → Edges
    → Option ℕ
    → CheckerResult
    → List ℕ
    → Edges
    → Option Edges
unfolding ready_makers insert
fill_waiter_links settings g waiting_symbols killing_cells last_executed res [] links = some links
fill_waiter_links settings g waiting_symbols killing_cells last_executed res (id ∷ ids) links = do
  makers ← ready_makers settings g waiting_symbols killing_cells last_executed res id
  fill_waiter_links settings g waiting_symbols killing_cells last_executed res ids
      (insert id makers links)

unfoldable pub compute_ready_making_cells :
    MutableDataflowSettings
    → Registry
    → Edges
    → Edges
    → Option ℕ
    → CheckerResult
    → Option CheckerResult
unfolding fill_waiter_links
compute_ready_making_cells settings g waiting_symbols killing_cells last_executed res = do
  links ←
      fill_waiter_links settings g waiting_symbols killing_cells last_executed res res.waiting_cells
        res.waiter_links
  some (record res { waiter_links = links })

-- One round of the loop that closes the links of a waiting cell. A missing key of the default
-- dictionary holds the empty set.
unfoldable pub closer_links : List ℕ → ℕ → Edges → List ℕ
unfolding union union_of inter syms_of discard
closer_links waiting id links =
    let own = syms_of links id in discard id (union (union_of (inter own waiting) links) own)

unfoldable pub link_pass : List ℕ → List ℕ → Edges → Edges × Bool
unfolding closer_links insert syms_of
link_pass waiting [] links = (links, false)
link_pass waiting (id ∷ ids) links =
    let new_links = closer_links waiting id links in
    let (links', changed) = link_pass waiting ids (insert id new_links links) in
    (links', not (length (syms_of links id) == length new_links) || changed)

-- while waiter_link_changes; `none` is a lack of fuel
unfoldable pub close_links : ℕ → List ℕ → Edges → Option Edges
unfolding link_pass
close_links zero waiting links = none
close_links (suc fuel) waiting links =
    let (links', changed) = link_pass waiting waiting links in
    let rest = close_links fuel waiting links' in if changed then rest else some links'

-- for ready_making_cell_id in ids: self.ready_maker_links[ready_making_cell_id].add(waiting)
unfoldable pub add_maker : ℕ → List ℕ → Edges → Edges
unfolding insert syms_of add
add_maker waiting_id [] makers = makers
add_maker waiting_id (r ∷ rs) makers =
    add_maker waiting_id rs (insert r (add waiting_id (syms_of makers r)) makers)

-- The last loop: waiting cells leave the links, and the converse is recorded.
unfoldable pub finish_links : List ℕ → List ℕ → Edges → Edges → Edges × Edges
unfolding add_maker insert diff syms_of
finish_links waiting [] links makers = (links, makers)
finish_links waiting (id ∷ ids) links makers =
    let kept = diff (syms_of links id) waiting in
    finish_links waiting ids (insert id kept links) (add_maker id kept makers)

unfoldable pub compute_waiter_and_ready_maker_links : ℕ → CheckerResult → Option CheckerResult
unfolding close_links finish_links
compute_waiter_and_ready_maker_links fuel res = do
  closed ← close_links fuel res.waiting_cells res.waiter_links
  let (links, makers) =
      finish_links res.waiting_cells res.waiting_cells closed res.ready_maker_links
  some (record res { waiter_links = links; ready_maker_links = makers })
