-- ===== src/Symbols/EdgeTests.antt =====
-- Checks of edges, garbage and chains (core/ipyflow/data_model/symbol.py and scope.py), and the
-- theorems at concrete inputs.
use ipyflow.Base.{
  ℕ, ◌+◌, has, if◌then◌else◌, ◌==◌, ◌↔◌, ◌≡◌, refl, true, false, none, some, List, [], ◌∷◌, ◌+ℤ◌,
  not, ◌&&◌, ◌||◌, pos, elem, lookup,
}
use ipyflow.Symbols.{text, index, default, Store}
use ipyflow.Symbols.Spaces.{put}
use ipyflow.Timestamp.{Timestamp, lt}
use ipyflow.Symbols.{has_time}
use ipyflow.Symbols.Times.{updated_timestamps, visible_timestamp}
use ipyflow.Symbols.Visible.{shows, visible_timestamp_lem}
use ipyflow.Symbols.Placed.{IsPlaced, put_lem}
use ipyflow.Symbols.Edges.{update_edges, overwrites}
use ipyflow.Symbols.Mirror.{IsMirrored, update_edges-IsMirrored}
use ipyflow.Symbols.Garbage.{collect_self_garbage}
use ipyflow.Symbols.Collected.{collect_self_garbage_lem}
use ipyflow.Symbols.Chains.{Atom, try_fully_resolve_attrsub_chain}
use ipyflow.Symbols.Resolved.{Resolves, try_fully_resolve_attrsub_chain_lem}
use ipyflow.Symbols.Tests.{no_cells, fresh_symbol, notebook, python}

-- x[0] resolves to the element
abbrev x_first : List Atom
x_first =
    record { value = text 0; is_callpoint = false; is_subscript = false }
    ∷ record { value = index (pos 0); is_callpoint = false; is_subscript = true }
    ∷ []

x_first_lem : try_fully_resolve_attrsub_chain python notebook 0 x_first ≡ some 1
unfolding try_fully_resolve_attrsub_chain
x_first_lem = refl

try_fully_resolve_attrsub_chain_lem_example :
    (try_fully_resolve_attrsub_chain python notebook 0 x_first ≡ some 1)
    ↔ Resolves python notebook 0 x_first 1
try_fully_resolve_attrsub_chain_lem_example =
    try_fully_resolve_attrsub_chain_lem python notebook 0 x_first 1

-- a notebook of symbols without edges, of which one is garbage
abbrev unrelated : Store
unrelated = record notebook {
  symbol = λ r. record (fresh_symbol (text r) default (100 + r) 0 []) { tombstone = r == 2 };
}

-- z = x + y
abbrev related : Store
unfolding update_edges
related = update_edges 2 (0 ∷ 1 ∷ []) true unrelated

update_edges-IsMirrored_example :
    IsMirrored related
    × ((x p : ℕ)
        → has (lookup p (related.symbol x).parents) ≡ (
            if x == 2
            then (elem p (0 ∷ 1 ∷ []) && not (p == 2))
              || (has (lookup p (unrelated.symbol 2).parents)
                  && not (overwrites unrelated 2 (0 ∷ 1 ∷ []) true))
            else has (lookup p (unrelated.symbol x).parents)))
unfolding related lookup
update_edges-IsMirrored_example =
    update_edges-IsMirrored 2 (0 ∷ 1 ∷ []) true unrelated (λ x p. refl)

related-IsMirrored : IsMirrored related
unfolding related lookup
related-IsMirrored = (update_edges-IsMirrored 2 (0 ∷ 1 ∷ []) true unrelated (λ x p. refl)).0

related_child :
    lookup 2 (related.symbol 0).children ≡ some (record { cell_num = pos 2; stmt_num = pos 0 } ∷ [])
unfolding related lookup ◌+ℤ◌
related_child = refl

collect_self_garbage_lem_example :
    (st' : Store) × (collect_self_garbage 2 99 related ≡ some st')
    × ((x y : ℕ)
        → lookup y (st'.symbol x).children
          ≡ (if y == 2 then none else lookup y (related.symbol x).children))
    × ((x y : ℕ)
        → lookup y (st'.symbol x).parents
          ≡ (if y == 2 then none else lookup y (related.symbol x).parents))
unfolding related lookup
collect_self_garbage_lem_example =
    collect_self_garbage_lem 2 99 related related-IsMirrored refl refl

-- y becomes an attribute of the object that x names
abbrev with_attribute : Store
with_attribute = elim (put notebook 1 (text 5) 2) [ none ↦ notebook | some st ↦ st ]

put_lem_example : IsPlaced python notebook 1 2 (text 5) 0 false with_attribute
unfolding put
put_lem_example = put_lem python notebook with_attribute 1 2 0 (text 5) false refl

-- a name that is no text is refused
put_refused : put notebook 1 (index (pos 3)) 2 ≡ none
unfolding put
put_refused = refl

-- the cell of the first counter is known
abbrev with_cell : Store
with_cell = record notebook {
  registry = record no_cells { cell_by_cell_ctr = (1, 0) ∷ []; next_cell = 1 };
}

abbrev first_time : Timestamp
first_time = record { cell_num = pos 1; stmt_num = pos 0 }

visible_timestamp_lem_example :
    (has_time first_time (updated_timestamps with_cell 0) ≡ true)
    × (shows with_cell.settings with_cell.registry first_time ≡ true)
    × ((u : Timestamp)
        → (has_time u (updated_timestamps with_cell 0)
            && (lt first_time u && shows with_cell.settings with_cell.registry u))
          ≡ false)
unfolding visible_timestamp
visible_timestamp_lem_example = visible_timestamp_lem with_cell 0 first_time refl
