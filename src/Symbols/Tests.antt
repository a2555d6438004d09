-- ===== src/Symbols/Tests.antt =====
-- Checks of core/ipyflow/data_model/symbol.py and update_protocol.py on a small notebook, and the
-- theorems at concrete inputs.
use ipyflow.Base.{
  ℕ, zero, suc, ◌<◌, ◌≡◌, refl, Bool, true, false, Option, none, some, List, [], ◌∷◌, Dict, ℤ, map,
  ◌+ℤ◌, not, ◌&&◌, ◌||◌, ◌⊎◌, elem-cons, elem-nil, pos, minus_one, elem, lookup, lookup_or, keys,
  arith,
}
use ipyflow.Config.Modes.{lazy, in_order, dag_based, executed, unknown, batch, normal}
use ipyflow.Config.Contexts.{MutableDataflowSettings}
use ipyflow.Timestamp.{Timestamp, uninitialized}
use ipyflow.Timestamp.Clock.{current}
use ipyflow.Cells.{Registry}
use ipyflow.Cells.Create.{fresh_cell}
use ipyflow.Symbols.{
  Name, name_eq, text, index, SymbolType, default, subscript, no_stmt, Symbol, Space, Python, Store,
}
use ipyflow.Symbols.Spaces.{owners, symbols_in, aliases_of, namespace, all_symbols, entries}
use ipyflow.Symbols.Refresh.{Walk, refresh}
use ipyflow.Symbols.Times.{for_each}
use ipyflow.Symbols.Propagate.{
  dependents, from_class, without, collect, pass_on, to_deps, update_protocol, directly_updated,
}
use ipyflow.Symbols.Named.{IsNamed}
use ipyflow.Symbols.Skeleton.{SameBones}
use ipyflow.Symbols.Meaning.{
  follows, must_wait, MustUpdate, is_imported, leads_to, is_member, IsSettled,
}
use ipyflow.Symbols.Gathered.{collect_lem}
use ipyflow.Symbols.Rounds.{pass_on_closed}
use ipyflow.Symbols.Renewal.{refresh_lem}
use ipyflow.Symbols.Protocol.{note_updated, update_protocol_lem}

abbrev pub default_settings : MutableDataflowSettings
default_settings = record {
  dataflow_enabled = true;
  trace_messages_enabled = false;
  highlights = executed;
  interface = unknown;
  static_slicing_enabled = false;
  dynamic_slicing_enabled = true;
  exec_mode = lazy;
  exec_schedule = dag_based;
  flow_order = in_order;
  reactivity_mode = batch;
  push_reactive_updates = false;
  push_reactive_updates_to_cousins = false;
  pull_reactive_updates = false;
  color_scheme = normal;
  warn_out_of_order_usages = false;
  lint_out_of_order_usages = false;
  syntax_transforms_enabled = true;
  syntax_transforms_only = false;
  max_external_call_depth_for_tracing = 3;
  is_dev_mode = false;
}

abbrev pub no_cells : Registry
unfolding fresh_cell
no_cells = record {
  cell = λ r. fresh_cell 0 minus_one "" [] none false none 0;
  next_cell = 0;
  children = λ d. [];
  next_dict = 0;
  current_cell_by_cell_id = [];
  cell_by_cell_ctr = [];
  cell_counter = 0;
  position_by_cell_id = [];
  cell_id_by_position = [];
  cells_by_tag = [];
  reactive_cells_by_tag = [];
  override_current_cell = none;
}

abbrev pub fresh_symbol : Name → SymbolType → ℕ → ℕ → Dict (List Timestamp) → Symbol
fresh_symbol name kind obj_id scope children = record {
  name = name;
  symbol_type = kind;
  obj_id = obj_id;
  cached_obj_id = some obj_id;
  cached_out_of_sync = true;
  containing_scope = scope;
  stmt_node = no_stmt;
  tombstone = false;
  parents = [];
  children = children;
  own_timestamp = record { cell_num = pos 1; stmt_num = pos 0 };
  override_timestamp = none;
  required_timestamp = uninitialized;
  snapshot_timestamps = [];
  snapshot_timestamp_ubounds = [];
  updated_timestamps = [];
  fresher_ancestors = [];
  fresher_ancestor_timestamps = [];
  cells_where_deep_live = [];
  cells_where_shallow_live = [];
  implicit = false;
  disable_warnings = false;
  temp_disable_warnings = false;
}

-- x = [1]; y = x + [2]; z = x[0] + 1
abbrev pub symbol_at : ℕ → Symbol
symbol_at zero = fresh_symbol (text 0) default 100 0 ((2, []) ∷ [])
symbol_at (suc zero) = fresh_symbol (index (pos 0)) subscript 101 1 ((3, []) ∷ [])
symbol_at (suc (suc zero)) = fresh_symbol (text 1) default 102 0 []
symbol_at _ = fresh_symbol (text 2) default 103 0 []

abbrev pub scope_at : ℕ → Space
scope_at (suc zero) = record {
  scope_name = 0;
  parent_scope = some 0;
  symbol_by_name = [];
  is_namespace = true;
  obj = 100;
  cached_obj_id = 100;
  cloned_from = none;
  child_clones = [];
  original_symbol = some 0;
  tombstone = false;
  max_descendent_timestamp = uninitialized;
  subscript_symbol_by_name = (index (pos 0), 1) ∷ [];
  namespace_waiting_symbols = [];
}
scope_at _ = record {
  scope_name = 1;
  parent_scope = none;
  symbol_by_name = (text 0, 0) ∷ (text 1, 2) ∷ (text 2, 3) ∷ [];
  is_namespace = false;
  obj = 0;
  cached_obj_id = 0;
  cloned_from = none;
  child_clones = [];
  original_symbol = none;
  tombstone = false;
  max_descendent_timestamp = uninitialized;
  subscript_symbol_by_name = [];
  namespace_waiting_symbols = [];
}

abbrev pub notebook : Store
notebook = record {
  symbol = symbol_at;
  next_symbol = 4;
  space = scope_at;
  next_space = 2;
  aliases = (100, 0 ∷ []) ∷ (101, 1 ∷ []) ∷ (102, 2 ∷ []) ∷ (103, 3 ∷ []) ∷ [];
  namespaces = (100, 1) ∷ [];
  updated_symbols = [];
  this_stmt_updated_symbols = [];
  min_timestamp = minus_one;
  clock = record {
    tracer_initialized = true;
    cell_counter = pos 2;
    module_stmt_counter = pos 0;
    cell_offset = pos 0;
    stmt_offset = pos 0;
  };
  settings = default_settings;
  registry = no_cells;
}

abbrev pub python : Python
python = record {
  is_immutable = λ o. false;
  is_type = λ o. false;
  is_module = λ o. false;
  is_none = λ o. false;
  sequence_length = λ o. some 1;
  has_attribute = λ o n. false;
  anonymous_name = 9;
  class_name = text 9;
  underscore_name = text 8;
  mutation_name = text 7;
}

children_small : (u x y : ℕ) → elem y (dependents notebook u x) ≡ true → y < 4
unfolding dependents without from_class keys namespace elem lookup
children_small u zero y m = ground arith
children_small u (suc zero) y m = ground arith
children_small u (suc (suc zero)) y m = ground arith
children_small u (suc (suc (suc x))) y m = ground arith

holders_small : (sp y : ℕ) → elem y (owners notebook sp) ≡ true → y < 4
unfolding owners aliases_of lookup_or lookup elem
holders_small zero y m = ground arith
holders_small (suc zero) y m = ground arith
holders_small (suc (suc sp)) y m = ground arith

members_small : (flag : Bool) (sp y : ℕ) → elem y (symbols_in notebook flag sp) ≡ true → y < 4
unfolding symbols_in all_symbols entries elem
members_small flag zero y m = ground arith
members_small flag (suc zero) y m = ground arith
members_small flag (suc (suc sp)) y m = ground arith

notebook-IsNamed : IsNamed notebook 4
notebook-IsNamed = record {
  children = children_small;
  holders = holders_small;
  members = members_small;
}

-- the cells that the symbols must be updated in, after an update
abbrev required : Option Walk → List ℤ
required none = []
required (some w) = map (λ x. (w.store.symbol x).required_timestamp.cell_num) (0 ∷ 1 ∷ 2 ∷ 3 ∷ [])

-- x[0] = 5: what was computed from `x` and from `x[0]` must be updated
update_element :
    required (update_protocol 11 1 python [] 1 [] false true true notebook)
    ≡ minus_one ∷ minus_one ∷ pos 2 ∷ pos 2 ∷ []
unfolding update_protocol ◌+ℤ◌
update_element = refl

update_protocol_lem_example :
    (found : List ℕ) × (w : Walk) × (update_protocol 11 1 python [] 1 [] false true true notebook
      ≡ some w)
    × SameBones (note_updated found notebook) w.store
    × ((r : ℕ) → (elem r (1 ∷ []) && (not (is_imported notebook r) && not (elem r found))) ≡ false)
    × ((x y : ℕ)
        → (elem x found
            && (leads_to notebook true x y && (not (is_imported notebook y) && not (elem y found))))
          ≡ false)
    × ((x y : ℕ)
        → (elem x w.seen
            && ((elem x found || not (elem x []))
                && (follows notebook 1 x y && not (elem y w.seen))))
          ≡ false)
    × ((x : ℕ)
        → ((elem x w.seen && (not (elem x []) && (not (elem x found) && must_wait notebook 1 x)))
            ≡ false)
          ⊎ MustUpdate notebook python w.seen w.store x)
unfolding directly_updated
update_protocol_lem_example =
    update_protocol_lem 11 0 python [] 1 [] false true true notebook notebook (1 ∷ []) refl
      notebook-IsNamed (λ r m. ground (arith, elem-cons r 1 [], elem-nil r)) refl (omega arith)

pass_on_closed_example :
    (w' : Walk) × (for_each
        (pass_on 11 notebook python 1 to_deps true)
        (1 ∷ [])
        (record { seen = 1 ∷ []; store = notebook })
      ≡ some w')
    × SameBones notebook w'.store
    × ((x : ℕ) → (elem x (1 ∷ []) && not (elem x w'.seen)) ≡ false)
    × ((x y : ℕ)
        → (elem x w'.seen
            && ((elem x (1 ∷ []) || not (elem x (1 ∷ [])))
                && (follows notebook 1 x y && not (elem y w'.seen))))
          ≡ false)
    × ((x : ℕ)
        → ((elem x w'.seen
              && ((elem x (1 ∷ []) || not (elem x (1 ∷ []))) && must_wait notebook 1 x))
            ≡ false)
          ⊎ MustUpdate notebook python w'.seen w'.store x)
pass_on_closed_example =
    pass_on_closed notebook python 1 4 11 notebook-IsNamed (omega arith) (1 ∷ [])
      (record { seen = 1 ∷ []; store = notebook }) (λ r m. m)

collect_lem_example :
    (w : Walk) × (collect 5 true (1 ∷ []) (record { seen = []; store = notebook }) ≡ some w)
    × SameBones notebook w.store
    × ((r : ℕ) → (elem r (1 ∷ []) && (not (is_imported notebook r) && not (elem r w.seen))) ≡ false)
    × ((x y : ℕ)
        → (elem x w.seen
            && (leads_to notebook true x y
                && (not (is_imported notebook y) && not (elem y w.seen))))
          ≡ false)
    × ((x : ℕ) → (elem x w.seen ≡ false) ⊎ IsSettled notebook w.store x)
collect_lem_example =
    collect_lem notebook true 4 5 notebook-IsNamed (omega arith) (1 ∷ [])
      (λ r m. ground (arith, elem-cons r 1 [], elem-nil r))

-- x is refreshed, and x[0] with it
refresh_lem_example :
    (st' : Store) × (refresh python true 0 notebook ≡ some st')
    × SameBones notebook st'
    × ((st'.symbol 0).own_timestamp ≡ current notebook.clock)
    × ((y : ℕ)
        → ((true
              && is_member notebook true 0 y
              && not (name_eq (notebook.symbol y).name python.class_name))
            ≡ false)
          ⊎ ((st'.symbol y).own_timestamp ≡ current notebook.clock))
refresh_lem_example = refresh_lem notebook python true 0 notebook-IsNamed (omega arith)
