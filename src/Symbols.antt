-- ===== src/Symbols.antt =====
-- core/ipyflow/data_model/symbol.py, scope.py and namespace.py: symbols, the scopes that hold them,
-- and the tables of the flow that name them.
--
-- A symbol, a scope and a Python object are numbers: places in a heap, and what `id` returns. A
-- namespace is a scope that has an object. What the code asks of Python's objects (their type, their
-- length, their attributes) is given by a record. Sets are lists without order.
pub mod Spaces
pub mod Times
pub mod Refresh
pub mod Waiting
pub mod Propagate
pub mod Spread
pub mod Facts
pub mod Loops
pub mod Reached
pub mod Rounds
pub mod Skeleton
pub mod Gather
pub mod Gathered
pub mod Meaning
pub mod Named
pub mod Renew
pub mod Refreshed
mod Tests
mod EdgeTests
pub mod Renewal
pub mod Others
pub mod Protocol
pub mod Edges
pub mod Mirror
pub mod Visible
pub mod Placed
pub mod Chains
pub mod Resolved
pub mod Garbage
pub mod Collected
use ipyflow.Base.{
  ℕ, ◌+◌, Bool, true, false, Option, none, some, List, [], ◌∷◌, Dict, ℤ, eqb_ℤ, elem, discard,
  lookup_or, insert, erase, is_empty, ◌==◌, ◌&&◌, if◌then◌else◌,
}
use ipyflow.Timestamp.{Timestamp, eq}
use ipyflow.Timestamp.Clock.{Clock}
use ipyflow.Config.Contexts.{MutableDataflowSettings}
use ipyflow.Cells.{Registry}

-- a name: a text, an integer subscript, or another subscript
pub data Name : Type 0 where
  text : ℕ → Name
  index : ℤ → Name
  other : ℕ → Name

unfoldable pub name_eq : Name → Name → Bool
name_eq (text a) (text b) = a == b
name_eq (index a) (index b) = eqb_ℤ a b
name_eq (other a) (other b) = a == b
name_eq _ _ = false

pub data SymbolType : Type 0 where
  default subscript function class import_type module_type anonymous : SymbolType

-- the statement that a symbol was last written by, as far as the code looks at it
pub data StmtNode : Type 0 where
  no_stmt assign aug_assign other_stmt : StmtNode

pub record Symbol : Type 0 where
  pub name : Name
  pub symbol_type : SymbolType
  -- id(self.obj)
  pub obj_id : ℕ
  pub cached_obj_id : Option ℕ
  pub cached_out_of_sync : Bool
  pub containing_scope : ℕ
  pub stmt_node : StmtNode
  pub tombstone : Bool
  pub parents : Dict (List Timestamp)
  pub children : Dict (List Timestamp)
  pub own_timestamp : Timestamp
  pub override_timestamp : Option Timestamp
  pub required_timestamp : Timestamp
  pub snapshot_timestamps : List Timestamp
  pub snapshot_timestamp_ubounds : List Timestamp
  pub updated_timestamps : List Timestamp
  pub fresher_ancestors : List ℕ
  pub fresher_ancestor_timestamps : List Timestamp
  pub cells_where_deep_live : List ℕ
  pub cells_where_shallow_live : List ℕ
  pub implicit : Bool
  pub disable_warnings : Bool
  pub temp_disable_warnings : Bool

abbrev pub Table : Type 0
Table = List (Name × ℕ)

-- A scope. The fields after `is_namespace` belong to namespaces only.
pub record Space : Type 0 where
  pub scope_name : ℕ
  pub parent_scope : Option ℕ
  pub symbol_by_name : Table
  pub is_namespace : Bool
  pub obj : ℕ
  pub cached_obj_id : ℕ
  pub cloned_from : Option ℕ
  pub child_clones : List ℕ
  pub original_symbol : Option ℕ
  pub tombstone : Bool
  pub max_descendent_timestamp : Timestamp
  pub subscript_symbol_by_name : Table
  pub namespace_waiting_symbols : List ℕ

-- what Python says of objects and of names
pub record Python : Type 0 where
  pub is_immutable : ℕ → Bool
  pub is_type : ℕ → Bool
  pub is_module : ℕ → Bool
  pub is_none : ℕ → Bool
  -- `len` of an object that is a sequence
  pub sequence_length : ℕ → Option ℕ
  -- `name in obj.__dict__`
  pub has_attribute : ℕ → Name → Bool
  pub anonymous_name : ℕ
  pub class_name : Name
  pub underscore_name : Name
  pub mutation_name : Name

pub record Store : Type 0 where
  pub symbol : ℕ → Symbol
  pub next_symbol : ℕ
  pub space : ℕ → Space
  pub next_space : ℕ
  -- `flow().aliases` and `flow().namespaces`, by the id of an object
  pub aliases : Dict (List ℕ)
  pub namespaces : Dict ℕ
  pub updated_symbols : List ℕ
  pub this_stmt_updated_symbols : List ℕ
  pub min_timestamp : ℤ
  pub clock : Clock
  pub settings : MutableDataflowSettings
  pub registry : Registry

unfoldable pub write_symbol : Store → ℕ → Symbol → Store
write_symbol st self s = record st { symbol = λ r. if r == self then s else st.symbol r }

unfoldable pub write_space : Store → ℕ → Space → Store
write_space st self sp = record st { space = λ r. if r == self then sp else st.space r }

abbrev pub Times : Type 0
Times = List Timestamp

-- ts in times, and times.add(ts)
unfoldable pub has_time : Timestamp → Times → Bool
unfolding eq
has_time ts [] = false
has_time ts (t ∷ ts') = elim (eq ts (some t)) [ true ↦ true | false ↦ has_time ts ts' ]

unfoldable pub add_time : Timestamp → Times → Times
unfolding has_time
add_time ts times = if has_time ts times then times else ts ∷ times

-- `cleanup_discard` of core/ipyflow/utils/misc_utils.py
unfoldable pub cleanup_discard : Dict (List ℕ) → ℕ → ℕ → Dict (List ℕ)
unfolding lookup_or discard insert erase
cleanup_discard d key val =
    let rest = discard val (lookup_or [] key d) in
    if is_empty rest then erase key d else insert key rest d
