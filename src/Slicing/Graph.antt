-- ===== src/Slicing/Graph.antt =====
-- `SliceableMixin` of core/ipyflow/slicing/mixin.py: the objects of one dataflow graph (cells or
-- statements, in one slicing context) and the operations on their edges.
--
-- An object is a number, its place in the heap; its fields are functions of it. `raw_parents`
-- belongs to one object; `raw_children` names a dictionary that versions of an object may share
-- (`Cell.create_and_track` binds a new version to the dictionary of the previous one), so it goes
-- through `child_dict`. An operation runs in the slicing context whose graph it is given. `none` is
-- a `KeyError`.
use ipyflow.Base.{
  ℕ, ℤ, Bool, Option, none, some, List, [], ◌∷◌, lookup, erase, keys, has, ◌==◌, if◌then◌else◌,
}
use ipyflow.Timestamp.{Timestamp}
use ipyflow.Slicing.EdgeSets.{Edges, merge, subtract, inherit}

pub record Graph : Type 0 where
  pub ident : ℕ → ℕ
  pub timestamp : ℕ → Timestamp
  pub prev : ℕ → Option ℕ
  -- `getattr(parent, "override", False)`
  pub override : ℕ → Bool
  pub from_id : ℕ → Option ℕ
  pub at_timestamp : Timestamp → Option ℕ
  pub at_counter : ℤ → Option ℕ
  pub raw_parents : ℕ → Edges
  pub child_dict : ℕ → ℕ
  pub children_at : ℕ → Edges

-- f[k] = v
unfoldable pub update {ℓ} : {A : Type ℓ} → (ℕ → A) → ℕ → A → ℕ → A
update f k v j = if j == k then v else f j

abbrev pub raw_children : Graph → ℕ → Edges
raw_children g self = g.children_at (g.child_dict self)

pub data SliceRef : Type 0 where
  at : Timestamp → SliceRef
  named : ℕ → SliceRef
  object : ℕ → SliceRef

-- `_from_ref`
unfoldable pub from_ref : Graph → SliceRef → Option ℕ
from_ref g (at ts) = g.at_timestamp ts
from_ref g (named sid) = g.from_id sid
from_ref g (object r) = some r

infixl 5 ◌>>=◌
abbrev pub ◌>>=◌ {ℓ κ} : {A : Type ℓ} {B : Type κ} → Option A → (A → Option B) → Option B
none >>= f = none
some a >>= f = f a

-- both ends of an edge from `parent` to `self` gain the symbols
unfoldable pub link : Graph → ℕ → ℕ → List ℕ → Graph
unfolding update merge
link g self parent syms = record g {
  raw_parents = update g.raw_parents self (merge (g.ident parent) syms (g.raw_parents self));
  children_at =
      update g.children_at (g.child_dict parent)
        (merge (g.ident self) syms (raw_children g parent));
}

-- an edge of `self` to its own identifier: the edges of the previous version, if there is one
unfoldable pub inherit_parents : Graph → ℕ → List ℕ → Graph
unfolding update inherit keys
inherit_parents g self syms = elim (g.prev self) [
  | none ↦ g
  | some p ↦ record g {
    raw_parents =
        update g.raw_parents self
          (inherit syms (g.raw_parents p) (keys (g.raw_parents p)) (g.raw_parents self));
  }
]

-- what `add_parent_edges` does with the resolved parent
unfoldable pub add_resolved : Graph → ℕ → ℕ → List ℕ → Graph
unfolding link inherit_parents has lookup
add_resolved g self parent syms =
    if has (lookup (g.ident parent) (raw_children g self))
    then g
    else if g.ident parent == g.ident self
    then inherit_parents g self syms
    else link g self parent syms

unfoldable pub add_parent_edges : Graph → ℕ → SliceRef → List ℕ → Option Graph
unfolding add_resolved from_ref
add_parent_edges g self parent_ref [] = some g
add_parent_edges g self parent_ref syms = do
  parent ← from_ref g parent_ref
  some (add_resolved g self parent syms)

unfoldable pub add_parent_edge : Graph → ℕ → SliceRef → ℕ → Option Graph
unfolding add_parent_edges
add_parent_edge g self parent_ref s = add_parent_edges g self parent_ref (s ∷ [])

unfoldable pub unlink : Graph → ℕ → ℕ → List ℕ → Graph
unfolding update subtract
unlink g self parent syms = record g {
  raw_parents = update g.raw_parents self (subtract (g.ident parent) syms (g.raw_parents self));
  children_at =
      update g.children_at (g.child_dict parent)
        (subtract (g.ident self) syms (raw_children g parent));
}

unfoldable pub remove_parent_edges : Graph → ℕ → SliceRef → List ℕ → Option Graph
unfolding unlink from_ref
remove_parent_edges g self parent_ref [] = some g
remove_parent_edges g self parent_ref syms = do
  parent ← from_ref g parent_ref
  some (unlink g self parent syms)

unfoldable pub remove_parent_edge : Graph → ℕ → SliceRef → ℕ → Option Graph
unfolding remove_parent_edges
remove_parent_edge g self parent_ref s = remove_parent_edges g self parent_ref (s ∷ [])

-- both ends of the edge from `parent` to `self` are popped
unfoldable pub cut : Graph → ℕ → ℕ → Graph
unfolding update erase
cut g self parent = record g {
  raw_parents = update g.raw_parents self (erase (g.ident parent) (g.raw_parents self));
  children_at =
      update g.children_at (g.child_dict parent) (erase (g.ident self) (raw_children g parent));
}

-- Both pops must find their keys.
unfoldable pub replace_parent_edges : Graph → ℕ → SliceRef → SliceRef → Option Graph
unfolding cut link from_ref lookup
replace_parent_edges g self prev_parent_ref new_parent_ref = do
  prev_parent ← from_ref g prev_parent_ref
  new_parent ← from_ref g new_parent_ref
  syms ← lookup (g.ident prev_parent) (g.raw_parents self)
  _ ← lookup (g.ident self) (raw_children g prev_parent)
  some (link (cut g self prev_parent) self new_parent syms)

unfoldable pub replace_child_edges : Graph → ℕ → SliceRef → SliceRef → Option Graph
unfolding cut link from_ref lookup
replace_child_edges g self prev_child_ref new_child_ref = do
  prev_child ← from_ref g prev_child_ref
  new_child ← from_ref g new_child_ref
  syms ← lookup (g.ident prev_child) (raw_children g self)
  _ ← lookup (g.ident self) (g.raw_parents prev_child)
  some (link (cut g prev_child self) new_child self syms)
