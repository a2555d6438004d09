-- ===== src/Slicing/Changes.antt =====
-- What the operations on edges change, and what they leave as it is
-- (core/ipyflow/slicing/mixin.py).
use ipyflow.Base.{
  ℕ, ◌≡◌, ap, false, ◌||◌, ◌&&◌, not, some, List, ◌∷◌, lookup, has, elem, ◌==◌, arith,
}
use ipyflow.Slicing.EdgeSets.{syms_of, elem-syms_of-subtract}
use ipyflow.Slicing.Graph.{
  Graph, raw_children, SliceRef, from_ref, link, unlink, add_resolved, add_parent_edges,
  remove_parent_edges,
}
use ipyflow.Slicing.Invariant.{parents-link, children-link}

-- An edge is added at both ends exactly where it may be: to a parent that is no child of `self`
-- and has another identifier. Then the symbols of the edge grow by `syms` at both ends, in every
-- object that shares the parent's dictionary of children, and no other symbol set changes.
pub add_parent_edges_lem :
    (g : Graph) (self parent s : ℕ) (parent_ref : SliceRef) (syms : List ℕ)
    → from_ref g parent_ref ≡ some parent
    → has (lookup (g.ident parent) (raw_children g self)) ≡ false
    → (g.ident parent == g.ident self) ≡ false
    → (g' : Graph) × (add_parent_edges g self parent_ref (s ∷ syms) ≡ some g')
      × ((r k t : ℕ)
          → elem t (syms_of (g'.raw_parents r) k) ≡ (
              (r == self && k == g.ident parent && elem t (s ∷ syms))
              || elem t (syms_of (g.raw_parents r) k)))
      × ((q k t : ℕ)
          → elem t (syms_of (raw_children g' q) k) ≡ (
              (g.child_dict q == g.child_dict parent && k == g.ident self && elem t (s ∷ syms))
              || elem t (syms_of (raw_children g q) k)))
unfolding add_parent_edges add_resolved
add_parent_edges_lem g self parent s parent_ref syms found free other = (
  link g self parent (s ∷ syms),
  rw (found, free, other),
  parents-link g self parent (s ∷ syms),
  children-link g self parent (s ∷ syms),
)

-- Removing edges takes exactly the given symbols from the edge's two ends, and changes no other
-- symbol set.
pub remove_parent_edges_lem :
    (g : Graph) (self parent s : ℕ) (parent_ref : SliceRef) (syms : List ℕ)
    → from_ref g parent_ref ≡ some parent
    → (g' : Graph) × (remove_parent_edges g self parent_ref (s ∷ syms) ≡ some g')
      × ((r k t : ℕ)
          → elem t (syms_of (g'.raw_parents r) k) ≡ (
              elem t (syms_of (g.raw_parents r) k)
              && not (r == self && k == g.ident parent && elem t (s ∷ syms))))
      × ((q k t : ℕ)
          → elem t (syms_of (raw_children g' q) k) ≡ (
              elem t (syms_of (raw_children g q) k)
              && not (
                  g.child_dict q == g.child_dict parent && k == g.ident self && elem t (s ∷ syms))))
unfolding remove_parent_edges unlink
remove_parent_edges_lem g self parent s parent_ref syms found = (
  unlink g self parent (s ∷ syms),
  rw found,
  λ r k t. ground (
    arith,
    elem-syms_of-subtract t k (g.ident parent) (s ∷ syms) (g.raw_parents self),
    λ (e : r ≡ self). ap (λ z. elem t (syms_of (g.raw_parents z) k)) e,
  ),
  λ q k t. ground (
    arith,
    elem-syms_of-subtract t k (g.ident self) (s ∷ syms) (raw_children g parent),
    λ (e : g.child_dict q ≡ g.child_dict parent). ap (λ z. elem t (syms_of (g.children_at z) k)) e,
  ),
)
