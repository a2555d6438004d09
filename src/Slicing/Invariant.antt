-- ===== src/Slicing/Invariant.antt =====
-- The well-formedness of a dataflow graph, and the operations of core/ipyflow/slicing/mixin.py
-- that keep it.
use ipyflow.Base.{
  ℕ, ◌≡◌, refl, subst, ap, true, false, ◌||◌, ◌&&◌, some, List, [], ◌∷◌, inl, inr, Bool-cases,
  Option-cases, lookup, has, keys, elem, elem-keys, is_empty, ◌==◌, arith,
}
use mathlib.Core.Option.{some-injective}
use ipyflow.Slicing.EdgeSets.{
  Edges, inherit, syms_of, IsOccupied, elem-syms_of-merge, has-merge, elem-syms_of-inherit,
  has-inherit, merge-IsOccupied, inherit-IsOccupied,
}
use ipyflow.Slicing.Graph.{
  Graph, update, raw_children, SliceRef, from_ref, link, inherit_parents, add_resolved,
  add_parent_edges,
}

-- Versions of one object share their identifier and their dictionary of children. Every edge is
-- recorded at both ends, with its symbols, and carries one: what an object records of a parent, all
-- versions of the parent record of the object, and what an object records of a child, some version
-- of the child records of the object; and no object is both a parent and a
-- child of another.
pub record IsLinked (g : Graph) : Type 0 where
  pub shared : (r q : ℕ) → g.ident r ≡ g.ident q → g.child_dict r ≡ g.child_dict q
  pub own : (r q : ℕ) → g.child_dict r ≡ g.child_dict q → g.ident r ≡ g.ident q
  pub same_id : (r p : ℕ) → g.prev r ≡ some p → g.ident p ≡ g.ident r
  pub mirror :
      (r q s : ℕ)
      → elem s (syms_of (g.raw_parents r) (g.ident q)) ≡ true
      → elem s (syms_of (raw_children g q) (g.ident r)) ≡ true
  pub back :
      (q k s : ℕ)
      → elem s (syms_of (raw_children g q) k) ≡ true
      → (r : ℕ) × (g.ident r ≡ k) × (elem s (syms_of (g.raw_parents r) (g.ident q)) ≡ true)
  pub occupied : (r : ℕ) → IsOccupied (g.raw_parents r)
  pub apart :
      (r k : ℕ)
      → has (lookup k (g.raw_parents r)) ≡ true
      → has (lookup k (raw_children g r)) ≡ false

-- A symbol in a dictionary has its key there.
has-of_elem :
    (s k : ℕ) (edges : Edges) → elem s (syms_of edges k) ≡ true → has (lookup k edges) ≡ true
unfolding syms_of has elem
has-of_elem s k edges h = ground arith

module _ (g : Graph) (v : IsLinked g) (self parent : ℕ) (syms : List ℕ) where
  -- If the parent were already a child, its identifier would be among the children.
  not_a_parent :
      (r : ℕ)
      → has (lookup (g.ident parent) (raw_children g self)) ≡ false
      → g.child_dict r ≡ g.child_dict parent
      → has (lookup (g.ident self) (g.raw_parents r)) ≡ false
  not_a_parent r guard e = elim (Bool-cases (has (lookup (g.ident self) (g.raw_parents r)))) [
    | inr absent ↦ absent
    | inl there ↦
        let (s, m) = v.occupied r (g.ident self) there in
        let child = has-of_elem s (g.ident r) (raw_children g self) (v.mirror r self s m) in
        cc (child, guard, ap (λ k. has (lookup k (raw_children g self))) (v.own r parent e))
  ]

module _ (g : Graph) (self parent : ℕ) (syms : List ℕ) where
  -- The two ends after `link`, symbol by symbol and key by key.
  pub parents-link :
      (r k s : ℕ)
      → elem s (syms_of ((link g self parent syms).raw_parents r) k) ≡ (
          (r == self && k == g.ident parent && elem s syms) || elem s (syms_of (g.raw_parents r) k))
  unfolding link
  parents-link r k s = ground (
    arith,
    elem-syms_of-merge s k (g.ident parent) syms (g.raw_parents self),
    λ (e : r ≡ self). ap (λ z. elem s (syms_of (g.raw_parents z) k)) e,
  )

  pub children-link :
      (q k s : ℕ)
      → elem s (syms_of (raw_children (link g self parent syms) q) k) ≡ (
          (g.child_dict q == g.child_dict parent && k == g.ident self && elem s syms)
          || elem s (syms_of (raw_children g q) k))
  unfolding link
  children-link q k s = ground (
    arith,
    elem-syms_of-merge s k (g.ident self) syms (raw_children g parent),
    λ (e : g.child_dict q ≡ g.child_dict parent). ap (λ z. elem s (syms_of (g.children_at z) k)) e,
  )

  has-parents-link :
      (r k : ℕ)
      → has (lookup k ((link g self parent syms).raw_parents r))
        ≡ ((r == self && k == g.ident parent) || has (lookup k (g.raw_parents r)))
  unfolding link
  has-parents-link r k = ground (
    arith,
    has-merge k (g.ident parent) syms (g.raw_parents self),
    λ (e : r ≡ self). ap (λ z. has (lookup k (g.raw_parents z))) e,
  )

  has-children-link :
      (q k : ℕ)
      → has (lookup k (raw_children (link g self parent syms) q)) ≡ (
          (g.child_dict q == g.child_dict parent && k == g.ident self)
          || has (lookup k (raw_children g q)))
  unfolding link
  has-children-link q k = ground (
    arith,
    has-merge k (g.ident self) syms (raw_children g parent),
    λ (e : g.child_dict q ≡ g.child_dict parent). ap (λ z. has (lookup k (g.children_at z))) e,
  )

module _ (g : Graph) (v : IsLinked g) (self parent : ℕ) (syms : List ℕ) where
  link_apart :
      has (lookup (g.ident parent) (raw_children g self)) ≡ false
      → (g.ident parent == g.ident self) ≡ false
      → (r k : ℕ) → has (lookup k ((link g self parent syms).raw_parents r)) ≡ true
      → has (lookup k (raw_children (link g self parent syms) r)) ≡ false
  link_apart guard other r k h = ground (
    arith,
    has-parents-link g self parent syms r k,
    has-children-link g self parent syms r k,
    not_a_parent g v self parent syms r,
    v.apart r k,
    v.own self parent,
    λ (e : r ≡ self). ap g.child_dict e,
    λ (e : r ≡ self). ap (λ z. has (lookup k (raw_children g z))) e,
    λ (e : k ≡ g.ident parent). ap (λ z. has (lookup z (raw_children g self))) e,
    λ (e : k ≡ g.ident self). ap (λ z. has (lookup z (g.raw_parents r))) e,
  )

  link_mirror :
      (r q s : ℕ)
      → elem s (syms_of ((link g self parent syms).raw_parents r) (g.ident q)) ≡ true
      → elem s (syms_of (raw_children (link g self parent syms) q) (g.ident r)) ≡ true
  link_mirror r q s h = ground (
    arith,
    parents-link g self parent syms r (g.ident q) s,
    children-link g self parent syms q (g.ident r) s,
    v.mirror r q s,
    v.shared q parent,
    λ (e : r ≡ self). ap g.ident e,
  )

  link_back :
      (q k s : ℕ)
      → elem s (syms_of (raw_children (link g self parent syms) q) k) ≡ true
      → (r : ℕ) × (g.ident r ≡ k)
        × (elem s (syms_of ((link g self parent syms).raw_parents r) (g.ident q)) ≡ true)
  link_back q k s h =
      elim (Bool-cases
        (g.child_dict q == g.child_dict parent && k == g.ident self && elem s syms)) [
          | inl new ↦ (
            self,
            ground arith,
            ground (arith, parents-link g self parent syms self (g.ident q) s, v.own q parent),
          )
          | inr old ↦
              let (r, named, m) =
                v.back q k s (ground (arith, children-link g self parent syms q k s)) in
              (r, named, ground (arith, parents-link g self parent syms r (g.ident q) s))
        ]

  link-IsOccupied :
      is_empty syms ≡ false → (r : ℕ) → IsOccupied ((link g self parent syms).raw_parents r)
  unfolding link
  link-IsOccupied some_sym r = elim (Bool-cases (r == self)) [
    | inl same ↦
        rw same
          (merge-IsOccupied (g.ident parent) syms (g.raw_parents self) some_sym (v.occupied self))
    | inr other ↦ rw other (v.occupied r)
  ]

  link-IsLinked :
      has (lookup (g.ident parent) (raw_children g self)) ≡ false
      → (g.ident parent == g.ident self) ≡ false
      → is_empty syms ≡ false
      → IsLinked (link g self parent syms)
  unfolding link
  link-IsLinked guard other some_sym = record {
    shared = v.shared;
    own = v.own;
    same_id = v.same_id;
    mirror = link_mirror;
    back = link_back;
    occupied = link-IsOccupied some_sym;
    apart = link_apart guard other;
  }

-- The previous version `p` of `self` hands on edges that are recorded at its parents under the
-- identifier that both have.
module _ (g : Graph) (v : IsLinked g) (self p : ℕ) (syms : List ℕ) where
  abbrev inherited : Graph
  inherited = record g {
    raw_parents =
        update g.raw_parents self
          (inherit syms (g.raw_parents p) (keys (g.raw_parents p)) (g.raw_parents self));
  }

  inherit-IsLinked : g.prev self ≡ some p → IsLinked inherited
  unfolding update
  inherit-IsLinked is_prev = record {
    shared = v.shared;
    own = v.own;
    same_id = v.same_id;
    mirror = λ r q s h. ground (
      arith,
      elem-syms_of-inherit s (g.ident q) syms (g.raw_parents p) (keys (g.raw_parents p))
          (g.raw_parents self),
      v.mirror r q s,
      v.mirror p q s,
      v.mirror self q s,
      v.same_id self p is_prev,
      λ (e : r ≡ self). ap g.ident e,
      λ (e : g.ident p ≡ g.ident r). ap (λ z. elem s (syms_of (raw_children g q) z)) e,
    );
    back = λ q k s h.
        let (r, named, m) = v.back q k s h in
        (
          r,
          named,
          ground (
            arith,
            elem-syms_of-inherit s (g.ident q) syms (g.raw_parents p) (keys (g.raw_parents p))
                (g.raw_parents self),
            λ (e : r ≡ self). ap (λ z. elem s (syms_of (g.raw_parents z) (g.ident q))) e,
          ),
        );
    occupied = λ r. elim (Bool-cases (r == self)) [
      | inl same ↦ rw same (
          inherit-IsOccupied syms (g.raw_parents p) (keys (g.raw_parents p)) (g.raw_parents self)
            (v.occupied self))
      | inr other ↦ rw other (v.occupied r)
    ];
    apart = λ r k h. ground (
      arith,
      has-inherit k syms (g.raw_parents p) (keys (g.raw_parents p)) (g.raw_parents self),
      elem-keys k (g.raw_parents p),
      v.apart r k,
      v.apart p k,
      v.apart self k,
      v.same_id self p is_prev,
      v.shared p self,
      λ (e : r ≡ self). ap g.child_dict e,
      λ (e : g.child_dict p ≡ g.child_dict r). ap (λ z. has (lookup k (g.children_at z))) e,
    );
  }

add_resolved-IsLinked :
    (g : Graph) (self parent : ℕ) (syms : List ℕ)
    → is_empty syms ≡ false
    → IsLinked g
    → IsLinked (add_resolved g self parent syms)
unfolding add_resolved
add_resolved-IsLinked g self parent syms some_sym v =
    elim (Bool-cases (has (lookup (g.ident parent) (raw_children g self)))) [
      | inl child ↦ rw child v
      | inr free ↦ elim (Bool-cases (g.ident parent == g.ident self)) [
        | inr other ↦ rw (free, other) (link-IsLinked g v self parent syms free other some_sym)
        | inl same ↦
            rw (free, same)
              (elim (Option-cases (g.prev self)) [
                | inl first ↦ rw (first, inherit_parents) v
                | inr (p, later) ↦
                    rw (later, inherit_parents) (inherit-IsLinked g v self p syms later)
              ])
      ]
    ]

-- Adding edges to a well-formed graph, by whatever reference to the parent, leaves it well-formed
-- whenever the reference resolves: each symbol that an object records of a parent is recorded at
-- the parent, each that it records of a child is recorded at a version of the child, and no object
-- becomes both a parent and a child of another.
pub add_parent_edges-IsLinked :
    (g g' : Graph) (self : ℕ) (parent_ref : SliceRef) (syms : List ℕ)
    → IsLinked g
    → add_parent_edges g self parent_ref syms ≡ some g'
    → IsLinked g'
unfolding add_parent_edges
add_parent_edges-IsLinked g g' self parent_ref [] v h = subst IsLinked (some-injective _ _ h) v
add_parent_edges-IsLinked g g' self parent_ref (s ∷ syms) v h =
    elim (Option-cases (from_ref g parent_ref)) [
      | inl missing ↦ cc (rw missing at h)
      | inr (parent, found) ↦
          subst IsLinked (some-injective _ _ (rw found at h))
            (add_resolved-IsLinked g self parent (s ∷ syms) refl v)
    ]
