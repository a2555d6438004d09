-- ===== src/Symbols/Mirror.antt =====
-- The edges between symbols (core/ipyflow/data_model/symbol.py) are kept at both ends alike.
use ipyflow.Base.{
  ℕ, ◌≡◌, refl, ap, Bool, true, false, Option, none, some, List, [], ◌∷◌, ◌++◌, Dict, lookup,
  lookup_or, keys, elem, elem-nil, elem-cons, elem-diff, elem-discard, elem-keys, diff, discard,
  has, lookup-insert, lookup-erase, ◌==◌, ◌&&◌, ◌||◌, not, if◌then◌else◌, arith,
}
use ipyflow.Timestamp.Clock.{current}
use ipyflow.Symbols.{Store, Times, write_symbol}
use ipyflow.Symbols.Edges.{
  append_time, set_parents, set_children, pop_child, pop_parent, drop_parent, add_parent,
  fold_store, overwrites, update_edges,
}

-- The parent has the child with the times at which the child has the parent.
abbrev pub IsMirrored : Store → Type 0
IsMirrored st = (x p : ℕ) → lookup p (st.symbol x).parents ≡ lookup x (st.symbol p).children

drop_parent-parents :
    (self parent x p : ℕ) (st : Store)
    → lookup p ((drop_parent self parent st).symbol x).parents
      ≡ (if x == self && p == parent then none else lookup p (st.symbol x).parents)
unfolding drop_parent pop_child pop_parent set_children set_parents write_symbol
drop_parent-parents self parent x p st = ground (
  arith,
  lookup-erase p parent (st.symbol self).parents,
  λ (e : x ≡ self). ap (λ z. lookup p (st.symbol z).parents) e,
  λ (e : x ≡ parent). ap (λ z. lookup p (st.symbol z).parents) e,
)

drop_parent-children :
    (self parent x p : ℕ) (st : Store)
    → lookup x ((drop_parent self parent st).symbol p).children
      ≡ (if x == self && p == parent then none else lookup x (st.symbol p).children)
unfolding drop_parent pop_child pop_parent set_children set_parents write_symbol
drop_parent-children self parent x p st = ground (
  arith,
  lookup-erase x self (st.symbol parent).children,
  λ (e : p ≡ parent). ap (λ z. lookup x (st.symbol z).children) e,
  λ (e : p ≡ self). ap (λ z. lookup x (st.symbol z).children) e,
  λ (e : self ≡ parent). ap (λ z. lookup x (st.symbol z).children) e,
)

drop_parent-IsMirrored :
    (self parent : ℕ) (st : Store) → IsMirrored st → IsMirrored (drop_parent self parent st)
drop_parent-IsMirrored self parent st m x p =
    rw (drop_parent-parents self parent x p st, drop_parent-children self parent x p st, m x p) refl

add_parent-parents :
    (self parent x p : ℕ) (st : Store)
    → lookup p ((add_parent self parent st).symbol x).parents ≡ (
        if x == self && p == parent
        then some (lookup_or [] parent (st.symbol self).parents ++ current st.clock ∷ [])
        else lookup p (st.symbol x).parents)
unfolding add_parent append_time set_children set_parents write_symbol
add_parent-parents self parent x p st = ground (
  arith,
  lookup-insert p parent (lookup_or [] parent (st.symbol self).parents ++ current st.clock ∷ [])
      (st.symbol self).parents,
  λ (e : x ≡ self). ap (λ z. lookup p (st.symbol z).parents) e,
  λ (e : x ≡ parent). ap (λ z. lookup p (st.symbol z).parents) e,
  λ (e : self ≡ parent). ap (λ z. (st.symbol z).parents) e,
)

add_parent-children :
    (self parent x p : ℕ) (st : Store)
    → lookup x ((add_parent self parent st).symbol p).children ≡ (
        if x == self && p == parent
        then some (lookup_or [] self (st.symbol parent).children ++ current st.clock ∷ [])
        else lookup x (st.symbol p).children)
unfolding add_parent append_time set_children set_parents write_symbol
add_parent-children self parent x p st = ground (
  arith,
  lookup-insert x self (lookup_or [] self (st.symbol parent).children ++ current st.clock ∷ [])
      (st.symbol parent).children,
  λ (e : p ≡ parent). ap (λ z. lookup x (st.symbol z).children) e,
  λ (e : p ≡ self). ap (λ z. lookup x (st.symbol z).children) e,
  λ (e : self ≡ parent). ap (λ z. lookup x (st.symbol z).children) e,
)

lookup_or_same :
    (j k : ℕ) (d d' : Dict Times) → lookup j d ≡ lookup k d' → lookup_or [] j d ≡ lookup_or [] k d'
unfolding lookup_or
lookup_or_same j k d d' e =
    ap (λ (o : Option Times). elim o as (λ _. Times) [ none ↦ [] | some v ↦ v ]) e

add_parent-IsMirrored :
    (self parent : ℕ) (st : Store) → IsMirrored st → IsMirrored (add_parent self parent st)
add_parent-IsMirrored self parent st m x p =
    rw
      (
        add_parent-parents self parent x p st,
        add_parent-children self parent x p st,
        lookup_or_same parent self (st.symbol self).parents (st.symbol parent).children
            (m self parent),
        m x p,
      )
      refl

-- a loop of drops and a loop of additions
drops_lem :
    (self : ℕ) (ps : List ℕ) (st : Store)
    → IsMirrored st
    → IsMirrored (fold_store (drop_parent self) ps st)
      × ((x p : ℕ)
          → has (lookup p ((fold_store (drop_parent self) ps st).symbol x).parents)
            ≡ (has (lookup p (st.symbol x).parents) && not (x == self && elem p ps)))
unfolding fold_store has
drops_lem self [] st m = (m, λ x p. ground (arith, elem-nil p))
drops_lem self (q ∷ ps) st m =
    let (mirrored, rest) =
      drops_lem self ps (drop_parent self q st) (drop_parent-IsMirrored self q st m) in
    (mirrored, λ x p. ground (arith, rest x p, drop_parent-parents self q x p st, elem-cons p q ps))

adds_lem :
    (self : ℕ) (ps : List ℕ) (st : Store)
    → IsMirrored st
    → IsMirrored (fold_store (add_parent self) ps st)
      × ((x p : ℕ)
          → has (lookup p ((fold_store (add_parent self) ps st).symbol x).parents)
            ≡ (has (lookup p (st.symbol x).parents) || (x == self && elem p ps)))
unfolding fold_store has
adds_lem self [] st m = (m, λ x p. ground (arith, elem-nil p))
adds_lem self (q ∷ ps) st m =
    let (mirrored, rest) =
      adds_lem self ps (add_parent self q st) (add_parent-IsMirrored self q st m) in
    (mirrored, λ x p. ground (arith, rest x p, add_parent-parents self q x p st, elem-cons p q ps))

-- the first loop, where old parents go
kept_lem :
    (self : ℕ) (ps : List ℕ) (b : Bool) (st : Store)
    → IsMirrored st
    → IsMirrored (if b then fold_store (drop_parent self) ps st else st)
      × ((x p : ℕ)
          → has
              (lookup p ((if b then fold_store (drop_parent self) ps st else st).symbol x).parents)
            ≡ (has (lookup p (st.symbol x).parents) && not (b && (x == self && elem p ps))))
unfolding has
kept_lem self ps true st m = drops_lem self ps st m
kept_lem self ps false st m = (m, λ x p. ground arith)

-- Where edges are kept at both ends alike, they still are after an update of a symbol's edges. Its
-- parents are then the new dependencies but itself, and the old parents unless the update overwrites
-- them; the parents of the others are what they were.
pub update_edges-IsMirrored :
    (self : ℕ) (new_deps : List ℕ) (overwrite : Bool) (st : Store)
    → IsMirrored st
    → IsMirrored (update_edges self new_deps overwrite st)
      × ((x p : ℕ)
          → has (lookup p ((update_edges self new_deps overwrite st).symbol x).parents) ≡ (
              if x == self
              then (elem p new_deps && not (p == self))
                || (has (lookup p (st.symbol self).parents)
                    && not (overwrites st self new_deps overwrite))
              else has (lookup p (st.symbol x).parents)))
unfolding update_edges
update_edges-IsMirrored self new_deps overwrite st m =
    let deps = discard self new_deps in
    let b = overwrites st self new_deps overwrite in
    let gone = diff (keys (st.symbol self).parents) deps in
    let kept = if b then fold_store (drop_parent self) gone st else st in
    let (m₁, first) = kept_lem self gone b st m in
    let (m₂, next) = adds_lem self (diff deps (keys (kept.symbol self).parents)) kept m₁ in
    (
      m₂,
      λ x p. ground (
        arith,
        next x p,
        first x p,
        elem-diff p deps (keys (kept.symbol self).parents),
        elem-keys p (kept.symbol self).parents,
        first self p,
        elem-diff p (keys (st.symbol self).parents) deps,
        elem-keys p (st.symbol self).parents,
        elem-discard p self new_deps,
        λ (e : x ≡ self). ap (λ z. has (lookup p (st.symbol z).parents)) e,
        λ (e : x ≡ self). ap (λ z. has (lookup p (kept.symbol z).parents)) e,
      ),
    )
