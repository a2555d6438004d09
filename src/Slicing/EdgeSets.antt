-- ===== src/Slicing/EdgeSets.antt =====
-- The dictionaries from identifiers to sets of symbols that hold the edges of the dataflow graph
-- (`Dict[IdType, Set[Symbol]]` in core/ipyflow/slicing/mixin.py).
use ipyflow.Base.{
  ℕ, ◌≡◌, refl, ap, true, false, not, ◌||◌, ◌&&◌, List, [], ◌∷◌, Dict, lookup, lookup_or,
  lookup-insert, lookup-erase, insert, erase, has, elem, union, diff, inter, elem-union, elem-diff,
  elem-nil, elem-cons, Bool-cases, inl, inr, elem-inter, is_empty, if◌then◌else◌, ◌==◌, arith,
}

abbrev pub Edges : Type 0
Edges = Dict (List ℕ)

-- edges.get(k, set())
unfoldable pub syms_of : Edges → ℕ → List ℕ
unfolding lookup_or
syms_of edges k = lookup_or [] k edges

-- edges.setdefault(k, set()).update(syms)
unfoldable pub merge : ℕ → List ℕ → Edges → Edges
unfolding syms_of
merge k syms edges = insert k (union syms (syms_of edges k)) edges

-- One round of the loop in `remove_parent_edges`: the symbols are taken away, and a set that
-- becomes empty loses its key.
unfoldable pub subtract : ℕ → List ℕ → Edges → Edges
unfolding syms_of
subtract k syms edges =
    let rest = diff (syms_of edges k) syms in
    if is_empty (syms_of edges k)
    then edges
    else if is_empty rest
    then erase k edges
    else insert k rest edges

-- for k, prev_syms in prev.items(): common = syms & prev_syms; if common: merge
unfoldable pub inherit : List ℕ → Edges → List ℕ → Edges → Edges
inherit syms prev [] edges = edges
inherit syms prev (k ∷ ks) edges =
    let common = inter syms (syms_of prev k) in
    inherit syms prev ks (if is_empty common then edges else merge k common edges)

pub elem-syms_of-merge :
    (s j k : ℕ) (syms : List ℕ) (edges : Edges)
    → elem s (syms_of (merge k syms edges) j)
      ≡ ((j == k && elem s syms) || elem s (syms_of edges j))
unfolding merge
elem-syms_of-merge s j k syms edges = ground (
  arith,
  lookup-insert j k (union syms (syms_of edges k)) edges,
  elem-union s syms (syms_of edges k),
  λ (e : j ≡ k). ap (λ z. elem s (syms_of edges z)) e,
)

pub has-merge :
    (j k : ℕ) (syms : List ℕ) (edges : Edges)
    → has (lookup j (merge k syms edges)) ≡ (j == k || has (lookup j edges))
unfolding merge has
has-merge j k syms edges = ground (arith, lookup-insert j k (union syms (syms_of edges k)) edges)

elem-is_empty : (s : ℕ) (xs : List ℕ) → is_empty xs ≡ true → elem s xs ≡ false
elem-is_empty s [] h = elem-nil s
elem-is_empty s (x ∷ xs) h = cc

pub elem-syms_of-subtract :
    (s j k : ℕ) (syms : List ℕ) (edges : Edges)
    → elem s (syms_of (subtract k syms edges) j)
      ≡ (elem s (syms_of edges j) && not (j == k && elem s syms))
unfolding subtract
elem-syms_of-subtract s j k syms edges =
    let rest = diff (syms_of edges k) syms in
    ground (
      arith,
      lookup-insert j k rest edges,
      lookup-erase j k edges,
      elem-diff s (syms_of edges k) syms,
      elem-is_empty s (syms_of edges k),
      elem-is_empty s rest,
      elem-nil s,
      λ (e : j ≡ k). ap (λ z. elem s (syms_of edges z)) e,
    )

inherit_one :
    (s j k : ℕ) (syms : List ℕ) (prev edges : Edges)
    → elem s (
        syms_of
          (if is_empty (inter syms (syms_of prev k))
            then edges
            else merge k (inter syms (syms_of prev k)) edges)
          j)
      ≡ (elem s (syms_of edges j) || (elem s syms && elem s (syms_of prev j) && j == k))
inherit_one s j k syms prev edges =
    let common = inter syms (syms_of prev k) in
    ground (
      arith,
      elem-syms_of-merge s j k common edges,
      elem-inter s syms (syms_of prev k),
      elem-is_empty s common,
      λ (e : j ≡ k). ap (λ z. elem s (syms_of prev z)) e,
    )

-- What is inherited from a previous version: the symbols that its edges share with `syms`.
pub elem-syms_of-inherit :
    (s j : ℕ) (syms : List ℕ) (prev : Edges) (ks : List ℕ) (edges : Edges)
    → elem s (syms_of (inherit syms prev ks edges) j)
      ≡ (elem s (syms_of edges j) || (elem s syms && elem s (syms_of prev j) && elem j ks))
unfolding inherit
elem-syms_of-inherit s j syms prev [] edges = ground (arith, elem-nil j)
elem-syms_of-inherit s j syms prev (k ∷ ks) edges = ground (
  arith,
  inherit_one s j k syms prev edges,
  elem-cons j k ks,
  elem-syms_of-inherit s j syms prev ks (
      if is_empty (inter syms (syms_of prev k))
      then edges
      else merge k (inter syms (syms_of prev k)) edges),
)

-- Every key that inheriting adds is a key of the previous version.
pub has-inherit :
    (j : ℕ) (syms : List ℕ) (prev : Edges) (ks : List ℕ) (edges : Edges)
    → has (lookup j (inherit syms prev ks edges)) ≡ true
    → (has (lookup j edges) || elem j ks) ≡ true
unfolding inherit
has-inherit j syms prev [] edges h = ground arith
has-inherit j syms prev (k ∷ ks) edges h =
    let common = inter syms (syms_of prev k) in
    ground (
      arith,
      has-merge j k common edges,
      elem-cons j k ks,
      has-inherit j syms prev ks (if is_empty common then edges else merge k common edges) h,
    )

-- No key has the empty set of symbols.
abbrev pub IsOccupied : Edges → Type 0
IsOccupied edges =
    (j : ℕ) → has (lookup j edges) ≡ true → (s : ℕ) × (elem s (syms_of edges j) ≡ true)

elem-head : (xs : List ℕ) → is_empty xs ≡ false → (s : ℕ) × (elem s xs ≡ true)
elem-head [] h = cc
elem-head (x ∷ xs) h = (x, ground (arith, elem-cons x x xs))

pub merge-IsOccupied :
    (k : ℕ) (syms : List ℕ) (edges : Edges)
    → is_empty syms ≡ false
    → IsOccupied edges
    → IsOccupied (merge k syms edges)
merge-IsOccupied k syms edges some_sym o j h = elim (Bool-cases (j == k)) [
  | inl same ↦
      let (s, m) = elem-head syms some_sym in
      (s, rw (elem-syms_of-merge s j k syms edges, same, m) refl)
  | inr other ↦
      let (s, m) = o j (ground (arith, has-merge j k syms edges)) in
      (s, ground (arith, elem-syms_of-merge s j k syms edges))
]

pub inherit-IsOccupied :
    (syms : List ℕ) (prev : Edges) (ks : List ℕ) (edges : Edges)
    → IsOccupied edges
    → IsOccupied (inherit syms prev ks edges)
unfolding inherit
inherit-IsOccupied syms prev [] edges o = o
inherit-IsOccupied syms prev (k ∷ ks) edges o =
    let common = inter syms (syms_of prev k) in
    elim (Bool-cases (is_empty common)) [
      | inl empty ↦ rw empty (inherit-IsOccupied syms prev ks edges o)
      | inr some_sym ↦ rw some_sym (
          inherit-IsOccupied syms prev ks (merge k common edges)
            (merge-IsOccupied k common edges some_sym o))
    ]

insert-IsOccupied :
    (k : ℕ) (syms : List ℕ) (edges : Edges)
    → is_empty syms ≡ false
    → IsOccupied edges
    → IsOccupied (insert k syms edges)
unfolding syms_of has
insert-IsOccupied k syms edges some_sym o j h = elim (Bool-cases (j == k)) [
  | inl same ↦
      let (s, m) = elem-head syms some_sym in (s, ground (arith, lookup-insert j k syms edges))
  | inr other ↦
      let (s, m) = o j (ground (arith, lookup-insert j k syms edges)) in
      (s, ground (arith, lookup-insert j k syms edges))
]

pub subtract-IsOccupied :
    (k : ℕ) (syms : List ℕ) (edges : Edges) → IsOccupied edges → IsOccupied (subtract k syms edges)
unfolding subtract has
subtract-IsOccupied k syms edges o j h =
    let rest = diff (syms_of edges k) syms in
    elim (Bool-cases (is_empty (syms_of edges k))) [
      | inl empty ↦ rw empty (o j (rw empty at h))
      | inr full ↦ elim (Bool-cases (is_empty rest)) [
        | inl gone ↦
            let (s, m) = o j (ground (arith, lookup-erase j k edges)) in
            (
              s,
              ground (
                arith,
                elem-syms_of-subtract s j k syms edges,
                lookup-erase j k edges,
                lookup-insert j k rest edges,
              ),
            )
        | inr left ↦
            rw (full, left) (insert-IsOccupied k rest edges left o j (rw (full, left) at h))
      ]
    ]
