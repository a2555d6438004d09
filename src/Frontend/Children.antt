-- ===== src/Frontend/Children.antt =====
-- The children that `_compute_filtered_parents` of core/ipyflow/frontend.py draws are the converse of
-- the parents that it draws.
use ipyflow.Base.{
  ℕ, ◌≡◌, refl, sym, ap, subst, ◌∙◌, Bool, true, false, some, List, [], ◌∷◌, lookup, lookup_or,
  insert, lookup-insert, elem, elem-nil, elem-add, elem-cons, has, keys, elem-keys, add, ◌==◌, ◌&&◌,
  ◌||◌, not, Bool-cases, inl, inr, if◌then◌else◌, arith,
}
use ipyflow.Config.Contexts.{MutableDataflowSettings, slicing_contexts}
use ipyflow.Slicing.EdgeSets.{Edges, syms_of}
use ipyflow.Cells.{Registry}
use ipyflow.Frontend.Checker.{CheckerResult}
use ipyflow.Cells.Partial.{Holds, Holds-bind}
use ipyflow.Frontend.View.{View, get_latest_parent_by_ts_map}
use ipyflow.Frontend.Parents.{
  Modified, drawn_in_contexts, fill_parents, add_child, fill_children, set_default,
  compute_filtered_parents,
}

-- no key stands twice
abbrev is_dict : Edges → Bool
is_dict [] = true
is_dict ((k, v) ∷ edges) = not (elem k (keys edges)) && is_dict edges

-- whether some entry of `edges` for `c` holds `p`
abbrev gives : Edges → ℕ → ℕ → Bool
gives [] c p = false
gives ((k, ps) ∷ edges) c p = (c == k && elem p ps) || gives edges c p

pub elem-syms_of-nil : (x k : ℕ) → elem x (syms_of [] k) ≡ false
unfolding syms_of lookup_or lookup
elem-syms_of-nil x k = elem-nil x

pub elem-syms_of-insert :
    (x j k : ℕ) (xs : List ℕ) (edges : Edges)
    → elem x (syms_of (insert k xs edges) j)
      ≡ (if j == k then elem x xs else elem x (syms_of edges j))
unfolding syms_of lookup_or
elem-syms_of-insert x j k xs edges = ground (arith, lookup-insert j k xs edges)

add_child_lem :
    (cell_id c p : ℕ) (ps : List ℕ) (ch : Edges)
    → elem c (syms_of (add_child cell_id ps ch) p)
      ≡ ((c == cell_id && elem p ps) || elem c (syms_of ch p))
unfolding add_child syms_of
add_child_lem cell_id c p [] ch = ground (arith, elem-nil p)
add_child_lem cell_id c p (q ∷ ps) ch = ground (
  arith,
  add_child_lem cell_id c p ps (insert q (add cell_id (lookup_or [] q ch)) ch),
  elem-syms_of-insert c p q (add cell_id (lookup_or [] q ch)) ch,
  elem-add c cell_id (lookup_or [] q ch),
  elem-cons p q ps,
)

fill_children_lem :
    (c p : ℕ) (edges ch : Edges)
    → elem c (syms_of (fill_children edges ch) p) ≡ (gives edges c p || elem c (syms_of ch p))
unfolding fill_children
fill_children_lem c p [] ch = refl
fill_children_lem c p ((k, ps) ∷ edges) ch =
    ground (arith, fill_children_lem c p edges (add_child k ps ch), add_child_lem k c p ps ch)

set_default_lem :
    (g : Registry) (rs : List ℕ) (c p : ℕ) (ch : Edges)
    → elem c (syms_of (set_default g rs ch) p) ≡ elem c (syms_of ch p)
unfolding set_default syms_of
set_default_lem g [] c p ch = refl
set_default_lem g (r ∷ rs) c p ch =
    let id = (g.cell r).cell_id in
    set_default_lem g rs c p (insert id (lookup_or [] id ch) ch)
    ∙ ground (
      arith,
      elem-syms_of-insert c p id (lookup_or [] id ch) ch,
      λ (e : p ≡ id). ap (λ j. elem c (lookup_or [] j ch)) e,
    )

-- In a dictionary, what is given for a key is its value.
gives_none : (c p : ℕ) (edges : Edges) → elem c (keys edges) ≡ false → gives edges c p ≡ false
unfolding keys elem
gives_none c p [] out = refl
gives_none c p ((k, ps) ∷ edges) out = ground (arith, gives_none c p edges)

gives_lem :
    (c p : ℕ) (edges : Edges) → is_dict edges ≡ true → gives edges c p ≡ elem p (syms_of edges c)
unfolding syms_of lookup_or lookup
gives_lem c p [] d = sym (elem-nil p)
gives_lem c p ((k, ps) ∷ edges) d = elim (Bool-cases (c == k)) [
  | inl same ↦ ground (arith, gives_none c p edges, λ (e : c ≡ k). ap (λ j. elem j (keys edges)) e)
  | inr other ↦ ground (arith, gives_lem c p edges)
]

insert-is_dict :
    (k : ℕ) (ps : List ℕ) (edges : Edges)
    → is_dict edges ≡ true
    → is_dict (insert k ps edges) ≡ true
unfolding insert keys
insert-is_dict k ps [] d = ground (arith, elem-nil k)
insert-is_dict k ps ((j, qs) ∷ edges) d = elim (Bool-cases (k == j)) [
  | inl same ↦ ground (arith, λ (e : k ≡ j). ap (λ i. elem i (keys edges)) e)
  | inr other ↦ ground (
    arith,
    insert-is_dict k ps edges,
    elem-keys j (insert k ps edges),
    elem-keys j edges,
    lookup-insert j k ps edges,
    ap (has {V = List ℕ}) (lookup-insert j k ps edges),
  )
]

-- a dictionary, as the result of a loop that fills one
abbrev IsDict : Edges → Type 0
IsDict edges = is_dict edges ≡ true

fill_parents-IsDict :
    (settings : MutableDataflowSettings) (view : View) (modified : Modified) (g : Registry)
    (rs : List ℕ) (edges : Edges)
    → IsDict edges
    → Holds IsDict (fill_parents settings view modified g rs edges)
unfolding fill_parents
fill_parents-IsDict settings view modified g [] edges d = d
fill_parents-IsDict settings view modified g (self ∷ rs) edges d =
    Holds-bind IsDict (get_latest_parent_by_ts_map settings view g self) _ λ latest _.
      Holds-bind IsDict
        (drawn_in_contexts settings view modified g latest self (slicing_contexts settings) []) _
        λ parents _.
          fill_parents-IsDict settings view modified g rs
            (insert (g.cell self).cell_id parents edges)
            (insert-is_dict (g.cell self).cell_id parents edges d)

abbrev IsConverse : CheckerResult → Type 0
IsConverse res =
    (c p : ℕ) → elem c (syms_of res.cell_children p) ≡ elem p (syms_of res.cell_parents c)

filled-IsConverse :
    (settings : MutableDataflowSettings) (view : View) (modified : Modified) (g : Registry)
    (rs : List ℕ) (res : CheckerResult)
    → res.cell_parents ≡ []
    → res.cell_children ≡ []
    → Holds IsConverse (compute_filtered_parents settings view modified g rs res)
unfolding compute_filtered_parents
filled-IsConverse settings view modified g rs res no_parents no_children =
    Holds-bind IsConverse (fill_parents settings view modified g rs res.cell_parents) _
      λ filled e c p.
        set_default_lem g rs c p (fill_children filled res.cell_children)
        ∙ fill_children_lem c p filled res.cell_children
        ∙ ground (
          arith,
          ap (λ (d : Edges). elem c (syms_of d p)) no_children,
          elem-syms_of-nil c p,
          gives_lem c p filled (
              subst (Holds IsDict) e (
                fill_parents-IsDict settings view modified g rs res.cell_parents
                  (ap is_dict no_parents))),
        )

-- From a result with no parents or children yet, where the method returns, a cell is drawn as a
-- child of another exactly when the other is drawn as its parent.
pub compute_filtered_parents_lem :
    (settings : MutableDataflowSettings) (view : View) (modified : Modified) (g : Registry)
    (rs : List ℕ) (res res' : CheckerResult)
    → res.cell_parents ≡ []
    → res.cell_children ≡ []
    → compute_filtered_parents settings view modified g rs res ≡ some res'
    → (c p : ℕ) → elem c (syms_of res'.cell_children p) ≡ elem p (syms_of res'.cell_parents c)
compute_filtered_parents_lem settings view modified g rs res res' no_parents no_children e =
    subst (Holds IsConverse) e
      (filled-IsConverse settings view modified g rs res no_parents no_children)
