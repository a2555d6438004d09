-- ===== src/Frontend/Flip.antt =====
-- The two dictionaries of `_compute_stale_parent_makers` of core/ipyflow/frontend.py say the same.
use ipyflow.Base.{
  ℕ, ◌≡◌, ap, subst, some, List, [], ◌∷◌, Dict, lookup_or, lookup-insert, elem, elem-nil, elem-cons,
  ◌==◌, ◌&&◌, ◌||◌, arith,
}
use ipyflow.Config.Contexts.{MutableDataflowSettings, SlicingContext, slicing_contexts}
use ipyflow.Slicing.EdgeSets.{Edges, syms_of, merge, elem-syms_of-merge}
use ipyflow.Cells.{Registry}
use ipyflow.Cells.Positions.{raw_parents, iterate_over_notebook_in_position_order}
use ipyflow.Frontend.Checker.{CheckerResult}
use ipyflow.Cells.Partial.{Holds, Holds-bind, Holds-if}
use ipyflow.Frontend.View.{View}
use ipyflow.Frontend.Parents.{Modified}
use ipyflow.Frontend.Stale.{
  NestedParents, add_under, note_makers, note_syms, note_quals, note_parents, note_in_contexts,
  note_writes, writes, scan_notebook, tracks_stale, compute_stale_parent_makers,
}

-- d.get(a, {}).get(b, set())
unfoldable pub under : Dict Edges → ℕ → ℕ → List ℕ
unfolding lookup_or syms_of
under d a b = syms_of (lookup_or [] a d) b

elem-under-add :
    (a b i j p q : ℕ) (d : Dict Edges)
    → elem p (under (add_under a b q d) i j)
      ≡ ((i == a && j == b && p == q) || elem p (under d i j))
unfolding under add_under lookup_or
elem-under-add a b i j p q d = ground (
  arith,
  lookup-insert i a (merge b (q ∷ []) (lookup_or [] a d)) d,
  elem-syms_of-merge p j b (q ∷ []) (lookup_or [] a d),
  elem-cons p q [],
  elem-nil p,
  λ (e : i ≡ a). ap (λ k. elem p (syms_of (lookup_or [] k d) j)) e,
)

-- The second dictionary holds under an executed cell and a child what the first holds under the
-- child and the executed cell.
abbrev IsFlipped : NestedParents → Type 0
IsFlipped m =
    (c e p : ℕ)
    → elem p (under m.by_executed_cell_by_child c e)
      ≡ elem p (under m.by_child_by_executed_cell e c)

note_makers-IsFlipped :
    (child pid : ℕ) (executed : List ℕ) (m : NestedParents)
    → IsFlipped m
    → IsFlipped (note_makers child pid executed m)
unfolding note_makers
note_makers-IsFlipped child pid [] m f = f
note_makers-IsFlipped child pid (x ∷ executed) m f =
    note_makers-IsFlipped child pid executed _ λ c e p. ground (
      arith,
      elem-under-add child x c e p pid m.by_executed_cell_by_child,
      elem-under-add x child e c p pid m.by_child_by_executed_cell,
      f c e p,
    )

note_syms-IsFlipped :
    (child pid : ℕ) (updates : Edges) (syms : List ℕ) (m : NestedParents)
    → IsFlipped m
    → IsFlipped (note_syms child pid updates syms m)
unfolding note_syms
note_syms-IsFlipped child pid updates [] m f = f
note_syms-IsFlipped child pid updates (s ∷ syms) m f =
    note_syms-IsFlipped child pid updates syms _
      (note_makers-IsFlipped child pid (syms_of updates s) m f)

note_quals-IsFlipped :
    (view : View) (child pid : ℕ) (updates : Edges) (quals : List ℕ) (m : NestedParents)
    → IsFlipped m
    → IsFlipped (note_quals view child pid updates quals m)
unfolding note_quals
note_quals-IsFlipped view child pid updates [] m f = f
note_quals-IsFlipped view child pid updates (q ∷ quals) m f =
    note_quals-IsFlipped view child pid updates quals _
      (note_syms-IsFlipped child pid updates (view.traverse_up_namespaces q) m f)

note_parents-IsFlipped :
    (view : View) (child : ℕ) (updates edges : Edges) (m : NestedParents)
    → IsFlipped m
    → IsFlipped (note_parents view child updates edges m)
unfolding note_parents
note_parents-IsFlipped view child updates [] m f = f
note_parents-IsFlipped view child updates ((pid, syms) ∷ edges) m f =
    note_parents-IsFlipped view child updates edges _
      (note_quals-IsFlipped view child pid updates syms m f)

note_in_contexts-IsFlipped :
    (view : View) (g : Registry) (self : ℕ) (contexts : List SlicingContext) (updates : Edges)
    (m : NestedParents)
    → IsFlipped m
    → IsFlipped (note_in_contexts view g self contexts updates m)
unfolding note_in_contexts
note_in_contexts-IsFlipped view g self [] updates m f = f
note_in_contexts-IsFlipped view g self (context ∷ contexts) updates m f =
    note_in_contexts-IsFlipped view g self contexts updates _
      (note_parents-IsFlipped view (g.cell self).cell_id updates (raw_parents g context self) m f)

scan_notebook-IsFlipped :
    (view : View) (modified : Modified) (g : Registry) (contexts : List SlicingContext)
    (rs : List ℕ) (updates : Edges) (m : NestedParents)
    → IsFlipped m
    → IsFlipped (scan_notebook view modified g contexts rs updates m)
unfolding scan_notebook
scan_notebook-IsFlipped view modified g contexts [] updates m f = f
scan_notebook-IsFlipped view modified g contexts (self ∷ rs) updates m f =
    scan_notebook-IsFlipped view modified g contexts rs
      (note_writes (g.cell self).cell_id (writes modified g self) updates) _
      (note_in_contexts-IsFlipped view g self contexts updates m f)

-- the two dictionaries of a result
abbrev pub nested : CheckerResult → NestedParents
nested res = record {
  by_executed_cell_by_child = res.stale_parents_by_executed_cell_by_child;
  by_child_by_executed_cell = res.stale_parents_by_child_by_executed_cell;
}

abbrev IsFlippedIn : CheckerResult → Type 0
IsFlippedIn res = IsFlipped (nested res)

makers-IsFlippedIn :
    (settings : MutableDataflowSettings) (view : View) (modified : Modified) (g : Registry)
    (res : CheckerResult)
    → IsFlippedIn res
    → Holds IsFlippedIn (compute_stale_parent_makers settings view modified g res)
unfolding compute_stale_parent_makers
makers-IsFlippedIn settings view modified g res f =
    Holds-if IsFlippedIn (tracks_stale settings) _ _
      (λ _. Holds-bind IsFlippedIn (iterate_over_notebook_in_position_order g) _ λ rs _.
        scan_notebook-IsFlipped view modified g (slicing_contexts settings) rs [] (nested res) f)
      λ _. f

-- Where the two dictionaries of stale parents agree before the method, they agree after it: what one
-- records under a child and an executed cell, the other records under the executed cell and the
-- child.
pub compute_stale_parent_makers_lem :
    (settings : MutableDataflowSettings) (view : View) (modified : Modified) (g : Registry)
    (res res' : CheckerResult)
    → ((c e p : ℕ)
        → elem p (under res.stale_parents_by_executed_cell_by_child c e)
          ≡ elem p (under res.stale_parents_by_child_by_executed_cell e c))
    → compute_stale_parent_makers settings view modified g res ≡ some res'
    → (c e p : ℕ)
    → elem p (under res'.stale_parents_by_executed_cell_by_child c e)
      ≡ elem p (under res'.stale_parents_by_child_by_executed_cell e c)
compute_stale_parent_makers_lem settings view modified g res res' f made =
    subst (Holds IsFlippedIn) made (makers-IsFlippedIn settings view modified g res f)
