-- ===== src/Cells/Renamed.antt =====
-- What `Cell.update_id` of core/ipyflow/data_model/cell.py does to the registry.
use ipyflow.Base.{
  ℕ, zero, suc, ◌≡◌, refl, ap, subst, ◌∙◌, false, Option, none, some, List, [], ◌∷◌, Dict, lookup,
  lookup-insert, lookup-erase, erase, keys, ◌==◌, if◌then◌else◌,
}
use ipyflow.Config.Contexts.{
  MutableDataflowSettings, SlicingContext, dynamic, static, slicing_contexts,
}
use ipyflow.Slicing.EdgeSets.{Edges}
use ipyflow.Cells.{Registry}
use ipyflow.Cells.Lookup.{from_id, store}
use ipyflow.Cells.Positions.{raw_parents, raw_children}
use ipyflow.Cells.Partial.{Holds, Holds-bind, Holds-if}
use ipyflow.Cells.Renaming.{
  update_versions, rename_key, move_key, set_raw_children, set_raw_parents, rename_at_parents,
  rename_at_children, rename_edges, rename_in_registry, is_current_or_absent, update_id,
}

move_key_lem :
    {V : Type 0}
    → (j old_id new_id : ℕ) → (v : V) → (d : Dict V) → lookup old_id d ≡ some v
    → lookup j (move_key old_id new_id d)
      ≡ (if j == new_id then some v else if j == old_id then none else lookup j d)
unfolding move_key
move_key_lem j old_id new_id v d found =
    rw (move_key, found)
      (lookup-insert j new_id v (erase old_id d)
        ∙ ap (λ o. if j == new_id then some v else o) (lookup-erase j old_id d))

-- the tables of two registries that a change of edges leaves alone
pub record SameTables (g h : Registry) : Type 0 where
  pub current : h.current_cell_by_cell_id ≡ g.current_cell_by_cell_id
  pub positions : h.position_by_cell_id ≡ g.position_by_cell_id

then_same : {g h k : Registry} → SameTables g h → SameTables h k → SameTables g k
then_same s t = record { current = t.current ∙ s.current; positions = t.positions ∙ s.positions }

versions-SameTables :
    (fuel new_id : ℕ) (self : Option ℕ) (g : Registry)
    → SameTables g (update_versions fuel new_id self g)
unfolding update_versions store
versions-SameTables zero new_id self g = record { current = refl; positions = refl }
versions-SameTables (suc fuel) new_id none g = record { current = refl; positions = refl }
versions-SameTables (suc fuel) new_id (some self) g =
    then_same (record { current = refl; positions = refl })
      (versions-SameTables fuel new_id (g.cell self).prev_cell
        (store g self (record (g.cell self) { cell_id = new_id; placeholder_id = false })))

children-SameTables :
    (context : SlicingContext) (self : ℕ) (edges : Edges) (g : Registry)
    → SameTables g (set_raw_children context self edges g)
unfolding set_raw_children store
children-SameTables dynamic self edges g = record { current = refl; positions = refl }
children-SameTables static self edges g = record { current = refl; positions = refl }

parents-SameTables :
    (context : SlicingContext) (self : ℕ) (edges : Edges) (g : Registry)
    → SameTables g (set_raw_parents context self edges g)
unfolding set_raw_parents store
parents-SameTables dynamic self edges g = record { current = refl; positions = refl }
parents-SameTables static self edges g = record { current = refl; positions = refl }

module _ (start : Registry) where
  at_parents-SameTables :
      (context : SlicingContext) (old_id new_id : ℕ) (pids : List ℕ) (g : Registry)
      → SameTables start g
      → Holds (SameTables start) (rename_at_parents context old_id new_id pids g)
  unfolding rename_at_parents
  at_parents-SameTables context old_id new_id [] g s = s
  at_parents-SameTables context old_id new_id (pid ∷ pids) g s =
      Holds-bind (SameTables start) (from_id g pid) _ λ parent _.
        at_parents-SameTables context old_id new_id pids _ (
          then_same s (
            children-SameTables context parent
              (rename_key old_id new_id (raw_children g context parent) []) g))

  at_children-SameTables :
      (context : SlicingContext) (old_id new_id : ℕ) (cids : List ℕ) (g : Registry)
      → SameTables start g
      → Holds (SameTables start) (rename_at_children context old_id new_id cids g)
  unfolding rename_at_children
  at_children-SameTables context old_id new_id [] g s = s
  at_children-SameTables context old_id new_id (cid ∷ cids) g s =
      Holds-bind (SameTables start) (from_id g cid) _ λ child _.
        at_children-SameTables context old_id new_id cids _ (
          then_same s (
            parents-SameTables context child
              (rename_key old_id new_id (raw_parents g context child) []) g))

  edges-SameTables :
      (contexts : List SlicingContext) (self old_id new_id : ℕ) (g : Registry)
      → SameTables start g
      → Holds (SameTables start) (rename_edges contexts self old_id new_id g)
  unfolding rename_edges
  edges-SameTables [] self old_id new_id g s = s
  edges-SameTables (context ∷ contexts) self old_id new_id g s =
      let pids = keys (raw_parents g context self) in
      Holds-bind (SameTables start) (rename_at_parents context old_id new_id pids g) _ λ g' e.
        let s' =
          subst (Holds (SameTables start)) e
            (at_parents-SameTables context old_id new_id pids g s) in
        let cids = keys (raw_children g' context self) in
        Holds-bind (SameTables start) (rename_at_children context old_id new_id cids g') _ λ g'' e'.
          edges-SameTables contexts self old_id new_id g'' (
            subst (Holds (SameTables start)) e'
              (at_children-SameTables context old_id new_id cids g' s'))

-- What follows from the tables alone holds once edges are renamed.
edges_then :
    (P : Registry → Type 0) (contexts : List SlicingContext) (self old_id new_id : ℕ) (g : Registry)
    → ((h : Registry) → SameTables g h → P h)
    → Holds P (rename_edges contexts self old_id new_id g)
edges_then P contexts self old_id new_id g k =
    weaken (rename_edges contexts self old_id new_id g) (
      edges-SameTables g contexts self old_id new_id g
        (record { current = refl; positions = refl }))
  where
    weaken : (o : Option Registry) → Holds (SameTables g) o → Holds P o
    weaken none s = tt
    weaken (some h) s = k h s

-- How `h` names cells once `self` has a new identifier in place of the old one.
abbrev Names : Registry → ℕ → ℕ → ℕ → Registry → Type 0
Names g self old_id new_id h =
    (j : ℕ)
    → from_id h j ≡ (if j == new_id then some self else if j == old_id then none else from_id g j)

renamed-Names :
    (settings : MutableDataflowSettings) (self new_id : ℕ) (g : Registry)
    → from_id g (g.cell self).cell_id ≡ some self
    → Holds (Names g self (g.cell self).cell_id new_id) (update_id settings self new_id g)
unfolding update_id from_id rename_in_registry
renamed-Names settings self new_id g is_current =
    let old_id = (g.cell self).cell_id in
    let g' = update_versions (suc self) new_id (some self) g in
    let versions = versions-SameTables (suc self) new_id (some self) g in
    let moved = rename_in_registry old_id new_id g' in
    Holds-if (Names g self old_id new_id) (is_current_or_absent (from_id g old_id) self) _ none
      (λ _.
        edges_then (Names g self old_id new_id) (slicing_contexts settings) self old_id new_id moved
          λ h s j.
            ap (lookup j) s.current
            ∙ ap (λ (d : Dict ℕ). lookup j (move_key old_id new_id d)) versions.current
            ∙ move_key_lem j old_id new_id self g.current_cell_by_cell_id is_current)
      λ _. tt

-- Where the cell is the current one of its identifier and no exception is raised, afterwards the new
-- identifier names it, the old one, if it is another, names nothing, and all others name what they
-- did.
pub update_id_lem :
    (settings : MutableDataflowSettings) (self new_id : ℕ) (g h : Registry)
    → from_id g (g.cell self).cell_id ≡ some self
    → update_id settings self new_id g ≡ some h
    → (j : ℕ)
    → from_id h j ≡ (
        if j == new_id then some self else if j == (g.cell self).cell_id then none else from_id g j)
update_id_lem settings self new_id g h is_current e =
    subst (Holds (Names g self (g.cell self).cell_id new_id)) e
      (renamed-Names settings self new_id g is_current)
