-- ===== src/Symbols/Collected.antt =====
-- After `Symbol.collect_self_garbage` (core/ipyflow/data_model/symbol.py) no other symbol is related to
-- the collected one.
use ipyflow.Base.{
  ℕ, ◌≡◌, refl, ap, ◌∙◌, true, false, Option, none, some, List, [], ◌∷◌, lookup, keys, elem,
  elem-nil, elem-cons, elem-keys, has, lookup-erase, ◌==◌, ◌&&◌, if◌then◌else◌, arith,
}
use ipyflow.Symbols.{Store, write_symbol, write_space}
use ipyflow.Symbols.Edges.{set_parents, set_children, pop_child, pop_parent, fold_store}
use ipyflow.Symbols.Mirror.{IsMirrored}
use ipyflow.Symbols.Garbage.{leave_scope, leave_aliases, collect_self_garbage}

-- the children of a symbol after a loop over parents, and its parents
pops_children :
    (self : ℕ) (ps : List ℕ) (x y : ℕ) (st : Store)
    → lookup y ((fold_store (pop_child self) ps st).symbol x).children
      ≡ (if y == self && elem x ps then none else lookup y (st.symbol x).children)
unfolding fold_store pop_child set_children write_symbol
pops_children self [] x y st = ground (arith, elem-nil x)
pops_children self (p ∷ ps) x y st = ground (
  arith,
  pops_children self ps x y (pop_child self p st),
  elem-cons x p ps,
  lookup-erase y self (st.symbol p).children,
  λ (e : x ≡ p). ap (λ z. lookup y (st.symbol z).children) e,
)

pops_children-parents :
    (self : ℕ) (ps : List ℕ) (x : ℕ) (st : Store)
    → ((fold_store (pop_child self) ps st).symbol x).parents ≡ (st.symbol x).parents
unfolding fold_store pop_child set_children write_symbol
pops_children-parents self [] x st = refl
pops_children-parents self (p ∷ ps) x st =
    pops_children-parents self ps x (pop_child self p st)
    ∙ ground (arith, λ (e : x ≡ p). ap (λ z. (st.symbol z).parents) e)

pops_parents :
    (self : ℕ) (cs : List ℕ) (x y : ℕ) (st : Store)
    → lookup y ((fold_store (λ child. pop_parent self child) cs st).symbol x).parents
      ≡ (if y == self && elem x cs then none else lookup y (st.symbol x).parents)
unfolding fold_store pop_parent set_parents write_symbol
pops_parents self [] x y st = ground (arith, elem-nil x)
pops_parents self (c ∷ cs) x y st = ground (
  arith,
  pops_parents self cs x y (pop_parent self c st),
  elem-cons x c cs,
  lookup-erase y self (st.symbol c).parents,
  λ (e : x ≡ c). ap (λ z. lookup y (st.symbol z).parents) e,
)

pops_parents-children :
    (self : ℕ) (cs : List ℕ) (x : ℕ) (st : Store)
    → ((fold_store (λ child. pop_parent self child) cs st).symbol x).children
      ≡ (st.symbol x).children
unfolding fold_store pop_parent set_parents write_symbol
pops_parents-children self [] x st = refl
pops_parents-children self (c ∷ cs) x st =
    pops_parents-children self cs x (pop_parent self c st)
    ∙ ground (arith, λ (e : x ≡ c). ap (λ z. (st.symbol z).children) e)

leave_aliases-edges :
    (self none_id x : ℕ) (st : Store)
    → (((leave_aliases self none_id st).symbol x).parents ≡ (st.symbol x).parents)
      × (((leave_aliases self none_id st).symbol x).children ≡ (st.symbol x).children)
unfolding leave_aliases write_symbol
leave_aliases-edges self none_id x st = (
  ground (arith, λ (e : x ≡ self). ap (λ z. (st.symbol z).parents) e),
  ground (arith, λ (e : x ≡ self). ap (λ z. (st.symbol z).children) e),
)

leave_scope-symbols : (self : ℕ) (st : Store) → (leave_scope self st).symbol ≡ st.symbol
unfolding leave_scope write_space
leave_scope-symbols self st = ground arith

-- Of a loop over the keys of what holds `self`, nothing that holds `self` is left.
has_none : {V : Type 0} (o : Option V) → has o ≡ false → o ≡ none
unfolding has
has_none none h = refl
has_none (some v) h = absurd (ground arith)

module _ (self none_id : ℕ) (st : Store) (m : IsMirrored st) where
  abbrev parents_told : Store
  parents_told =
      fold_store (pop_child self) (keys (st.symbol self).parents) (leave_aliases self none_id st)

  parents_told-children :
      (x y : ℕ)
      → lookup y (parents_told.symbol x).children
        ≡ (if y == self then none else lookup y (st.symbol x).children)
  parents_told-children x y =
      let gone = elem-keys x (st.symbol self).parents in
      let none' = has_none (lookup self (st.symbol x).children) in
      pops_children self (keys (st.symbol self).parents) x y (leave_aliases self none_id st)
      ∙ ground (
        arith,
        gone,
        ap has (m self x),
        none',
        ap (lookup y) (leave_aliases-edges self none_id x st).1,
        λ (e : y ≡ self). ap (λ z. lookup z (st.symbol x).children) e,
      )

  told_parents :
      (x y : ℕ)
      → lookup self (st.symbol self).children ≡ none
      → lookup y
          ((fold_store
              (λ child. pop_parent self child)
              (keys (parents_told.symbol self).children)
              parents_told).symbol
            x).parents
        ≡ (if y == self then none else lookup y (st.symbol x).parents)
  told_parents x y alone =
      pops_parents self (keys (parents_told.symbol self).children) x y parents_told
      ∙ ground (
        arith,
        elem-keys x (parents_told.symbol self).children,
        ap has (parents_told-children self x),
        ap has (m x self),
        has_none (lookup self (st.symbol x).parents),
        ap (lookup y) (
            pops_children-parents self (keys (st.symbol self).parents) x
              (leave_aliases self none_id st)),
        ap (lookup y) (leave_aliases-edges self none_id x st).0,
        λ (e : y ≡ self). ap (λ z. lookup z (st.symbol x).parents) e,
        λ (e : x ≡ self). ap (λ z. lookup self (st.symbol z).parents) e,
        m self self,
        alone,
      )

-- Where edges are kept at both ends alike and a symbol that is garbage has none to itself, collecting it
-- returns, and then it is neither a child nor a parent of any symbol, while all other edges are what
-- they were.
pub collect_self_garbage_lem :
    (self none_id : ℕ) (st : Store)
    → IsMirrored st
    → (st.symbol self).tombstone ≡ true
    → lookup self (st.symbol self).children ≡ none
    → (st' : Store) × (collect_self_garbage self none_id st ≡ some st')
      × ((x y : ℕ)
          → lookup y (st'.symbol x).children
            ≡ (if y == self then none else lookup y (st.symbol x).children))
      × ((x y : ℕ)
          → lookup y (st'.symbol x).parents
            ≡ (if y == self then none else lookup y (st.symbol x).parents))
unfolding collect_self_garbage
collect_self_garbage_lem self none_id st m garbage alone =
    let st₀ = leave_aliases self none_id st in
    let ps = keys (st.symbol self).parents in
    let st₁ = fold_store (pop_child self) ps st₀ in
    let cs = keys (st₁.symbol self).children in
    let st₂ = fold_store (λ child. pop_parent self child) cs st₁ in
    (
      leave_scope self st₂,
      rw garbage refl,
      λ x y.
          ap (λ f. lookup y (f x).children) (leave_scope-symbols self st₂)
          ∙ ap (lookup y) (pops_parents-children self cs x st₁)
          ∙ parents_told-children self none_id st m x y,
      λ x y.
          ap (λ f. lookup y (f x).parents) (leave_scope-symbols self st₂)
          ∙ told_parents self none_id st m x y alone,
    )
