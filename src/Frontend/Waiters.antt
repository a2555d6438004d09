-- ===== src/Frontend/Waiters.antt =====
-- `_compute_dag_based_waiters` of core/ipyflow/frontend.py as a whole: it ends, and the cells of the
-- registry that wait are no longer ready.
use ipyflow.Base.{
  ℕ, ◌+◌, ◌<◌, ◌≡◌, refl, sym, ◌∙◌, ap, ◌↔◌, ◌⊎◌, inl, inr, Bool, true, false, none, some, List, [],
  ◌∷◌, length, elem, elem-nil, elem-cons, elem-diff, has, Option-cases, Bool-cases, ◌==◌, ◌&&◌, not,
  arith, ==_iff,
}
use mathlib.Core.Bool.{Bool-set}
use mathlib.Core.Logic.{∥∥₁_elim}
use mathlib.Core.Option.{some-injective}
use ipyflow.Config.Contexts.{MutableDataflowSettings}
use ipyflow.Cells.{Registry}
use ipyflow.Cells.Lookup.{from_id, set_ready, store}
use ipyflow.Frontend.Checker.{CheckerResult, uses_dag}
use ipyflow.Frontend.Waiting.{Checked, read_parents, unset_ready, settle, compute_dag_based_waiters}
use ipyflow.Frontend.Fixpoint.{Waits}
use ipyflow.Frontend.Least.{passes-eq-Waits}

-- How clearing flags changes a registry: no cell but those of `ids`, and none of them stays ready.
pub record Unset (ids : List ℕ) (g h : Registry) : Type 0 where
  pub same_ids : (j : ℕ) → from_id h j ≡ from_id g j
  pub cleared : (j r : ℕ) → elem j ids ≡ true → from_id g j ≡ some r → (h.cell r).ready ≡ false
  pub stays : (r : ℕ) → (g.cell r).ready ≡ false → (h.cell r).ready ≡ false

one_unset :
    (g : Registry) (r q : ℕ)
    → (q ≡ r) ⊎ ((g.cell q).ready ≡ false)
    → (((set_ready g r false).0).cell q).ready ≡ false
unfolding set_ready store
one_unset g r q (inl same) = ground arith
one_unset g r q (inr off) = ground arith

pub unset_ready_lem :
    (ids : List ℕ) (g : Registry)
    → ((j : ℕ) → elem j ids ≡ true → has (from_id g j) ≡ true)
    → (h : Registry) × (unset_ready ids g ≡ some h) × Unset ids g h
unfolding unset_ready has
unset_ready_lem [] g known = (
  g,
  refl,
  record {
    same_ids = λ j. refl;
    cleared = λ j r m e. absurd (ground (arith, elem-nil j));
    stays = λ r off. off;
  },
)
unset_ready_lem (id ∷ ids) g known = elim (Option-cases (from_id g id)) [
  | inl gone ↦ absurd (ground (arith, ap has gone, known id (ground (arith, elem-cons id id ids))))
  | inr (r, found) ↦
      let g' = (set_ready g r false).0 in
      let same : (j : ℕ) → from_id g' j ≡ from_id g j =
        λ j. unfold set_ready in unfold store in unfold from_id in refl in
      let (h, e, t) =
        unset_ready_lem ids g'
          (λ j m. ap has (same j) ∙ known j (ground (arith, elem-cons j id ids))) in
      (
        h,
        rw found e,
        record {
          same_ids = λ j. t.same_ids j ∙ same j;
          cleared = λ j q m at_j. elim (Bool-cases (j == id)) [
            | inl here ↦ t.stays q (
                one_unset g r q (
                  inl (
                    some-injective _ _ (sym at_j ∙ ap (from_id g) ((==_iff j id).0 here) ∙ found))))
            | inr other ↦ t.cleared j q (ground (arith, elem-cons j id ids)) (same j ∙ at_j)
          ];
          stays = λ q off. t.stays q (one_unset g r q (inr off));
        },
      )
]

-- the flag of the current cell of an identifier
abbrev pub is_ready : Registry → ℕ → Bool
is_ready g id = elim (from_id g id) [ none ↦ false | some r ↦ (g.cell r).ready ]

Unset-is_ready :
    (ids : List ℕ) (g h : Registry) → Unset ids g h → (j : ℕ) → (elem j ids && is_ready h j) ≡ false
Unset-is_ready ids g h t j = elim (Bool-cases (elem j ids)) [
  | inr out ↦ rw out refl
  | inl member ↦ elim (Option-cases (from_id g j)) [
    | inl gone ↦ rw (member, is_ready, t.same_ids j, gone) refl
    | inr (r, found) ↦ rw (member, is_ready, t.same_ids j, found) (t.cleared j r member found)
  ]
]

-- Where a schedule goes by edges, the parents of the cells that do not wait yet can be read, every
-- cell that comes to wait is registered, and there is fuel for two passes more than there are such
-- cells, the method ends. Then a cell waits exactly when it did before or is a checked cell with a
-- parent that is ready or waits in its turn; it was ready, or newly ready, and does not wait exactly
-- when it still is; and no waiting cell keeps its flag.
pub compute_dag_based_waiters_lem :
    (settings : MutableDataflowSettings) (fuel : ℕ) (rs : List ℕ) (res : CheckerResult)
    (g : Registry) (cs : List Checked)
    → uses_dag settings.exec_schedule ≡ true
    → read_parents settings g res.waiting_cells rs ≡ some cs
    → length cs + 1 < fuel
    → ((x : ℕ) → Waits res.ready_cells res.waiting_cells cs x → has (from_id g x) ≡ true)
    → (res' : CheckerResult) × ((h : Registry) × (compute_dag_based_waiters settings fuel rs res g
          ≡ some (res', h))
        × ((x : ℕ)
            → (elem x res'.waiting_cells ≡ true)
              ↔ ∥ Waits res.ready_cells res.waiting_cells cs x ∥₁)
        × ((x : ℕ)
            → elem x res'.ready_cells ≡ (elem x res.ready_cells && not (elem x res'.waiting_cells)))
        × ((x : ℕ)
            → elem x res'.new_ready_cells
              ≡ (elem x res.new_ready_cells && not (elem x res'.waiting_cells)))
        × ((x : ℕ) → (elem x res'.waiting_cells && is_ready h x) ≡ false))
unfolding compute_dag_based_waiters settle
compute_dag_based_waiters_lem settings fuel rs res g cs dag reads fits known =
    let (waiting, e, spec) = passes-eq-Waits res.ready_cells res.waiting_cells cs fuel fits in
    let (h, u, t) =
      unset_ready_lem waiting g (λ x m. ∥∥₁_elim ((spec x).0 m) (Bool-set _ _) (known x)) in
    (
      settle res waiting,
      (
        h,
        rw (dag, reads, e, u) refl,
        spec,
        λ x. elem-diff x res.ready_cells waiting,
        λ x. elem-diff x res.new_ready_cells waiting,
        Unset-is_ready waiting g h t,
      ),
    )
