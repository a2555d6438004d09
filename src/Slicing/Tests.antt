-- ===== src/Slicing/Tests.antt =====
-- Checks of core/ipyflow/slicing/mixin.py on small graphs, and the theorems at concrete inputs.
use ipyflow.Base.{
  ℕ, zero, suc, ◌<◌, ◌≡◌, refl, ◌↔◌, ◌||◌, ◌&&◌, not, ◌==◌, true, false, none, some, List, [], ◌∷◌,
  lookup, has, elem, pos, minus_one, arith, if◌then◌else◌,
}
use ipyflow.Timestamp.{lt}
use ipyflow.Config.Modes.{lazy, in_order, dag_based, executed, unknown, batch, normal}
use ipyflow.Config.Contexts.{MutableDataflowSettings, SlicingContext, dynamic}
use ipyflow.Slicing.EdgeSets.{syms_of, Edges}
use ipyflow.Slicing.Graph.{
  Graph, raw_children, named, object, link, from_ref, add_parent_edges, remove_parent_edges,
}
use ipyflow.Slicing.Invariant.{IsLinked, add_parent_edges-IsLinked}
use ipyflow.Slicing.Changes.{add_parent_edges_lem, remove_parent_edges_lem}
use ipyflow.Slicing.Closure.{ok, Sliceables, parent_ids, resolve, make_multi_slice, make_slice}
use ipyflow.Slicing.Closure
use ipyflow.Slicing.Parents.{is_parent_id}
use ipyflow.Slicing.Reach.{IsResolvable}
use ipyflow.Slicing.Slices.{Seeded, IsChronological, make_multi_slice_correct, make_slice_causal}
use ipyflow.Slicing.Versions.{IsVersioned, IsVersioned-IsResolvable, SeenBy, seen}

-- cells 0, 1, 2, ... which ran in that order, with no edges
abbrev no_edges : Graph
no_edges = record {
  ident = λ r. r;
  timestamp = λ r. record { cell_num = pos (suc r); stmt_num = minus_one };
  prev = λ r. none;
  override = λ r. false;
  from_id = λ sid. some sid;
  at_timestamp = λ ts. none;
  at_counter = λ n. none;
  raw_parents = λ r. [];
  child_dict = λ r. r;
  children_at = λ d. [];
}

no_edges-IsLinked : IsLinked no_edges
unfolding syms_of elem has
no_edges-IsLinked = record {
  shared = λ r q e. e;
  own = λ r q e. e;
  same_id = λ r p e. cc;
  mirror = λ r q s h. cc;
  back = λ q k s h. cc;
  occupied = λ r k h. cc;
  apart = λ r k h. cc;
}

add_parent_edges-IsLinked_example : IsLinked (link no_edges 1 0 (7 ∷ []))
unfolding add_parent_edges
add_parent_edges-IsLinked_example =
    add_parent_edges-IsLinked no_edges (link no_edges 1 0 (7 ∷ [])) 1 (named 0) (7 ∷ [])
      no_edges-IsLinked refl

add_parent_edges_lem_example :
    (g' : Graph) × (add_parent_edges no_edges 1 (named 0) (7 ∷ []) ≡ some g')
    × ((r k t : ℕ)
        → elem t (syms_of (g'.raw_parents r) k)
          ≡ ((r == 1 && k == 0 && elem t (7 ∷ [])) || elem t (syms_of (no_edges.raw_parents r) k)))
    × ((q k t : ℕ)
        → elem t (syms_of (raw_children g' q) k)
          ≡ ((q == 0 && k == 1 && elem t (7 ∷ [])) || elem t (syms_of (raw_children no_edges q) k)))
unfolding from_ref has lookup
add_parent_edges_lem_example = add_parent_edges_lem no_edges 1 0 7 (named 0) [] refl refl refl

abbrev one_edge : Graph
one_edge = record no_edges {
  raw_parents = λ r. if r == 1 then (0, 7 ∷ 8 ∷ []) ∷ [] else [];
  children_at = λ d. if d == 0 then (1, 7 ∷ 8 ∷ []) ∷ [] else [];
}

remove_parent_edges_lem_example :
    (g' : Graph) × (remove_parent_edges one_edge 1 (object 0) (7 ∷ []) ≡ some g')
    × ((r k t : ℕ)
        → elem t (syms_of (g'.raw_parents r) k) ≡ (
            elem t (syms_of (one_edge.raw_parents r) k)
            && not (r == 1 && k == 0 && elem t (7 ∷ []))))
    × ((q k t : ℕ)
        → elem t (syms_of (raw_children g' q) k) ≡ (
            elem t (syms_of (raw_children one_edge q) k)
            && not (q == 0 && k == 1 && elem t (7 ∷ []))))
unfolding from_ref
remove_parent_edges_lem_example = remove_parent_edges_lem one_edge 1 0 7 (object 0) [] refl

abbrev default_settings : MutableDataflowSettings
default_settings = record {
  dataflow_enabled = true;
  trace_messages_enabled = false;
  highlights = executed;
  interface = unknown;
  static_slicing_enabled = false;
  dynamic_slicing_enabled = true;
  exec_mode = lazy;
  exec_schedule = dag_based;
  flow_order = in_order;
  reactivity_mode = batch;
  push_reactive_updates = false;
  push_reactive_updates_to_cousins = false;
  pull_reactive_updates = false;
  color_scheme = normal;
  warn_out_of_order_usages = false;
  lint_out_of_order_usages = false;
  syntax_transforms_enabled = true;
  syntax_transforms_only = false;
  max_external_call_depth_for_tracing = 3;
  is_dev_mode = false;
}

-- cell 2 uses cell 0, and cell 1 stands apart
abbrev two_uses_zero : SlicingContext → ℕ → Edges
two_uses_zero dynamic (suc (suc zero)) = (0, 7 ∷ []) ∷ []
two_uses_zero _ _ = []

abbrev notebook : Sliceables
notebook = record { objects = no_edges; parents_in = two_uses_zero; settings = default_settings }

slice_of_two : make_slice notebook 3 2 ≡ ok (0 ∷ 2 ∷ [])
unfolding make_slice
slice_of_two = refl

notebook-IsVersioned : IsVersioned notebook 3
unfolding lookup has lt
notebook-IsVersioned = record { registered = λ x pid h m. uses x pid h m }
  where
    uses :
        (x pid : ℕ)
        → x < 3
        → is_parent_id notebook x pid ≡ true
        → (p : ℕ) × (some pid ≡ some p) × (p < 3) × SeenBy no_edges (no_edges.timestamp x) p
    uses zero pid h m = cc
    uses (suc zero) pid h m = cc
    uses (suc (suc zero)) zero h m = (0, refl, omega arith, seen refl)
    uses (suc (suc zero)) (suc pid) h m = absurd (ground arith)
    uses (suc (suc (suc x))) pid h m = absurd (omega arith)

notebook-IsResolvable : IsResolvable notebook 3
notebook-IsResolvable = IsVersioned-IsResolvable notebook 3 notebook-IsVersioned

make_multi_slice_correct_example :
    (slice : List ℕ) × (make_multi_slice notebook 3 (Closure.object 2 ∷ []) false ≡ ok slice)
    × ((x : ℕ) → (elem x slice ≡ true) ↔ ∥ Seeded notebook (Closure.object 2 ∷ []) x ∥₁)
    × IsChronological no_edges slice
unfolding Closure.slice_seed
make_multi_slice_correct_example =
    make_multi_slice_correct notebook 3 notebook-IsResolvable 3 (omega arith)
      (Closure.object 2 ∷ []) ((2, refl, omega arith), tt)

make_slice_causal_example :
    (slice : List ℕ) × (make_slice notebook 3 2 ≡ ok slice)
    × (elem 2 slice ≡ true)
    × ((x : ℕ) → elem x slice ≡ true → lt (no_edges.timestamp 2) (no_edges.timestamp x) ≡ false)
make_slice_causal_example =
    make_slice_causal notebook 3 2 notebook-IsResolvable (omega arith) (λ r. refl)
