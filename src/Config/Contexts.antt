-- ===== src/Config/Contexts.antt =====
-- The mutable settings that the dataflow graph depends on (core/ipyflow/config.py), and the context
-- variable that selects one of its two graphs (core/ipyflow/slicing/context.py).
use ipyflow.Base.{◌≡◌, refl, Bool, true, false, Option, some, List, [], ◌∷◌, ◌++◌, if◌then◌else◌}
use ipyflow.Config.Modes.{
  ExecutionMode, ExecutionSchedule, FlowDirection, Highlights, Interface, ReactivityMode,
  ColorScheme,
}
use mathlib.Core.List.{Memᴰ}
use mathlib.Core.List.Memᴰ.{head, tail}
use Prim.Native.Nat.{ℕ}

pub data SlicingContext : Type 0 where
  dynamic static : SlicingContext

pub record MutableDataflowSettings : Type 0 where
  pub dataflow_enabled : Bool
  pub trace_messages_enabled : Bool
  pub highlights : Highlights
  pub interface : Interface
  pub static_slicing_enabled : Bool
  pub dynamic_slicing_enabled : Bool
  pub exec_mode : ExecutionMode
  pub exec_schedule : ExecutionSchedule
  pub flow_order : FlowDirection
  pub reactivity_mode : ReactivityMode
  pub push_reactive_updates : Bool
  pub push_reactive_updates_to_cousins : Bool
  pub pull_reactive_updates : Bool
  pub color_scheme : ColorScheme
  pub warn_out_of_order_usages : Bool
  pub lint_out_of_order_usages : Bool
  pub syntax_transforms_enabled : Bool
  pub syntax_transforms_only : Bool
  pub max_external_call_depth_for_tracing : ℕ
  pub is_dev_mode : Bool

-- the enabled contexts, the dynamic one first
unfoldable pub slicing_contexts : MutableDataflowSettings → List SlicingContext
slicing_contexts settings =
    (if settings.dynamic_slicing_enabled then dynamic ∷ [] else [])
    ++ (if settings.static_slicing_enabled then static ∷ [] else [])

-- whether the settings enable a context
abbrev pub is_enabled : MutableDataflowSettings → SlicingContext → Bool
is_enabled settings dynamic = settings.dynamic_slicing_enabled
is_enabled settings static = settings.static_slicing_enabled

pub slicing_contexts-is_enabled :
    (settings : MutableDataflowSettings) (c : SlicingContext)
    → Memᴰ c (slicing_contexts settings)
    → is_enabled settings c ≡ true
unfolding slicing_contexts
slicing_contexts-is_enabled settings c m =
    one_of settings.dynamic_slicing_enabled settings.static_slicing_enabled c m
  where
    one_of :
        (d t : Bool) (k : SlicingContext)
        → Memᴰ k ((if d then dynamic ∷ [] else []) ++ (if t then static ∷ [] else []))
        → (elim k [ dynamic ↦ d | static ↦ t ]) ≡ true
    one_of true t dynamic m = refl
    one_of false true dynamic (head e) = cc
    one_of false true dynamic (tail m) = elim m [ ]
    one_of false false dynamic m = elim m [ ]
    one_of d true static m = refl
    one_of true false static (head e) = cc
    one_of true false static (tail m) = elim m [ ]
    one_of false false static m = elim m [ ]

-- A computation that reads and writes a state `S` beside `slicing_ctx_var`.
abbrev pub InContext : Type 0 → Type 0
InContext S = Option SlicingContext → S → Option SlicingContext × S

-- `with set_slicing_context(c): body`: the token restores what the variable held before.
unfoldable pub set_slicing_context : {S : Type 0} → SlicingContext → InContext S → InContext S
set_slicing_context c body var s = let (_, s') = body (some c) s in (var, s')

-- `for _ in iter_slicing_contexts(*cs): body`, one `with` after the other.
unfoldable pub iter_slicing_contexts :
    {S : Type 0} → List SlicingContext → InContext S → InContext S
unfolding set_slicing_context
iter_slicing_contexts [] body var s = (var, s)
iter_slicing_contexts (c ∷ cs) body var s =
    let (var', s') = set_slicing_context c body var s in iter_slicing_contexts cs body var' s'

-- what the body does to the state, context by context
unfoldable pub each_context : {S : Type 0} → List SlicingContext → (SlicingContext → S → S) → S → S
each_context [] f s = s
each_context (c ∷ cs) f s = each_context cs f (f c s)

-- Whatever the body leaves in the context variable, the loop over the contexts ends with the
-- variable as it was before, and its effect on the state is the body's in each context in turn.
pub iter_slicing_contexts_lem :
    {S : Type 0} (cs : List SlicingContext) (body : InContext S) (var : Option SlicingContext)
    (s : S)
    → iter_slicing_contexts cs body var s ≡ (var, each_context cs (λ c s'. (body (some c) s').1) s)
unfolding iter_slicing_contexts each_context
iter_slicing_contexts_lem [] body var s = refl
iter_slicing_contexts_lem (c ∷ cs) body var s =
    iter_slicing_contexts_lem cs body var (body (some c) s).1
