-- ===== src/Config/Tests.antt =====
-- Checks of core/ipyflow/config.py and core/ipyflow/slicing/context.py.
use ipyflow.Base.{◌≡◌, Option, none, some, List, [], ◌∷◌}
use ipyflow.Config.Contexts.{
  SlicingContext, dynamic, static, InContext, iter_slicing_contexts, each_context,
  iter_slicing_contexts_lem,
}

-- logs the context and leaves the variable unset
abbrev logging : InContext (List (Option SlicingContext))
logging var s = (none, var ∷ s)

iter_slicing_contexts_lem_example :
    iter_slicing_contexts (dynamic ∷ static ∷ []) logging (some static) []
    ≡ (some static, each_context (dynamic ∷ static ∷ []) (λ c s. (logging (some c) s).1) [])
iter_slicing_contexts_lem_example =
    iter_slicing_contexts_lem (dynamic ∷ static ∷ []) logging (some static) []
