-- ===== src/Config/Modes.antt =====
-- The enumerations of core/ipyflow/config.py. `EnumWithDefault` turns a value that names no member
-- into the default member.
use Prim.Native.String.{String}
use text.Mathlib.Text.{◌==◌ as str_eq}
use ipyflow.Base.{List, [], ◌∷◌, if◌then◌else◌}

pub record EnumWithDefault (A : Type 0) : Type 0 where
  pub members : List A
  pub value : A → String
  pub default : A

-- `cls(value)`: the first member with that value, or what `_missing_` returns.
unfoldable pub find_member : {A : Type 0} → (A → String) → A → String → List A → A
find_member value default s [] = default
find_member value default s (m ∷ ms) =
    if str_eq s (value m) then m else find_member value default s ms

unfoldable pub of_value : {A : Type 0} ⦃e : EnumWithDefault A⦄ → String → A
unfolding find_member
of_value ⦃e⦄ s = find_member e.value e.default s e.members

pub data ExecutionMode : Type 0 where
  lazy reactive : ExecutionMode

pub data ExecutionSchedule : Type 0 where
  liveness_based dag_based hybrid_dag_liveness_based : ExecutionSchedule

pub data FlowDirection : Type 0 where
  any_order in_order : FlowDirection

pub data Highlights : Type 0 where
  all none executed reactive : Highlights

pub data ReactivityMode : Type 0 where
  batch incremental : ReactivityMode

pub data Interface : Type 0 where
  bento colab databricks datalore deepnote hex ipython jupyter : Interface
  jupyterlab noteable vscode unknown : Interface

pub data ColorScheme : Type 0 where
  normal classic : ColorScheme

abbrev pub execution_mode_value : ExecutionMode → String
execution_mode_value ExecutionMode.lazy = "lazy"
execution_mode_value ExecutionMode.reactive = "reactive"

instance abbrev pub execution_mode : EnumWithDefault ExecutionMode
execution_mode = record {
  members = ExecutionMode.lazy ∷ ExecutionMode.reactive ∷ [];
  value = execution_mode_value;
  default = ExecutionMode.lazy;
}

abbrev pub execution_schedule_value : ExecutionSchedule → String
execution_schedule_value liveness_based = "liveness_based"
execution_schedule_value dag_based = "dag_based"
execution_schedule_value hybrid_dag_liveness_based = "hybrid_dag_liveness_based"

instance abbrev pub execution_schedule : EnumWithDefault ExecutionSchedule
execution_schedule = record {
  members = liveness_based ∷ dag_based ∷ hybrid_dag_liveness_based ∷ [];
  value = execution_schedule_value;
  default = dag_based;
}

abbrev pub flow_direction_value : FlowDirection → String
flow_direction_value any_order = "any_order"
flow_direction_value in_order = "in_order"

instance abbrev pub flow_direction : EnumWithDefault FlowDirection
flow_direction = record {
  members = any_order ∷ in_order ∷ [];
  value = flow_direction_value;
  default = in_order;
}

abbrev pub highlights_value : Highlights → String
highlights_value Highlights.all = "all"
highlights_value Highlights.none = "none"
highlights_value Highlights.executed = "executed"
highlights_value Highlights.reactive = "reactive"

instance abbrev pub highlights : EnumWithDefault Highlights
highlights = record {
  members = Highlights.all ∷ Highlights.none ∷ Highlights.executed ∷ Highlights.reactive ∷ [];
  value = highlights_value;
  default = Highlights.executed;
}

abbrev pub reactivity_mode_value : ReactivityMode → String
reactivity_mode_value batch = "batch"
reactivity_mode_value incremental = "incremental"

instance abbrev pub reactivity_mode : EnumWithDefault ReactivityMode
reactivity_mode = record {
  members = batch ∷ incremental ∷ [];
  value = reactivity_mode_value;
  default = batch;
}

abbrev pub interface_value : Interface → String
interface_value bento = "bento"
interface_value colab = "colab"
interface_value databricks = "databricks"
interface_value datalore = "datalore"
interface_value deepnote = "deepnote"
interface_value hex = "hex"
interface_value ipython = "ipython"
interface_value jupyter = "jupyter"
interface_value jupyterlab = "jupyterlab"
interface_value noteable = "noteable"
interface_value vscode = "vscode"
interface_value unknown = "unknown"

instance abbrev pub interface : EnumWithDefault Interface
interface = record {
  members =
      bento ∷ colab ∷ databricks ∷ datalore ∷ deepnote ∷ hex ∷ ipython ∷ jupyter ∷ jupyterlab
      ∷ noteable ∷ vscode ∷ unknown ∷ [];
  value = interface_value;
  default = unknown;
}

abbrev pub color_scheme_value : ColorScheme → String
color_scheme_value normal = "normal"
color_scheme_value classic = "classic"

instance abbrev pub color_scheme : EnumWithDefault ColorScheme
color_scheme = record {
  members = normal ∷ classic ∷ [];
  value = color_scheme_value;
  default = normal;
}
