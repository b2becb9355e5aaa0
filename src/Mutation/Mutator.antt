-- ===== src/Mutation/Mutator.antt =====
-- The settings of the two mutators and how they are made (mutation/mutate.go:89-197).
use Prim.Native.String.{len, slice, ◌++◌ as ◌⧺◌}
use lumigo_kubernetes_operat.Prelude.{
  String, Bool, true, false, Option, none, some, ltb, if◌then◌else◌,
}
use lumigo_kubernetes_operat.Api.{LumigoSpec, Credentials, AutoTraceSettings}
use lumigo_kubernetes_operat.Mutation.Names.{label_version_prefix_value}

pub record InjectingMutator : Type 0 where
  pub autotrace_label_value : String
  pub endpoint : String
  pub logs_endpoint : String
  pub enable_logs : Bool
  pub enable_traces : Bool
  pub token : Credentials
  pub injector_image : String

pub record RemovalMutator : Type 0 where
  pub autotrace_label_value : String

-- What the operator's deployment configures: its version, the injector's image and the addresses
-- of the telemetry proxy.
pub record OperatorConfig : Type 0 where
  pub operator_version : String
  pub injector_image : String
  pub otlp_service_url : String
  pub otlp_logs_service_url : String

-- `if len(version) > 8 { version = version[0:7] }`, in bytes. A string here has whole characters: one
-- that the cut goes through is left out, where Go keeps its first bytes. Versions are ASCII.
unfoldable pub truncate_version : String → String
truncate_version version = if ltb 8 (len version) then slice version 0 7 else version

unfoldable pub version_label_value : String → String
unfolding truncate_version
version_label_value version = ◌⧺◌ label_version_prefix_value (truncate_version version)

unfoldable new_removal_mutator : String → RemovalMutator
unfolding version_label_value
new_removal_mutator version = record { autotrace_label_value = version_label_value version }

unfoldable enabled_or : Bool → Option Bool → Bool
enabled_or default none = default
enabled_or default (some b) = b

empty_credentials : Credentials
empty_credentials = record { secret_ref = record { name = ""; key = "" } }

-- `none` is a nil spec.
unfoldable pub new_injecting_mutator_from_spec :
    OperatorConfig → Option LumigoSpec → InjectingMutator
unfolding version_label_value enabled_or empty_credentials
new_injecting_mutator_from_spec config spec = record {
  autotrace_label_value = version_label_value config.operator_version;
  endpoint = config.otlp_service_url;
  logs_endpoint = config.otlp_logs_service_url;
  enable_logs = elim spec [ none ↦ false | some s ↦ enabled_or false s.logging.enabled ];
  enable_traces = elim spec [ none ↦ true | some s ↦ enabled_or true s.tracing.enabled ];
  token = elim spec [ none ↦ empty_credentials | some s ↦ s.lumigo_token ];
  injector_image = config.injector_image;
}

unfoldable pub new_mutator_from_auto_trace_settings :
    OperatorConfig → AutoTraceSettings → InjectingMutator
unfolding version_label_value
new_mutator_from_auto_trace_settings config settings = record {
  autotrace_label_value = version_label_value config.operator_version;
  endpoint = config.otlp_service_url;
  logs_endpoint = config.otlp_logs_service_url;
  enable_logs = settings.logs_enabled;
  enable_traces = settings.traces_enabled;
  token = record { secret_ref = record { name = settings.secret_name; key = settings.secret_key } };
  injector_image = config.injector_image;
}
