-- ===== src/Mutation/Names.antt =====
-- Names and values that the injection writes (mutation/mutate.go, the constants).
use lumigo_kubernetes_operat.Prelude.{ℕ, String}

abbrev pub auto_trace_label_key : String
auto_trace_label_key = "lumigo.auto-trace"

abbrev pub traces_enabled_label_key : String
traces_enabled_label_key = "lumigo.enable-traces"

abbrev pub logs_enabled_label_key : String
logs_enabled_label_key = "lumigo.enable-logs"

abbrev pub token_secret_name_key : String
token_secret_name_key = "lumigo.token-secret"

abbrev pub token_secret_key_key : String
token_secret_key_key = "lumigo.token-key"

abbrev pub label_version_prefix_value : String
label_version_prefix_value = "lumigo-operator.v"

abbrev pub label_skip_next_injector_value : String
label_skip_next_injector_value = "skip-next-injector"

abbrev pub target_directory_env_var_name : String
target_directory_env_var_name = "TARGET_DIRECTORY"

abbrev pub target_directory_path : String
target_directory_path = "/target"

abbrev pub injector_container_name : String
injector_container_name = "lumigo-injector"

abbrev pub injector_volume_name : String
injector_volume_name = "lumigo-injector"

abbrev pub injector_volume_mount_point : String
injector_volume_mount_point = "/opt/lumigo"

abbrev pub tracer_token_env_var_name : String
tracer_token_env_var_name = "LUMIGO_TRACER_TOKEN"

abbrev pub endpoint_env_var_name : String
endpoint_env_var_name = "LUMIGO_ENDPOINT"

abbrev pub logs_endpoint_env_var_name : String
logs_endpoint_env_var_name = "LUMIGO_LOGS_ENDPOINT"

abbrev pub enable_logs_env_var_name : String
enable_logs_env_var_name = "LUMIGO_ENABLE_LOGS"

abbrev pub enable_traces_env_var_name : String
enable_traces_env_var_name = "LUMIGO_ENABLE_TRACES"

abbrev pub container_name_env_var_name : String
container_name_env_var_name = "LUMIGO_CONTAINER_NAME"

abbrev pub ld_preload_env_var_name : String
ld_preload_env_var_name = "LD_PRELOAD"

abbrev pub ld_preload_env_var_value : String
ld_preload_env_var_value = "/opt/lumigo/injector/lumigo_injector.so"

abbrev pub default_init_container_user : ℕ
default_init_container_user = 1234

abbrev pub default_init_container_group : ℕ
default_init_container_group = default_init_container_user
