-- ===== src/Config/Variables.antt =====
-- internal/config/config.go: the constants, with the names of the environment variables and their
-- defaults.
use chain_application.Prelude.{ℕ, ◌*◌, Bytes, List, [], ◌∷◌, ascii, ℤ, pos}

abbrev pub environment_port : Bytes
environment_port = ascii "PORT"

abbrev pub environment_log_level : Bytes
environment_log_level = ascii "CHAIN_LOG_LEVEL"

abbrev pub environment_shutdown_timeout : Bytes
environment_shutdown_timeout = ascii "CHAIN_SHUTDOWN_TIMEOUT"

abbrev pub environment_database_url : Bytes
environment_database_url = ascii "DATABASE_URL"

abbrev pub environment_signer_key_reference : Bytes
environment_signer_key_reference = ascii "CHAIN_SIGNER_KEY_REFERENCE"

abbrev pub environment_telemetry_enabled : Bytes
environment_telemetry_enabled = ascii "CHAIN_OTEL_ENABLED"

abbrev pub environment_trace_sample_ratio : Bytes
environment_trace_sample_ratio = ascii "CHAIN_OTEL_TRACE_SAMPLE_RATIO"

abbrev pub environment_otel_traces_sampler : Bytes
environment_otel_traces_sampler = ascii "OTEL_TRACES_SAMPLER"

abbrev pub environment_otel_traces_sampler_arg : Bytes
environment_otel_traces_sampler_arg = ascii "OTEL_TRACES_SAMPLER_ARG"

abbrev pub environment_telemetry_endpoint : Bytes
environment_telemetry_endpoint = ascii "OTEL_EXPORTER_OTLP_ENDPOINT"

abbrev pub environment_project_id : Bytes
environment_project_id = ascii "CHAIN_GCP_PROJECT_ID"

abbrev pub environment_deployment_environment : Bytes
environment_deployment_environment = ascii "CHAIN_DEPLOYMENT_ENVIRONMENT"

abbrev pub default_port : Bytes
default_port = ascii "8080"

abbrev pub default_log_level : Bytes
default_log_level = ascii "info"

abbrev pub default_shutdown_timeout : Bytes
default_shutdown_timeout = ascii "8s"

abbrev pub default_signer_key_reference : Bytes
default_signer_key_reference = ascii "local:p256:v1"

abbrev pub default_telemetry_enabled : Bytes
default_telemetry_enabled = ascii "false"

abbrev pub default_trace_sample_ratio : Bytes
default_trace_sample_ratio = ascii "1.0"

abbrev pub default_deployment_environment : Bytes
default_deployment_environment = ascii "local"

abbrev pub default_service_name : Bytes
default_service_name = ascii "attribution-chain-api"

abbrev pub minimum_port : ℕ
minimum_port = 1

abbrev pub maximum_port : ℕ
maximum_port = 65535

-- `time.Second`, in nanoseconds.
abbrev pub second : ℕ
second = 1000000000

abbrev pub minimum_shutdown_timeout : ℤ
minimum_shutdown_timeout = pos second

abbrev pub maximum_shutdown_timeout : ℤ
maximum_shutdown_timeout = pos (9 * second)

abbrev pub project_id_pattern : Bytes
project_id_pattern = ascii "^[a-z][a-z0-9-]{4,28}[a-z0-9]$"

abbrev pub log_levels : List Bytes
log_levels = ascii "debug" ∷ ascii "info" ∷ ascii "warn" ∷ ascii "error" ∷ []

abbrev pub production : Bytes
production = ascii "production"

abbrev pub deployment_environments : List Bytes
deployment_environments = ascii "local" ∷ ascii "development" ∷ production ∷ []
