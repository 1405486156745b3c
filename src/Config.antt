-- ===== src/Config.antt =====
-- internal/config/config.go: the configuration of the process, read from environment variables. What
-- the code takes of strings, strconv, time, math and regexp is the parameter Parsing; a LogLevel and
-- a DeploymentEnvironment are the strings that they are in Go. An error is its kind without its text.
pub mod Variables
pub mod Accepted
pub mod Observability
pub mod Loaded
use chain_application.Prelude.{
  ℕ, ◌*◌, ◌^◌, ◌%◌, Bytes, List, [], ◌∷◌, Bool, true, false, not, ◌&&◌, ◌||◌, ◌==◌, Option, none,
  some, Result, ok, err, ◌>>=◌, ◌>>◌, fail_if, ascii, bytes_equal, length, ltb, ℤ, pos, at_most_int,
  Floats, if◌then◌else◌,
}
use chain_application.Config.Variables.{
  environment_port, environment_log_level, environment_shutdown_timeout, environment_database_url,
  environment_signer_key_reference, environment_telemetry_enabled, environment_trace_sample_ratio,
  environment_otel_traces_sampler, environment_otel_traces_sampler_arg,
  environment_telemetry_endpoint, environment_project_id, environment_deployment_environment,
  default_port, default_log_level, default_shutdown_timeout, default_signer_key_reference,
  default_telemetry_enabled, default_trace_sample_ratio, default_deployment_environment,
  default_service_name, minimum_port, maximum_port, second, minimum_shutdown_timeout,
  maximum_shutdown_timeout, project_id_pattern, log_levels, production, deployment_environments,
}

pub data ConfigError : Type 0 where
  invalid_port port_out_of_range unsupported_log_level invalid_duration timeout_out_of_range
        invalid_boolean invalid_ratio ratio_out_of_range unsupported_environment endpoint_required
        project_id_required invalid_project_id :
      ConfigError
  ambient_sampler : Bytes → ConfigError

pub record Telemetry (Float : Type 0) : Type 0 where
  pub enabled : Bool
  pub trace_sample_ratio : Float
  pub endpoint : Bytes
  pub project_id : Bytes
  pub environment : Bytes
  pub service_name : Bytes
  pub version : Bytes

pub record Config (Float : Type 0) : Type 0 where
  pub port : ℕ
  pub log_level : Bytes
  pub shutdown_timeout : ℤ
  pub database_url : Bytes
  pub signer_key_reference : Bytes
  pub telemetry : Telemetry Float

-- The functions of the standard library; a result that fails is `none`.
pub record Parsing (Float : Type 0) : Type 0 where
  pub trim_space : Bytes → Bytes
  -- `strconv.ParseUint` of the text, the base and the number of bits.
  pub parse_uint : Bytes → ℕ → ℕ → Option ℕ
  pub parse_bool : Bytes → Option Bool
  -- `strconv.ParseFloat` of the text and the number of bits.
  pub parse_float : Bytes → ℕ → Option Float
  -- `time.ParseDuration`, in nanoseconds.
  pub parse_duration : Bytes → Option ℤ
  pub is_nan : Float → Bool
  -- `math.IsInf(f, 0)`.
  pub is_inf : Float → Bool
  -- `regexp.MustCompile(pattern).MatchString(text)`.
  pub matches : Bytes → Bytes → Bool

-- The cases of a `switch`.
abbrev pub is_one_of : Bytes → List Bytes → Bool
is_one_of v [] = false
is_one_of v (w ∷ ws) = bytes_equal v w || is_one_of v ws

module _ (floats : Floats) (parsing : Parsing floats.Float) (lookup : Bytes → Option Bytes) where
  open floats use {Float, literal, less}

  unfoldable pub lookup_or_default : Bytes → Bytes → Bytes
  lookup_or_default key default_value = elim (lookup key) [
    | none ↦ default_value
    | some value ↦
        if bytes_equal (parsing.trim_space value) []
        then default_value
        else parsing.trim_space value
  ]

  unfoldable pub load_port : Result ConfigError ℕ
  load_port = elim (parsing.parse_uint (lookup_or_default environment_port default_port) 10 16) [
    | none ↦ err invalid_port
    | some port ↦
        if ltb port minimum_port || ltb maximum_port port
        then err port_out_of_range
        else ok (port % 2 ^ 16)
  ]

  unfoldable pub load_log_level : Result ConfigError Bytes
  load_log_level =
      let log_level = lookup_or_default environment_log_level default_log_level in
      if is_one_of log_level log_levels then ok log_level else err unsupported_log_level

  unfoldable pub load_shutdown_timeout : Result ConfigError ℤ
  load_shutdown_timeout =
      elim (parsing.parse_duration
        (lookup_or_default environment_shutdown_timeout default_shutdown_timeout)) [
          | none ↦ err invalid_duration
          | some timeout ↦
              if at_most_int timeout minimum_shutdown_timeout
                || not (at_most_int timeout maximum_shutdown_timeout)
              then err timeout_out_of_range
              else ok timeout
        ]

  -- The loop over the two variables.
  unfoldable pub reject_ambient : List Bytes → Result ConfigError (Unit {0})
  reject_ambient [] = ok tt
  reject_ambient (variable ∷ rest) = elim (lookup variable) [
    | some value ↦ err (ambient_sampler variable)
    | none ↦ reject_ambient rest
  ]

  abbrev pub reject_ambient_otel_sampler_configuration : Result ConfigError (Unit {0})
  reject_ambient_otel_sampler_configuration =
      reject_ambient (environment_otel_traces_sampler ∷ environment_otel_traces_sampler_arg ∷ [])

  unfoldable pub load_trace_sample_ratio : Result ConfigError Float
  load_trace_sample_ratio =
      elim (parsing.parse_float
        (lookup_or_default environment_trace_sample_ratio default_trace_sample_ratio) 64) [
          | none ↦ err invalid_ratio
          | some ratio ↦
              if parsing.is_nan ratio || parsing.is_inf ratio
              then err invalid_ratio
              else if less ratio (literal 0 0) || less (literal 1 0) ratio
              then err ratio_out_of_range
              else ok ratio
        ]

  unfoldable pub load_deployment_environment : Result ConfigError Bytes
  load_deployment_environment =
      let environment =
        lookup_or_default environment_deployment_environment default_deployment_environment in
      if is_one_of environment deployment_environments
      then ok environment
      else err unsupported_environment

  unfoldable pub load_enabled : Result ConfigError Bool
  load_enabled =
      elim (parsing.parse_bool
        (lookup_or_default environment_telemetry_enabled default_telemetry_enabled)) [
          | none ↦ err invalid_boolean
          | some enabled ↦ ok enabled
        ]

  -- `loadTelemetry`, below the four settings that it loads first.
  unfoldable pub checked_telemetry :
      Bytes → Bool → Float → Bytes → Result ConfigError (Telemetry Float)
  checked_telemetry build_version enabled trace_sample_ratio environment =
      let endpoint = lookup_or_default environment_telemetry_endpoint [] in
      let project_id = lookup_or_default environment_project_id [] in
      if enabled && bytes_equal endpoint []
      then err endpoint_required
      else if bytes_equal environment production && bytes_equal project_id []
      then err project_id_required
      else if not (bytes_equal project_id []) && not (parsing.matches project_id_pattern project_id)
      then err invalid_project_id
      else ok (record {
        enabled = enabled;
        trace_sample_ratio = trace_sample_ratio;
        endpoint = endpoint;
        project_id = project_id;
        environment = environment;
        service_name = default_service_name;
        version = build_version;
      })

  unfoldable pub load_telemetry : Bytes → Result ConfigError (Telemetry Float)
  load_telemetry build_version = do
    enabled ← load_enabled
    (if enabled then reject_ambient_otel_sampler_configuration else ok tt)
    trace_sample_ratio ← load_trace_sample_ratio
    environment ← load_deployment_environment
    checked_telemetry build_version enabled trace_sample_ratio environment

  -- A missing variable reads as the empty string.
  unfoldable pub load : Bytes → Result ConfigError (Config Float)
  load build_version = do
    port ← load_port
    log_level ← load_log_level
    shutdown_timeout ← load_shutdown_timeout
    telemetry ← load_telemetry build_version
    ok (record {
      port = port;
      log_level = log_level;
      shutdown_timeout = shutdown_timeout;
      database_url = elim (lookup environment_database_url) [ none ↦ [] | some url ↦ url ];
      signer_key_reference =
          lookup_or_default environment_signer_key_reference default_signer_key_reference;
      telemetry = telemetry;
    })
