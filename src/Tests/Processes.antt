-- ===== src/Tests/Processes.antt =====
-- A start of the process from an empty environment, an error of the logger, and their theorems.
use chain_application.Prelude.{
  ℕ, ◌≡◌, refl, Bytes, [], true, false, none, some, Option, ok, pos, ascii, bytes_equal,
  at_most_int,
}
use chain_application.Config.{
  Parsing, Config, lookup_or_default, load_port, load_log_level, load_shutdown_timeout,
  reject_ambient, load_trace_sample_ratio, load_deployment_environment, load_enabled,
  checked_telemetry, load_telemetry, load,
}
use chain_application.Config.Variables.{default_signer_key_reference, default_service_name}
use chain_application.Process.Faults.{
  Fault, plain, errno, path_error, joining, none_left, more, filter_standard_stream_sync_errors,
}
use chain_application.Process.Remaining.{IsFiltered, filter_standard_stream_sync_errors-IsFiltered}
use chain_application.Process.Run.{Answers, run_process}
use chain_application.Process.Exit.{IsDone, run_process-IsDone}
use chain_application.Tests.Evaluations.{toy_floats}

abbrev toy_parsing : Parsing ℕ
toy_parsing = record {
  trim_space = λ s. s;
  parse_uint = λ s base bits. some 8080;
  parse_bool = λ s. some false;
  parse_float = λ s bits. some 1000;
  parse_duration = λ s. some (pos 8000000000);
  is_nan = λ f. false;
  is_inf = λ f. false;
  matches = λ pattern s. true;
}

abbrev no_variables : Bytes → Option Bytes
no_variables key = none

abbrev toy_config : Config ℕ
toy_config = record {
  port = 8080;
  log_level = ascii "info";
  shutdown_timeout = pos 8000000000;
  database_url = [];
  signer_key_reference = default_signer_key_reference;
  telemetry = record {
    enabled = false;
    trace_sample_ratio = 1000;
    endpoint = [];
    project_id = [];
    environment = ascii "local";
    service_name = default_service_name;
    version = ascii "devel";
  };
}

configuration_loads : load toy_floats toy_parsing no_variables (ascii "devel") ≡ ok toy_config
unfolding bytes_equal at_most_int lookup_or_default load_port load_log_level load_shutdown_timeout
    reject_ambient load_trace_sample_ratio load_deployment_environment load_enabled
    checked_telemetry load_telemetry load
configuration_loads = refl

-- A terminal cannot be synced, and the server ends by its shutdown.
abbrev terminal_sync : Fault
terminal_sync =
    joining
      (more (path_error (ascii "sync") (ascii "/dev/stdout") (errno 25)) (more (plain 3) none_left))

abbrev toy_answers : Answers
toy_answers = record {
  construct_observability = none;
  open_store = none;
  generate_signer = none;
  construct_admission = none;
  listen = none;
  server = record {
    served_first = none;
    shutdown = λ timeout. none;
    served_later = some (some (plain 1));
  };
  shutdown_telemetry = none;
  first_sync = terminal_sync;
  is_server_closed = λ e. true;
}

run_process-IsDone_example :
    IsDone toy_answers toy_config
      (run_process toy_floats toy_parsing no_variables (ascii "devel") toy_answers)
run_process-IsDone_example =
    run_process-IsDone toy_floats toy_parsing no_variables (ascii "devel") toy_answers toy_config
      configuration_loads refl

filter_standard_stream_sync_errors-IsFiltered_example :
    IsFiltered terminal_sync (filter_standard_stream_sync_errors terminal_sync)
filter_standard_stream_sync_errors-IsFiltered_example =
    filter_standard_stream_sync_errors-IsFiltered terminal_sync
