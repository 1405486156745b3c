-- ===== src/Process/Run.antt =====
-- cmd/chain-api/main.go: `run`, from the configuration to the exit code. What the constructors, the
-- listener, the server and the logger answer is given; the calls that open and close resources are
-- written down in their order, the deferred ones last. Messages to the log and to the standard error
-- stream are left out.
use chain_application.Prelude.{
  ℕ, Bytes, List, [], ◌∷◌, ◌++◌, Bool, true, Option, none, some, ok, err, bytes_equal, Floats,
  if◌then◌else◌,
}
use chain_application.Config.{Parsing, Config, load}
use chain_application.App.{
  HttpServer, RunError, Dependencies, Call, open_database, close_database, close_telemetry,
  flush_logger, run,
}
use chain_application.Process.Faults.{
  Fault, nil, plain, errno, path_error, wrapping, joining, normalize_standard_stream_sync_error,
}

abbrev pub exit_success : ℕ
exit_success = 0

abbrev pub exit_failure : ℕ
exit_failure = 1

-- The answers: of a constructor or of `net.Listen` its error, of the logger the error of its first
-- `Sync`.
pub record Answers : Type 0 where
  pub construct_observability : Option Fault
  pub open_store : Option Fault
  pub generate_signer : Option Fault
  pub construct_admission : Option Fault
  pub listen : Option Fault
  pub server : HttpServer Fault
  pub shutdown_telemetry : Option Fault
  pub first_sync : Fault
  pub is_server_closed : Fault → Bool

abbrev pub error_of : Fault → Option Fault
error_of nil = none
error_of (plain n) = some (plain n)
error_of (errno n) = some (errno n)
error_of (path_error op path e) = some (path_error op path e)
error_of (wrapping n e) = some (wrapping n e)
error_of (joining es) = some (joining es)

-- `syncLogger`.
abbrev pub sync_error : Answers → Option Fault
sync_error a = error_of (normalize_standard_stream_sync_error a.first_sync)

-- `cleanupRuntimeAfterStartupFailure`.
abbrev pub cleanup_runtime_after_startup_failure : List Call
cleanup_runtime_after_startup_failure = close_telemetry ∷ flush_logger ∷ []

-- A failed start, with what is deferred.
abbrev pub failed_start : List Call → List Call × ℕ
failed_start deferred = (cleanup_runtime_after_startup_failure ++ deferred, exit_failure)

-- From the result of `app.Run` on.
abbrev pub after_run : List Call × List (RunError Fault) → List Call → List Call × ℕ
after_run (calls, []) deferred = (calls ++ deferred, exit_success)
after_run (calls, e ∷ es) deferred = ((calls ++ flush_logger ∷ []) ++ deferred, exit_failure)

module _ {Float : Type 0} (a : Answers) (config : Config Float) where
  abbrev pub process_dependencies : Dependencies Fault
  process_dependencies = record {
    server = some a.server;
    has_listener = true;
    shutdown_telemetry = some a.shutdown_telemetry;
    logger_sync = some (sync_error a);
  }

  -- From the listener on.
  unfoldable pub listen_and_run : List Call → List Call × ℕ
  listen_and_run deferred = elim a.listen [
    | some e ↦ failed_start deferred
    | none ↦
        after_run (run a.is_server_closed true config.shutdown_timeout process_dependencies)
          deferred
  ]

  -- The store, the signer and the service.
  unfoldable pub start_server : List Call × ℕ
  start_server =
      let (calls, code) = listen_and_run (close_database ∷ []) in
      if bytes_equal config.database_url [] then listen_and_run [] else elim a.open_store [
        | some e ↦ failed_start []
        | none ↦ elim a.generate_signer [
          | some e ↦ (open_database ∷ (failed_start (close_database ∷ [])).0, exit_failure)
          | none ↦ elim a.construct_admission [
            | some e ↦ (open_database ∷ (failed_start (close_database ∷ [])).0, exit_failure)
            | none ↦ (open_database ∷ calls, code)
          ]
        ]
      ]

unfoldable pub run_process :
    (floats : Floats)
    → Parsing floats.Float
    → (Bytes → Option Bytes)
    → Bytes
    → Answers
    → List Call × ℕ
run_process floats parsing lookup build_version a =
    elim (load floats parsing lookup build_version) [
      | err e ↦ ([], exit_failure)
      | ok config ↦ elim a.construct_observability [
        | some e ↦ ([], exit_failure)
        | none ↦ start_server a config
      ]
    ]
