-- ===== src/App.antt =====
-- internal/app/runtime.go: `Run`, which serves until the context is cancelled or the server fails and
-- closes the process's resources. The goroutine that serves sends one result, so what `Run` sees of it
-- is whether the result comes before the cancellation, before the deadline, or not at all. A pointer
-- or a function that may be nil is optional. The nanoseconds of a timeout are an integer.
pub mod Closed
use chain_application.Prelude.{
  ℕ, ◌-◌, List, [], ◌∷◌, ◌++◌, Bool, true, false, not, Option, none, some, pos_part, ℤ, pos,
  at_most_int, if◌then◌else◌,
}

abbrev pub telemetry_shutdown_reserve : ℕ
telemetry_shutdown_reserve = 1000000000

pub data RunError (E : Type 0) : Type 0 where
  nil_context invalid_shutdown_timeout nil_server nil_listener nil_telemetry_shutdown
        nil_logger_sync wait_for_http_server :
      RunError E
  serve_http shut_down_http_server shut_down_telemetry sync_logger : E → RunError E

-- `*http.Server` by what it answers: the result of `Serve` if it comes before the cancellation, that
-- of `Shutdown`, and the result of `Serve` if it comes before the deadline after that.
pub record HttpServer (E : Type 0) : Type 0 where
  pub served_first : Option (Option E)
  pub shutdown : ℕ → Option E
  pub served_later : Option (Option E)

-- The functions by what their one call answers.
pub record Dependencies (E : Type 0) : Type 0 where
  pub server : Option (HttpServer E)
  pub has_listener : Bool
  pub shutdown_telemetry : Option (Option E)
  pub logger_sync : Option (Option E)

-- The calls of the process on its resources; a database counts as opened when that succeeds. A
-- shutdown has its timeout in nanoseconds.
pub data Call : Type 0 where
  open_database close_database serve close_telemetry flush_logger : Call
  close_http : ℕ → Call

module _ {E : Type 0} where
  unfoldable pub validate_run_inputs : Bool → ℤ → Dependencies E → Option (RunError E)
  validate_run_inputs has_context timeout d =
      if not has_context
      then some nil_context
      else if at_most_int timeout (pos telemetry_shutdown_reserve)
      then some invalid_shutdown_timeout
      else elim d.server [
        | none ↦ some nil_server
        | some server ↦
            if not d.has_listener then some nil_listener else elim d.shutdown_telemetry [
              | none ↦ some nil_telemetry_shutdown
              | some t ↦ elim d.logger_sync [ none ↦ some nil_logger_sync | some l ↦ none ]
            ]
      ]

  -- The deadline's error is not `http.ErrServerClosed`.
  abbrev pub normalize_serve_error : (E → Bool) → Option E → List (RunError E)
  normalize_serve_error is_server_closed none = []
  normalize_serve_error is_server_closed (some e) =
      if is_server_closed e then [] else serve_http e ∷ []

  abbrev pub wrap_error : (E → RunError E) → Option E → List (RunError E)
  wrap_error wrap none = []
  wrap_error wrap (some e) = wrap e ∷ []

  -- The two selects on the result of `Serve`.
  unfoldable pub serve_errors : (E → Bool) → HttpServer E → List (RunError E)
  serve_errors is_server_closed server = elim server.served_first [
    | some result ↦ normalize_serve_error is_server_closed result
    | none ↦ elim server.served_later [
      | some result ↦ normalize_serve_error is_server_closed result
      | none ↦ wait_for_http_server ∷ []
    ]
  ]

  -- `Run` below its validation.
  unfoldable pub run_server :
      (E → Bool) → ℕ → HttpServer E → Option E → Option E → List Call × List (RunError E)
  run_server is_server_closed timeout server telemetry logger =
      let http_timeout = timeout - telemetry_shutdown_reserve in
      (
        serve ∷ close_http http_timeout ∷ close_telemetry ∷ flush_logger ∷ [],
        serve_errors is_server_closed server
            ++ (wrap_error shut_down_http_server (server.shutdown http_timeout)
                ++ (wrap_error shut_down_telemetry telemetry ++ wrap_error sync_logger logger)),
      )

  -- The calls, in their order, and the joined errors; none is nil. The functions that validation has
  -- found are there.
  unfoldable pub run : (E → Bool) → Bool → ℤ → Dependencies E → List Call × List (RunError E)
  run is_server_closed has_context timeout d = elim (validate_run_inputs has_context timeout d) [
    | some e ↦ ([], e ∷ [])
    | none ↦ elim d.server [
      | none ↦ ([], [])
      | some server ↦ elim d.shutdown_telemetry [
        | none ↦ ([], [])
        | some telemetry ↦ elim d.logger_sync [
          | none ↦ ([], [])
          | some logger ↦ run_server is_server_closed (pos_part timeout) server telemetry logger
        ]
      ]
    ]
  ]
