-- ===== src/App/Closed.antt =====
-- What `Run` does when its inputs are valid.
use chain_application.Prelude.{
  ℕ, ◌-◌, ◌≡◌, ◌↔◌, arith, List, [], ◌∷◌, ◌++◌, Bool, true, false, Option, none, some, pos_part, ℤ,
  pos, at_most_int,
}
use chain_application.App.{
  RunError, HttpServer, Dependencies, validate_run_inputs, wrap_error, serve_errors, run,
  run_server, telemetry_shutdown_reserve, shut_down_http_server, shut_down_telemetry, sync_logger,
}

append_iff : {A : Type 0} (xs ys : List A) → ((xs ++ ys) ≡ []) ↔ ((xs ≡ []) × (ys ≡ []))
append_iff [] ys = ground arith
append_iff (x ∷ xs) ys = ground arith

module _ {E : Type 0} where
  -- The dependencies that the process passes, none of them nil.
  abbrev pub all_given : HttpServer E → Option E → Option E → Dependencies E
  all_given server telemetry logger = record {
    server = some server;
    has_listener = true;
    shutdown_telemetry = some telemetry;
    logger_sync = some logger;
  }

  valid_run_inputs :
      (timeout : ℤ) (server : HttpServer E) (telemetry logger : Option E)
      → at_most_int timeout (pos telemetry_shutdown_reserve) ≡ false
      → validate_run_inputs true timeout (all_given server telemetry logger) ≡ none
  unfolding validate_run_inputs
  valid_run_inputs timeout server telemetry logger above = ground (arith, above)

  pub run-valid :
      (is_server_closed : E → Bool) (timeout : ℤ) (server : HttpServer E)
      (telemetry logger : Option E)
      → at_most_int timeout (pos telemetry_shutdown_reserve) ≡ false
      → run is_server_closed true timeout (all_given server telemetry logger)
        ≡ run_server is_server_closed (pos_part timeout) server telemetry logger
  unfolding run
  run-valid is_server_closed timeout server telemetry logger above =
      ground (arith, valid_run_inputs timeout server telemetry logger above)

  wrap_error_iff : (wrap : E → RunError E) (e : Option E) → (wrap_error wrap e ≡ []) ↔ (e ≡ none)
  wrap_error_iff wrap none = ground arith
  wrap_error_iff wrap (some e) = ground arith

  -- Serving and every shutdown succeed.
  pub record IsCalm (is_server_closed : E → Bool) (timeout : ℕ) (server : HttpServer E)
      (telemetry logger : Option E) : Type 0 where
    pub served : serve_errors is_server_closed server ≡ []
    pub http : server.shutdown (timeout - telemetry_shutdown_reserve) ≡ none
    pub traced : telemetry ≡ none
    pub logged : logger ≡ none

  pub run_server_iff :
      (is_server_closed : E → Bool) (timeout : ℕ) (server : HttpServer E)
      (telemetry logger : Option E)
      → ((run_server is_server_closed timeout server telemetry logger).1 ≡ [])
        ↔ IsCalm is_server_closed timeout server telemetry logger
  unfolding run_server
  run_server_iff is_server_closed timeout server telemetry logger =
      let served = serve_errors is_server_closed server in
      let http_error = server.shutdown (timeout - telemetry_shutdown_reserve) in
      let http = wrap_error shut_down_http_server http_error in
      let traced = wrap_error shut_down_telemetry telemetry in
      let logged = wrap_error sync_logger logger in
      let w = wrap_error_iff shut_down_http_server http_error in
      let v = wrap_error_iff shut_down_telemetry telemetry in
      let u = wrap_error_iff sync_logger logger in
      let all = append_iff served (http ++ (traced ++ logged)) in
      let closed = append_iff http (traced ++ logged) in
      let last = append_iff traced logged in
      (
        λ h.
            let (s, rest) = all.0 h in
            let (a, more) = closed.0 rest in
            let (b, c) = last.0 more in
            record { served = s; http = w.0 a; traced = v.0 b; logged = u.0 c },
        λ c. all.1 (c.served, closed.1 (w.1 c.http, last.1 (v.1 c.traced, u.1 c.logged))),
      )
