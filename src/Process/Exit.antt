-- ===== src/Process/Exit.antt =====
-- How the process ends: with its resources closed, and with success exactly when nothing failed.
use chain_application.Prelude.{
  ℕ, ◌-◌, ◌≡◌, ◌↔◌, ◌⊎◌, inl, inr, refl, sym, ap, subst, arith, Bytes, List, [], ◌∷◌, ◌++◌, false,
  Option, none, Option-cases, Bool-cases, ok, bytes_equal, bytes_equal_iff, pos, pos_part,
  at_most_int, Floats,
}
use chain_application.Config.{Parsing, Config, load}
use chain_application.Config.Loaded.{load_iff}
use chain_application.App.{
  Call, open_database, close_database, serve, close_http, close_telemetry, flush_logger,
  telemetry_shutdown_reserve, RunError, run_server,
}
use chain_application.App.Closed.{IsCalm, run-valid, run_server_iff}
use chain_application.Process.Faults.{Fault}
use chain_application.Process.Run.{
  Answers, sync_error, after_run, failed_start, listen_and_run, start_server, run_process,
}
use chain_application.Process.Closed.{IsClosed, IsBody, failed, finished, reported, IsBody-IsClosed}

module _ {Float : Type 0} (a : Answers) (config : Config Float) where
  abbrev IsRun : Type 0
  IsRun =
      (a.listen ≡ none)
      × IsCalm a.is_server_closed (pos_part config.shutdown_timeout) a.server a.shutdown_telemetry
          (sync_error a)

  -- The calls of a start with these deferred, and whether it ends well.
  abbrev IsEnded : List Call → List Call × ℕ → Type 0
  IsEnded deferred (calls, code) =
      ((body : List Call) × IsBody body × (calls ≡ body ++ deferred)) × ((code ≡ 0) ↔ IsRun)

  after_run-IsEnded :
      (deferred : List Call) (t : ℕ) (errors : List (RunError Fault))
      → a.listen ≡ none
      → ((errors ≡ [])
          ↔ IsCalm a.is_server_closed
              (pos_part config.shutdown_timeout)
              a.server
              a.shutdown_telemetry
              (sync_error a))
      → IsEnded deferred
          (after_run (serve ∷ close_http t ∷ close_telemetry ∷ flush_logger ∷ [], errors) deferred)
  after_run-IsEnded deferred t [] listens calm =
      ((_, finished t, refl), (λ h. (listens, calm.0 refl), λ h. refl))
  after_run-IsEnded deferred t (e ∷ es) listens calm = (
    (_, reported t, refl),
    (λ h. absurd (ground (arith, h)), λ h. absurd (ground (arith, calm.1 h.1))),
  )

  listen_and_run-IsEnded :
      (deferred : List Call)
      → at_most_int config.shutdown_timeout (pos telemetry_shutdown_reserve) ≡ false
      → IsEnded deferred (listen_and_run a config deferred)
  unfolding listen_and_run run_server
  listen_and_run-IsEnded deferred above =
      let ran =
        run-valid a.is_server_closed config.shutdown_timeout a.server a.shutdown_telemetry
          (sync_error a) above in
      let calm =
        run_server_iff a.is_server_closed (pos_part config.shutdown_timeout) a.server
          a.shutdown_telemetry (sync_error a) in
      elim (Option-cases a.listen) [
        | inr (e, refused) ↦
            let same : failed_start deferred ≡ listen_and_run a config deferred =
              ground (arith, refused) in
            subst (IsEnded deferred) same (
              (_, failed, refl),
              (λ h. absurd (ground (arith, h)), λ h. absurd (ground (arith, h.0, refused))),
            )
        | inl listens ↦
            let result =
              run_server a.is_server_closed (pos_part config.shutdown_timeout) a.server
                a.shutdown_telemetry (sync_error a) in
            let same : after_run result deferred ≡ listen_and_run a config deferred =
              ground (arith, listens, ran) in
            subst (IsEnded deferred) same (
              after_run-IsEnded deferred
                (pos_part config.shutdown_timeout - telemetry_shutdown_reserve) result.1 listens
                calm)
      ]

  abbrev IsStored : Type 0
  IsStored =
      (config.database_url ≡ [])
      ⊎ ((a.open_store ≡ none) × (a.generate_signer ≡ none) × (a.construct_admission ≡ none))

  -- Nothing fails: the store if there is one, the listener, the server and the shutdowns.
  abbrev pub IsHealthy : Type 0
  IsHealthy = IsStored × IsRun

  -- The resources are closed, and the process succeeds exactly when nothing fails.
  abbrev pub IsDone : List Call × ℕ → Type 0
  IsDone (calls, code) = IsClosed calls × ((code ≡ 0) ↔ IsHealthy)

  without_store : (r : List Call × ℕ) → config.database_url ≡ [] → IsEnded [] r → IsDone r
  without_store (calls, code) none_given ((body, shape, same), code_iff) = (
    subst IsClosed (sym same) (IsBody-IsClosed body shape).0,
    (λ h. (inl none_given, code_iff.0 h), λ h. code_iff.1 h.1),
  )

  with_store :
      (r : List Call × ℕ)
      → (a.open_store ≡ none) × (a.generate_signer ≡ none) × (a.construct_admission ≡ none)
      → IsEnded (close_database ∷ []) r
      → IsDone (open_database ∷ r.0, r.1)
  with_store (calls, code) stored ((body, shape, same), code_iff) = (
    subst IsClosed (sym (ap (λ cs. open_database ∷ cs) same)) (IsBody-IsClosed body shape).1,
    (λ h. (inr stored, code_iff.0 h), λ h. code_iff.1 h.1),
  )

  -- A store that is asked for and does not start.
  failed_store : (calls : List Call) → IsClosed calls → (IsStored → ⊥) → IsDone (calls, 1)
  failed_store calls closed not_stored =
      (closed, (λ h. absurd (ground (arith, h)), λ h. absurd (not_stored h.0)))

  start_server-IsDone :
      at_most_int config.shutdown_timeout (pos telemetry_shutdown_reserve) ≡ false
      → IsDone (start_server a config)
  unfolding start_server
  start_server-IsDone above =
      let given = bytes_equal_iff config.database_url [] in
      let opened = close_database ∷ [] in
      elim (Bool-cases (bytes_equal config.database_url [])) [
        | inl empty ↦
            let same : listen_and_run a config [] ≡ start_server a config = ground (arith, empty) in
            subst IsDone same (
              without_store (listen_and_run a config []) (given.0 empty)
                (listen_and_run-IsEnded [] above))
        | inr asked ↦ elim (Option-cases a.open_store) [
          | inr (e, f) ↦
              let same : failed_start [] ≡ start_server a config = ground (arith, asked, f) in
              subst IsDone same (
                failed_store (failed_start []).0 (IsBody-IsClosed _ failed).0
                  (λ h. ground (arith, h, f, asked, given)))
          | inl o ↦ elim (Option-cases a.generate_signer) [
            | inr (e, f) ↦
                let same : (open_database ∷ (failed_start opened).0, 1) ≡ start_server a config =
                  ground (arith, asked, o, f) in
                subst IsDone same (
                  failed_store (open_database ∷ (failed_start opened).0)
                    (IsBody-IsClosed _ failed).1 (λ h. ground (arith, h, f, asked, given)))
            | inl s ↦ elim (Option-cases a.construct_admission) [
              | inr (e, f) ↦
                  let same : (open_database ∷ (failed_start opened).0, 1) ≡ start_server a config =
                    ground (arith, asked, o, s, f) in
                  subst IsDone same (
                    failed_store (open_database ∷ (failed_start opened).0)
                      (IsBody-IsClosed _ failed).1 (λ h. ground (arith, h, f, asked, given)))
              | inl c ↦
                  let result = listen_and_run a config opened in
                  let same : (open_database ∷ result.0, result.1) ≡ start_server a config =
                    ground (arith, asked, o, s, c) in
                  subst IsDone same
                    (with_store result (o, s, c) (listen_and_run-IsEnded opened above))
            ]
          ]
        ]
      ]

-- Once the configuration is loaded and observability constructed, the process ends with telemetry shut
-- down once and the logger flushed after it, the server shut down if it served and the store closed if
-- it was opened, whatever fails; and its exit code is 0 exactly when nothing failed.
pub run_process-IsDone :
    (floats : Floats) (parsing : Parsing floats.Float) (lookup : Bytes → Option Bytes)
    (build_version : Bytes) (a : Answers) (config : Config floats.Float)
    → load floats parsing lookup build_version ≡ ok config
    → a.construct_observability ≡ none
    → IsDone a config (run_process floats parsing lookup build_version a)
unfolding run_process
run_process-IsDone floats parsing lookup build_version a config loaded observed =
    let above =
      ((load_iff floats parsing lookup build_version config).0 loaded).shutdown_timeout.1 in
    let same : start_server a config ≡ run_process floats parsing lookup build_version a =
      ground (arith, loaded, observed) in
    subst (IsDone a config) same (start_server-IsDone a config above)
