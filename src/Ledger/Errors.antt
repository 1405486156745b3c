-- ===== src/Ledger/Errors.antt =====
-- internal/ledger/v1/errors.go: the sentinel errors, and the stage that wraps them.
use chain_application.Prelude.{Result, map_err}

pub data Sentinel : Type 0 where
  oversized_input malformed_cbor non_conforming_cbor unsupported_version : Sentinel
  schema_violation digest_mismatch invalid_sequence ledger_mismatch : Sentinel
  chain_link_mismatch unsupported_event : Sentinel

pub data Stage : Type 0 where
  encoding decoding event_body record_body ledger_record payload chain_consistency : Stage

-- A wrapped error: `errors.Is` sees the cause, and the text names the stage.
pub record Failure : Type 0 where
  pub stage : Stage
  pub cause : Sentinel

abbrev pub wrap_validation_error : Stage → Sentinel → Failure
wrap_validation_error s e = record { stage = s; cause = e }

abbrev pub Checked {ℓ} : Type ℓ → Type ℓ
Checked A = Result Failure A

-- `if err := check; err != nil { return wrapValidationError(stage, err) }`.
abbrev pub at_stage {ℓ} : {A : Type ℓ} → Stage → Result Sentinel A → Result Failure A
at_stage s = map_err (wrap_validation_error s)
