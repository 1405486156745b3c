-- ===== src/Ledger/Record.antt =====
-- internal/ledger/v1/record.go: records over events, their construction and their validation.
pub mod Structure
pub mod Integrity
pub mod Construction
use chain_application.Prelude.{
  ℕ, Bytes, Slice, contents, List, [], ◌∷◌, Bool, true, false, not, ◌&&◌, ◌||◌, some, Result, ok,
  err, ◌>>=◌, ◌>>◌, fail_if, ◌==◌, ltb, leb, length, bytes_equal, if◌then◌else◌,
}
use chain_application.Ledger.Constants.{
  record_version_v1, digest_bytes, digest_algorithm_sha256, signature_algorithm_p256,
  signature_encoding_asn1_der, max_record_body_bytes, max_ledger_record_bytes, max_event_body_bytes,
  max_signer_reference_bytes, min_signature_bytes, max_signature_bytes,
}
use chain_application.Ledger.Errors.{
  Sentinel, unsupported_version, schema_violation, digest_mismatch, Checked, event_body,
  record_body, ledger_record, wrap_validation_error, at_stage,
}
use chain_application.Ledger.Digests.{digest_record_body}
use chain_application.Ledger.Codec.{encode_canonical, decode_canonical_map}
use chain_application.Ledger.Wires.{
  RecordBodyWire, LedgerRecordWire, Libraries, record_body_keys, ledger_record_keys,
}
use chain_application.Ledger.Event.{StructuralEvent, validate_event_structure}

pub record StructuralRecord : Type 0 where
  pub bytes : Bytes
  pub record_body_bytes : Slice
  pub record_digest : Bytes
  pub event : StructuralEvent
  pub signer_key_reference : Bytes
  pub signature_bytes : Slice

-- The loop over the bytes of the reference.
unfoldable pub all_printable : Bytes → Bool
all_printable [] = true
all_printable (c ∷ cs) = if ltb c 0x20 || ltb 0x7e c then false else all_printable cs

unfoldable pub validate_signer_key_reference : Bytes → Result Sentinel (Unit {0})
validate_signer_key_reference reference = do
  fail_if (length reference == 0 || ltb max_signer_reference_bytes (length reference))
      schema_violation
  fail_if (not (all_printable reference)) schema_violation

unfoldable pub is_valid_signature_length : Slice → Bool
is_valid_signature_length signature =
    leb min_signature_bytes (length (contents signature))
    && leb (length (contents signature)) max_signature_bytes

unfoldable pub validate_ledger_record_wire : LedgerRecordWire → Result Sentinel (Unit {0})
validate_ledger_record_wire wire = do
  fail_if (not (wire.record_version == record_version_v1)) unsupported_version
  fail_if
      (length (contents wire.record_body_bytes) == 0
        || ltb max_record_body_bytes (length (contents wire.record_body_bytes)))
      schema_violation
  fail_if
      (not (bytes_equal wire.record_digest_algorithm digest_algorithm_sha256)
        || not (length (contents wire.record_digest) == digest_bytes))
      schema_violation

unfoldable pub validate_record_body_wire : RecordBodyWire → Result Sentinel (Unit {0})
validate_record_body_wire wire = do
  fail_if (not (wire.record_version == record_version_v1)) unsupported_version
  fail_if
      (length (contents wire.event_body_bytes) == 0
        || ltb max_event_body_bytes (length (contents wire.event_body_bytes)))
      schema_violation
  fail_if
      (not (bytes_equal wire.event_digest_algorithm digest_algorithm_sha256)
        || not (length (contents wire.event_digest) == digest_bytes))
      schema_violation
  validate_signer_key_reference wire.signer_key_reference
  fail_if
      (not (bytes_equal wire.signature_algorithm signature_algorithm_p256)
        || not (bytes_equal wire.signature_encoding signature_encoding_asn1_der))
      schema_violation
  fail_if (not (is_valid_signature_length wire.signature_bytes)) schema_violation

-- The wire structs that `new_record` encodes.
abbrev pub new_record_body : StructuralEvent → Bytes → Slice → RecordBodyWire
new_record_body event signer_key_reference signature = record {
  record_version = record_version_v1;
  event_body_bytes = some event.bytes;
  event_digest_algorithm = digest_algorithm_sha256;
  event_digest = some event.digest;
  signer_key_reference = signer_key_reference;
  signature_algorithm = signature_algorithm_p256;
  signature_encoding = signature_encoding_asn1_der;
  signature_bytes = signature;
}

abbrev pub new_ledger_record : Bytes → Bytes → LedgerRecordWire
new_ledger_record body digest = record {
  record_version = record_version_v1;
  record_body_bytes = some body;
  record_digest_algorithm = digest_algorithm_sha256;
  record_digest = some digest;
}

abbrev pub structural_record :
    Bytes → LedgerRecordWire → RecordBodyWire → Bytes → StructuralEvent → StructuralRecord
structural_record encoded outer body digest event = record {
  bytes = encoded;
  record_body_bytes = outer.record_body_bytes;
  record_digest = digest;
  event = event;
  signer_key_reference = body.signer_key_reference;
  signature_bytes = body.signature_bytes;
}

module _ (libraries : Libraries) where
  open libraries use {generic, record_body as record_codec, ledger_record as ledger_codec, sha256}

  unfoldable pub validate_record_structure : Bytes → Checked StructuralRecord
  validate_record_structure encoded = do
    outer ←
        decode_canonical_map generic ledger_codec encoded max_ledger_record_bytes ledger_record_keys
          ledger_record
    at_stage ledger_record (validate_ledger_record_wire outer)
    body ←
        decode_canonical_map generic record_codec (contents outer.record_body_bytes)
          max_record_body_bytes record_body_keys record_body
    at_stage record_body (validate_record_body_wire body)
    fail_if (not (outer.record_version == body.record_version))
        (wrap_validation_error ledger_record schema_violation)
    let digest = digest_record_body sha256 (contents outer.record_body_bytes)
    fail_if (not (bytes_equal digest (contents outer.record_digest)))
        (wrap_validation_error ledger_record digest_mismatch)
    event ← validate_event_structure libraries (contents body.event_body_bytes)
    fail_if (not (bytes_equal event.digest (contents body.event_digest)))
        (wrap_validation_error record_body digest_mismatch)
    ok (structural_record encoded outer body digest event)

  unfoldable pub new_record : StructuralEvent → Bytes → Slice → Checked StructuralRecord
  new_record event signer_key_reference signature = do
    fail_if (length event.bytes == 0) (wrap_validation_error event_body schema_violation)
    validated_event ← validate_event_structure libraries event.bytes
    at_stage record_body (validate_signer_key_reference signer_key_reference)
    fail_if (not (is_valid_signature_length signature))
        (wrap_validation_error record_body schema_violation)
    body ←
        encode_canonical record_codec
          (new_record_body validated_event signer_key_reference signature) max_record_body_bytes
          record_body
    encoded ←
        encode_canonical ledger_codec (new_ledger_record body (digest_record_body sha256 body))
          max_ledger_record_bytes ledger_record
    validate_record_structure encoded
