-- ===== src/Ledger/Event.antt =====
-- internal/ledger/v1/event.go: event bodies, their construction and their validation. The
-- defensive copies of slices are left out, since no value here is shared.
pub mod Structure
pub mod Construction
pub mod Constructed
pub mod Semantics
pub mod Genesis
use chain_application.Prelude.{
  ℕ, Bytes, Slice, contents, List, [], Bool, true, false, not, ◌&&◌, ◌||◌, Option, none, some,
  Result, ok, err, ◌>>=◌, ◌>>◌, fail_if, ◌==◌, ltb, length, replicate, copy, bytes_equal,
  if◌then◌else◌,
}
use chain_application.Ledger.Constants.{
  protocol_version_v1, ledger_id_bytes, digest_bytes, max_payload_bytes, max_event_body_bytes,
  event_kind_ledger_initialized, ledger_initialized_payload_version_v1,
  ledger_initialized_payload_cbor,
}
use chain_application.Ledger.Errors.{
  Sentinel, unsupported_version, schema_violation, invalid_sequence, unsupported_event, Checked,
  event_body, payload, wrap_validation_error, at_stage,
}
use chain_application.Ledger.Digests.{digest_event_body}
use chain_application.Ledger.Codec.{encode_canonical, decode_canonical_map}
use chain_application.Ledger.Wires.{EventBodyWire, Libraries, event_body_keys}

-- `bytes` is empty in the zero value alone.
pub record StructuralEvent : Type 0 where
  pub bytes : Bytes
  pub digest : Bytes
  pub ledger_id : Bytes
  pub sequence : ℕ
  pub previous_record_digest : Bytes
  pub has_previous_record_digest : Bool
  pub admitted_at_unix_ms : ℕ
  pub kind : ℕ
  pub payload_version : ℕ
  pub payload_bytes : Slice

-- The accessor `PreviousRecordDigest`, with its Boolean as an `Option`.
abbrev pub previous_digest : StructuralEvent → Option Bytes
previous_digest event =
    if event.has_previous_record_digest then some event.previous_record_digest else none

-- A slice that is not nil has the length of a digest.
abbrev pub has_digest_length : Slice → Bool
has_digest_length none = true
has_digest_length (some b) = length b == digest_bytes

unfoldable pub validate_event_body_wire : EventBodyWire → Result Sentinel (Unit {0})
validate_event_body_wire wire = do
  fail_if (not (wire.protocol_version == protocol_version_v1)) unsupported_version
  fail_if (not (length (contents wire.ledger_id) == ledger_id_bytes)) schema_violation
  fail_if (wire.sequence == 0) invalid_sequence
  fail_if (not (has_digest_length wire.previous_record_digest)) schema_violation
  fail_if (wire.event_kind == 0 || wire.payload_version == 0) schema_violation
  fail_if
      (length (contents wire.payload_bytes) == 0
        || ltb max_payload_bytes (length (contents wire.payload_bytes)))
      schema_violation

-- Both lines of `if wire.PreviousRecordDigest != nil`: the flag, and the copy into the array.
abbrev pub is_present : Slice → Bool
is_present none = false
is_present (some b) = true

abbrev pub copied : Slice → Bytes
copied none = replicate digest_bytes 0
copied (some b) = copy (replicate digest_bytes 0) b

abbrev pub new_event_wire : Bytes → ℕ → Option Bytes → ℕ → ℕ → ℕ → Slice → EventBodyWire
new_event_wire ledger_id sequence previous at_unix_ms kind version payload_bytes = record {
  protocol_version = protocol_version_v1;
  ledger_id = some ledger_id;
  sequence = sequence;
  previous_record_digest = previous;
  admitted_at_unix_ms = at_unix_ms;
  event_kind = kind;
  payload_version = version;
  payload_bytes = payload_bytes;
}

module _ (libraries : Libraries) where
  open libraries use {generic, event_body as event_codec, empty_struct, sha256}

  abbrev pub structural_event : Bytes → EventBodyWire → StructuralEvent
  structural_event encoded wire = record {
    bytes = encoded;
    digest = digest_event_body sha256 encoded;
    ledger_id = copy (replicate ledger_id_bytes 0) (contents wire.ledger_id);
    sequence = wire.sequence;
    previous_record_digest = copied wire.previous_record_digest;
    has_previous_record_digest = is_present wire.previous_record_digest;
    admitted_at_unix_ms = wire.admitted_at_unix_ms;
    kind = wire.event_kind;
    payload_version = wire.payload_version;
    payload_bytes = wire.payload_bytes;
  }

  unfoldable pub validate_event_structure : Bytes → Checked StructuralEvent
  validate_event_structure encoded = do
    wire ←
        decode_canonical_map generic event_codec encoded max_event_body_bytes event_body_keys
          event_body
    at_stage event_body (validate_event_body_wire wire)
    ok (structural_event encoded wire)

  unfoldable pub new_event : Bytes → ℕ → Option Bytes → ℕ → ℕ → ℕ → Slice → Checked StructuralEvent
  new_event ledger_id sequence previous at_unix_ms kind version payload_bytes = do
    encoded ←
        encode_canonical event_codec
          (new_event_wire ledger_id sequence previous at_unix_ms kind version payload_bytes)
          max_event_body_bytes event_body
    validate_event_structure encoded

  unfoldable pub validate_ledger_initialized_payload : Bytes → Checked (Unit {0})
  validate_ledger_initialized_payload payload_bytes = do
    decode_canonical_map generic empty_struct payload_bytes max_payload_bytes [] payload
    fail_if (not (bytes_equal payload_bytes ledger_initialized_payload_cbor))
        (wrap_validation_error payload schema_violation)

  unfoldable pub new_genesis_event : Bytes → ℕ → Checked StructuralEvent
  new_genesis_event ledger_id at_unix_ms = do
    validate_ledger_initialized_payload ledger_initialized_payload_cbor
    new_event ledger_id 1 none at_unix_ms event_kind_ledger_initialized
        ledger_initialized_payload_version_v1 (some ledger_initialized_payload_cbor)

  unfoldable pub validate_event_semantics : StructuralEvent → Checked (Unit {0})
  validate_event_semantics event = do
    fail_if (length event.bytes == 0) (wrap_validation_error event_body schema_violation)
    validated ← validate_event_structure event.bytes
    fail_if
        (not (validated.kind == event_kind_ledger_initialized)
          || not (validated.payload_version == ledger_initialized_payload_version_v1))
        (wrap_validation_error event_body unsupported_event)
    fail_if (not (validated.sequence == 1) || validated.has_previous_record_digest)
        (wrap_validation_error event_body invalid_sequence)
    validate_ledger_initialized_payload (contents validated.payload_bytes)
